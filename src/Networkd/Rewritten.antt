-- ===== src/Networkd/Rewritten.antt =====
-- What GetInterfaces reads of the section Network that SetIfaceAddresses writes.
use go_network_configurator.Prelude.{
  ◌≡◌, ◌≢◌, refl, ◌∙◌, ap, true, false, List, [], ◌∷◌, none, Bytes, bytes_eq, All, length,
}
use go_network_configurator.Net.{Ip, IpNet}
use go_network_configurator.Linux.Dns.{joined}
use go_network_configurator.NetTexts.{Texts}
use go_network_configurator.Networkd.{address, dhcp, dns, domains, gateway}
use go_network_configurator.Networkd.Report.{Keys, take_dns}
use go_network_configurator.Networkd.Config.{without}
use go_network_configurator.Networkd.Update.{net_strings}
use go_network_configurator.Networkd.Parts.{domains_of, key_addressing, no_addressing}
use go_network_configurator.Networkd.Words.{IsWord, fields-joined}
use go_network_configurator.Networkd.Keys.{
  with_values, put_all, put_all-same, put_all-other, with_values-none, gateway_strings,
}
use go_network_configurator.Networkd.Values.{
  IsReadable, IsGateway, take_addresses-strings, dns_of-written, gateways_of-written,
}

module _ (texts : Texts) where
  -- The keys that SetIfaceAddresses leaves in the section Network
  unfoldable pub rewritten : List IpNet → Ip → Ip → List Bytes → List Bytes → Keys → Keys
  rewritten addrs gateway4 gateway6 servers names keys = put_all domains (joined names ∷ []) (
      put_all dns servers (
        put_all gateway (gateway_strings texts gateway6) (
          put_all gateway (gateway_strings texts gateway4) (
            put_all address (net_strings texts addrs)
              (without domains (without dns (without gateway (without address keys))))))))

  module _ (addrs : List IpNet) (gateway4 gateway6 : Ip) (servers names : List Bytes)
      (keys : Keys) where
    abbrev written : Keys
    written = rewritten addrs gateway4 gateway6 servers names keys

    rewritten-address : written address ≡ with_values (net_strings texts addrs) none
    unfolding rewritten bytes_eq
    rewritten-address =
        put_all-other address domains _ _ refl
        ∙ put_all-other address dns _ _ refl
        ∙ put_all-other address gateway _ _ refl
        ∙ put_all-other address gateway _ _ refl
        ∙ put_all-same address _ _

    rewritten-gateway :
        written gateway
        ≡ with_values
            (gateway_strings texts gateway6)
            (with_values (gateway_strings texts gateway4) none)
    unfolding rewritten bytes_eq
    rewritten-gateway =
        put_all-other gateway domains _ _ refl
        ∙ put_all-other gateway dns _ _ refl
        ∙ put_all-same gateway _ _
        ∙ ap (with_values (gateway_strings texts gateway6)) (
            put_all-same gateway _ _
            ∙ ap (with_values (gateway_strings texts gateway4))
                (put_all-other gateway address _ _ refl))

    rewritten-dns : written dns ≡ with_values servers none
    unfolding rewritten bytes_eq
    rewritten-dns =
        put_all-other dns domains _ _ refl
        ∙ put_all-same dns _ _
        ∙ ap (with_values servers) (
            put_all-other dns gateway _ _ refl
            ∙ put_all-other dns gateway _ _ refl
            ∙ put_all-other dns address _ _ refl)

    rewritten-domains : written domains ≡ with_values (joined names ∷ []) none
    unfolding rewritten bytes_eq
    rewritten-domains =
        put_all-same domains _ _
        ∙ ap (with_values (joined names ∷ [])) (
            put_all-other domains dns _ _ refl
            ∙ put_all-other domains gateway _ _ refl
            ∙ put_all-other domains gateway _ _ refl
            ∙ put_all-other domains address _ _ refl)

    pub rewritten-dhcp : rewritten addrs gateway4 gateway6 servers names keys dhcp ≡ keys dhcp
    unfolding rewritten bytes_eq
    rewritten-dhcp =
        put_all-other dhcp domains _ _ refl
        ∙ put_all-other dhcp dns _ _ refl
        ∙ put_all-other dhcp gateway _ _ refl
        ∙ put_all-other dhcp gateway _ _ refl
        ∙ put_all-other dhcp address _ _ refl

  -- What is read of these keys
  pub key_addressing-rewritten :
      (addrs : List IpNet) (gateway4 gateway6 : Ip) (servers names : List Bytes) (keys : Keys)
      → All (IsReadable texts) addrs
      → length addrs ≢ 0
      → IsGateway texts true gateway4
      → IsGateway texts false gateway6
      → texts.parse_ip [] ≡ []
      → All IsWord names
      → (let keys' = rewritten addrs gateway4 gateway6 servers names keys in
          key_addressing texts (keys' address) keys' no_addressing)
        ≡ record {
          addresses = addrs;
          gateway4 = gateway4;
          gateway6 = gateway6;
          dns = take_dns texts servers [];
          search_domains = names;
        }
  unfolding key_addressing domains_of
  key_addressing-rewritten [] gateway4 gateway6 servers names keys ra ne g4 g6 pn ws =
      absurd (ne refl)
  key_addressing-rewritten (addr ∷ addrs) gateway4 gateway6 servers names keys ra ne g4 g6 pn ws =
      rw (rewritten-address (addr ∷ addrs) gateway4 gateway6 servers names keys) (
        rw (with_values-none (texts.net_string addr) (net_strings texts addrs)) (
          rw (take_addresses-strings texts (addr ∷ addrs) [] ra) (
            rw (rewritten-gateway (addr ∷ addrs) gateway4 gateway6 servers names keys) (
              rw (gateways_of-written texts gateway4 gateway6 g4 g6) (
                rw (rewritten-dns (addr ∷ addrs) gateway4 gateway6 servers names keys) (
                  rw (dns_of-written texts servers pn) (
                    rw (rewritten-domains (addr ∷ addrs) gateway4 gateway6 servers names keys) (
                      rw (with_values-none (joined names) [])
                        (rw (fields-joined names ws) refl)))))))))
