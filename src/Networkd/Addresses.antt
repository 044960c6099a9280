-- ===== src/Networkd/Addresses.antt =====
-- SetIfaceAddresses of networkd.go against GetInterfaces.
use go_network_configurator.Prelude.{
  ◌≡◌, ◌≢◌, refl, ◌∙◌, ap, sym, true, false, List, [], ◌∷◌, ◌++◌, if◌then◌else◌, Bytes, bytes_eq,
  any, map, All, length, select,
}
use go_network_configurator.Prelude.Exec.{Result, ok, err, finish}
use go_network_configurator.Net.{Ip, IpNet}
use go_network_configurator.Iface.{Interface}
use go_network_configurator.Linux.Dns.{joined}
use go_network_configurator.NetTexts.{Texts}
use go_network_configurator.Networkd.{
  Ini, NetworkdNetwork, Networkd, network, address, dns, domains, gateway,
}
use go_network_configurator.Networkd.Report.{Keys, take_dns, report, get_interfaces}
use go_network_configurator.Networkd.Config.{
  Table, is_named, keys_of, table, contents, Changes, Changes-trans, Located, IsIni, contents-place,
  contents-Changes, HasOne, HasOne-others,
}
use go_network_configurator.Networkd.Parts.{
  dhcp_key_part, dhcp_part, route_part, addressing_part, no_addressing,
}
use go_network_configurator.Networkd.Assembled.{report-eq-parts}
use go_network_configurator.Networkd.Save.{Disk}
use go_network_configurator.Networkd.Update.{
  collect_dns, collect_domains, net_strings, rewrite_addresses, change_addresses,
  set_iface_addresses, with_section,
}
use go_network_configurator.Networkd.Named.{update_named-reports}
use go_network_configurator.Networkd.Words.{IsWord}
use go_network_configurator.Networkd.Keys.{put_keys-Changes, put_gateway-Changes}
use go_network_configurator.Networkd.Between.{
  no_address, no_address-dhcp, no_address-routes, no_address-network, no_address-any, any-between,
  addressing_part-single, dhcp_part-between, route_part-between,
}
use go_network_configurator.Networkd.Values.{IsReadable, IsGateway}
use go_network_configurator.Networkd.Rewritten.{rewritten, rewritten-dhcp, key_addressing-rewritten}
use go_network_configurator.Networkd.Collected.{IsAddressed, collect_domains-words, collected}

-- The addresses and the gateways of an interface
abbrev pub put_addresses : List IpNet → Ip → Ip → Interface → Interface
put_addresses addrs gateway4 gateway6 i = record i {
  addresses = addrs;
  gateway4 = gateway4;
  gateway6 = gateway6;
}

module _ {F S : Type 0} {ini : Ini F S} (laws : IsIni ini) (texts : Texts) (addrs : List IpNet)
    (gateway4 gateway6 : Ip) where
  rewrite_addresses-Changes :
      (servers names : List Bytes) (sec : S) (before after : List S) (f : F)
      → ini.sections f ≡ before ++ sec ∷ after
      → Changes ini
          (rewritten texts addrs gateway4 gateway6 servers names)
          sec
          before
          after
          f
          (rewrite_addresses ini texts addrs gateway4 gateway6 servers names sec f)
  unfolding rewrite_addresses rewritten bytes_eq
  rewrite_addresses-Changes servers names sec before after f place =
      let c1 = laws.delete_key_lem sec address f before after place in
      let c2 = Changes-trans c1 (laws.delete_key_lem sec gateway _ before after c1.in_place) in
      let c3 = Changes-trans c2 (laws.delete_key_lem sec dns _ before after c2.in_place) in
      let c4 = Changes-trans c3 (laws.delete_key_lem sec domains _ before after c3.in_place) in
      let put = put_keys-Changes laws sec before after in
      let gate = put_gateway-Changes laws sec before after texts in
      let c5 = Changes-trans c4 (put address (net_strings texts addrs) _ refl c4.in_place) in
      let c6 = Changes-trans c5 (gate gateway4 _ c5.in_place) in
      let c7 = Changes-trans c6 (gate gateway6 _ c6.in_place) in
      let c8 = Changes-trans c7 (put dns servers _ refl c7.in_place) in
      Changes-trans c8 (put domains (joined names ∷ []) _ refl c8.in_place)

  module _ (readable : All (IsReadable texts) addrs) (some_addr : length addrs ≢ 0)
      (readable4 : IsGateway texts true gateway4) (readable6 : IsGateway texts false gateway6)
      (no_ip : texts.parse_ip [] ≡ []) where
    -- The parts of the new file, by those of the old one
    parts-addresses :
        (ts ts' : List Table) (pre post : List Table) (keys : Keys) (servers names : List Bytes)
        → HasOne network ts
        → no_address ts ≡ pre ++ (network, keys) ∷ post
        → ts' ≡ pre ++ (network, rewritten texts addrs gateway4 gateway6 servers names keys) ∷ post
        → All IsWord names
        → (dhcp_part ts' (false, false) ≡ dhcp_part ts (false, false))
          × (route_part texts ini.key_int ts' [] ≡ route_part texts ini.key_int ts [])
          × (addressing_part texts ts' no_addressing ≡ record {
            addresses = addrs;
            gateway4 = gateway4;
            gateway6 = gateway6;
            dns = take_dns texts servers [];
            search_domains = names;
          })
    unfolding bytes_eq
    parts-addresses ts ts' pre post keys servers names one old new words =
        let keys' = rewritten texts addrs gateway4 gateway6 servers names keys in
        let single =
          ap length (ap (select (is_named network)) (sym old) ∙ no_address-network ts) ∙ one in
        let (pre_n, post_n) = HasOne-others network pre (network, keys) post single refl in
        let (pre_a, post_a) =
          any-between (is_named address) pre (network, keys) post
            (ap (any (is_named address)) (sym old) ∙ no_address-any ts) in
        (
          ap (λ l. dhcp_part l (false, false)) new
              ∙ dhcp_part-between pre keys' post (false, false) pre_n post_n
              ∙ ap (λ o. dhcp_key_part o (false, false))
                  (rewritten-dhcp texts addrs gateway4 gateway6 servers names keys)
              ∙ sym (dhcp_part-between pre keys post (false, false) pre_n post_n)
              ∙ ap (λ l. dhcp_part l (false, false)) (sym old)
              ∙ no_address-dhcp ts (false, false),
          ap (λ l. route_part texts ini.key_int l []) new
              ∙ route_part-between texts ini.key_int pre keys keys' post []
              ∙ ap (λ l. route_part texts ini.key_int l []) (sym old)
              ∙ no_address-routes texts ini.key_int ts [],
          ap (λ l. addressing_part texts l no_addressing) new
              ∙ addressing_part-single texts pre keys' post no_addressing pre_n post_n pre_a post_a
              ∙ key_addressing-rewritten texts addrs gateway4 gateway6 servers names keys readable
                  some_addr readable4 readable6 no_ip words,
        )

    rewritten-report :
        (n : NetworkdNetwork F) (sec : S) (f' : F)
        → HasOne network (contents ini n.config)
        → IsAddressed (contents ini n.config)
        → (let f1 = ini.delete_section address n.config in
            Located ini network sec f1
            → f'
              ≡ rewrite_addresses ini texts addrs gateway4 gateway6
                  (collect_dns ini n.config (ini.sections n.config))
                  (collect_domains ini n.config (ini.sections n.config))
                  sec
                  f1
            → report ini texts (record n { config = f'; sub_files = [] })
              ≡ put_addresses addrs gateway4 gateway6 (report ini texts n))
    rewritten-report n sec f' one addressed l e =
        let f = n.config in
        let secs = ini.sections f in
        let f1 = ini.delete_section address f in
        let servers = collect_dns ini f secs in
        let names = collect_domains ini f secs in
        let pre = map (table ini f1) l.before in
        let post = map (table ini f1) l.after in
        let keys = keys_of ini f1 sec in
        let old =
          sym (laws.delete_section_lem address f)
          ∙ contents-place ini f1 l.before sec l.after l.place
          ∙ ap (λ t. pre ++ (t, keys) ∷ post) l.name_lem in
        let new =
          ap (contents ini) e
          ∙ contents-Changes ini
              (rewrite_addresses-Changes servers names sec l.before l.after f1 l.place)
          ∙ ap (λ t. pre ++ (t, rewritten texts addrs gateway4 gateway6 servers names keys) ∷ post)
              l.name_lem in
        let (d, r, a) =
          parts-addresses (contents ini f) (contents ini f') pre post keys servers names one old new
            (collect_domains-words texts ini f secs) in
        let (was_dns, was_domains) = collected texts ini f secs no_addressing addressed in
        report-eq-parts ini texts (record n { config = f'; sub_files = [] })
        ∙ rw d (rw r (rw a (rw (← was_dns) (rw (← was_domains) refl))))
        ∙ ap (put_addresses addrs gateway4 gateway6) (sym (report-eq-parts ini texts n))

    with_section-report :
        (n : NetworkdNetwork F) (r : Result S)
        → ini.get_section network (ini.delete_section address n.config) ≡ r
        → HasOne network (contents ini n.config)
        → IsAddressed (contents ini n.config)
        → (let servers = collect_dns ini n.config (ini.sections n.config) in
            let names = collect_domains ini n.config (ini.sections n.config) in
            let body = λ (sec : S).
              finish (rewrite_addresses ini texts addrs gateway4 gateway6 servers names sec) in
            let f1 = ini.delete_section address n.config in
            (with_section r body f1).0 ≡ ok tt
            → report ini texts (record n { config = (with_section r body f1).1; sub_files = [] })
              ≡ put_addresses addrs gateway4 gateway6 (report ini texts n))
    with_section-report n (ok sec) e one addressed h =
        let f1 = ini.delete_section address n.config in
        rewritten-report n sec _ one addressed (laws.get_section_lem network f1 sec e) refl
    with_section-report n (err x) e one addressed h = cc

    change_addresses-report :
        (n : NetworkdNetwork F)
        → HasOne network (contents ini n.config) × IsAddressed (contents ini n.config)
        → (change_addresses ini texts addrs gateway4 gateway6 n.config).0 ≡ ok tt
        → report ini texts (record n {
          config = (change_addresses ini texts addrs gateway4 gateway6 n.config).1;
          sub_files = [];
        })
          ≡ put_addresses addrs gateway4 gateway6 (report ini texts n)
    unfolding change_addresses
    change_addresses-report n (one, addressed) h =
        with_section-report n (ini.get_section network (ini.delete_section address n.config)) refl
          one addressed h

-- Where SetIfaceAddresses succeeds with one address or more, GetInterfaces reports of every network
-- of the name these addresses in their order and these gateways, and all else, the DNS servers, the
-- search domains, the routes and the DHCP setting of it and everything of the other networks, as
-- before: if the texts of the addresses and gateways can be read back, and if each file of that
-- name has exactly one section Network and the key Address in every section Network or Address.
pub set_iface_addresses-get_interfaces :
    {W F S : Type 0} {ini : Ini F S} (laws : IsIni ini) (texts : Texts) (disk : Disk W F)
    (iface : Bytes) (addrs : List IpNet) (gateway4 gateway6 : Ip) (nd : Networkd F) (w : W)
    → All (IsReadable texts) addrs
    → length addrs ≢ 0
    → IsGateway texts true gateway4
    → IsGateway texts false gateway6
    → texts.parse_ip [] ≡ []
    → All
        (λ n.
          bytes_eq n.name iface ≡ true
          → HasOne network (contents ini n.config) × IsAddressed (contents ini n.config))
        nd.networks
    → (set_iface_addresses ini texts disk iface addrs gateway4 gateway6 (nd, w)).0 ≡ ok tt
    → get_interfaces ini texts
        (set_iface_addresses ini texts disk iface addrs gateway4 gateway6 (nd, w)).1.0
      ≡ map
          (λ i. if bytes_eq i.name iface then put_addresses addrs gateway4 gateway6 i else i)
          (get_interfaces ini texts nd)
unfolding set_iface_addresses
set_iface_addresses-get_interfaces {ini} laws texts disk iface addrs gateway4 gateway6 nd w readable
      some_addr readable4 readable6 no_ip fit h =
    update_named-reports disk (change_addresses ini texts addrs gateway4 gateway6) ini texts iface
      (put_addresses addrs gateway4 gateway6)
      (λ f. HasOne network (contents ini f) × IsAddressed (contents ini f))
      (change_addresses-report laws texts addrs gateway4 gateway6 readable some_addr readable4
        readable6 no_ip)
      nd w fit h
