-- ===== src/Networkd/Assembled.antt =====
-- GetInterfaces reads the parts of a file one by one.
use go_network_configurator.Prelude.{
  ℕ, ◌≡◌, refl, ◌∙◌, ap, Bool, false, ◌||◌, List, [], ◌∷◌, Option, none, some, arith, if◌then◌else◌,
  Bytes, bytes_eq, eq_of_bytes_eq, map, Bool-cases, inl, inr, Option-cases,
}
use go_network_configurator.Iface.{Route}
use go_network_configurator.NetTexts.{Texts}
use go_network_configurator.Networkd.{
  Key, Ini, NetworkdNetwork, network, address, route, dhcp, dns, domains, gateway,
}
use go_network_configurator.Networkd.Report.{
  Keys, take_addresses, take_gateways, read_addressing, read_route, read_section, read_sections,
  report, with_dhcp, with_gateways, with_dns, with_domains,
}
use go_network_configurator.Networkd.Config.{table, contents}
use go_network_configurator.Networkd.Parts.{
  Addressing, no_addressing, assemble, dhcp_key_part, dhcp_part, route_part, gateway_part,
  gateways_of, dns_of, domains_of, key_addressing, addressing_part,
}

module _ (texts : Texts) where
  module _ (name mac : Bytes) (d : Bool × Bool) (routes : List Route) where
    take_gateways-assemble :
        (values : List Bytes) (a : Addressing)
        → take_gateways texts values (assemble name mac d routes a)
          ≡ assemble name mac d routes (record a {
            gateway4 = (gateway_part texts values (a.gateway4, a.gateway6)).0;
            gateway6 = (gateway_part texts values (a.gateway4, a.gateway6)).1;
          })
    unfolding take_gateways gateway_part
    take_gateways-assemble [] a = refl
    take_gateways-assemble (g ∷ values) a =
        let ip = texts.parse_ip g in
        ground (
          arith,
          take_gateways-assemble values a,
          take_gateways-assemble values (record a { gateway4 = ip }),
          take_gateways-assemble values (record a { gateway6 = ip }),
        )

    with_gateways-assemble :
        (o : Option Key) (a : Addressing)
        → with_gateways texts o (assemble name mac d routes a)
          ≡ assemble name mac d routes (record a {
            gateway4 = (gateways_of texts o (a.gateway4, a.gateway6)).0;
            gateway6 = (gateways_of texts o (a.gateway4, a.gateway6)).1;
          })
    unfolding gateways_of
    with_gateways-assemble none a = refl
    with_gateways-assemble (some key) a = take_gateways-assemble key.values a

    with_dns-assemble :
        (o : Option Key) (a : Addressing)
        → with_dns texts o (assemble name mac d routes a)
          ≡ assemble name mac d routes (record a { dns = dns_of texts o a.dns })
    unfolding dns_of
    with_dns-assemble none a = refl
    with_dns-assemble (some key) a = refl

    with_domains-assemble :
        (o : Option Key) (a : Addressing)
        → with_domains o (assemble name mac d routes a)
          ≡ assemble name mac d routes (record a { search_domains = domains_of o a.search_domains })
    unfolding domains_of
    with_domains-assemble none a = refl
    with_domains-assemble (some key) a = refl

    read_addressing-assemble :
        (keys : Keys) (a : Addressing)
        → read_addressing texts keys (assemble name mac d routes a)
          ≡ assemble name mac d routes (key_addressing texts (keys address) keys a)
    unfolding read_addressing key_addressing dns_of domains_of
    read_addressing-assemble keys a = elim (Option-cases (keys address)) [
      | inl e ↦ rw (e, read_addressing) refl
      | inr (key, e) ↦
          let found = record a { addresses = take_addresses texts key.values a.addresses } in
          let named = record found { dns = dns_of texts (keys dns) a.dns } in
          rw (e, read_addressing)
            (ap (λ i. with_gateways texts (keys gateway) (with_domains (keys domains) i))
                (with_dns-assemble (keys dns) found)
              ∙ ap (with_gateways texts (keys gateway)) (with_domains-assemble (keys domains) named)
              ∙ with_gateways-assemble (keys gateway)
                  (record named { search_domains = domains_of (keys domains) a.search_domains }))
    ]

with_dhcp-assemble :
    (name mac : Bytes) (d : Bool × Bool) (routes : List Route) (a : Addressing) (o : Option Key)
    → with_dhcp o (assemble name mac d routes a) ≡ assemble name mac (dhcp_key_part o d) routes a
unfolding dhcp_key_part
with_dhcp-assemble name mac d routes a none = refl
with_dhcp-assemble name mac d routes a (some key) = refl

module _ (texts : Texts) (key_int : Key → Option ℕ) (name mac : Bytes) where
  -- What one section does to the parts
  read_section-assemble :
      (n : Bytes) (keys : Keys) (d : Bool × Bool) (routes : List Route) (a : Addressing)
      → read_section texts key_int n keys (assemble name mac d routes a)
        ≡ assemble name mac
            (if bytes_eq n network then dhcp_key_part (keys dhcp) d else d)
            (if bytes_eq n route then read_route texts key_int keys routes else routes)
            (if bytes_eq n network || bytes_eq n address
              then key_addressing texts (keys address) keys a
              else a)
  unfolding read_section bytes_eq
  read_section-assemble n keys d routes a = elim (Bool-cases (bytes_eq n network)) [
    | inl e ↦ rw (eq_of_bytes_eq n network e) (
        ap (read_addressing texts keys) (with_dhcp-assemble name mac d routes a (keys dhcp))
        ∙ read_addressing-assemble texts name mac (dhcp_key_part (keys dhcp) d) routes keys a)
    | inr e ↦ elim (Bool-cases (bytes_eq n address)) [
      | inl e' ↦
          rw (eq_of_bytes_eq n address e') (read_addressing-assemble texts name mac d routes keys a)
      | inr e' ↦ elim (Bool-cases (bytes_eq n route)) [
        | inl r ↦ rw (eq_of_bytes_eq n route r) refl
        | inr r ↦ rw e (rw e' (rw r refl))
      ]
    ]
  ]

module _ {F S : Type 0} (ini : Ini F S) (texts : Texts) (name mac : Bytes) where
  read_sections-assemble :
      (f : F) (secs : List S) (d : Bool × Bool) (routes : List Route) (a : Addressing)
      → read_sections ini texts f secs (assemble name mac d routes a)
        ≡ assemble name mac
            (dhcp_part (map (table ini f) secs) d)
            (route_part texts ini.key_int (map (table ini f) secs) routes)
            (addressing_part texts (map (table ini f) secs) a)
  unfolding read_sections dhcp_part route_part addressing_part
  read_sections-assemble f [] d routes a = refl
  read_sections-assemble f (sec ∷ secs) d routes a =
      ap (read_sections ini texts f secs) (
        read_section-assemble texts ini.key_int name mac (ini.section_name sec)
          (λ k. ini.get_key sec k f) d routes a)
      ∙ read_sections-assemble f secs _ _ _

-- The report on a network, by its parts
pub report-eq-parts :
    {F S : Type 0} (ini : Ini F S) (texts : Texts) (n : NetworkdNetwork F)
    → report ini texts n
      ≡ assemble n.name n.mac
          (dhcp_part (contents ini n.config) (false, false))
          (route_part texts ini.key_int (contents ini n.config) [])
          (addressing_part texts (contents ini n.config) no_addressing)
unfolding report
report-eq-parts ini texts n =
    read_sections-assemble ini texts n.name n.mac n.config (ini.sections n.config) (false, false) []
      no_addressing
