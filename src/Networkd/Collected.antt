-- ===== src/Networkd/Collected.antt =====
-- The DNS servers and search domains that SetIfaceAddresses of networkd.go collects.
use go_network_configurator.Prelude.{
  ◌≡◌, refl, ◌∙◌, ap, sym, Bool, true, false, not, ◌||◌, List, [], ◌∷◌, ◌++◌, Option, none, some,
  arith, if◌then◌else◌, Bytes, all, map, All, All-append, Bool-cases, inl, inr, append_assoc,
  append-nil,
}
use go_network_configurator.Net.{Ip}
use go_network_configurator.NetTexts.{Texts}
use go_network_configurator.Networkd.{Key, Ini, address, dns, domains}
use go_network_configurator.Networkd.Report.{Keys, take_dns}
use go_network_configurator.Networkd.Config.{Table, keys_of, table}
use go_network_configurator.Networkd.Parts.{
  Addressing, dns_of, domains_of, key_addressing, addressing_part,
}
use go_network_configurator.Networkd.Update.{
  key_values, key_fields, is_addressing, collect_dns, collect_domains,
}
use go_network_configurator.Networkd.Words.{IsWord, fields-words}

abbrev pub is_some : Option Key → Bool
is_some none = false
is_some (some key) = true

-- Every section Network or Address has the key Address.
abbrev pub IsAddressed : List Table → Type 0
IsAddressed ts = all (λ t. not (is_addressing t.0) || is_some (t.1 address)) ts ≡ true

domains_of-fields : (o : Option Key) (ds : List Bytes) → domains_of o ds ≡ ds ++ key_fields o
unfolding domains_of
domains_of-fields none ds = sym (append-nil ds)
domains_of-fields (some key) ds = refl

key_fields-words : (o : Option Key) → All IsWord (key_fields o)
key_fields-words none = tt
key_fields-words (some key) = fields-words key.value

module _ (texts : Texts) where
  take_dns-append :
      (xs ys : List Bytes) (ips : List Ip)
      → take_dns texts (xs ++ ys) ips ≡ take_dns texts ys (take_dns texts xs ips)
  unfolding take_dns
  take_dns-append [] ys ips = refl
  take_dns-append (x ∷ xs) ys ips = take_dns-append xs ys _

  dns_of-values :
      (o : Option Key) (ips : List Ip) → dns_of texts o ips ≡ take_dns texts (key_values o) ips
  unfolding dns_of take_dns
  dns_of-values none ips = refl
  dns_of-values (some key) ips = refl

  key_addressing-dns :
      (o : Option Key) (keys : Keys) (a : Addressing)
      → is_some o ≡ true
      → ((key_addressing texts o keys a).dns ≡ take_dns texts (key_values (keys dns)) a.dns)
        × ((key_addressing texts o keys a).search_domains
            ≡ a.search_domains ++ key_fields (keys domains))
  unfolding key_addressing
  key_addressing-dns none keys a h = cc
  key_addressing-dns (some key) keys a h =
      (dns_of-values (keys dns) a.dns, domains_of-fields (keys domains) a.search_domains)

  -- One section, before what the further ones give
  collected-one :
      (b : Bool) (o : Option Key) (keys : Keys) (a : Addressing) (servers names : List Bytes)
      → not b || is_some o ≡ true
      → (take_dns texts servers (if b then key_addressing texts o keys a else a).dns
          ≡ take_dns texts (if b then key_values (keys dns) ++ servers else servers) a.dns)
        × ((if b then key_addressing texts o keys a else a).search_domains ++ names
            ≡ a.search_domains ++ (if b then key_fields (keys domains) ++ names else names))
  collected-one true o keys a servers names h =
      let (here, here_domains) = key_addressing-dns o keys a h in
      (
        ap (take_dns texts servers) here
            ∙ sym (take_dns-append (key_values (keys dns)) servers a.dns),
        ap (λ ds. ds ++ names) here_domains
            ∙ append_assoc a.search_domains (key_fields (keys domains)) names,
      )
  collected-one false o keys a servers names h = (refl, refl)

  module _ {F S : Type 0} (ini : Ini F S) (f : F) where
    pub collect_domains-words : (secs : List S) → All IsWord (collect_domains ini f secs)
    unfolding collect_domains
    collect_domains-words [] = tt
    collect_domains-words (sec ∷ secs) = elim (Bool-cases (is_addressing (ini.section_name sec))) [
      | inl e ↦ rw e (
          All-append IsWord (key_fields (ini.get_key sec domains f)) (collect_domains ini f secs)
            (key_fields-words (ini.get_key sec domains f)) (collect_domains-words secs))
      | inr e ↦ rw e (collect_domains-words secs)
    ]

    -- What GetInterfaces reports is what SetIfaceAddresses collects.
    pub collected :
        (secs : List S) (a : Addressing)
        → IsAddressed (map (table ini f) secs)
        → ((addressing_part texts (map (table ini f) secs) a).dns
            ≡ take_dns texts (collect_dns ini f secs) a.dns)
          × ((addressing_part texts (map (table ini f) secs) a).search_domains
              ≡ a.search_domains ++ collect_domains ini f secs)
    unfolding addressing_part collect_dns collect_domains take_dns
    collected [] a h = (refl, sym (append-nil a.search_domains))
    collected (sec ∷ secs) a h =
        let b = is_addressing (ini.section_name sec) in
        let keys = keys_of ini f sec in
        let now = if b then key_addressing texts (keys address) keys a else a in
        let (here, here_domains) =
          collected-one b (keys address) keys a (collect_dns ini f secs)
            (collect_domains ini f secs) (ground (arith, h)) in
        let (there, there_domains) = collected secs now (ground (arith, h)) in
        (there ∙ here, there_domains ∙ here_domains)
