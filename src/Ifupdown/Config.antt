-- ===== src/Ifupdown/Config.antt =====
-- The DNS stanzas of an interface of ifupdown.go, written and read again.
use go_network_configurator.Prelude.{
  ◌≡◌, refl, ◌∙◌, ap, sym, Bool, true, false, ◌||◌, List, [], ◌∷◌, ◌++◌, All, Bool-cases, inl, inr,
  if◌then◌else◌, Bytes, bytes_eq, bytes_eq_refl, select, append-nil,
}
use go_network_configurator.Net.{Ip, is_nil, non_nil}
use go_network_configurator.NetTexts.{Texts}
use go_network_configurator.InitState.{fields}
use go_network_configurator.Networkd.Words.{IsWord, fields-joined}
use go_network_configurator.Linux.Dns.{ip_strings, joined}
use go_network_configurator.Ifupdown.{IfInterface}
use go_network_configurator.Ifupdown.Write.{config_values, has_key}
use go_network_configurator.Ifupdown.Report.{all_fields, parse_servers, all_servers}
use go_network_configurator.Ifupdown.Update.{
  dns_nameservers, dns_search, delete_config, put_config, with_dns,
}

abbrev Config : Type 0
Config = List (Bytes × List Bytes)

or-false : (a b : Bool) → a || b ≡ false → (a ≡ false) × (b ≡ false)
or-false true b h = cc
or-false false b h = (refl, h)

module _ (key : Bytes) where
  has_key-delete : (config : Config) → has_key key (delete_config key config) ≡ false
  unfolding has_key delete_config
  has_key-delete [] = refl
  has_key-delete ((k, values) ∷ config) = elim (Bool-cases (bytes_eq k key)) [
    | inl e ↦ rw e (has_key-delete config)
    | inr e ↦ rw e (rw e (has_key-delete config))
  ]

  has_key-delete-other :
      (other : Bytes) (config : Config)
      → has_key key config ≡ false
      → has_key key (delete_config other config) ≡ false
  unfolding has_key delete_config
  has_key-delete-other other [] h = refl
  has_key-delete-other other ((k, values) ∷ config) h = elim (Bool-cases (bytes_eq k other)) [
    | inl e ↦ rw e (has_key-delete-other other config (or-false (bytes_eq k key) _ h).1)
    | inr e ↦
        let (absent, later) = or-false (bytes_eq k key) _ h in
        rw e (rw absent (has_key-delete-other other config later))
  ]

  has_key-put :
      (other : Bytes) (texts : List Bytes) (config : Config)
      → bytes_eq other key ≡ false
      → has_key key config ≡ false
      → has_key key (put_config other texts config) ≡ false
  unfolding has_key
  has_key-put other [] config e h = h
  has_key-put other (t ∷ ts) [] e h = rw e refl
  has_key-put other (t ∷ ts) ((k, values) ∷ config) e h =
      let (absent, later) = or-false (bytes_eq k key) _ h in
      rw absent (has_key-put other (t ∷ ts) config e later)

  values-put-other :
      (other : Bytes) (texts : List Bytes) (config : Config)
      → bytes_eq other key ≡ false
      → config_values key (put_config other texts config) ≡ config_values key config
  unfolding config_values
  values-put-other other [] config e = refl
  values-put-other other (t ∷ ts) [] e = rw e refl
  values-put-other other (t ∷ ts) ((k, values) ∷ config) e =
      ap (λ rest. if bytes_eq k key then values else rest)
        (values-put-other other (t ∷ ts) config e)

  -- The words that are put are those that are read.
  fields-put :
      (words : List Bytes) (config : Config)
      → has_key key config ≡ false
      → All IsWord words
      → all_fields (config_values key (put_config key words config)) ≡ words
  unfolding has_key config_values all_fields
  fields-put [] [] h k = refl
  fields-put (t ∷ ts) [] h k =
      rw (bytes_eq_refl key) (append-nil (fields (joined (t ∷ ts))) ∙ fields-joined (t ∷ ts) k)
  fields-put [] ((k', values) ∷ config) h k =
      let (absent, later) = or-false (bytes_eq k' key) _ h in
      rw absent (fields-put [] config later k)
  fields-put (t ∷ ts) ((k', values) ∷ config) h k =
      let (absent, later) = or-false (bytes_eq k' key) _ h in
      rw absent (fields-put (t ∷ ts) config later k)

-- The text of a server is a word, and it is read as the server.
abbrev pub Readable : Texts → Ip → Type 0
Readable texts ip =
    non_nil ip ≡ true → IsWord (texts.ip_string ip) × (texts.parse_ip (texts.ip_string ip) ≡ ip)

module _ (texts : Texts) where
  ip_strings-words :
      (servers : List Ip)
      → All (Readable texts) servers
      → All IsWord (ip_strings texts.ip_string servers)
  unfolding ip_strings
  ip_strings-words [] h = tt
  ip_strings-words ([] ∷ servers) (h, hs) = ip_strings-words servers hs
  ip_strings-words ((b ∷ bs) ∷ servers) (h, hs) = ((h refl).0, ip_strings-words servers hs)

  parse_servers-ip_strings :
      (servers : List Ip)
      → All (Readable texts) servers
      → parse_servers texts (ip_strings texts.ip_string servers) ≡ select non_nil servers
  unfolding ip_strings parse_servers
  parse_servers-ip_strings [] h = refl
  parse_servers-ip_strings ([] ∷ servers) (h, hs) = parse_servers-ip_strings servers hs
  parse_servers-ip_strings ((b ∷ bs) ∷ servers) (h, hs) =
      rw ((h refl).1) (ap (λ ips. (b ∷ bs) ∷ ips) (parse_servers-ip_strings servers hs))

  parse_servers-append :
      (xs ys : List Bytes)
      → parse_servers texts (xs ++ ys) ≡ parse_servers texts xs ++ parse_servers texts ys
  unfolding parse_servers
  parse_servers-append [] ys = refl
  parse_servers-append (x ∷ xs) ys = elim (Bool-cases (is_nil (texts.parse_ip x))) [
    | inl e ↦ rw e (parse_servers-append xs ys)
    | inr e ↦ rw e (ap (λ ips. texts.parse_ip x ∷ ips) (parse_servers-append xs ys))
  ]

  all_servers-fields :
      (values : List Bytes) → all_servers texts values ≡ parse_servers texts (all_fields values)
  unfolding all_servers all_fields parse_servers
  all_servers-fields [] = refl
  all_servers-fields (value ∷ values) =
      ap (λ ips. parse_servers texts (fields value) ++ ips) (all_servers-fields values)
      ∙ sym (parse_servers-append (fields value) (all_fields values))

  module _ (i : IfInterface) (servers : List Ip) (domains : List Bytes) where
    abbrev written : IfInterface
    written = with_dns (ip_strings texts.ip_string servers) domains i

    pub servers-with_dns :
        All (Readable texts) servers
        → all_servers texts (config_values dns_nameservers written.config) ≡ select non_nil servers
    unfolding with_dns bytes_eq
    servers-with_dns h =
        all_servers-fields _
        ∙ ap (λ values. parse_servers texts (all_fields values))
            (values-put-other dns_nameservers dns_search domains _ refl)
        ∙ ap (parse_servers texts) (
            fields-put dns_nameservers (ip_strings texts.ip_string servers) _
              (has_key-delete-other dns_nameservers dns_search _
                (has_key-delete dns_nameservers i.config))
              (ip_strings-words servers h))
        ∙ parse_servers-ip_strings servers h

    pub search-with_dns :
        All IsWord domains → all_fields (config_values dns_search written.config) ≡ domains
    unfolding with_dns bytes_eq
    search-with_dns k =
        fields-put dns_search domains _
          (has_key-put dns_search dns_nameservers (ip_strings texts.ip_string servers) _ refl
            (has_key-delete dns_search (delete_config dns_nameservers i.config)))
          k
