-- ===== src/Networkd/Values.antt =====
-- What GetInterfaces reads of values that SetIfaceAddresses writes.
use go_network_configurator.Prelude.{
  ◌≡◌, refl, ◌∙◌, ap, sym, Bool, true, false, List, [], ◌∷◌, ◌++◌, Option, none, some,
  if◌then◌else◌, Bytes, bytes_eq, All, Bool-cases, inl, inr, append_assoc, append-nil,
}
use go_network_configurator.Prelude.Exec.{ok}
use go_network_configurator.Net.{Ip, IpNet, is_nil, is_v4}
use go_network_configurator.NetTexts.{Texts}
use go_network_configurator.Networkd.{Key}
use go_network_configurator.Networkd.Report.{take_addresses, take_dns}
use go_network_configurator.Networkd.Config.{non_empty}
use go_network_configurator.Networkd.Update.{net_strings}
use go_network_configurator.Networkd.Parts.{gateway_part, gateways_of, dns_of}
use go_network_configurator.Networkd.Keys.{
  with_values, texts_in, with_values-some, with_values-none, gateway_strings,
}

-- An address whose text is read back as it was
pub record IsReadable (texts : Texts) (addr : IpNet) : Type 0 where
  pub net_lem : texts.parse_cidr (texts.net_string addr) ≡ ok addr
  pub text_present : bytes_eq (texts.net_string addr) [] ≡ false

-- A gateway of a family, if there is one, whose text is read back as it was
pub record IsGateway (texts : Texts) (v4 : Bool) (gw : Ip) : Type 0 where
  pub ip_lem : is_nil gw ≡ false → texts.parse_ip (texts.ip_string gw) ≡ gw
  pub text_present : is_nil gw ≡ false → bytes_eq (texts.ip_string gw) [] ≡ false
  pub family : is_nil gw ≡ false → is_v4 gw ≡ v4

non_empty-present : (v : Bytes) → bytes_eq v [] ≡ false → non_empty v ≡ v ∷ []
unfolding bytes_eq
non_empty-present [] h = cc
non_empty-present (c ∷ v) h = refl

nil_of : (gw : Ip) → is_nil gw ≡ true → gw ≡ []
nil_of [] h = refl
nil_of (b ∷ bs) h = cc

module _ (texts : Texts) where
  take_addresses-one :
      (a : IpNet) (vs : List Bytes) (acc : List IpNet)
      → IsReadable texts a
      → take_addresses texts (texts.net_string a ∷ vs) acc ≡ take_addresses texts vs (acc ++ a ∷ [])
  unfolding take_addresses
  take_addresses-one a vs acc h =
      ap (take_addresses texts vs) (rw h.text_present (rw h.net_lem refl))

  pub take_addresses-strings :
      (addrs acc : List IpNet)
      → All (IsReadable texts) addrs
      → take_addresses texts (texts_in (net_strings texts addrs)) acc ≡ acc ++ addrs
  unfolding take_addresses texts_in
  take_addresses-strings [] acc h = sym (append-nil acc)
  take_addresses-strings (a ∷ addrs) acc (h, hs) =
      rw (non_empty-present (texts.net_string a) h.text_present) (
        take_addresses-one a (texts_in (net_strings texts addrs)) acc h
        ∙ take_addresses-strings addrs (acc ++ a ∷ []) hs
        ∙ append_assoc acc (a ∷ []) addrs)

  take_dns-texts_in :
      (vs : List Bytes) (ips : List Ip)
      → texts.parse_ip [] ≡ []
      → take_dns texts (texts_in vs) ips ≡ take_dns texts vs ips
  unfolding take_dns texts_in
  take_dns-texts_in [] ips h = refl
  take_dns-texts_in ([] ∷ vs) ips h = rw h (take_dns-texts_in vs ips h)
  take_dns-texts_in ((c ∷ v) ∷ vs) ips h = take_dns-texts_in vs _ h

  pub dns_of-written :
      (vs : List Bytes)
      → texts.parse_ip [] ≡ []
      → dns_of texts (with_values vs none) [] ≡ take_dns texts vs []
  unfolding dns_of with_values take_dns
  dns_of-written [] h = refl
  dns_of-written (v ∷ vs) h =
      ap (λ o. dns_of texts o []) (with_values-none v vs) ∙ take_dns-texts_in (v ∷ vs) [] h

  gateway_part-append :
      (xs ys : List Bytes) (gws : Ip × Ip)
      → gateway_part texts (xs ++ ys) gws ≡ gateway_part texts ys (gateway_part texts xs gws)
  unfolding gateway_part
  gateway_part-append [] ys gws = refl
  gateway_part-append (x ∷ xs) ys gws = gateway_part-append xs ys _

  -- A gateway that is there takes the place of that of its family.
  replaced : Bool → Ip → Ip × Ip → Ip × Ip
  replaced v4 gw gws = if is_nil gw then gws else if v4 then (gw, gws.1) else (gws.0, gw)

  gateway_part-one :
      (v4 : Bool) (gw : Ip) (gws : Ip × Ip)
      → IsGateway texts v4 gw
      → is_nil gw ≡ false
      → gateway_part texts (texts_in (texts.ip_string gw ∷ [])) gws ≡ replaced v4 gw gws
  unfolding gateway_part texts_in replaced
  gateway_part-one v4 gw gws g e =
      rw (non_empty-present (texts.ip_string gw) (g.text_present e))
        (rw (g.ip_lem e) (rw e (rw (g.family e) refl)))

  gateways_of-present :
      (v4 : Bool) (gw : Ip) (o : Option Key) (gws : Ip × Ip)
      → IsGateway texts v4 gw
      → is_nil gw ≡ false
      → gateways_of texts (with_values (texts.ip_string gw ∷ []) o) gws
        ≡ replaced v4 gw (gateways_of texts o gws)
  unfolding gateways_of
  gateways_of-present v4 gw none gws g e =
      ap (λ o. gateways_of texts o gws) (with_values-none (texts.ip_string gw) [])
      ∙ gateway_part-one v4 gw gws g e
  gateways_of-present v4 gw (some key) gws g e =
      ap (λ o. gateways_of texts o gws) (with_values-some (texts.ip_string gw ∷ []) key)
      ∙ gateway_part-append key.values (texts_in (texts.ip_string gw ∷ [])) gws
      ∙ gateway_part-one v4 gw (gateway_part texts key.values gws) g e

  gateways_of-one :
      (v4 : Bool) (gw : Ip) (o : Option Key) (gws : Ip × Ip)
      → IsGateway texts v4 gw
      → gateways_of texts (with_values (gateway_strings texts gw) o) gws
        ≡ replaced v4 gw (gateways_of texts o gws)
  unfolding with_values replaced
  gateways_of-one v4 gw o gws g = elim (Bool-cases (is_nil gw)) [
    | inl e ↦ rw e refl
    | inr e ↦
        ap
          (λ (b : Bool).
            gateways_of texts (with_values (if b then [] else texts.ip_string gw ∷ []) o) gws)
          e
        ∙ gateways_of-present v4 gw o gws g e
  ]

  replaced-both :
      (gateway4 gateway6 : Ip)
      → replaced false gateway6 (replaced true gateway4 ([], [])) ≡ (gateway4, gateway6)
  unfolding replaced
  replaced-both [] [] = refl
  replaced-both [] (b ∷ bs) = refl
  replaced-both (a ∷ as_) [] = refl
  replaced-both (a ∷ as_) (b ∷ bs) = refl

  pub gateways_of-written :
      (gateway4 gateway6 : Ip)
      → IsGateway texts true gateway4
      → IsGateway texts false gateway6
      → gateways_of texts
          (with_values
            (gateway_strings texts gateway6)
            (with_values (gateway_strings texts gateway4) none))
          ([], [])
        ≡ (gateway4, gateway6)
  unfolding gateways_of
  gateways_of-written gateway4 gateway6 g4 g6 =
      gateways_of-one false gateway6 (with_values (gateway_strings texts gateway4) none) ([], []) g6
      ∙ ap (replaced false gateway6) (gateways_of-one true gateway4 none ([], []) g4)
      ∙ replaced-both gateway4 gateway6
