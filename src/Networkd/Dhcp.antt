-- ===== src/Networkd/Dhcp.antt =====
-- SetIfaceDHCP of networkd.go against GetInterfaces.
use go_network_configurator.Prelude.{
  ◌≡◌, refl, ◌∙◌, ap, sym, Bool, true, false, List, [], ◌∷◌, ◌++◌, Option, none, some,
  if◌then◌else◌, Bytes, codes, bytes_eq, any, map, All, length, select,
}
use go_network_configurator.Prelude.Exec.{Result, ok, err}
use go_network_configurator.Iface.{Interface}
use go_network_configurator.NetTexts.{Texts}
use go_network_configurator.Networkd.{
  Key, Ini, NetworkdNetwork, Networkd, parse_networkd_dhcp, format_networkd_dhcp, write_dhcp,
  set_networkd_dhcp, network, address, dhcp, dns, domains, gateway,
}
use go_network_configurator.Networkd.Report.{Keys, report, get_interfaces}
use go_network_configurator.Networkd.Config.{
  Table, is_named, without, assigned, added, keys_of, table, contents, Changes, Located, IsIni,
  contents-place, contents-Changes, HasOne, HasOne-others,
}
use go_network_configurator.Networkd.Parts.{
  Addressing, dhcp_key_part, dhcp_part, route_part, key_addressing, addressing_part, no_addressing,
  assemble,
}
use go_network_configurator.Networkd.Assembled.{report-eq-parts}
use go_network_configurator.Networkd.Between.{dhcp_part-between, route_part-between}
use go_network_configurator.Networkd.Save.{Disk}
use go_network_configurator.Networkd.Update.{with_section, change_dhcp, set_iface_dhcp}
use go_network_configurator.Networkd.Named.{update_named-reports}

-- What is read of a key that holds the formatted setting
parse-format :
    (dhcp4 dhcp6 : Bool) → parse_networkd_dhcp (format_networkd_dhcp dhcp4 dhcp6).0 ≡ (dhcp4, dhcp6)
unfolding parse_networkd_dhcp format_networkd_dhcp bytes_eq
parse-format true true = refl
parse-format true false = refl
parse-format false true = refl
parse-format false false = refl

-- The keys of the section Network after the change
dhcp_keys : Bool → Bytes → Option Key → Keys → Keys
dhcp_keys false v o = without dhcp
dhcp_keys true v none = added dhcp v
dhcp_keys true v (some key) = assigned dhcp v

module _ {F S : Type 0} {ini : Ini F S} (laws : IsIni ini) (sec : S) (f : F) (before after : List S)
    (place : ini.sections f ≡ before ++ sec ∷ after) where
  write_dhcp-Changes :
      (value : Bytes) (o : Option Key)
      → Changes ini (dhcp_keys true value o) sec before after f (write_dhcp ini sec value o f).1
  unfolding write_dhcp dhcp_keys bytes_eq
  write_dhcp-Changes value none = laws.new_key_lem sec dhcp value f before after refl place
  write_dhcp-Changes value (some key) = laws.set_value_lem sec dhcp value f before after place

  set_networkd_dhcp-Changes :
      (dhcp4 dhcp6 : Bool)
      → Changes ini
          (dhcp_keys
            (format_networkd_dhcp dhcp4 dhcp6).1
            (format_networkd_dhcp dhcp4 dhcp6).0
            (ini.get_key sec dhcp f))
          sec
          before
          after
          f
          (set_networkd_dhcp ini sec dhcp4 dhcp6 f).1
  unfolding set_networkd_dhcp dhcp_keys format_networkd_dhcp
  set_networkd_dhcp-Changes true true = write_dhcp-Changes (codes "yes") (ini.get_key sec dhcp f)
  set_networkd_dhcp-Changes true false = write_dhcp-Changes (codes "ipv4") (ini.get_key sec dhcp f)
  set_networkd_dhcp-Changes false true = write_dhcp-Changes (codes "ipv6") (ini.get_key sec dhcp f)
  set_networkd_dhcp-Changes false false = laws.delete_key_lem sec dhcp f before after place

-- Other keys stay.
dhcp_keys-other :
    (keep : Bool) (v : Bytes) (o : Option Key) (keys : Keys) (j : Bytes)
    → bytes_eq j dhcp ≡ false
    → dhcp_keys keep v o keys j ≡ keys j
unfolding dhcp_keys
dhcp_keys-other false v o keys j e = rw e refl
dhcp_keys-other true v none keys j e = rw e refl
dhcp_keys-other true v (some key) keys j e = rw e refl

-- What GetInterfaces reads of the key
dhcp_keys-value :
    (v : Bytes) (o : Option Key) (keys : Keys) (d : Bool × Bool)
    → o ≡ keys dhcp
    → dhcp_key_part (dhcp_keys true v o keys dhcp) d ≡ parse_networkd_dhcp v
unfolding dhcp_keys dhcp_key_part bytes_eq
dhcp_keys-value v none keys d e = rw (← e) refl
dhcp_keys-value v (some key) keys d e = refl

no_key-setting :
    (keys : Keys)
    → dhcp_key_part (dhcp_keys false [] (keys dhcp) keys dhcp) (false, false) ≡ (false, false)
unfolding dhcp_keys dhcp_key_part bytes_eq
no_key-setting keys = refl

dhcp_keys-setting :
    (dhcp4 dhcp6 : Bool) (keys : Keys)
    → dhcp_key_part
        (dhcp_keys
          (format_networkd_dhcp dhcp4 dhcp6).1
          (format_networkd_dhcp dhcp4 dhcp6).0
          (keys dhcp)
          keys
          dhcp)
        (false, false)
      ≡ (dhcp4, dhcp6)
unfolding format_networkd_dhcp
dhcp_keys-setting true true keys =
    dhcp_keys-value (codes "yes") (keys dhcp) keys (false, false) refl ∙ parse-format true true
dhcp_keys-setting true false keys =
    dhcp_keys-value (codes "ipv4") (keys dhcp) keys (false, false) refl ∙ parse-format true false
dhcp_keys-setting false true keys =
    dhcp_keys-value (codes "ipv6") (keys dhcp) keys (false, false) refl ∙ parse-format false true
dhcp_keys-setting false false keys = no_key-setting keys

module _ (texts : Texts) where
  key_addressing-other :
      (keys keys' : Keys) (o : Option Key) (a : Addressing)
      → keys' gateway ≡ keys gateway
      → keys' dns ≡ keys dns
      → keys' domains ≡ keys domains
      → key_addressing texts o keys' a ≡ key_addressing texts o keys a
  unfolding key_addressing
  key_addressing-other keys keys' none a g d s = refl
  key_addressing-other keys keys' (some key) a g d s = rw g (rw d (rw s refl))

  addressing_part-between :
      (pre : List Table) (keys keys' : Keys) (post : List Table) (a : Addressing)
      → ((j : Bytes) → bytes_eq j dhcp ≡ false → keys' j ≡ keys j)
      → addressing_part texts (pre ++ (network, keys') ∷ post) a
        ≡ addressing_part texts (pre ++ (network, keys) ∷ post) a
  unfolding addressing_part bytes_eq
  addressing_part-between [] keys keys' post a e = ap (addressing_part texts post) (
      key_addressing-other keys keys' (keys' address) a (e gateway refl) (e dns refl)
        (e domains refl)
      ∙ ap (λ o. key_addressing texts o keys a) (e address refl))
  addressing_part-between ((name, old) ∷ pre) keys keys' post a e =
      addressing_part-between pre keys keys' post _ e

-- The setting of an interface
abbrev pub put_dhcp : Bool → Bool → Interface → Interface
put_dhcp dhcp4 dhcp6 i = record i { dhcp4 = dhcp4; dhcp6 = dhcp6 }

module _ {F S : Type 0} {ini : Ini F S} (laws : IsIni ini) (texts : Texts)
    (dhcp4 dhcp6 : Bool) where
  -- The parts of a file before and after its section Network has changed
  parts-dhcp :
      (name mac : Bytes) (pre post : List Table) (keys keys' : Keys) (ts ts' : List Table)
      → ts ≡ pre ++ (network, keys) ∷ post
      → ts' ≡ pre ++ (network, keys') ∷ post
      → any (is_named network) pre ≡ false
      → any (is_named network) post ≡ false
      → ((j : Bytes) → bytes_eq j dhcp ≡ false → keys' j ≡ keys j)
      → dhcp_key_part (keys' dhcp) (false, false) ≡ (dhcp4, dhcp6)
      → assemble name mac
          (dhcp_part ts' (false, false))
          (route_part texts ini.key_int ts' [])
          (addressing_part texts ts' no_addressing)
        ≡ put_dhcp dhcp4 dhcp6 (
            assemble name mac
              (dhcp_part ts (false, false))
              (route_part texts ini.key_int ts [])
              (addressing_part texts ts no_addressing))
  parts-dhcp name mac pre post keys keys' ts ts' e e' h k others setting = rw e (
      rw e' (
        rw (route_part-between texts ini.key_int pre keys keys' post []) (
          rw (addressing_part-between texts pre keys keys' post no_addressing others)
            (rw (dhcp_part-between pre keys' post (false, false) h k) (rw setting refl)))))

  set_section-report :
      (n : NetworkdNetwork F) (sec : S)
      → HasOne network (contents ini n.config)
      → Located ini network sec n.config
      → report ini texts
          (record n { config = (set_networkd_dhcp ini sec dhcp4 dhcp6 n.config).1; sub_files = [] })
        ≡ put_dhcp dhcp4 dhcp6 (report ini texts n)
  unfolding bytes_eq
  set_section-report n sec one l =
      let f = n.config in
      let f' = (set_networkd_dhcp ini sec dhcp4 dhcp6 f).1 in
      let pre = map (table ini f) l.before in
      let post = map (table ini f) l.after in
      let keys = keys_of ini f sec in
      let (v, keep) = format_networkd_dhcp dhcp4 dhcp6 in
      let keys' = dhcp_keys keep v (keys dhcp) keys in
      let named = λ (k : Keys) (t : Bytes). pre ++ (t, k) ∷ post in
      let old = contents-place ini f l.before sec l.after l.place ∙ ap (named keys) l.name_lem in
      let new =
        contents-Changes ini
          (set_networkd_dhcp-Changes laws sec f l.before l.after l.place dhcp4 dhcp6)
        ∙ ap (named keys') l.name_lem in
      let others =
        HasOne-others network pre (network, keys) post
          (ap (λ ts. length (select (is_named network) ts)) (sym old) ∙ one) refl in
      report-eq-parts ini texts (record n { config = f'; sub_files = [] })
      ∙ parts-dhcp n.name n.mac pre post keys keys' (contents ini f) (contents ini f') old new
          others.0 others.1 (dhcp_keys-other keep v (keys dhcp) keys)
          (dhcp_keys-setting dhcp4 dhcp6 keys)
      ∙ ap (put_dhcp dhcp4 dhcp6) (sym (report-eq-parts ini texts n))

  with_section-report :
      (n : NetworkdNetwork F) (r : Result S)
      → ini.get_section network n.config ≡ r
      → HasOne network (contents ini n.config)
      → (with_section r (λ sec. set_networkd_dhcp ini sec dhcp4 dhcp6) n.config).0 ≡ ok tt
      → report ini texts (record n {
        config = (with_section r (λ sec. set_networkd_dhcp ini sec dhcp4 dhcp6) n.config).1;
        sub_files = [];
      })
        ≡ put_dhcp dhcp4 dhcp6 (report ini texts n)
  with_section-report n (ok sec) e one h =
      set_section-report n sec one (laws.get_section_lem network n.config sec e)
  with_section-report n (err x) e one h = cc

  change_dhcp-report :
      (n : NetworkdNetwork F)
      → HasOne network (contents ini n.config)
      → (change_dhcp ini dhcp4 dhcp6 n.config).0 ≡ ok tt
      → report ini texts
          (record n { config = (change_dhcp ini dhcp4 dhcp6 n.config).1; sub_files = [] })
        ≡ put_dhcp dhcp4 dhcp6 (report ini texts n)
  unfolding change_dhcp
  change_dhcp-report n one h = with_section-report n (ini.get_section network n.config) refl one h

-- Where SetIfaceDHCP succeeds, GetInterfaces reports of every network of the name the setting that
-- was asked for, and all else, of it and of the other networks, as before, if each file of that
-- name has exactly one section Network.
pub set_iface_dhcp-get_interfaces :
    {W F S : Type 0} {ini : Ini F S} (laws : IsIni ini) (texts : Texts) (disk : Disk W F)
    (iface : Bytes) (dhcp4 dhcp6 : Bool) (nd : Networkd F) (w : W)
    → All (λ n. bytes_eq n.name iface ≡ true → HasOne network (contents ini n.config)) nd.networks
    → (set_iface_dhcp ini disk iface dhcp4 dhcp6 (nd, w)).0 ≡ ok tt
    → get_interfaces ini texts (set_iface_dhcp ini disk iface dhcp4 dhcp6 (nd, w)).1.0
      ≡ map
          (λ i. if bytes_eq i.name iface then put_dhcp dhcp4 dhcp6 i else i)
          (get_interfaces ini texts nd)
unfolding set_iface_dhcp
set_iface_dhcp-get_interfaces {ini} laws texts disk iface dhcp4 dhcp6 nd w one h =
    update_named-reports disk (change_dhcp ini dhcp4 dhcp6) ini texts iface (put_dhcp dhcp4 dhcp6)
      (λ f. HasOne network (contents ini f)) (change_dhcp-report laws texts dhcp4 dhcp6) nd w one h
