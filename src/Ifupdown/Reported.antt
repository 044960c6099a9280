-- ===== src/Ifupdown/Reported.antt =====
-- SetIfaceDHCP and SetIfaceDNS of ifupdown.go against its GetInterfaces.
use go_network_configurator.Prelude.{
  ◌≡◌, refl, ◌∙◌, ap, sym, Bool, true, false, ◌||◌, List, [], ◌∷◌, map, All, All-intro, Bool-cases,
  inl, inr, if◌then◌else◌, Bytes, bytes_eq, select,
}
use go_network_configurator.Prelude.Exec.{Exec, Result, ok, err, ok-inj}
use go_network_configurator.Net.{Ip, non_nil}
use go_network_configurator.Iface.{Interface}
use go_network_configurator.NetTexts.{Texts}
use go_network_configurator.Networkd.Words.{IsWord}
use go_network_configurator.Linux.Dns.{ip_strings}
use go_network_configurator.Ifupdown.{IfInterface, IfUpDown, dhcp_state, set_dhcp, ensure_interface}
use go_network_configurator.Ifupdown.Added.{
  or_added, report-ensure_interface, IsConsistent-ensure_interface,
}
use go_network_configurator.Ifupdown.Dhcp.{IsConsistent, set_dhcp_succeeded}
use go_network_configurator.Ifupdown.Config.{Readable, servers-with_dns, search-with_dns}
use go_network_configurator.Ifupdown.Report.{report, get_interfaces}
use go_network_configurator.Ifupdown.Save.{Disk}
use go_network_configurator.Ifupdown.Update.{
  at_ensured, check_static, checked, cleared, if_static, without_static, with_dns, change_dhcp,
  saved_change, change_and_save, set_iface_dhcp, set_iface_dns,
}

-- A change of the first interface of a name
abbrev pub put_first : Bytes → (Interface → Interface) → List Interface → List Interface
put_first name put [] = []
put_first name put (i ∷ is_) =
    let rest = put_first name put is_ in if bytes_eq i.name name then put i ∷ is_ else i ∷ rest

module _ {W : Type 0} (texts : Texts) (links : List (Bytes × Bytes)) (name : Bytes)
    (body : Exec (IfInterface × W) (Unit {0})) (put : Interface → Interface)
    (Fits : IfInterface → Type 0)
    (step : (i : IfInterface) (w : W)
      → Fits i
      → (body (i, w)).0 ≡ ok tt
      → report texts links (body (i, w)).1.0 ≡ put (report texts links i)) where
  -- A body that succeeds has changed what is reported of the first interface of the name.
  at_ensured-reports :
      (interfaces : List IfInterface) (w : W)
      → All Fits interfaces
      → (at_ensured body name interfaces w).0 ≡ ok tt
      → map (report texts links) (at_ensured body name interfaces w).1
        ≡ put_first name put (map (report texts links) interfaces)
  unfolding at_ensured report
  at_ensured-reports [] w fit h = refl
  at_ensured-reports (i ∷ interfaces) w (fits, fit) h = elim (Bool-cases (bytes_eq i.name name)) [
    | inl e ↦ rw e (ap (λ x. x ∷ map (report texts links) interfaces) (step i w fits (rw e at h)))
    | inr e ↦
        rw e
          (ap (λ is_. report texts links i ∷ is_) (at_ensured-reports interfaces w fit (rw e at h)))
  ]

-- A change that is saved
saved_change-ok :
    {W : Type 0} (disk : Disk W) (texts : Texts) (up : IfUpDown) (r : Result IfInterface)
    (i : IfInterface) (w : W)
    → (saved_change disk texts up r (i, w)).0 ≡ ok tt
    → r ≡ ok (saved_change disk texts up r (i, w)).1.0
unfolding saved_change
saved_change-ok disk texts up (ok i') i w h = refl
saved_change-ok disk texts up (err e) i w h = cc

checked-ok :
    (r : Result (Unit {0})) (i : IfInterface) {i' : IfInterface} → checked r i ≡ ok i' → i ≡ i'
checked-ok (ok u) i h = ok-inj h
checked-ok (err e) i h = cc

cleared-ok :
    (enabled : Bool) (r : Result IfInterface) {i' : IfInterface}
    → cleared enabled r ≡ ok i'
    → (j : IfInterface) × (r ≡ ok j) × (without_static enabled j ≡ i')
unfolding cleared
cleared-ok enabled (ok j) h = (j, refl, ok-inj h)
cleared-ok enabled (err e) h = cc

-- What is reported after the DHCP setting has changed: static settings go where DHCP is enabled.
abbrev pub put_dhcp : Bool → Bool → Interface → Interface
put_dhcp dhcp4 dhcp6 i =
    if dhcp4 || dhcp6
    then record i { dhcp4 = dhcp4; dhcp6 = dhcp6; addresses = []; gateway4 = []; gateway6 = [] }
    else record i { dhcp4 = dhcp4; dhcp6 = dhcp6 }

abbrev pub put_dns : List Ip → List Bytes → Interface → Interface
put_dns servers domains i = record i { dns = select non_nil servers; search_domains = domains }

module _ (texts : Texts) (links : List (Bytes × Bytes)) where
  report-dhcp :
      (i : IfInterface) (mode : Bytes) (is_dhcp dhcp4 dhcp6 : Bool)
      → dhcp_state (record i { mode = mode; is_dhcp = is_dhcp }) ≡ (dhcp4, dhcp6)
      → report texts links
          (without_static (dhcp4 || dhcp6) (record i { mode = mode; is_dhcp = is_dhcp }))
        ≡ put_dhcp dhcp4 dhcp6 (report texts links i)
  unfolding report without_static dhcp_state
  report-dhcp i mode is_dhcp true dhcp6 h =
      ap
        (λ (s : Bool × Bool). record (report texts links i) {
          addresses = [];
          gateway4 = [];
          gateway6 = [];
          dhcp4 = s.0;
          dhcp6 = s.1;
        })
        h
  report-dhcp i mode is_dhcp false true h =
      ap
        (λ (s : Bool × Bool). record (report texts links i) {
          addresses = [];
          gateway4 = [];
          gateway6 = [];
          dhcp4 = s.0;
          dhcp6 = s.1;
        })
        h
  report-dhcp i mode is_dhcp false false h =
      ap (λ (s : Bool × Bool). record (report texts links i) { dhcp4 = s.0; dhcp6 = s.1 }) h

  report-with_dns :
      (i : IfInterface) (servers : List Ip) (domains : List Bytes)
      → All (Readable texts) servers
      → All IsWord domains
      → report texts links (with_dns (ip_strings texts.ip_string servers) domains i)
        ≡ put_dns servers domains (report texts links i)
  unfolding report dhcp_state with_dns
  report-with_dns i servers domains h k =
      ap
        (λ (s : List Ip × List Bytes). record (report texts links i) {
          dns = s.0;
          search_domains = s.1;
        })
        (ap
            (λ ips. (
              ips,
              (report texts links
                  (with_dns (ip_strings texts.ip_string servers) domains i)).search_domains,
            ))
            (servers-with_dns texts i servers domains h)
          ∙ ap (λ ds. (select non_nil servers, ds)) (search-with_dns texts i servers domains k))

-- The body of SetIfaceDNS and that of SetIfaceDHCP on one interface
module _ {W : Type 0} (disk : Disk W) (texts : Texts) (links : List (Bytes × Bytes))
    (up : IfUpDown) where
  dns-step :
      (servers : List Ip) (domains : List Bytes)
      → All (Readable texts) servers
      → All IsWord domains
      → (i : IfInterface) (w : W)
      → let body =
          change_and_save disk texts up
            (if_static (with_dns (ip_strings texts.ip_string servers) domains)) in
        (body (i, w)).0 ≡ ok tt
        → report texts links (body (i, w)).1.0 ≡ put_dns servers domains (report texts links i)
  unfolding change_and_save if_static
  dns-step servers domains h k i w done =
      let new = with_dns (ip_strings texts.ip_string servers) domains i in
      ap (report texts links) (
        sym (
          checked-ok (check_static i) new
            (saved_change-ok disk texts up (checked (check_static i) new) i w done)))
      ∙ report-with_dns texts links i servers domains h k

  dhcp-step :
      (dhcp4 dhcp6 : Bool) (i : IfInterface) (w : W)
      → IsConsistent i
      → (change_and_save disk texts up (change_dhcp dhcp4 dhcp6) (i, w)).0 ≡ ok tt
      → report texts links (change_and_save disk texts up (change_dhcp dhcp4 dhcp6) (i, w)).1.0
        ≡ put_dhcp dhcp4 dhcp6 (report texts links i)
  unfolding change_and_save change_dhcp
  dhcp-step dhcp4 dhcp6 i w c done =
      let r = set_dhcp i dhcp4 dhcp6 in
      let (j, e, kept) =
        cleared-ok (dhcp4 || dhcp6) r
          (saved_change-ok disk texts up (cleared (dhcp4 || dhcp6) r) i w done) in
      let (state, fits, shape) = set_dhcp_succeeded i j dhcp4 dhcp6 c e in
      ap (report texts links) (sym kept ∙ ap (without_static (dhcp4 || dhcp6)) shape)
      ∙ report-dhcp texts links i j.mode j.is_dhcp dhcp4 dhcp6 (ap dhcp_state (sym shape) ∙ state)

-- Where SetIfaceDNS succeeds, GetInterfaces reports for the first interface of the name the servers
-- that are not nil and the search domains, and all else that it would have reported before the
-- call. If there was no interface of the name, it reports one behind the others, with these, the
-- hardware address of the last link of the name, and nothing else. The texts of the servers are
-- words that are read back, and the domains are words.
pub set_iface_dns-reported :
    {W : Type 0} (disk : Disk W) (texts : Texts) (links : List (Bytes × Bytes)) (name : Bytes)
    (servers : List Ip) (domains : List Bytes) (i : IfUpDown) (w : W)
    → All (Readable texts) servers
    → All IsWord domains
    → (set_iface_dns disk texts name servers domains (i, w)).0 ≡ ok tt
    → get_interfaces texts (ok links) (set_iface_dns disk texts name servers domains (i, w)).1.0
      ≡ ok (
          put_first name
            (put_dns servers domains)
            (or_added links name (map (report texts links) i.interfaces)))
unfolding set_iface_dns get_interfaces
set_iface_dns-reported disk texts links name servers domains i w h k done = ap ok (
    at_ensured-reports texts links name
      (change_and_save disk texts i
        (if_static (with_dns (ip_strings texts.ip_string servers) domains)))
      (put_dns servers domains) (λ j. Unit {0})
      (λ j v fit ok_. dns-step disk texts links i servers domains h k j v ok_)
      (ensure_interface i name).interfaces w (All-intro (λ j. Unit {0}) (λ j. tt) _) done
    ∙ ap (put_first name (put_dns servers domains)) (report-ensure_interface texts links name i))

-- Where SetIfaceDHCP succeeds, GetInterfaces reports for the first interface of the name the DHCP
-- setting that was asked for, without addresses and gateways if DHCP is enabled, and all else that
-- it would have reported before the call. If there was no interface of the name, it reports one
-- behind the others, with that setting, the hardware address of the last link of the name, and
-- nothing else. The flag of each interface fits the method of its stanza.
pub set_iface_dhcp-reported :
    {W : Type 0} (disk : Disk W) (texts : Texts) (links : List (Bytes × Bytes)) (name : Bytes)
    (dhcp4 dhcp6 : Bool) (i : IfUpDown) (w : W)
    → All IsConsistent i.interfaces
    → (set_iface_dhcp disk texts name dhcp4 dhcp6 (i, w)).0 ≡ ok tt
    → get_interfaces texts (ok links) (set_iface_dhcp disk texts name dhcp4 dhcp6 (i, w)).1.0
      ≡ ok (
          put_first name
            (put_dhcp dhcp4 dhcp6)
            (or_added links name (map (report texts links) i.interfaces)))
unfolding set_iface_dhcp get_interfaces
set_iface_dhcp-reported disk texts links name dhcp4 dhcp6 i w c done = ap ok (
    at_ensured-reports texts links name (change_and_save disk texts i (change_dhcp dhcp4 dhcp6))
      (put_dhcp dhcp4 dhcp6) IsConsistent (dhcp-step disk texts links i dhcp4 dhcp6)
      (ensure_interface i name).interfaces w (IsConsistent-ensure_interface i name c) done
    ∙ ap (put_first name (put_dhcp dhcp4 dhcp6)) (report-ensure_interface texts links name i))
