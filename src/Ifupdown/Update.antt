-- ===== src/Ifupdown/Update.antt =====
-- The methods of ifupdown.go that change the configuration of an interface. The state is the
-- ifUpDown with the machine; what a body changed before it fails stays changed.
use go_network_configurator.Prelude.{
  Bool, not, ◌||◌, List, [], ◌∷◌, ◌++◌, if◌then◌else◌, Bytes, codes, bytes_eq,
}
use go_network_configurator.Prelude.Exec.{
  Exec, Result, ok, err, attempt, ppp_interface, dhcp_interface,
}
use go_network_configurator.Net.{Ip, IpNet}
use go_network_configurator.Iface.{Route}
use go_network_configurator.Linux.Dns.{ip_strings, joined}
use go_network_configurator.NetTexts.{Texts}
use go_network_configurator.Ifupdown.{IfInterface, IfUpDown, set_dhcp, ensure_interface}
use go_network_configurator.Ifupdown.Save.{Disk, save}

abbrev pub dns_nameservers : Bytes
dns_nameservers = codes "dns-nameservers"

abbrev pub dns_search : Bytes
dns_search = codes "dns-search"

-- The outcome of a loop over the interfaces: its error, the interfaces and the machine
abbrev pub Outcome : Type 0 → Type 0
Outcome W = Result (Unit {0}) × List IfInterface × W

-- The guards of SetIfaceAddresses, SetIfaceRoutes and SetIfaceDNS
unfoldable pub check_static : IfInterface → Result (Unit {0})
check_static iface =
    if iface.is_dhcp then err dhcp_interface else if iface.is_ppp then err ppp_interface else ok tt

-- The static addresses and gateways that go when DHCP is enabled
unfoldable pub without_static : Bool → IfInterface → IfInterface
without_static enabled iface =
    if enabled then record iface { addresses = []; gateway4 = []; gateway6 = [] } else iface

-- A change of a static interface
abbrev pub checked : Result (Unit {0}) → IfInterface → Result IfInterface
checked (ok u) iface = ok iface
checked (err e) iface = err e

unfoldable pub if_static : (IfInterface → IfInterface) → IfInterface → Result IfInterface
unfolding check_static
if_static change iface = checked (check_static iface) (change iface)

-- SetIfaceDHCP, up to the save
unfoldable pub cleared : Bool → Result IfInterface → Result IfInterface
unfolding without_static
cleared enabled (ok iface) = ok (without_static enabled iface)
cleared enabled (err e) = err e

unfoldable pub change_dhcp : Bool → Bool → IfInterface → Result IfInterface
unfolding set_dhcp cleared
change_dhcp dhcp4 dhcp6 iface = cleared (dhcp4 || dhcp6) (set_dhcp iface dhcp4 dhcp6)

-- `delete(ifc.Config, key)`
unfoldable pub delete_config : Bytes → List (Bytes × List Bytes) → List (Bytes × List Bytes)
delete_config key [] = []
delete_config key ((k, values) ∷ config) =
    let rest = delete_config key config in if bytes_eq k key then rest else (k, values) ∷ rest

-- `ifc.Config[key] = …` for a key that was deleted, unless there is nothing to join
abbrev pub put_config : Bytes → List Bytes → List (Bytes × List Bytes) → List (Bytes × List Bytes)
put_config key [] config = config
put_config key (t ∷ ts) config = config ++ (key, joined (t ∷ ts) ∷ []) ∷ []

-- The two DNS stanzas are replaced.
unfoldable pub with_dns : List Bytes → List Bytes → IfInterface → IfInterface
unfolding delete_config
with_dns servers domains iface = record iface {
  config = put_config dns_search domains (
      put_config dns_nameservers servers
        (delete_config dns_search (delete_config dns_nameservers iface.config)));
}

module _ {W : Type 0} where
  abbrev pub behind : IfInterface → (W → Outcome W) → W → Outcome W
  behind i rest w = let (r, interfaces, w') = rest w in (r, i ∷ interfaces, w')

  -- After the body for an interface: an error ends the loop.
  unfoldable pub after_body :
      Result (Unit {0}) → IfInterface → List IfInterface → (W → Outcome W) → W → Outcome W
  after_body (ok u) i interfaces rest w = behind i rest w
  after_body (err e) i interfaces rest w = (err e, i ∷ interfaces, w)

  -- The loop `for _, ifc := range i.Interfaces` with its test of the name
  unfoldable pub for_named :
      Exec (IfInterface × W) (Unit {0}) → Bytes → List IfInterface → W → Outcome W
  unfolding after_body
  for_named body name [] w = (ok tt, [], w)
  for_named body name (i ∷ interfaces) w =
      let rest = for_named body name interfaces in
      let (r, (i', w')) = body (i, w) in
      if not (bytes_eq i.name name) then behind i rest w else after_body r i' interfaces rest w'

  -- A body for the interface that EnsureInterface gives, the first of its name
  unfoldable pub at_ensured :
      Exec (IfInterface × W) (Unit {0}) → Bytes → List IfInterface → W → Outcome W
  at_ensured body name [] w = (ok tt, [], w)
  at_ensured body name (i ∷ interfaces) w =
      let rest = at_ensured body name interfaces in
      let (r, (i', w')) = body (i, w) in
      if bytes_eq i.name name then (r, i' ∷ interfaces, w') else behind i rest w

  -- A loop or a body, with its interfaces put back
  abbrev on_interfaces : (List IfInterface → W → Outcome W) → Exec (IfUpDown × W) (Unit {0})
  on_interfaces f (i, w) =
      let (r, interfaces, w') = f i.interfaces w in (r, (record i { interfaces = interfaces }, w'))

  module _ (disk : Disk W) (texts : Texts) where
    -- The Save of an interface that has changed
    unfoldable pub saved_change : IfUpDown → Result IfInterface → Exec (IfInterface × W) (Unit {0})
    saved_change i (err e) (iface, w) = (err e, (iface, w))
    saved_change i (ok iface') (iface, w) =
        let (r, w') = save disk texts i.backup_dir i.backup_retention iface' w in (r, (iface', w'))

    -- The change that passes its guard, and the Save after it
    unfoldable pub change_and_save :
        IfUpDown → (IfInterface → Result IfInterface) → Exec (IfInterface × W) (Unit {0})
    unfolding saved_change
    change_and_save i change (iface, w) = saved_change i (change iface) (iface, w)

    -- SetIfaceDHCP
    unfoldable pub set_iface_dhcp : Bytes → Bool → Bool → Exec (IfUpDown × W) (Unit {0})
    unfolding change_dhcp change_and_save at_ensured ensure_interface
    set_iface_dhcp name dhcp4 dhcp6 (i, w) =
        on_interfaces (at_ensured (change_and_save i (change_dhcp dhcp4 dhcp6)) name)
          (ensure_interface i name, w)

    -- SetIfaceAddresses
    unfoldable pub set_iface_addresses :
        Bytes → List IpNet → Ip → Ip → Exec (IfUpDown × W) (Unit {0})
    unfolding change_and_save if_static for_named
    set_iface_addresses name addrs gateway4 gateway6 (i, w) =
        on_interfaces
          (for_named
            (change_and_save i (
              if_static (λ iface. record iface {
                addresses = addrs;
                gateway4 = gateway4;
                gateway6 = gateway6;
              })))
            name)
          (i, w)

    -- SetIfaceRoutes
    unfoldable pub set_iface_routes : Bytes → List Route → Exec (IfUpDown × W) (Unit {0})
    unfolding change_and_save if_static for_named
    set_iface_routes name routes (i, w) =
        on_interfaces
          (for_named (change_and_save i (if_static (λ iface. record iface { routes = routes })))
            name)
          (i, w)

    -- SetIfaceDNS; the warning about resolvconf is only logged.
    unfoldable pub set_iface_dns : Bytes → List Ip → List Bytes → Exec (IfUpDown × W) (Unit {0})
    unfolding change_and_save if_static at_ensured ensure_interface with_dns
    set_iface_dns name servers search_domains (i, w) =
        on_interfaces
          (at_ensured
            (change_and_save i
              (if_static (with_dns (ip_strings texts.ip_string servers) search_domains)))
            name)
          (ensure_interface i name, w)

-- renewDHCP: what comes of ifdown is not looked at.
unfoldable pub renew_dhcp :
    {W : Type 0} → (List Bytes → Exec W (Unit {0})) → Bytes → Exec W (Unit {0})
renew_dhcp run_command iface w =
    run_command (codes "ifup" ∷ iface ∷ []) (attempt (run_command (codes "ifdown" ∷ iface ∷ [])) w)
