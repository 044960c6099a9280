-- ===== src/Backend.antt =====
-- The configuration backends and control panels as networkConfigurator.go sees them, the loops
-- that push a change to all of them, and mergeBackendState. `W` is the state of the machine. An
-- error of one backend goes to the log only, which is not modelled.
pub mod Merge
pub mod Apply
use go_network_configurator.Prelude.{
  ℕ, Bool, true, false, not, ◌&&◌, ◌||◌, List, [], ◌∷◌, ◌++◌, Option, none, some, if◌then◌else◌,
  Bytes, bytes_eq, any,
}
use go_network_configurator.Prelude.Exec.{Exec, Result, ok, err, attempt, Error}
use go_network_configurator.Net.{Ip, IpNet, is_nil, ip_is_in, string_in_slice}
use go_network_configurator.Iface.{Interface, Route}

-- namedIfaceBackend with its ifaceBackend. The capabilities ifaceDNSReader and dhcpRenewer are
-- optional.
pub record IfaceBackend (W : Type 0) : Type 0 where
  pub name : Bytes
  pub set_iface_addresses : Bytes → List IpNet → Ip → Ip → Exec W (Unit {0})
  pub set_iface_routes : Bytes → List Route → Exec W (Unit {0})
  pub set_iface_dns : Bytes → List Ip → List Bytes → Exec W (Unit {0})
  pub set_iface_dhcp : Bytes → Bool → Bool → Exec W (Unit {0})
  pub get_interfaces : Option (W → Result (List Interface))
  pub renew_dhcp : Option (Bytes → Exec W (Unit {0}))

-- namedPanelBackend with its panelBackend
pub record PanelBackend (W : Type 0) : Type 0 where
  pub name : Bytes
  pub reload : Exec W (Unit {0})
  pub set_main_ip : Ip → Exec W (Unit {0})
  pub remove_ip : Ip → Exec W (Unit {0})

-- `err == nil`
abbrev pub is_ok : Result (Unit {0}) → Bool
is_ok (ok u) = true
is_ok (err e) = false

module _ {W : Type 0} where
  -- applyIfaceAddresses
  unfoldable pub apply_iface_addresses :
      List (IfaceBackend W) → Bytes → List IpNet → Ip → Ip → W → W
  apply_iface_addresses [] iface addrs gateway4 gateway6 w = w
  apply_iface_addresses (b ∷ backends) iface addrs gateway4 gateway6 w =
      apply_iface_addresses backends iface addrs gateway4 gateway6
        (attempt (b.set_iface_addresses iface addrs gateway4 gateway6) w)

  -- applyIfaceRoutes
  unfoldable pub apply_iface_routes : List (IfaceBackend W) → Bytes → List Route → W → W
  apply_iface_routes [] iface routes w = w
  apply_iface_routes (b ∷ backends) iface routes w =
      apply_iface_routes backends iface routes (attempt (b.set_iface_routes iface routes) w)

  -- applyIfaceDNS
  unfoldable pub apply_iface_dns : List (IfaceBackend W) → Bytes → List Ip → List Bytes → W → W
  apply_iface_dns [] iface servers domains w = w
  apply_iface_dns (b ∷ backends) iface servers domains w =
      apply_iface_dns backends iface servers domains
        (attempt (b.set_iface_dns iface servers domains) w)

  -- The loop of applyIfaceDHCP, with its variable `applied`.
  unfoldable pub dhcp_loop : List (IfaceBackend W) → Bytes → Bool → Bool → Bool → W → Bool × W
  dhcp_loop [] iface dhcp4 dhcp6 applied w = (applied, w)
  dhcp_loop (b ∷ backends) iface dhcp4 dhcp6 applied w =
      let (r, w') = b.set_iface_dhcp iface dhcp4 dhcp6 w in
      dhcp_loop backends iface dhcp4 dhcp6 (if is_ok r then true else applied) w'

  -- applyIfaceDHCP
  unfoldable pub apply_iface_dhcp : List (IfaceBackend W) → Bytes → Bool → Bool → W → Bool × W
  unfolding dhcp_loop
  apply_iface_dhcp backends iface dhcp4 dhcp6 w = dhcp_loop backends iface dhcp4 dhcp6 false w

  abbrev renew_one : Option (Bytes → Exec W (Unit {0})) → Bytes → W → W
  renew_one none iface w = w
  renew_one (some renew) iface w = attempt (renew iface) w

  -- renewDHCPOnBackends
  unfoldable pub renew_dhcp_on_backends : List (IfaceBackend W) → Bytes → W → W
  renew_dhcp_on_backends [] iface w = w
  renew_dhcp_on_backends (b ∷ backends) iface w =
      renew_dhcp_on_backends backends iface (renew_one b.renew_dhcp iface w)

  -- reloadPanels
  unfoldable pub reload_panels : List (PanelBackend W) → W → W
  reload_panels [] w = w
  reload_panels (b ∷ backends) w = reload_panels backends (attempt b.reload w)

  -- setMainIPOnPanels
  unfoldable pub set_main_ip_on_panels : List (PanelBackend W) → Ip → W → W
  set_main_ip_on_panels [] ip w = w
  set_main_ip_on_panels (b ∷ backends) ip w =
      set_main_ip_on_panels backends ip (attempt (b.set_main_ip ip) w)

  -- removeIPFromPanels
  unfoldable pub remove_ip_from_panels : List (PanelBackend W) → Ip → W → W
  remove_ip_from_panels [] ip w = w
  remove_ip_from_panels (b ∷ backends) ip w =
      remove_ip_from_panels backends ip (attempt (b.remove_ip ip) w)

-- The loop over `bi.DNS` in mergeBackendState
unfoldable pub merge_dns : List Ip → List Ip → List Ip
merge_dns target [] = target
merge_dns target (ip ∷ ips) =
    merge_dns (if is_nil ip || ip_is_in target ip then target else target ++ ip ∷ []) ips

-- The loop over `bi.SearchDomains`
unfoldable pub merge_search_domains : List Bytes → List Bytes → List Bytes
merge_search_domains target [] = target
merge_search_domains target (d ∷ ds) =
    merge_search_domains
      (if bytes_eq d [] || string_in_slice target d then target else target ++ d ∷ []) ds

-- What one interface of a backend adds to the interface of the same name.
unfoldable pub merge_interface : Interface → Interface → Interface
merge_interface target bi = record target {
  dhcp4 = target.dhcp4 || bi.dhcp4;
  dhcp6 = target.dhcp6 || bi.dhcp6;
  dns = merge_dns target.dns bi.dns;
  search_domains = merge_search_domains target.search_domains bi.search_domains;
}

abbrev pub is_named : Bytes → Interface → Bool
is_named name i = bytes_eq i.name name

-- A write through `byName[name]`. Where several interfaces share a name, the map holds the last.
unfoldable pub update_by_name : Bytes → (Interface → Interface) → List Interface → List Interface
update_by_name name f [] = []
update_by_name name f (i ∷ ifaces) =
    let rest = update_by_name name f ifaces in
    if any (is_named name) ifaces
    then i ∷ rest
    else if is_named name i
    then f i ∷ ifaces
    else i ∷ ifaces

-- The loop over the interfaces that one backend reports.
unfoldable pub merge_interfaces : List Interface → List Interface → List Interface
merge_interfaces ifaces [] = ifaces
merge_interfaces ifaces (bi ∷ backend_ifaces) =
    merge_interfaces (update_by_name bi.name (λ target. merge_interface target bi) ifaces)
      backend_ifaces

-- What a backend reports: nothing, if it has no reader or its reader fails.
abbrev pub reported : {W : Type 0} → W → IfaceBackend W → List Interface
reported w b = elim b.get_interfaces [
  | none ↦ []
  | some reader ↦ elim (reader w) [ ok backend_ifaces ↦ backend_ifaces | err e ↦ [] ]
]

-- mergeBackendState
unfoldable pub merge_backend_state :
    {W : Type 0} → List (IfaceBackend W) → W → List Interface → List Interface
merge_backend_state [] w ifaces = ifaces
merge_backend_state (nb ∷ backends) w ifaces =
    merge_backend_state backends w (merge_interfaces ifaces (reported w nb))
