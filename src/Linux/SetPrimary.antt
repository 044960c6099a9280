-- ===== src/Linux/SetPrimary.antt =====
-- SetPrimaryAddress of configurator_linux.go, in the parts that its comments name.
pub mod Reordered
pub mod Safety
pub mod Success
use go_network_configurator.Prelude.{
  ℕ, Bool, true, false, not, ◌&&◌, ◌||◌, List, [], ◌∷◌, ◌++◌, Option, none, some, if◌then◌else◌,
  Bytes, same, find, any,
}
use go_network_configurator.Prelude.Exec.{
  Exec, Result, ok, err, Error, address_not_found, internet_lost, pure, raise, reads, ◌>>=◌, ◌>>◌,
  finish,
}
use go_network_configurator.Net.{Ip, IpNet, is_nil, non_nil, is_v4, ip_equal, is_link_local}
use go_network_configurator.Iface.{reorder_primary_address}
use go_network_configurator.Backend.{apply_iface_addresses, reload_panels, set_main_ip_on_panels}
use go_network_configurator.Host.{Host, Family, Link, NlRoute, Addr, ping_test, test_internet}
use go_network_configurator.Linux.{LinuxConfigurator, family_of, is_default, unless_skipped}
use go_network_configurator.Linux.AddAddress.{Plan}
use go_network_configurator.Linux.Defaults.{Defaults, no_defaults, capture_defaults}

-- The variables of the loop over the addresses: `exists`, `addresses`, `familyAddrs`.
pub record Present : Type 0 where
  pub exists : Bool
  pub addresses : List IpNet
  pub family_addrs : List Addr

abbrev pub none_present : Present
none_present = record { exists = false; addresses = []; family_addrs = [] }

abbrev pub collect : IpNet → Addr → Present → Present
collect addr address st =
    let exists = if ip_equal address.ip_net.ip addr.ip then true else st.exists in
    if is_link_local address.ip_net.ip then record st { exists = exists } else record {
      exists = exists;
      addresses = st.addresses ++ address.ip_net ∷ [];
      family_addrs =
          if same (is_v4 addr.ip) (is_v4 address.ip_net.ip)
          then st.family_addrs ++ address ∷ []
          else st.family_addrs;
    }

-- The loop over the existing addresses
unfoldable pub scan_present : IpNet → List Addr → Present → Present
scan_present addr [] st = st
scan_present addr (address ∷ addrs) st = scan_present addr addrs (collect addr address st)

-- `netlink.Addr{}`
abbrev pub zero_addr : Addr
zero_addr = record { ip_net = record { ip = []; mask = [] }; attributes = 0 }

-- The addresses without the first one that is the target.
unfoldable pub remove_first : Ip → List Addr → List Addr
remove_first ip [] = []
remove_first ip (a ∷ addrs) =
    let rest = remove_first ip addrs in if ip_equal a.ip_net.ip ip then addrs else a ∷ rest

-- The desired runtime order, with the target address first.
unfoldable pub desired_order : Ip → List Addr → List Addr
unfolding remove_first
desired_order ip family_addrs =
    (elim (find (λ a. ip_equal a.ip_net.ip ip) family_addrs) [ none ↦ zero_addr | some a ↦ a ])
    ∷ remove_first ip family_addrs

-- The address is the first one of its family already.
abbrev pub is_first : Ip → List Addr → Bool
is_first ip [] = false
is_first ip (a ∷ addrs) = ip_equal a.ip_net.ip ip

module _ {W : Type 0} (host : Host W) where
  unfoldable pub remove_all : Link → List Addr → Exec W (Unit {0})
  remove_all link [] = pure tt
  remove_all link (a ∷ addrs) = do host.addr_del link a; remove_all link addrs

  unfoldable pub replace_all : Link → List Addr → Exec W (Unit {0})
  replace_all link [] = pure tt
  replace_all link (a ∷ addrs) = do host.addr_replace link a; replace_all link addrs

  -- Re-add the default route if reordering removed it.
  unfoldable pub restore_default : Link → Family → Option NlRoute → Exec W (Unit {0})
  restore_default link family none = pure tt
  restore_default link family (some family_route) = do
    cur ← reads (host.route_list link family)
    if any (λ route. is_default route && ip_equal route.gw family_route.gw) cur
        then pure tt
        else host.route_replace family_route

  -- reapply
  unfoldable pub reapply :
      Link → Family → List Addr → Option NlRoute → List Addr → Exec W (Unit {0})
  reapply link family family_addrs family_route order = do
    remove_all link family_addrs
    replace_all link order
    restore_default link family family_route

  -- Confirm we did not break connectivity, restoring the original order on failure.
  unfoldable pub confirm_order :
      LinuxConfigurator W → Link → Family → List Addr → Option NlRoute → Exec W (Unit {0})
  confirm_order c link family family_addrs none = pure tt
  confirm_order c link family family_addrs (some family_route) =
      if c.options.skip_connectivity_check || is_nil family_route.gw then pure tt else do
        ping_test host family_route.gw c.options.ping_count c.options.ping_timeout
        online ← test_internet host c.options.test_address c.options.connectivity_timeout
        if online then pure tt else do
          reapply link family family_addrs (some family_route) family_addrs
          raise internet_lost

  -- The new order at runtime, unless the address is primary already.
  unfoldable pub reorder :
      LinuxConfigurator W → Link → IpNet → List Addr → Option NlRoute → Exec W (Unit {0})
  reorder c link addr family_addrs family_route =
      if is_first addr.ip family_addrs then pure tt else do
        reapply link (family_of addr.ip) family_addrs family_route
            (desired_order addr.ip family_addrs)
        confirm_order c link (family_of addr.ip) family_addrs family_route

  -- What happens before the configuration files
  unfoldable pub promote : LinuxConfigurator W → Bytes → IpNet → Exec W Plan
  promote c iface addr = do
    reads host.new_handle
    link ← reads (host.link_by_name iface)
    addrs ← reads (host.addr_list link)
    let st = scan_present addr addrs none_present
    if not st.exists then raise address_not_found else do
      routes ← reads (host.route_list link Family.all)
      let d = capture_defaults (family_of addr.ip) routes no_defaults
      reorder c link addr st.family_addrs d.family_route
      pure (record {
        addresses = (reorder_primary_address st.addresses addr).0;
        gateway4 = d.gateway4;
        gateway6 = d.gateway6;
      })

  -- Update configuration files, and the control panels.
  abbrev pub persist_primary : LinuxConfigurator W → Bytes → Ip → Plan → W → W
  persist_primary c iface ip plan w =
      unless_skipped c
        (λ v. set_main_ip_on_panels c.panel_backends ip (reload_panels c.panel_backends v))
        (apply_iface_addresses c.iface_backends iface plan.addresses plan.gateway4 plan.gateway6 w)

  -- SetPrimaryAddress
  unfoldable pub set_primary_address : LinuxConfigurator W → Bytes → IpNet → Exec W (Unit {0})
  set_primary_address c iface addr = do
    plan ← promote c iface addr
    finish (persist_primary c iface addr.ip plan)
