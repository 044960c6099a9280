-- ===== src/Linux/RemoveAddress.antt =====
-- RemoveAddress of configurator_linux.go, in the parts that its comments name.
pub mod Safety
pub mod Success
use go_network_configurator.Prelude.{
  ℕ, Bool, true, false, not, ◌&&◌, ◌||◌, List, [], ◌∷◌, ◌++◌, Option, none, some, if◌then◌else◌,
  Bytes, same, find,
}
use go_network_configurator.Prelude.Exec.{
  Exec, Result, ok, err, Error, primary_refused, unreachable_after_removal, removal_broke_internet,
  pure, raise, reads, ◌>>=◌, ◌>>◌, finish,
}
use go_network_configurator.Net.{
  Ip, IpNet, is_nil, non_nil, is_v4, ip_equal, is_link_local, contains,
}
use go_network_configurator.Backend.{apply_iface_addresses, remove_ip_from_panels}
use go_network_configurator.Host.{Host, Family, Link, NlRoute, Addr, ping_test, test_internet}
use go_network_configurator.Linux.{LinuxConfigurator, family_of, unless_skipped}
use go_network_configurator.Linux.AddAddress.{Plan}
use go_network_configurator.Linux.Defaults.{Defaults, no_defaults, capture_defaults}

-- The variable `gw`: the gateway of the first default route of the family.
abbrev pub gw_of : Option NlRoute → Ip
gw_of none = []
gw_of (some route) = route.gw

-- primaryOfFamily: the first address of the family that is not link-local
unfoldable pub primary_of_family : Bool → List Addr → Ip
primary_of_family is_four [] = []
primary_of_family is_four (address ∷ addrs) =
    let rest = primary_of_family is_four addrs in
    if is_link_local address.ip_net.ip
    then rest
    else if not (same (is_v4 address.ip_net.ip) is_four)
    then rest
    else address.ip_net.ip

-- The variables of the loop over the addresses: `nlAddr`, `routeToGateway`, `addresses`.
pub record Remaining : Type 0 where
  pub nl_addr : Option Addr
  pub route_to_gateway : Bool
  pub addresses : List IpNet

abbrev pub nothing_yet : Remaining
nothing_yet = record { nl_addr = none; route_to_gateway = false; addresses = [] }

-- The gateway can be reached by way of an address.
abbrev pub reaches : Ip → Addr → Bool
reaches gw address = non_nil gw && (contains address.ip_net gw || is_link_local gw)

abbrev pub remain : Ip → Addr → Remaining → Remaining
remain gw address st = record st {
  route_to_gateway = if reaches gw address then true else st.route_to_gateway;
  addresses =
      if is_link_local address.ip_net.ip then st.addresses else st.addresses ++ address.ip_net ∷ [];
}

-- The loop over the existing addresses
unfoldable pub scan_remaining : Ip → IpNet → List Addr → Remaining → Remaining
scan_remaining gw addr [] st = st
scan_remaining gw addr (address ∷ addrs) st = scan_remaining gw addr addrs (
    if ip_equal address.ip_net.ip addr.ip
    then record st { nl_addr = some address }
    else remain gw address st)

-- Refuse to remove the primary address, or the way to the gateway.
unfoldable pub check_removal :
    {W : Type 0} → LinuxConfigurator W → IpNet → Ip → Ip → Bool → Exec W (Unit {0})
check_removal c addr primary gw route_to_gateway =
    if non_nil primary && ip_equal primary addr.ip && not c.options.allow_primary_removal
    then raise primary_refused
    else if non_nil gw && not route_to_gateway
    then raise unreachable_after_removal
    else pure tt

module _ {W : Type 0} (host : Host W) where
  -- Remove the address if it exists, and confirm that this did not break connectivity.
  unfoldable pub remove_found : LinuxConfigurator W → Link → Ip → Option Addr → Exec W (Unit {0})
  remove_found c link gw none = pure tt
  remove_found c link gw (some address) = do
    host.addr_del link address
    if c.options.skip_connectivity_check then pure tt else do
      if non_nil gw
          then ping_test host gw c.options.ping_count c.options.ping_timeout
          else pure false
      online ← test_internet host c.options.test_address c.options.connectivity_timeout
      if online then pure tt else do host.addr_replace link address; raise removal_broke_internet

  -- What happens before the configuration files
  unfoldable pub take_address : LinuxConfigurator W → Bytes → IpNet → Exec W Plan
  take_address c iface addr = do
    reads host.new_handle
    link ← reads (host.link_by_name iface)
    routes ← reads (host.route_list link Family.all)
    let d = capture_defaults (family_of addr.ip) routes no_defaults
    let gw = gw_of d.family_route
    addrs ← reads (host.addr_list link)
    let st = scan_remaining gw addr addrs nothing_yet
    check_removal c addr (primary_of_family (is_v4 addr.ip) addrs) gw st.route_to_gateway
    remove_found c link gw st.nl_addr
    pure (record { addresses = st.addresses; gateway4 = d.gateway4; gateway6 = d.gateway6 })

  -- Update the control panels, then the configuration files.
  abbrev pub persist_removal : LinuxConfigurator W → Bytes → Ip → Plan → W → W
  persist_removal c iface ip plan w =
      apply_iface_addresses c.iface_backends iface plan.addresses plan.gateway4 plan.gateway6
        (unless_skipped c (remove_ip_from_panels c.panel_backends ip) w)

  -- RemoveAddress
  unfoldable pub remove_address : LinuxConfigurator W → Bytes → IpNet → Exec W (Unit {0})
  remove_address c iface addr = do
    plan ← take_address c iface addr
    finish (persist_removal c iface addr.ip plan)
