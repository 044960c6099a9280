-- ===== src/Linux/AddAddress.antt =====
-- AddAddress of configurator_linux.go, in the parts that its comments name.
pub mod Rerouted
pub mod Confirmed
pub mod Outcome
pub mod Safety
pub mod Addresses
pub mod AddressSet
pub mod Scan
pub mod DefaultRoutes
pub mod Connected
pub mod Success
use go_network_configurator.Prelude.{
  ℕ, Bool, true, false, not, ◌&&◌, ◌||◌, List, [], ◌∷◌, ◌++◌, Option, none, some, if◌then◌else◌,
  Bytes, codes, bytes_eq, ◌==◌, ℤ,
}
use go_network_configurator.Prelude.Exec.{
  Exec, Result, ok, err, Error, external, gateway_unreachable, ip_responds, add_gateway_failed,
  internet_lost, wrap_error, on_error, caught, pure, raise, reads, ◌>>=◌, ◌>>◌, attempt, finish,
}
use go_network_configurator.Net.{
  Ip, IpNet, is_nil, non_nil, is_v4, ip_equal, is_link_local, contains, ipv4_zero, ipv6_zero,
}
use go_network_configurator.Backend.{apply_iface_addresses, reload_panels}
use go_network_configurator.Host.{
  Host, Family, family_eq, Link, NlRoute, Addr, ping_test, test_internet,
}
use go_network_configurator.Linux.{
  LinuxConfigurator, family_of, zero_ip, is_default, ensure_link_up, unless_skipped,
}

-- The gateway has to be reachable from the network of the address, or be link-local.
unfoldable pub check_gateway : {W : Type 0} → IpNet → Ip → Exec W (Unit {0})
check_gateway addr gateway =
    if non_nil gateway
      && not (ip_equal gateway (zero_ip addr.ip))
      && (not (contains addr gateway) && not (is_link_local gateway))
    then raise gateway_unreachable
    else pure tt

-- The variables of the loop over the existing addresses: `exists`, `addresses`, `origAddresses`.
pub record Existing : Type 0 where
  pub exists : Bool
  pub addresses : List IpNet
  pub orig_addresses : List IpNet

abbrev pub no_addresses : Existing
no_addresses = record { exists = false; addresses = []; orig_addresses = [] }

-- The variables of the loop over the routes. `orig_route` is `none` for the zero `netlink.Route`.
pub record Gateways : Type 0 where
  pub gateway : Ip
  pub gateway4 : Ip
  pub gateway6 : Ip
  pub seen4 : Bool
  pub seen6 : Bool
  pub orig_route : Option NlRoute

abbrev pub start_gateways : Ip → Gateways
start_gateways gateway = record {
  gateway = gateway;
  gateway4 = [];
  gateway6 = [];
  seen4 = false;
  seen6 = false;
  orig_route = none;
}

-- A default route of the family was seen before.
abbrev pub seen : Gateways → Family → Bool
seen g Family.v4 = g.seen4
seen g Family.v6 = g.seen6
seen g Family.all = false

-- Capture the gateway of a default route.
abbrev pub capture : Family → Ip → Gateways → Gateways
capture Family.v4 gw g = record g { gateway4 = gw; seen4 = true }
capture Family.v6 gw g = record g { gateway6 = gw; seen6 = true }
capture Family.all gw g = g

-- 0.0.0.0/0 or ::/0
abbrev pub default_net : Ip → IpNet
default_net ip =
    if is_v4 ip
    then record { ip = ipv4_zero; mask = 0 ∷ 0 ∷ 0 ∷ 0 ∷ [] }
    else record { ip = ipv6_zero; mask = ipv6_zero }

abbrev pub capture_missing : Ip → Gateways → Gateways
capture_missing ip g =
    if is_v4 ip then record g { gateway4 = g.gateway } else record g { gateway6 = g.gateway }

-- What the configuration files are told.
pub record Plan : Type 0 where
  pub addresses : List IpNet
  pub gateway4 : Ip
  pub gateway6 : Ip

-- `!errors.Is(err, syscall.ESRCH)` is an error; a route that is gone already is not.
abbrev pub esrch : ℕ
esrch = 3

abbrev pub forgive_esrch : Result (Unit {0}) → Result (Unit {0})
forgive_esrch (ok u) = ok u
forgive_esrch (err (external n)) = if n == esrch then ok tt else err (external n)
forgive_esrch (err e) = err e

abbrev pub unless_esrch : {W : Type 0} → Exec W (Unit {0}) → Exec W (Unit {0})
unless_esrch m w = let (r, w') = m w in (forgive_esrch r, w')

-- One existing address, with its mask as the kernel now has it.
abbrev pub note : Bool → Addr → IpNet → Existing → Existing
note found address now st = record {
  exists = st.exists || found;
  addresses = if is_link_local address.ip_net.ip then st.addresses else st.addresses ++ now ∷ [];
  orig_addresses =
      if is_link_local address.ip_net.ip
      then st.orig_addresses
      else st.orig_addresses ++ address.ip_net ∷ [];
}

-- Set gateway as nil on zero IP.
abbrev pub clear_zero : IpNet → Gateways → Gateways
clear_zero addr g = if ip_equal g.gateway (zero_ip addr.ip) then record g { gateway = [] } else g

module _ {W : Type 0} (host : Host W) where
  -- If the address already exists, update the netmask. The result is the network of the address.
  unfoldable pub update_netmask : Link → IpNet → Addr → Exec W IpNet
  update_netmask link addr address =
      if ip_equal address.ip_net.ip addr.ip
      then (do
        let now = record (address.ip_net) { mask = addr.mask }
        host.addr_replace link (record address { ip_net = now })
        pure now)
      else pure address.ip_net

  -- The loop over the existing addresses
  unfoldable pub scan_addresses : Link → IpNet → List Addr → Existing → Exec W Existing
  scan_addresses link addr [] st = pure st
  scan_addresses link addr (address ∷ addrs) st = do
    now ← update_netmask link addr address
    scan_addresses link addr addrs (note (ip_equal address.ip_net.ip addr.ip) address now st)

  -- Add if not already existing. The result is the list for the configuration files.
  unfoldable pub add_if_new : LinuxConfigurator W → Link → IpNet → Existing → Exec W (List IpNet)
  add_if_new c link addr st = if st.exists then pure st.addresses else do
    responds ← ping_test host addr.ip c.options.ping_count c.options.ping_timeout
    if responds then raise ip_responds else do
      host.addr_add link (record { ip_net = addr; attributes = 0 })
      pure (st.addresses ++ addr ∷ [])

  -- The first default route of the family that is configured: keep, remove or change it.
  unfoldable pub take_over : IpNet → NlRoute → Gateways → Exec W Gateways
  take_over addr route g =
      if is_nil g.gateway
      then pure
          (capture route.family route.gw (record g { gateway = route.gw; orig_route = some route }))
      else if ip_equal g.gateway (zero_ip addr.ip)
      then (do
        host.route_del route
        pure (capture route.family [] (record g { orig_route = some route })))
      else do
        host.route_change (record route { gw = g.gateway })
        pure (capture route.family g.gateway (record g { orig_route = some route }))

  unfoldable pub default_route : IpNet → NlRoute → Gateways → Exec W Gateways
  default_route addr route g =
      if family_eq route.family (family_of addr.ip)
      then take_over addr route g
      else pure (capture route.family route.gw g)

  -- The loop over the routes
  unfoldable pub scan_routes : IpNet → List NlRoute → Gateways → Exec W Gateways
  scan_routes addr [] g = pure g
  scan_routes addr (route ∷ routes) g =
      let rest = scan_routes addr routes in
      if not (is_default route) || seen g route.family
      then rest g
      else do g' ← default_route addr route g; if g'.seen4 && g'.seen6 then pure g' else rest g'

  -- If the gateway doesn't exist, add it: the route that was added, if one was.
  unfoldable pub add_missing_gateway : Link → IpNet → Gateways → Exec W (Option NlRoute × Gateways)
  add_missing_gateway link addr g =
      let missing = if is_v4 addr.ip then is_nil g.gateway4 else is_nil g.gateway6 in
      let route : NlRoute = record {
        family = family_of addr.ip;
        link_index = link.index;
        dst = default_net addr.ip;
        gw = g.gateway;
        priority = 0;
        attributes = 0;
      } in
      if missing
      then (do
        wrap_error add_gateway_failed (host.route_add route)
        pure (some route, capture_missing addr.ip g))
      else pure (none, g)

  -- Re-apply every original non-link-local address.
  unfoldable pub restore_addresses : Link → List IpNet → Exec W (Unit {0})
  restore_addresses link [] = pure tt
  restore_addresses link (orig ∷ origs) = do
    host.addr_replace link (record { ip_net = orig; attributes = 0 })
    restore_addresses link origs

  unfoldable pub remove_added : Option NlRoute → Exec W (Unit {0})
  remove_added none = pure tt
  remove_added (some route) = unless_esrch (host.route_del route)

  -- Restore the default route of the family, or remove the one that was added.
  unfoldable pub restore_route : Option NlRoute → Option NlRoute → Exec W (Unit {0})
  restore_route (some orig) added =
      if non_nil orig.gw then host.route_replace orig else remove_added added
  restore_route none added = remove_added added

  -- The connection broke: restore the full pre-change address list and default route.
  unfoldable pub roll_back :
      Link → IpNet → Existing → Option NlRoute → Option NlRoute → Exec W (Unit {0})
  roll_back link addr st orig_route added = do
    if st.exists then pure tt else host.addr_del link (record { ip_net = addr; attributes = 0 })
    restore_addresses link st.orig_addresses
    restore_route orig_route added
    raise internet_lost

  -- Test internet to confirm we did not break connection.
  unfoldable pub confirm :
      LinuxConfigurator W → Link → IpNet → Existing → Gateways → Exec W Gateways
  confirm c link addr st g = if is_nil g.gateway then pure g else do
    (added, g') ← add_missing_gateway link addr g
    if c.options.skip_connectivity_check then pure g' else do
      ping_test host g'.gateway c.options.ping_count c.options.ping_timeout
      online ← test_internet host c.options.test_address c.options.connectivity_timeout
      if online then pure g' else do roll_back link addr st g'.orig_route added; pure g'

  -- From the existing addresses to the confirmed change
  unfoldable pub change_runtime : LinuxConfigurator W → Link → IpNet → Ip → Exec W Plan
  change_runtime c link addr gateway = do
    addrs ← reads (host.addr_list link)
    st ← scan_addresses link addr addrs no_addresses
    addresses ← add_if_new c link addr st
    routes ← reads (host.route_list link Family.all)
    g ← scan_routes addr routes (start_gateways gateway)
    g' ← confirm c link addr st (clear_zero addr g)
    pure (record { addresses = addresses; gateway4 = g'.gateway4; gateway6 = g'.gateway6 })

  -- A link that was raised goes down again if the change fails.
  abbrev pub lower_link : Bool → Link → W → W
  lower_link brought_up link w = if brought_up then attempt (host.link_set_down link) w else w

  -- Update configuration files, and the control panels.
  abbrev pub persist : LinuxConfigurator W → Bytes → Plan → W → W
  persist c iface plan w =
      unless_skipped c (reload_panels c.panel_backends)
        (apply_iface_addresses c.iface_backends iface plan.addresses plan.gateway4 plan.gateway6 w)

  -- What happens before the configuration files
  unfoldable pub apply_address : LinuxConfigurator W → Bytes → IpNet → Ip → Exec W Plan
  apply_address c iface addr gateway = do
    reads host.new_handle
    link ← reads (host.link_by_name iface)
    check_gateway addr gateway
    brought_up ← ensure_link_up host link
    on_error (lower_link brought_up link) (change_runtime c link addr gateway)

  -- AddAddress
  unfoldable pub add_address : LinuxConfigurator W → Bytes → IpNet → Ip → Exec W (Unit {0})
  add_address c iface addr gateway = do
    plan ← apply_address c iface addr gateway
    finish (persist c iface plan)
