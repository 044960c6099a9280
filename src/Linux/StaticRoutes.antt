-- ===== src/Linux/StaticRoutes.antt =====
-- AddRoute and RemoveRoute of configurator_linux.go.
pub mod Safety
pub mod Success
use go_network_configurator.Prelude.{
  ℕ, Bool, true, false, not, ◌&&◌, ◌||◌, List, [], ◌∷◌, ◌++◌, if◌then◌else◌, Bytes, bytes_eq, any,
  ◌==◌,
}
use go_network_configurator.Prelude.Exec.{
  Exec, Result, ok, err, Error, route_contains_address, pure, raise, reads, ◌>>=◌, ◌>>◌, finish,
}
use go_network_configurator.Net.{Ip, IpNet, mask_ones, ip_equal, contains}
use go_network_configurator.Iface.{Route}
use go_network_configurator.Backend.{apply_iface_routes}
use go_network_configurator.Host.{Host, Family, Link, NlRoute, Addr}
use go_network_configurator.Linux.{LinuxConfigurator, family_of, is_default}

-- The destination is no default route and contains an address of the interface.
unfoldable pub contains_address : IpNet → List Addr → Bool
contains_address dst addrs =
    if mask_ones dst.mask == 0 then false else any (λ address. contains dst address.ip_net.ip) addrs

-- The route is to one of the interface's own networks.
abbrev pub to_own_network : List Addr → NlRoute → Bool
to_own_network addrs route =
    any (λ addr. contains route.dst addr.ip_net.ip && bytes_eq route.dst.mask addr.ip_net.mask)
      addrs

-- `r := new(Route)`
abbrev pub to_route : NlRoute → Route
to_route route = record { destination = route.dst; gateway = route.gw; metric = route.priority }

-- The loop of AddRoute over the routes
unfoldable pub collect_routes : List Addr → List NlRoute → List Route → List Route
collect_routes addrs [] static_routes = static_routes
collect_routes addrs (route ∷ routes) static_routes =
    let rest = collect_routes addrs routes in
    if is_default route
    then rest static_routes
    else if to_own_network addrs route
    then rest static_routes
    else rest (static_routes ++ to_route route ∷ [])

-- The route is the one that is removed.
abbrev pub is_removed : IpNet → Ip → NlRoute → Bool
is_removed dst gateway route =
    contains route.dst dst.ip && bytes_eq route.dst.mask dst.mask && ip_equal route.gw gateway

module _ {W : Type 0} (host : Host W) where
  -- AddRoute before the configuration files
  unfoldable pub install_route : Bytes → IpNet → Ip → ℕ → Exec W (List Route)
  install_route iface dst gateway metric = do
    reads host.new_handle
    link ← reads (host.link_by_name iface)
    addrs ← reads (host.addr_list link)
    if contains_address dst addrs then raise route_contains_address else do
      host.route_add (record {
        family = family_of dst.ip;
        link_index = link.index;
        dst = dst;
        gw = gateway;
        priority = metric;
        attributes = 0;
      })
      routes ← reads (host.route_list link Family.all)
      pure (collect_routes addrs routes [])

  abbrev pub persist_routes : LinuxConfigurator W → Bytes → List Route → W → W
  persist_routes c iface routes w = apply_iface_routes c.iface_backends iface routes w

  -- AddRoute
  unfoldable pub add_route : LinuxConfigurator W → Bytes → IpNet → Ip → ℕ → Exec W (Unit {0})
  add_route c iface dst gateway metric = do
    routes ← install_route iface dst gateway metric
    finish (persist_routes c iface routes)

  -- The loop of RemoveRoute over the routes
  unfoldable pub sift_routes :
      IpNet → Ip → List Addr → List NlRoute → List Route → Exec W (List Route)
  sift_routes dst gateway addrs [] static_routes = pure static_routes
  sift_routes dst gateway addrs (route ∷ routes) static_routes =
      let rest = sift_routes dst gateway addrs routes in
      if is_default route
      then rest static_routes
      else if to_own_network addrs route
      then rest static_routes
      else if is_removed dst gateway route
      then (do host.route_del route; rest static_routes)
      else rest (static_routes ++ to_route route ∷ [])

  -- RemoveRoute before the configuration files
  unfoldable pub uninstall_route : Bytes → IpNet → Ip → Exec W (List Route)
  uninstall_route iface dst gateway = do
    reads host.new_handle
    link ← reads (host.link_by_name iface)
    addrs ← reads (host.addr_list link)
    if contains_address dst addrs then raise route_contains_address else do
      routes ← reads (host.route_list link Family.all)
      sift_routes dst gateway addrs routes []

  -- RemoveRoute
  unfoldable pub remove_route : LinuxConfigurator W → Bytes → IpNet → Ip → Exec W (Unit {0})
  remove_route c iface dst gateway = do
    routes ← uninstall_route iface dst gateway
    finish (persist_routes c iface routes)
