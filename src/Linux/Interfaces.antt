-- ===== src/Linux/Interfaces.antt =====
-- GetInterfaces of configurator_linux.go.
pub mod Described
use go_network_configurator.Prelude.{
  ℕ, Bool, true, false, not, ◌&&◌, ◌||◌, List, [], ◌∷◌, ◌++◌, if◌then◌else◌, Bytes, codes, bytes_eq,
  any,
}
use go_network_configurator.Prelude.Exec.{Exec, Result, ok, err, Error, pure, reads, ◌>>=◌, ◌>>◌}
use go_network_configurator.Net.{Ip, IpNet, is_nil, is_v4, is_link_local}
use go_network_configurator.Iface.{Interface, Route}
use go_network_configurator.Backend.{merge_backend_state}
use go_network_configurator.Host.{Host, Family, Link, NlRoute, Addr}
use go_network_configurator.Linux.{LinuxConfigurator, is_default, link_is_up, link_is_physical}
use go_network_configurator.Linux.StaticRoutes.{to_own_network, to_route}

-- `new(Interface)` with the link's name and state
abbrev pub new_interface : Link → Interface
new_interface link = record {
  name = link.name;
  mac = link.hardware_addr;
  addresses = [];
  gateway4 = [];
  gateway6 = [];
  routes = [];
  dns = [];
  up = link_is_up link;
  physical = link_is_physical link;
  dhcp4 = false;
  dhcp6 = false;
  search_domains = [];
}

-- Add IP Addresses.
unfoldable pub fill_addresses : List Addr → Interface → Interface
fill_addresses [] i = i
fill_addresses (addr ∷ addrs) i =
    let rest = fill_addresses addrs in
    if is_link_local addr.ip_net.ip
    then rest i
    else rest (record i { addresses = i.addresses ++ addr.ip_net ∷ [] })

-- Add static routes.
unfoldable pub fill_routes : List Addr → List NlRoute → Interface → Interface
fill_routes addrs [] i = i
fill_routes addrs (route ∷ routes) i =
    let rest = fill_routes addrs routes in
    if is_nil route.gw
    then rest i
    else if is_default route
    then rest (
        if is_v4 route.gw
        then record i { gateway4 = route.gw }
        else record i { gateway6 = route.gw })
    else if to_own_network addrs route
    then rest i
    else rest (record i { routes = i.routes ++ to_route route ∷ [] })

abbrev pub lo : Bytes
lo = codes "lo"

module _ {W : Type 0} (host : Host W) where
  -- One link of the loop
  unfoldable pub describe : Link → Exec W Interface
  describe link = do
    addrs ← reads (host.addr_list link)
    routes ← reads (host.route_list link Family.all)
    pure (fill_routes addrs routes (fill_addresses addrs (new_interface link)))

  -- The loop over the links
  unfoldable pub describe_links : List Link → Exec W (List Interface)
  describe_links [] = pure []
  describe_links (link ∷ links) =
      let rest = describe_links links in
      if bytes_eq link.name lo
      then rest
      else do i ← describe link; interfaces ← rest; pure (i ∷ interfaces)

  -- GetInterfaces
  unfoldable pub get_interfaces : LinuxConfigurator W → Exec W (List Interface)
  get_interfaces c = do
    reads host.new_handle
    links ← reads host.link_list
    interfaces ← describe_links links
    reads (λ w. ok (merge_backend_state c.iface_backends w interfaces))
