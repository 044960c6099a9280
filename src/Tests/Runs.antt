-- ===== src/Tests/Runs.antt =====
-- Methods of the Linux configurator that succeed on the small machine.
use go_network_configurator.Prelude.{◌≡◌, refl, true, false, List, [], ◌∷◌, codes, bytes_eq}
use go_network_configurator.Prelude.Exec.{ok, ◌>>=◌}
use go_network_configurator.Net.{
  Ip, IpNet, to4, ip_equal, is_v4, mask_ones, is_link_local, contains,
}
use go_network_configurator.Iface.{Interface, without_target, reorder_primary_address}
use go_network_configurator.Backend.{
  apply_iface_addresses, apply_iface_routes, reload_panels, set_main_ip_on_panels,
  remove_ip_from_panels, merge_backend_state, merge_interfaces,
}
use go_network_configurator.Host.{Link, ping_test, test_internet}
use go_network_configurator.Linux.{is_default, ensure_link_up, link_is_up, link_is_physical}
use go_network_configurator.Linux.AddAddress.{
  check_gateway, update_netmask, scan_addresses, add_if_new, take_over, default_route, scan_routes,
  add_missing_gateway, confirm, change_runtime, apply_address, add_address,
}
use go_network_configurator.Linux.AddAddress.Outcome.{AddOutcome}
use go_network_configurator.Linux.AddAddress.Success.{add_address_succeeded}
use go_network_configurator.Linux.Defaults.{capture_defaults}
use go_network_configurator.Linux.RemoveAddress.{
  primary_of_family, scan_remaining, check_removal, remove_found, take_address, remove_address,
}
use go_network_configurator.Linux.RemoveAddress.Success.{RemovalOutcome, remove_address_succeeded}
use go_network_configurator.Linux.SetPrimary.{
  scan_present, remove_first, desired_order, remove_all, replace_all, restore_default, reapply,
  confirm_order, reorder, promote, set_primary_address,
}
use go_network_configurator.Linux.SetPrimary.Success.{
  PromotionOutcome, set_primary_address_succeeded, IsPromotion, desired_order-IsPromotion,
}
use go_network_configurator.Linux.StaticRoutes.{
  contains_address, collect_routes, to_route, install_route, add_route, sift_routes,
  uninstall_route, remove_route,
}
use go_network_configurator.Linux.StaticRoutes.Success.{
  RouteAdded, RouteRemoved, add_route_succeeded, remove_route_succeeded,
}
use go_network_configurator.Linux.Interfaces.{
  fill_addresses, fill_routes, describe, describe_links, get_interfaces,
}
use go_network_configurator.Linux.Interfaces.Described.{Describes, get_interfaces_succeeded}
use go_network_configurator.Tests.{
  told, toy-IsOutside, Machine, toy, configurator, net10, addr10, route_to, default4, far, start,
}

abbrev gateway : Ip
gateway = 10 ∷ 0 ∷ 0 ∷ 1 ∷ []

-- 10.0.0.7 is added, and the gateway stays.
abbrev with_seven : Machine
with_seven = record start {
  addrs = addr10 5 ∷ addr10 6 ∷ addr10 7 ∷ [];
  file_addresses = net10 5 ∷ net10 6 ∷ net10 7 ∷ [];
  file_gateway4 = gateway;
}

add_seven : add_address toy configurator (codes "eth0") (net10 7) [] start ≡ (ok tt, with_seven)
unfolding add_address apply_address check_gateway ensure_link_up change_runtime scan_addresses
    update_netmask add_if_new scan_routes default_route take_over confirm add_missing_gateway
    ping_test test_internet apply_iface_addresses reload_panels is_default mask_ones ip_equal is_v4
    to4 is_link_local contains bytes_eq ◌>>=◌
add_seven = refl

add_address_succeeded_example :
    AddOutcome told toy configurator (codes "eth0") (net10 7) [] start with_seven
add_address_succeeded_example =
    add_address_succeeded toy toy-IsOutside configurator (codes "eth0") (net10 7) [] start
      with_seven add_seven

-- 10.0.0.6 is removed.
abbrev without_six : Machine
without_six = record start {
  addrs = addr10 5 ∷ [];
  file_addresses = net10 5 ∷ [];
  file_gateway4 = gateway;
}

remove_six : remove_address toy configurator (codes "eth0") (net10 6) start ≡ (ok tt, without_six)
unfolding remove_address take_address capture_defaults primary_of_family scan_remaining
    check_removal remove_found ping_test test_internet apply_iface_addresses remove_ip_from_panels
    is_default mask_ones ip_equal is_v4 to4 is_link_local contains bytes_eq ◌>>=◌
remove_six = refl

remove_address_succeeded_example :
    RemovalOutcome told toy configurator (codes "eth0") (net10 6) start without_six
remove_address_succeeded_example =
    remove_address_succeeded toy toy-IsOutside configurator (codes "eth0") (net10 6) start
      without_six remove_six

-- 10.0.0.6 becomes the primary address.
abbrev six_first : Machine
six_first = record start {
  addrs = addr10 6 ∷ addr10 5 ∷ [];
  file_addresses = net10 6 ∷ net10 5 ∷ [];
  file_gateway4 = gateway;
  main_ip = 10 ∷ 0 ∷ 0 ∷ 6 ∷ [];
}

promote_six :
    set_primary_address toy configurator (codes "eth0") (net10 6) start ≡ (ok tt, six_first)
unfolding set_primary_address promote scan_present capture_defaults reorder desired_order
    remove_first reapply remove_all replace_all restore_default confirm_order
    reorder_primary_address without_target ping_test test_internet apply_iface_addresses
    reload_panels set_main_ip_on_panels is_default mask_ones ip_equal is_v4 to4 is_link_local
    bytes_eq ◌>>=◌
promote_six = refl

set_primary_address_succeeded_example :
    PromotionOutcome told toy configurator (codes "eth0") (net10 6) start six_first
set_primary_address_succeeded_example =
    set_primary_address_succeeded toy toy-IsOutside configurator (codes "eth0") (net10 6) start
      six_first promote_six

desired_order-IsPromotion_example :
    IsPromotion
      (net10 6).ip
      (addr10 5 ∷ addr10 6 ∷ addr10 7 ∷ [])
      (desired_order (net10 6).ip (addr10 5 ∷ addr10 6 ∷ addr10 7 ∷ []))
unfolding ip_equal bytes_eq
desired_order-IsPromotion_example =
    desired_order-IsPromotion (net10 6).ip (addr10 5 ∷ addr10 6 ∷ addr10 7 ∷ []) refl

-- 192.168.8.0/24
abbrev farther : IpNet
farther = record { ip = 192 ∷ 168 ∷ 8 ∷ 0 ∷ []; mask = 255 ∷ 255 ∷ 255 ∷ 0 ∷ [] }

abbrev with_route : Machine
with_route = record start {
  nl_routes = default4 ∷ route_to far ∷ route_to farther ∷ [];
  file_routes = to_route (route_to far) ∷ to_route (route_to farther) ∷ [];
}

add_farther :
    add_route toy configurator (codes "eth0") farther gateway 0 start ≡ (ok tt, with_route)
unfolding add_route install_route contains_address collect_routes apply_iface_routes is_default
    mask_ones is_v4 to4 contains bytes_eq ◌>>=◌
add_farther = refl

add_route_succeeded_example :
    RouteAdded toy configurator (codes "eth0") farther gateway 0 start with_route
add_route_succeeded_example =
    add_route_succeeded toy configurator (codes "eth0") farther gateway 0 start with_route
      add_farther

abbrev without_far : Machine
without_far = record start { nl_routes = default4 ∷ []; file_routes = [] }

remove_far : remove_route toy configurator (codes "eth0") far gateway start ≡ (ok tt, without_far)
unfolding remove_route uninstall_route contains_address sift_routes apply_iface_routes is_default
    mask_ones ip_equal is_v4 to4 contains bytes_eq ◌>>=◌
remove_far = refl

remove_route_succeeded_example :
    RouteRemoved toy configurator (codes "eth0") far gateway start without_far
remove_route_succeeded_example =
    remove_route_succeeded toy configurator (codes "eth0") far gateway start without_far remove_far

abbrev shown : Interface
shown = record {
  name = codes "eth0";
  mac = [];
  addresses = net10 5 ∷ net10 6 ∷ [];
  gateway4 = gateway;
  gateway6 = [];
  routes = to_route (route_to far) ∷ [];
  dns = [];
  up = true;
  physical = true;
  dhcp4 = false;
  dhcp6 = false;
  search_domains = [];
}

show_all : get_interfaces toy configurator start ≡ (ok (shown ∷ []), start)
unfolding get_interfaces describe_links describe fill_addresses fill_routes link_is_up
    link_is_physical merge_backend_state merge_interfaces is_default mask_ones is_v4 to4
    is_link_local contains bytes_eq ◌>>=◌
show_all = refl

get_interfaces_succeeded_example :
    (links : List Link) × (is : List Interface) × (toy.link_list start ≡ ok links)
    × Describes toy start links is
    × (shown ∷ [] ≡ merge_backend_state configurator.iface_backends start is)
    × (start ≡ start)
get_interfaces_succeeded_example =
    get_interfaces_succeeded toy configurator start start (shown ∷ []) show_all
