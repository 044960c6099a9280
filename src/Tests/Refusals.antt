-- ===== src/Tests/Refusals.antt =====
-- Methods of the Linux configurator that fail on the small machine.
use go_network_configurator.Prelude.{◌≡◌, refl, codes, bytes_eq}
use go_network_configurator.Prelude.Exec.{
  err, ◌>>=◌, gateway_unreachable, primary_refused, address_not_found, route_contains_address,
}
use go_network_configurator.Net.{to4, ip_equal, is_v4, mask_ones, is_link_local, contains}
use go_network_configurator.Linux.{is_default}
use go_network_configurator.Linux.AddAddress.{check_gateway, apply_address, add_address}
use go_network_configurator.Linux.AddAddress.Safety.{add_address_failed}
use go_network_configurator.Linux.Defaults.{capture_defaults}
use go_network_configurator.Linux.RemoveAddress.{
  primary_of_family, scan_remaining, check_removal, take_address, remove_address,
}
use go_network_configurator.Linux.RemoveAddress.Safety.{remove_address_failed}
use go_network_configurator.Linux.SetPrimary.{scan_present, promote, set_primary_address}
use go_network_configurator.Linux.SetPrimary.Safety.{set_primary_address_failed}
use go_network_configurator.Linux.StaticRoutes.{
  contains_address, install_route, add_route, uninstall_route, remove_route,
}
use go_network_configurator.Linux.StaticRoutes.Safety.{add_route_failed, remove_route_failed}
use go_network_configurator.Tests.{toy, toy-IsOutside, told, configurator, net10, far, start}

-- A gateway that 10.0.0.7/24 cannot reach
add_seven_refused :
    (add_address toy configurator (codes "eth0") (net10 7) far.ip start).0 ≡ err gateway_unreachable
unfolding add_address apply_address check_gateway ip_equal is_v4 to4 is_link_local contains bytes_eq
    ◌>>=◌
add_seven_refused = refl

add_address_failed_example :
    told (add_address toy configurator (codes "eth0") (net10 7) far.ip start).1 ≡ told start
add_address_failed_example =
    add_address_failed toy toy-IsOutside configurator (codes "eth0") (net10 7) far.ip start
      gateway_unreachable add_seven_refused

-- The primary address
remove_five_refused :
    (remove_address toy configurator (codes "eth0") (net10 5) start).0 ≡ err primary_refused
unfolding remove_address take_address capture_defaults primary_of_family scan_remaining
    check_removal is_default mask_ones ip_equal is_v4 to4 is_link_local contains bytes_eq ◌>>=◌
remove_five_refused = refl

remove_address_failed_example :
    told (remove_address toy configurator (codes "eth0") (net10 5) start).1 ≡ told start
remove_address_failed_example =
    remove_address_failed toy toy-IsOutside configurator (codes "eth0") (net10 5) start
      primary_refused remove_five_refused

-- An address that the interface does not have
promote_nine_refused :
    (set_primary_address toy configurator (codes "eth0") (net10 9) start).0 ≡ err address_not_found
unfolding set_primary_address promote scan_present ip_equal is_v4 to4 is_link_local bytes_eq ◌>>=◌
promote_nine_refused = refl

set_primary_address_failed_example :
    told (set_primary_address toy configurator (codes "eth0") (net10 9) start).1 ≡ told start
set_primary_address_failed_example =
    set_primary_address_failed toy toy-IsOutside configurator (codes "eth0") (net10 9) start
      address_not_found promote_nine_refused

-- The interface's own network
add_own_refused :
    (add_route toy configurator (codes "eth0") (net10 0) far.ip 0 start).0
    ≡ err route_contains_address
unfolding add_route install_route contains_address mask_ones to4 contains bytes_eq ◌>>=◌
add_own_refused = refl

add_route_failed_example :
    told (add_route toy configurator (codes "eth0") (net10 0) far.ip 0 start).1 ≡ told start
add_route_failed_example =
    add_route_failed toy toy-IsOutside configurator (codes "eth0") (net10 0) far.ip 0 start
      route_contains_address add_own_refused

remove_own_refused :
    (remove_route toy configurator (codes "eth0") (net10 0) far.ip start).0
    ≡ err route_contains_address
unfolding remove_route uninstall_route contains_address mask_ones to4 contains bytes_eq ◌>>=◌
remove_own_refused = refl

remove_route_failed_example :
    told (remove_route toy configurator (codes "eth0") (net10 0) far.ip start).1 ≡ told start
remove_route_failed_example =
    remove_route_failed toy toy-IsOutside configurator (codes "eth0") (net10 0) far.ip start
      route_contains_address remove_own_refused
