-- ===== src/Linux/AddAddress/Safety.antt =====
-- AddAddress writes nothing to the configuration files or the panels unless it succeeds.
use go_network_configurator.Prelude.{
  ◌≡◌, refl, ◌∙◌, ap, Bool, true, false, List, [], ◌∷◌, Option, none, some, Bytes,
}
use go_network_configurator.Prelude.Exec.{Exec, err, Error, finish-err}
use go_network_configurator.Net.{Ip, IpNet}
use go_network_configurator.Host.{Host, Link, Addr, NlRoute}
use go_network_configurator.Host.Keeps.{
  Keeps, IsOutside, keeps_rules, Keeps-bind, Keeps-reads, Keeps-on_error,
}
use go_network_configurator.Linux.{LinuxConfigurator, ensure_link_up}
use go_network_configurator.Linux.AddAddress.{
  Existing, Gateways, check_gateway, update_netmask, scan_addresses, add_if_new, take_over,
  default_route, scan_routes, add_missing_gateway, restore_addresses, remove_added, restore_route,
  unless_esrch, roll_back, confirm, change_runtime, lower_link, persist, apply_address, add_address,
  note,
}

module _ {W V : Type 0} {view : W → V} {host : Host W} (outside : IsOutside view host) where
  check_gateway-Keeps : (addr : IpNet) (gateway : Ip) → Keeps view (check_gateway addr gateway)
  unfolding check_gateway
  check_gateway-Keeps addr gateway = search keeps_rules

  ensure_link_up-Keeps : (link : Link) → Keeps view (ensure_link_up host link)
  unfolding ensure_link_up
  ensure_link_up-Keeps link = search (keeps_rules, outside.link_set_up)

  update_netmask-Keeps :
      (link : Link) (addr : IpNet) (address : Addr)
      → Keeps view (update_netmask host link addr address)
  unfolding update_netmask
  update_netmask-Keeps link addr address = search (keeps_rules, outside.addr_replace)

  scan_addresses-Keeps :
      (link : Link) (addr : IpNet) (addrs : List Addr) (st : Existing)
      → Keeps view (scan_addresses host link addr addrs st)
  unfolding scan_addresses
  scan_addresses-Keeps link addr [] st = search keeps_rules
  scan_addresses-Keeps link addr (a ∷ addrs) st =
      Keeps-bind _ _ (update_netmask-Keeps link addr a)
        (λ now. scan_addresses-Keeps link addr addrs (note _ a now st))

  add_if_new-Keeps :
      (c : LinuxConfigurator W) (link : Link) (addr : IpNet) (st : Existing)
      → Keeps view (add_if_new host c link addr st)
  unfolding add_if_new
  add_if_new-Keeps c link addr st = search (keeps_rules, outside, outside.addr_add)

  default_route-Keeps :
      (addr : IpNet) (route : NlRoute) (g : Gateways) → Keeps view (default_route host addr route g)
  unfolding default_route take_over
  default_route-Keeps addr route g = search (keeps_rules, outside.route_del, outside.route_change)

  scan_routes-Keeps :
      (addr : IpNet) (routes : List NlRoute) (g : Gateways)
      → Keeps view (scan_routes host addr routes g)
  unfolding scan_routes
  scan_routes-Keeps addr [] g = search keeps_rules
  scan_routes-Keeps addr (r ∷ routes) g =
      search (keeps_rules, default_route-Keeps, scan_routes-Keeps addr routes)

  add_missing_gateway-Keeps :
      (link : Link) (addr : IpNet) (g : Gateways)
      → Keeps view (add_missing_gateway host link addr g)
  unfolding add_missing_gateway
  add_missing_gateway-Keeps link addr g = search (keeps_rules, outside.route_add)

  restore_addresses-Keeps :
      (link : Link) (origs : List IpNet) → Keeps view (restore_addresses host link origs)
  unfolding restore_addresses
  restore_addresses-Keeps link [] = search keeps_rules
  restore_addresses-Keeps link (o ∷ origs) =
      Keeps-bind _ _ (outside.addr_replace link _) (λ _. restore_addresses-Keeps link origs)

  unless_esrch-Keeps : (m : Exec W (Unit {0})) → Keeps view m → Keeps view (unless_esrch m)
  unless_esrch-Keeps m k = record { at = λ w. k.at w }

  remove_added-Keeps : (added : Option NlRoute) → Keeps view (remove_added host added)
  unfolding remove_added
  remove_added-Keeps none = search keeps_rules
  remove_added-Keeps (some route) =
      unless_esrch-Keeps (host.route_del route) (outside.route_del route)

  restore_route-Keeps : (orig added : Option NlRoute) → Keeps view (restore_route host orig added)
  unfolding restore_route
  restore_route-Keeps none added = remove_added-Keeps added
  restore_route-Keeps (some r) added =
      search (keeps_rules, remove_added-Keeps, outside.route_replace)

  roll_back-Keeps :
      (link : Link) (addr : IpNet) (st : Existing) (orig added : Option NlRoute)
      → Keeps view (roll_back host link addr st orig added)
  unfolding roll_back
  roll_back-Keeps link addr st orig added =
      search (keeps_rules, outside.addr_del, restore_addresses-Keeps, restore_route-Keeps)

  confirm-Keeps :
      (c : LinuxConfigurator W) (link : Link) (addr : IpNet) (st : Existing) (g : Gateways)
      → Keeps view (confirm host c link addr st g)
  unfolding confirm
  confirm-Keeps c link addr st g =
      search (keeps_rules, outside, add_missing_gateway-Keeps, roll_back-Keeps) depth 9

  change_runtime-Keeps :
      (c : LinuxConfigurator W) (link : Link) (addr : IpNet) (gateway : Ip)
      → Keeps view (change_runtime host c link addr gateway)
  unfolding change_runtime
  change_runtime-Keeps c link addr gateway =
      search (keeps_rules, scan_addresses-Keeps, add_if_new-Keeps, scan_routes-Keeps, confirm-Keeps)
        depth 9

  lower_link-keeps :
      (brought_up : Bool) (link : Link) (w : W) → view (lower_link host brought_up link w) ≡ view w
  lower_link-keeps true link w = (outside.link_set_down link).at w
  lower_link-keeps false link w = refl

  pub apply_address-Keeps :
      (c : LinuxConfigurator W) (iface : Bytes) (addr : IpNet) (gateway : Ip)
      → Keeps view (apply_address host c iface addr gateway)
  unfolding apply_address
  apply_address-Keeps c iface addr gateway = Keeps-bind _ _ (Keeps-reads host.new_handle) λ _.
      Keeps-bind _ _ (Keeps-reads (host.link_by_name iface)) λ link.
        Keeps-bind _ _ (check_gateway-Keeps addr gateway) λ _.
          Keeps-bind _ _ (ensure_link_up-Keeps link) λ brought_up.
            Keeps-on_error (lower_link host brought_up link)
              (change_runtime host c link addr gateway) (lower_link-keeps brought_up link)
              (change_runtime-Keeps c link addr gateway)

-- Whatever in AddAddress fails, what the calls on the running system do not touch, such as the
-- configuration files and the control panels, is as it was.
pub add_address_failed :
    {W V : Type 0} {view : W → V} (host : Host W)
    → IsOutside view host
    → (c : LinuxConfigurator W) (iface : Bytes) (addr : IpNet) (gateway : Ip) (w : W) (e : Error)
    → (add_address host c iface addr gateway w).0 ≡ err e
    → view (add_address host c iface addr gateway w).1 ≡ view w
unfolding add_address
add_address_failed {view} host outside c iface addr gateway w e h =
    ap view (finish-err (apply_address host c iface addr gateway) (persist host c iface) w h)
    ∙ (apply_address-Keeps outside c iface addr gateway).at w
