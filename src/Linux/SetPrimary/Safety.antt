-- ===== src/Linux/SetPrimary/Safety.antt =====
-- SetPrimaryAddress writes nothing to the configuration files or the panels unless it succeeds.
use go_network_configurator.Prelude.{◌≡◌, ◌∙◌, ap, List, [], ◌∷◌, Option, none, some, Bytes}
use go_network_configurator.Prelude.Exec.{err, Error, finish-err}
use go_network_configurator.Net.{IpNet}
use go_network_configurator.Host.{Host, Link, Addr, NlRoute, Family}
use go_network_configurator.Host.Keeps.{Keeps, IsOutside, keeps_rules, Keeps-bind}
use go_network_configurator.Linux.{LinuxConfigurator}
use go_network_configurator.Linux.SetPrimary.{
  remove_all, replace_all, restore_default, reapply, confirm_order, reorder, promote,
  persist_primary, set_primary_address,
}

module _ {W V : Type 0} {view : W → V} {host : Host W} (outside : IsOutside view host) where
  remove_all-Keeps : (link : Link) (addrs : List Addr) → Keeps view (remove_all host link addrs)
  unfolding remove_all
  remove_all-Keeps link [] = search keeps_rules
  remove_all-Keeps link (a ∷ addrs) =
      Keeps-bind _ _ (outside.addr_del link a) (λ _. remove_all-Keeps link addrs)

  replace_all-Keeps : (link : Link) (addrs : List Addr) → Keeps view (replace_all host link addrs)
  unfolding replace_all
  replace_all-Keeps link [] = search keeps_rules
  replace_all-Keeps link (a ∷ addrs) =
      Keeps-bind _ _ (outside.addr_replace link a) (λ _. replace_all-Keeps link addrs)

  restore_default-Keeps :
      (link : Link) (family : Family) (route : Option NlRoute)
      → Keeps view (restore_default host link family route)
  unfolding restore_default
  restore_default-Keeps link family none = search keeps_rules
  restore_default-Keeps link family (some r) = search (keeps_rules, outside.route_replace)

  reapply-Keeps :
      (link : Link) (family : Family) (addrs : List Addr) (route : Option NlRoute)
      (order : List Addr)
      → Keeps view (reapply host link family addrs route order)
  unfolding reapply
  reapply-Keeps link family addrs route order =
      search (keeps_rules, remove_all-Keeps, replace_all-Keeps, restore_default-Keeps)

  confirm_order-Keeps :
      (c : LinuxConfigurator W) (link : Link) (family : Family) (addrs : List Addr)
      (route : Option NlRoute)
      → Keeps view (confirm_order host c link family addrs route)
  unfolding confirm_order
  confirm_order-Keeps c link family addrs none = search keeps_rules
  confirm_order-Keeps c link family addrs (some r) =
      search (keeps_rules, outside, reapply-Keeps) depth 9

  reorder-Keeps :
      (c : LinuxConfigurator W) (link : Link) (addr : IpNet) (addrs : List Addr)
      (route : Option NlRoute)
      → Keeps view (reorder host c link addr addrs route)
  unfolding reorder
  reorder-Keeps c link addr addrs route = search (keeps_rules, reapply-Keeps, confirm_order-Keeps)

  pub promote-Keeps :
      (c : LinuxConfigurator W) (iface : Bytes) (addr : IpNet)
      → Keeps view (promote host c iface addr)
  unfolding promote
  promote-Keeps c iface addr = search (keeps_rules, reorder-Keeps) depth 12

-- Whatever in SetPrimaryAddress fails, what the calls on the running system do not touch, such as
-- the configuration files and the control panels, is as it was.
pub set_primary_address_failed :
    {W V : Type 0} {view : W → V} (host : Host W)
    → IsOutside view host
    → (c : LinuxConfigurator W) (iface : Bytes) (addr : IpNet) (w : W) (e : Error)
    → (set_primary_address host c iface addr w).0 ≡ err e
    → view (set_primary_address host c iface addr w).1 ≡ view w
unfolding set_primary_address
set_primary_address_failed {view} host outside c iface addr w e h =
    ap view (finish-err (promote host c iface addr) (persist_primary host c iface addr.ip) w h)
    ∙ (promote-Keeps outside c iface addr).at w
