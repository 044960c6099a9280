-- ===== src/Linux/RemoveAddress/Safety.antt =====
-- RemoveAddress writes nothing to the configuration files or the panels unless it succeeds.
use go_network_configurator.Prelude.{◌≡◌, ◌∙◌, ap, Bool, Option, none, some, Bytes}
use go_network_configurator.Prelude.Exec.{err, Error, finish-err}
use go_network_configurator.Net.{Ip, IpNet}
use go_network_configurator.Host.{Host, Link, Addr}
use go_network_configurator.Host.Keeps.{Keeps, IsOutside, keeps_rules}
use go_network_configurator.Linux.{LinuxConfigurator}
use go_network_configurator.Linux.RemoveAddress.{
  check_removal, remove_found, take_address, persist_removal, remove_address,
}

module _ {W V : Type 0} {view : W → V} {host : Host W} (outside : IsOutside view host) where
  check_removal-Keeps :
      (c : LinuxConfigurator W) (addr : IpNet) (primary gw : Ip) (reached : Bool)
      → Keeps view (check_removal c addr primary gw reached)
  unfolding check_removal
  check_removal-Keeps c addr primary gw reached = search keeps_rules

  remove_found-Keeps :
      (c : LinuxConfigurator W) (link : Link) (gw : Ip) (found : Option Addr)
      → Keeps view (remove_found host c link gw found)
  unfolding remove_found
  remove_found-Keeps c link gw none = search keeps_rules
  remove_found-Keeps c link gw (some a) =
      search (keeps_rules, outside, outside.addr_del, outside.addr_replace) depth 9

  pub take_address-Keeps :
      (c : LinuxConfigurator W) (iface : Bytes) (addr : IpNet)
      → Keeps view (take_address host c iface addr)
  unfolding take_address
  take_address-Keeps c iface addr =
      search (keeps_rules, check_removal-Keeps, remove_found-Keeps) depth 12

-- Whatever in RemoveAddress fails, what the calls on the running system do not touch, such as the
-- configuration files and the control panels, is as it was.
pub remove_address_failed :
    {W V : Type 0} {view : W → V} (host : Host W)
    → IsOutside view host
    → (c : LinuxConfigurator W) (iface : Bytes) (addr : IpNet) (w : W) (e : Error)
    → (remove_address host c iface addr w).0 ≡ err e
    → view (remove_address host c iface addr w).1 ≡ view w
unfolding remove_address
remove_address_failed {view} host outside c iface addr w e h =
    ap view (finish-err (take_address host c iface addr) (persist_removal host c iface addr.ip) w h)
    ∙ (take_address-Keeps outside c iface addr).at w
