-- ===== src/Linux/StaticRoutes/Safety.antt =====
-- AddRoute and RemoveRoute write nothing to the configuration files unless they succeed.
use go_network_configurator.Prelude.{◌≡◌, ◌∙◌, ap, ℕ, List, [], ◌∷◌, Bytes}
use go_network_configurator.Prelude.Exec.{err, Error, finish-err}
use go_network_configurator.Net.{Ip, IpNet}
use go_network_configurator.Iface.{Route}
use go_network_configurator.Host.{Host, Addr, NlRoute}
use go_network_configurator.Host.Keeps.{Keeps, IsOutside, keeps_rules}
use go_network_configurator.Linux.{LinuxConfigurator}
use go_network_configurator.Linux.StaticRoutes.{
  install_route, persist_routes, add_route, sift_routes, uninstall_route, remove_route,
}

module _ {W V : Type 0} {view : W → V} {host : Host W} (outside : IsOutside view host) where
  install_route-Keeps :
      (iface : Bytes) (dst : IpNet) (gateway : Ip) (metric : ℕ)
      → Keeps view (install_route host iface dst gateway metric)
  unfolding install_route
  install_route-Keeps iface dst gateway metric = search (keeps_rules, outside.route_add) depth 12

  sift_routes-Keeps :
      (dst : IpNet) (gateway : Ip) (addrs : List Addr) (routes : List NlRoute) (kept : List Route)
      → Keeps view (sift_routes host dst gateway addrs routes kept)
  unfolding sift_routes
  sift_routes-Keeps dst gateway addrs [] kept = search keeps_rules
  sift_routes-Keeps dst gateway addrs (r ∷ routes) kept =
      search (keeps_rules, outside.route_del, sift_routes-Keeps dst gateway addrs routes)

  uninstall_route-Keeps :
      (iface : Bytes) (dst : IpNet) (gateway : Ip)
      → Keeps view (uninstall_route host iface dst gateway)
  unfolding uninstall_route
  uninstall_route-Keeps iface dst gateway = search (keeps_rules, sift_routes-Keeps) depth 12

module _ {W V : Type 0} {view : W → V} (host : Host W) (outside : IsOutside view host)
    (c : LinuxConfigurator W) (iface : Bytes) where
  -- Whatever in AddRoute fails, what the calls on the running system do not touch, such as the
  -- configuration files, is as it was.
  pub add_route_failed :
      (dst : IpNet) (gateway : Ip) (metric : ℕ) (w : W) (e : Error)
      → (add_route host c iface dst gateway metric w).0 ≡ err e
      → view (add_route host c iface dst gateway metric w).1 ≡ view w
  unfolding add_route
  add_route_failed dst gateway metric w e h =
      ap view
        (finish-err (install_route host iface dst gateway metric) (persist_routes host c iface) w h)
      ∙ (install_route-Keeps outside iface dst gateway metric).at w

  -- Whatever in RemoveRoute fails, what the calls on the running system do not touch, such as the
  -- configuration files, is as it was.
  pub remove_route_failed :
      (dst : IpNet) (gateway : Ip) (w : W) (e : Error)
      → (remove_route host c iface dst gateway w).0 ≡ err e
      → view (remove_route host c iface dst gateway w).1 ≡ view w
  unfolding remove_route
  remove_route_failed dst gateway w e h =
      ap view
        (finish-err (uninstall_route host iface dst gateway) (persist_routes host c iface) w h)
      ∙ (uninstall_route-Keeps outside iface dst gateway).at w
