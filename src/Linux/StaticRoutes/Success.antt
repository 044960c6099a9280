-- ===== src/Linux/StaticRoutes/Success.antt =====
-- What AddRoute and RemoveRoute have checked and done where they succeed.
use go_network_configurator.Prelude.{
  ◌≡◌, refl, ◌∙◌, sym, ap, ℕ, Bool, true, false, not, ◌&&◌, List, [], ◌∷◌, ◌++◌, map, select, Bytes,
  arith, if◌then◌else◌, append_assoc, append-nil, Bool-cases, inl, inr,
}
use go_network_configurator.Prelude.Exec.{
  pair, attempt, Exec, ok, Error, pure, raise, reads, >>=-eq-ok, route_contains_address,
}
use go_network_configurator.Net.{Ip, IpNet}
use go_network_configurator.Iface.{Route}
use go_network_configurator.Host.{Host, Link, Addr, NlRoute, Family}
use go_network_configurator.Linux.{LinuxConfigurator, family_of, is_default}
use go_network_configurator.Linux.StaticRoutes.{
  contains_address, to_own_network, to_route, collect_routes, is_removed, install_route,
  persist_routes, add_route, sift_routes, uninstall_route, remove_route,
}

-- A static route: neither a default route nor one to an own network of the interface.
abbrev pub is_static : List Addr → NlRoute → Bool
is_static addrs r = not (is_default r) && not (to_own_network addrs r)

collect_routes_lem :
    (addrs : List Addr) (routes : List NlRoute) (kept : List Route)
    → collect_routes addrs routes kept ≡ kept ++ map to_route (select (is_static addrs) routes)
unfolding collect_routes
collect_routes_lem addrs [] kept = ground (arith, append-nil kept)
collect_routes_lem addrs (r ∷ routes) kept = ground (
  arith,
  collect_routes_lem addrs routes kept,
  collect_routes_lem addrs routes (kept ++ to_route r ∷ []),
  append_assoc kept (to_route r ∷ []) (map to_route (select (is_static addrs) routes)),
)

module _ {W : Type 0} {A : Type 0} where
  unrefused-ok :
      (b : Bool) (e : Error) (m : Exec W A) (w : W) {a : A} {w' : W}
      → (if b then raise e else m) w ≡ (ok a, w')
      → (b ≡ false) × (m w ≡ (ok a, w'))
  unrefused-ok false e m w h = (refl, h)
  unrefused-ok true e m w h = cc

  kept_of : {p q : A} {w w' : W} → pure p w ≡ (ok q, w') → q ≡ p
  kept_of h = cc

-- The route that AddRoute adds.
abbrev pub new_route : Link → IpNet → Ip → ℕ → NlRoute
new_route link dst gateway metric = record {
  family = family_of dst.ip;
  link_index = link.index;
  dst = dst;
  gw = gateway;
  priority = metric;
  attributes = 0;
}

-- How a successful AddRoute went.
pub record RouteAdded {W : Type 0} (host : Host W) (c : LinuxConfigurator W) (iface : Bytes)
    (dst : IpNet) (gateway : Ip) (metric : ℕ) (w w' : W) : Type 0 where
  pub link : Link
  pub link_found : host.link_by_name iface w ≡ ok link
  pub listed : List Addr
  pub addresses_listed : host.addr_list link w ≡ ok listed
  pub not_own : contains_address dst listed ≡ false
  pub applied : W
  pub added : host.route_add (new_route link dst gateway metric) w ≡ (ok tt, applied)
  pub routes : List NlRoute
  pub routes_listed : host.route_list link Family.all applied ≡ ok routes
  pub written :
      w' ≡ persist_routes host c iface (map to_route (select (is_static listed) routes)) applied

module _ {W : Type 0} (host : Host W) (c : LinuxConfigurator W) (iface : Bytes) (dst : IpNet)
    (gateway : Ip) where
  -- Where AddRoute succeeds, the destination contains no address of the interface unless it is a
  -- default one, the kernel has accepted the route, and the configuration files got every static
  -- route that the interface has after that, in the kernel's order.
  pub add_route_succeeded :
      (metric : ℕ) (w w' : W)
      → add_route host c iface dst gateway metric w ≡ (ok tt, w')
      → RouteAdded host c iface dst gateway metric w w'
  unfolding add_route install_route
  add_route_succeeded metric w w' h =
      let m = install_route host iface dst gateway metric in
      let (kept, d, e) = >>=-eq-ok m _ w h in
      let (u, d1, h1) = >>=-eq-ok (reads host.new_handle) _ w (pair m w d) in
      let (link, d2, h2) = >>=-eq-ok (reads (host.link_by_name iface)) _ _ h1 in
      let (listed, d3, h3) = >>=-eq-ok (reads (host.addr_list link)) _ _ h2 in
      let (clear, h4) = unrefused-ok (contains_address dst listed) route_contains_address _ w h3 in
      let add = host.route_add (new_route link dst gateway metric) in
      let (u5, d5, h5) = >>=-eq-ok add _ w h4 in
      let (routes, d6, h6) = >>=-eq-ok (reads (host.route_list link Family.all)) _ _ h5 in
      record {
        link = link;
        link_found = d2;
        listed = listed;
        addresses_listed = d3;
        not_own = clear;
        applied = (add w).1;
        added = pair add w d5;
        routes = routes;
        routes_listed = d6;
        written =
            sym (ap (λ r. r.1) e)
            ∙ ap (λ v. persist_routes host c iface kept v) (sym (ap (λ r. r.1) h6))
            ∙ ap (λ k. persist_routes host c iface k (add w).1)
                (kept_of h6 ∙ collect_routes_lem listed routes []);
      }

-- The state after the kernel was asked to delete some routes.
pub deletes : {W : Type 0} → Host W → List NlRoute → W → W
deletes host [] w = w
deletes host (r ∷ routes) w = deletes host routes (attempt (host.route_del r) w)

-- How a successful RemoveRoute went.
pub record RouteRemoved {W : Type 0} (host : Host W) (c : LinuxConfigurator W) (iface : Bytes)
    (dst : IpNet) (gateway : Ip) (w w' : W) : Type 0 where
  pub link : Link
  pub link_found : host.link_by_name iface w ≡ ok link
  pub listed : List Addr
  pub addresses_listed : host.addr_list link w ≡ ok listed
  pub not_own : contains_address dst listed ≡ false
  pub routes : List NlRoute
  pub routes_listed : host.route_list link Family.all w ≡ ok routes
  pub written :
      w'
      ≡ persist_routes host c iface
          (map to_route (select (λ r. is_static listed r && not (is_removed dst gateway r)) routes))
          (deletes host (select (λ r. is_static listed r && is_removed dst gateway r) routes) w)

module _ {W : Type 0} (host : Host W) (dst : IpNet) (gateway : Ip) (listed : List Addr) where
  abbrev stay : NlRoute → Bool
  stay r = is_static listed r && not (is_removed dst gateway r)

  abbrev leave : NlRoute → Bool
  leave r = is_static listed r && is_removed dst gateway r

  Sifted : List NlRoute → List Route → W → List Route → W → Type 0
  Sifted routes before w kept w' =
      (kept ≡ before ++ map to_route (select stay routes))
      × (w' ≡ deletes host (select leave routes) w)

  sift_routes-ok :
      (routes : List NlRoute) (before : List Route) (w : W) {kept : List Route} {w' : W}
      → sift_routes host dst gateway listed routes before w ≡ (ok kept, w')
      → Sifted routes before w kept w'
  unfolding sift_routes Sifted deletes
  sift_routes-ok [] before w h = (ground (arith, append-nil before), cc)
  sift_routes-ok (r ∷ routes) before w h = elim (Bool-cases (is_default r)) [
    | inl y ↦ rw y (sift_routes-ok routes before w (rw y at h))
    | inr n ↦ elim (Bool-cases (to_own_network listed r)) [
      | inl y ↦ rw (n, y) (sift_routes-ok routes before w (rw (n, y) at h))
      | inr o ↦ elim (Bool-cases (is_removed dst gateway r)) [
        | inl y ↦
            let (u, d1, h1) = >>=-eq-ok (host.route_del r) _ w (rw (n, o, y) at h) in
            rw (n, o, y) (sift_routes-ok routes before _ h1)
        | inr k ↦
            let (e1, e2) =
              sift_routes-ok routes (before ++ to_route r ∷ []) w (rw (n, o, k) at h) in
            rw (n, o, k)
              (e1 ∙ append_assoc before (to_route r ∷ []) (map to_route (select stay routes)), e2)
      ]
    ]
  ]

module _ {W : Type 0} (host : Host W) (c : LinuxConfigurator W) (iface : Bytes) (dst : IpNet)
    (gateway : Ip) where
  -- Where RemoveRoute succeeds, the destination contains no address of the interface unless it is
  -- a default one; the kernel was asked to delete the static routes that the destination and the
  -- gateway name, each of them and no other; and the configuration files got the other static
  -- routes, in the kernel's order.
  pub remove_route_succeeded :
      (w w' : W)
      → remove_route host c iface dst gateway w ≡ (ok tt, w')
      → RouteRemoved host c iface dst gateway w w'
  unfolding remove_route uninstall_route Sifted
  remove_route_succeeded w w' h =
      let m = uninstall_route host iface dst gateway in
      let (kept, d, e) = >>=-eq-ok m _ w h in
      let (u, d1, h1) = >>=-eq-ok (reads host.new_handle) _ w (pair m w d) in
      let (link, d2, h2) = >>=-eq-ok (reads (host.link_by_name iface)) _ _ h1 in
      let (listed, d3, h3) = >>=-eq-ok (reads (host.addr_list link)) _ _ h2 in
      let (clear, h4) = unrefused-ok (contains_address dst listed) route_contains_address _ w h3 in
      let (routes, d5, h5) = >>=-eq-ok (reads (host.route_list link Family.all)) _ w h4 in
      let (kept_eq, state_eq) = sift_routes-ok host dst gateway listed routes [] w h5 in
      record {
        link = link;
        link_found = d2;
        listed = listed;
        addresses_listed = d3;
        not_own = clear;
        routes = routes;
        routes_listed = d5;
        written =
            sym (ap (λ r. r.1) e)
            ∙ ap (λ v. persist_routes host c iface kept v) state_eq
            ∙ ap
                (λ k. persist_routes host c iface k (
                  deletes host (select (λ r. is_static listed r && is_removed dst gateway r) routes)
                    w))
                kept_eq;
      }
