-- ===== src/Linux/Interfaces/Described.antt =====
-- What GetInterfaces returns, link by link.
use go_network_configurator.Prelude.{
  ◌≡◌, ◌∙◌, sym, ap, Bool, false, not, ◌&&◌, List, [], ◌∷◌, ◌++◌, map, select, arith, if◌then◌else◌,
  append_assoc, append-nil, Bool-cases, inl, inr, bytes_eq,
}
use go_network_configurator.Prelude.Exec.{pair, ok-inj, ok, pure, reads, ◌>>=◌, >>=-eq-ok}
use go_network_configurator.Net.{Ip, non_nil, is_nil, is_v4, is_link_local}
use go_network_configurator.Iface.{Interface}
use go_network_configurator.Backend.{merge_backend_state}
use go_network_configurator.Host.{Host, Link, Addr, NlRoute, Family}
use go_network_configurator.Linux.{LinuxConfigurator, is_default, link_is_up, link_is_physical}
use go_network_configurator.Linux.StaticRoutes.{to_own_network, to_route}
use go_network_configurator.Linux.AddAddress.Addresses.{is_routed}
use go_network_configurator.Linux.Interfaces.{
  new_interface, fill_addresses, fill_routes, lo, describe, describe_links, get_interfaces,
}

-- The gateway of the last route that passes a test, or another address if none does.
abbrev pub last_gateway : (NlRoute → Bool) → List NlRoute → Ip → Ip
last_gateway p [] gw = gw
last_gateway p (r ∷ routes) gw = last_gateway p routes (if p r then r.gw else gw)

-- A default route by way of a gateway of one family
abbrev pub is_default4 : NlRoute → Bool
is_default4 r = non_nil r.gw && is_default r && is_v4 r.gw

abbrev pub is_default6 : NlRoute → Bool
is_default6 r = non_nil r.gw && is_default r && not (is_v4 r.gw)

-- A static route by way of a gateway, to a network that is not the interface's own
abbrev pub is_shown : List Addr → NlRoute → Bool
is_shown addrs r = non_nil r.gw && not (is_default r) && not (to_own_network addrs r)

fill_addresses_lem :
    (addrs : List Addr) (i : Interface)
    → fill_addresses addrs i
      ≡ record i { addresses = i.addresses ++ map (λ a. a.ip_net) (select is_routed addrs) }
unfolding fill_addresses
fill_addresses_lem [] i = λ k. record i { addresses = sym (append-nil i.addresses) k }
fill_addresses_lem (a ∷ addrs) i = elim (Bool-cases (is_link_local a.ip_net.ip)) [
  | inl y ↦ rw y (fill_addresses_lem addrs i)
  | inr n ↦
      let assoc =
        append_assoc i.addresses (a.ip_net ∷ []) (map (λ b. b.ip_net) (select is_routed addrs)) in
      rw n (
        fill_addresses_lem addrs (record i { addresses = i.addresses ++ a.ip_net ∷ [] })
        ∙ (λ k. record i { addresses = assoc k }))
]

module _ (addrs : List Addr) where
  fill_routes_lem :
      (routes : List NlRoute) (i : Interface)
      → fill_routes addrs routes i ≡ record i {
        gateway4 = last_gateway is_default4 routes i.gateway4;
        gateway6 = last_gateway is_default6 routes i.gateway6;
        routes = i.routes ++ map to_route (select (is_shown addrs) routes);
      }
  unfolding fill_routes
  fill_routes_lem [] i = λ k. record i { routes = sym (append-nil i.routes) k }
  fill_routes_lem (r ∷ routes) i = elim (Bool-cases (is_nil r.gw)) [
    | inl y ↦ rw y (fill_routes_lem routes i)
    | inr n ↦ elim (Bool-cases (is_default r)) [
      | inl y ↦ elim (Bool-cases (is_v4 r.gw)) [
        | inl v ↦ rw (n, y, v) (fill_routes_lem routes (record i { gateway4 = r.gw }))
        | inr v ↦ rw (n, y, v) (fill_routes_lem routes (record i { gateway6 = r.gw }))
      ]
      | inr d ↦ elim (Bool-cases (to_own_network addrs r)) [
        | inl y ↦ rw (n, d, y) (fill_routes_lem routes i)
        | inr o ↦
            let shown = map to_route (select (is_shown addrs) routes) in
            let assoc = append_assoc i.routes (to_route r ∷ []) shown in
            rw (n, d, o)
              (fill_routes_lem routes (record i { routes = i.routes ++ to_route r ∷ [] }) ∙ (λ k.
                record i {
                  gateway4 = last_gateway is_default4 routes i.gateway4;
                  gateway6 = last_gateway is_default6 routes i.gateway6;
                  routes = assoc k;
                }))
      ]
    ]
  ]

-- An interface as the kernel has it: what netlink says of the link, and nothing of DNS and DHCP.
pub described : Link → List Addr → List NlRoute → Interface
described link listed routes = record {
  name = link.name;
  mac = link.hardware_addr;
  addresses = map (λ a. a.ip_net) (select is_routed listed);
  gateway4 = last_gateway is_default4 routes [];
  gateway6 = last_gateway is_default6 routes [];
  routes = map to_route (select (is_shown listed) routes);
  dns = [];
  up = link_is_up link;
  physical = link_is_physical link;
  dhcp4 = false;
  dhcp6 = false;
  search_domains = [];
}

-- The interfaces are the links but the loopback, each described from its addresses and routes.
pub Describes : {W : Type 0} → Host W → W → List Link → List Interface → Type 0
Describes host w [] is = is ≡ []
Describes host w (link ∷ links) is =
    if bytes_eq link.name lo
    then Describes host w links is
    else (listed : List Addr) × (routes : List NlRoute) × (rest : List Interface) × (host.addr_list
          link w
        ≡ ok listed)
      × (host.route_list link Family.all w ≡ ok routes)
      × (is ≡ described link listed routes ∷ rest)
      × Describes host w links rest

returned : {W A : Type 0} {p q : A} {w w' : W} → pure p w ≡ (ok q, w') → q ≡ p
returned h = cc

module _ {W : Type 0} (host : Host W) where
  describe-ok :
      (link : Link) (w : W) {i : Interface}
      → (describe host link w).0 ≡ ok i
      → (listed : List Addr) × (routes : List NlRoute) × (host.addr_list link w ≡ ok listed)
        × (host.route_list link Family.all w ≡ ok routes)
        × (i ≡ described link listed routes)
  unfolding describe described
  describe-ok link w h =
      let (listed, d1, h1) =
        >>=-eq-ok (reads (host.addr_list link)) _ w (pair (describe host link) w h) in
      let (routes, d2, h2) = >>=-eq-ok (reads (host.route_list link Family.all)) _ w h1 in
      (
        listed,
        routes,
        d1,
        d2,
        returned h2
            ∙ fill_routes_lem listed routes (fill_addresses listed (new_interface link))
            ∙ ap {A = Interface} {B = Interface}
                (λ x. record x {
                  gateway4 = last_gateway is_default4 routes x.gateway4;
                  gateway6 = last_gateway is_default6 routes x.gateway6;
                  routes = x.routes ++ map to_route (select (is_shown listed) routes);
                })
                (fill_addresses_lem listed (new_interface link)),
      )

  describe-keeps : (link : Link) (w : W) → (describe host link w).1 ≡ w
  unfolding describe ◌>>=◌
  describe-keeps link w = ground arith

  describe_links-ok :
      (links : List Link) (w : W) {is : List Interface} {w' : W}
      → describe_links host links w ≡ (ok is, w')
      → Describes host w links is × (w' ≡ w)
  unfolding describe_links Describes
  describe_links-ok [] w h = (cc, cc)
  describe_links-ok (link ∷ links) w h = elim (Bool-cases (bytes_eq link.name lo)) [
    | inl y ↦ rw y (describe_links-ok links w (rw y at h))
    | inr n ↦
        let (i, d1, h1) = >>=-eq-ok (describe host link) _ w (rw n at h) in
        let (rest, d2, h2) = >>=-eq-ok (describe_links host links) _ _ h1 in
        let (listed, routes, a, b, e) = describe-ok link w d1 in
        let (ih, same_) = describe_links-ok links _ (pair (describe_links host links) _ d2) in
        let kept = describe-keeps link w in
        rw n (
          (listed, routes, rest, a, b, returned h2 ∙ ap (λ x. x ∷ rest) e, rw kept at ih),
          sym (ap (λ r. r.1) h2) ∙ same_ ∙ kept,
        )
  ]

-- Where GetInterfaces succeeds, it returns what merging the state of the backends makes of the
-- interfaces that the kernel has: the links but the loopback, in order, each with its name, MAC
-- and state, with its addresses that are not link-local, with the gateway of the last default
-- route of each family, and with the other routes by way of a gateway that do not lead to an own
-- network. It changes nothing.
pub get_interfaces_succeeded :
    {W : Type 0} (host : Host W) (c : LinuxConfigurator W) (w w' : W) (found : List Interface)
    → get_interfaces host c w ≡ (ok found, w')
    → (links : List Link) × (is : List Interface) × (host.link_list w ≡ ok links)
      × Describes host w links is
      × (found ≡ merge_backend_state c.iface_backends w is)
      × (w' ≡ w)
unfolding get_interfaces
get_interfaces_succeeded host c w w' found h =
    let (u, d1, h1) = >>=-eq-ok (reads host.new_handle) _ w h in
    let (links, d2, h2) = >>=-eq-ok (reads host.link_list) _ w h1 in
    let (is, d3, h3) = >>=-eq-ok (describe_links host links) _ w h2 in
    let (all_of, kept) = describe_links-ok host links w (pair (describe_links host links) w d3) in
    (
      links,
      is,
      d2,
      all_of,
      sym (ok-inj (ap (λ r. r.0) h3)) ∙ ap (λ x. merge_backend_state c.iface_backends x is) kept,
      sym (ap (λ r. r.1) h3) ∙ kept,
    )
