-- ===== src/Linux/SetPrimary/Success.antt =====
-- What SetPrimaryAddress has checked and done where it succeeds, and the order that it applies.
use go_network_configurator.Prelude.{
  ◌≡◌, refl, ◌∙◌, sym, ap, Bool, true, false, not, ◌||◌, ◌&&◌, List, [], ◌∷◌, ◌++◌, map, select,
  any, same, Bytes, arith, if◌then◌else◌, append_assoc, append-nil, Bool-cases, inl, inr,
}
use go_network_configurator.Prelude.Exec.{
  pair, Exec, ok, Error, raise, reads, >>=-eq-ok, address_not_found,
}
use go_network_configurator.Net.{Ip, IpNet, ip_equal, is_v4}
use go_network_configurator.Iface.{reorder_primary_address}
use go_network_configurator.Iface.Primary.{reorder_primary_address_lem}
use go_network_configurator.Host.{Host, Link, Addr, NlRoute, Family}
use go_network_configurator.Linux.{LinuxConfigurator, family_of}
use go_network_configurator.Linux.Defaults.{
  no_defaults, capture_defaults, gateways-capture_defaults, default_route_of,
  route-capture_defaults,
}
use go_network_configurator.Linux.Online.{When, given_When}
use go_network_configurator.Backend.Apply.{
  push, apply_iface_addresses-eq-push, reload_panels-eq-push, set_main_ip_on_panels-eq-push,
}
use go_network_configurator.Host.Keeps.{IsOutside}
use go_network_configurator.Linux.AddAddress.{Plan}
use go_network_configurator.Linux.SetPrimary.Reordered.{Reordered, reorder-Reordered}
use go_network_configurator.Linux.SetPrimary.Safety.{promote-Keeps}
use go_network_configurator.Linux.Plans.{plan_of, same_plan}
use go_network_configurator.Linux.AddAddress.Addresses.{is_routed}
use go_network_configurator.Linux.AddAddress.DefaultRoutes.{present_gateway}
use go_network_configurator.Linux.SetPrimary.{
  Present, none_present, collect, scan_present, remove_first, desired_order, is_first, reorder,
  promote, persist_primary, set_primary_address,
}

scan_present_lem :
    (addr : IpNet) (listed : List Addr) (st : Present)
    → ((scan_present addr listed st).exists
        ≡ st.exists || any (λ a. ip_equal a.ip_net.ip addr.ip) listed)
      × ((scan_present addr listed st).addresses
          ≡ st.addresses ++ map (λ a. a.ip_net) (select is_routed listed))
unfolding scan_present
scan_present_lem addr [] st = (ground arith, ground (arith, append-nil st.addresses))
scan_present_lem addr (a ∷ listed) st = ground (
  arith,
  scan_present_lem addr listed (collect addr a st),
  append_assoc st.addresses (a.ip_net ∷ []) (map (λ b. b.ip_net) (select is_routed listed)),
)

-- The addresses of the interface of the family of `ip` that are not link-local
abbrev pub of_family : Ip → List Addr → List Addr
of_family ip = select (λ a. is_routed a && same (is_v4 ip) (is_v4 a.ip_net.ip))

family_addrs-scan_present :
    (addr : IpNet) (listed : List Addr) (st : Present)
    → (scan_present addr listed st).family_addrs ≡ st.family_addrs ++ of_family addr.ip listed
unfolding scan_present
family_addrs-scan_present addr [] st = ground (arith, append-nil st.family_addrs)
family_addrs-scan_present addr (a ∷ listed) st = ground (
  arith,
  family_addrs-scan_present addr listed (collect addr a st),
  append_assoc st.family_addrs (a ∷ []) (of_family addr.ip listed),
)

-- An order is a promotion: the first address that is the target goes to the front, and the others
-- keep their order.
pub record IsPromotion (ip : Ip) (addrs order : List Addr) : Type 0 where
  pub before : List Addr
  pub target : Addr
  pub after : List Addr
  pub split : addrs ≡ before ++ target ∷ after
  pub promoted : order ≡ target ∷ before ++ after
  pub is_target : ip_equal target.ip_net.ip ip ≡ true
  pub is_first_one : any (λ a. ip_equal a.ip_net.ip ip) before ≡ false

-- The order that SetPrimaryAddress applies to the addresses of the family, if the target is one of
-- them: nothing is lost and nothing is added, the target comes first, and the others keep their
-- order.
pub desired_order-IsPromotion :
    (ip : Ip) (addrs : List Addr)
    → any (λ a. ip_equal a.ip_net.ip ip) addrs ≡ true
    → IsPromotion ip addrs (desired_order ip addrs)
unfolding desired_order remove_first
desired_order-IsPromotion ip [] h = cc
desired_order-IsPromotion ip (a ∷ addrs) h = elim (Bool-cases (ip_equal a.ip_net.ip ip)) [
  | inl yes_ ↦ record {
    before = [];
    target = a;
    after = addrs;
    split = refl;
    promoted = rw yes_ refl;
    is_target = yes_;
    is_first_one = refl;
  }
  | inr no_ ↦
      let rest = desired_order-IsPromotion ip addrs (rw no_ at h) in
      record {
        before = a ∷ rest.before;
        target = rest.target;
        after = rest.after;
        split = ap (λ l. a ∷ l) rest.split;
        promoted = let p = rest.promoted in rw no_ (cc);
        is_target = rest.is_target;
        is_first_one = rw no_ rest.is_first_one;
      }
]

-- All backends are asked in turn to write a plan, and then, if the panels are not skipped, all
-- panels to reload, and after that all panels to take the main address.
abbrev pub told_primary : {W : Type 0} → LinuxConfigurator W → Bytes → Ip → Plan → W → W
told_primary c iface ip plan w =
    let written =
      push (λ b. b.set_iface_addresses iface plan.addresses plan.gateway4 plan.gateway6)
        c.iface_backends w in
    if c.options.skip_panels
    then written
    else push (λ p. p.set_main_ip ip) c.panel_backends
        (push (λ p. p.reload) c.panel_backends written)

persist_primary-told_primary :
    {W : Type 0} (host : Host W) (c : LinuxConfigurator W) (iface : Bytes) (ip : Ip) (plan : Plan)
    (w : W)
    → persist_primary host c iface ip plan w ≡ told_primary c iface ip plan w
persist_primary-told_primary host c iface ip plan w =
    rw (apply_iface_addresses-eq-push, reload_panels-eq-push, set_main_ip_on_panels-eq-push) refl

-- How a successful SetPrimaryAddress went.
pub record PromotionOutcome {W V : Type 0} (view : W → V) (host : Host W) (c : LinuxConfigurator W)
    (iface : Bytes) (addr : IpNet) (w w' : W) : Type 0 where
  pub link : Link
  pub link_found : host.link_by_name iface w ≡ ok link
  pub listed : List Addr
  pub addresses_listed : host.addr_list link w ≡ ok listed
  pub on_interface : any (λ a. ip_equal a.ip_net.ip addr.ip) listed ≡ true
  pub routes : List NlRoute
  pub routes_listed : host.route_list link Family.all w ≡ ok routes
  pub order : List Addr
  pub promotion :
      When
        (any (λ a. ip_equal a.ip_net.ip addr.ip) (of_family addr.ip listed))
        (IsPromotion addr.ip (of_family addr.ip listed) order)
  pub reordered :
      if is_first addr.ip (of_family addr.ip listed)
      then (w ≡ (promote host c iface addr w).1)
      else Reordered host c link
          (family_of addr.ip)
          (of_family addr.ip listed)
          order
          (default_route_of (family_of addr.ip) routes)
          w
          (promote host c iface addr w).1
  pub untouched : view (promote host c iface addr w).1 ≡ view w
  pub written :
      w'
      ≡ told_primary c iface addr.ip
          (record {
            addresses =
                let kept = map (λ a. a.ip_net) (select is_routed listed) in
                if any (λ a. ip_equal a.ip addr.ip) kept
                then addr ∷ select (λ a. not (ip_equal a.ip addr.ip)) kept
                else kept;
            gateway4 = present_gateway Family.v4 routes;
            gateway6 = present_gateway Family.v6 routes;
          })
          (promote host c iface addr w).1

reordered_lem :
    (addrs : List IpNet) (addr : IpNet)
    → (reorder_primary_address addrs addr).0 ≡ (
        if any (λ a. ip_equal a.ip addr.ip) addrs
        then addr ∷ select (λ a. not (ip_equal a.ip addr.ip)) addrs
        else addrs)
reordered_lem addrs addr = let (e, f) = reorder_primary_address_lem addrs addr in ground arith

module _ {W : Type 0} {A : Type 0} where
  guarded-ok :
      (b : Bool) (e : Error) (m : Exec W A) (w : W) {a : A} {w' : W}
      → (if not b then raise e else m) w ≡ (ok a, w')
      → (b ≡ true) × (m w ≡ (ok a, w'))
  guarded-ok true e m w h = (refl, h)
  guarded-ok false e m w h = cc

-- Where SetPrimaryAddress succeeds, the address was on the interface. If it was the first of its
-- family, the running system has not changed. If not, all addresses of the family that are not
-- link-local were deleted and then added in a new order, which has the address first and the others
-- as they were, if the address is one of them; the first default route of the family was put back,
-- if the machine did not list it any more; and if it has a gateway and the check is not skipped,
-- the gateway was pinged and a test of the internet has succeeded after that. Up to then what the
-- calls on the running system do not touch, such as the configuration files and the panels, is as
-- it was. Then all backends are asked in turn to write the addresses of the interface that are not
-- link-local, with the address first if it is one of them and the others in their order, and the
-- present gateways; and after them, if they are not skipped, all panels are asked to reload, and
-- then to take the new main address. Nothing else happens.
pub set_primary_address_succeeded :
    {W V : Type 0} {view : W → V} (host : Host W)
    → IsOutside view host
    → (c : LinuxConfigurator W) (iface : Bytes) (addr : IpNet) (w w' : W)
    → set_primary_address host c iface addr w ≡ (ok tt, w')
    → PromotionOutcome view host c iface addr w w'
unfolding set_primary_address promote
set_primary_address_succeeded host outside c iface addr w w' h =
    let (plan, d, e) = >>=-eq-ok (promote host c iface addr) _ w h in
    let (u, d1, h1) =
      >>=-eq-ok (reads host.new_handle) _ w (pair (promote host c iface addr) w d) in
    let (link, d2, h2) = >>=-eq-ok (reads (host.link_by_name iface)) _ _ h1 in
    let (listed, d3, h3) = >>=-eq-ok (reads (host.addr_list link)) _ _ h2 in
    let st = scan_present addr listed none_present in
    let (there, h4) = guarded-ok st.exists address_not_found _ w h3 in
    let (routes, d5, h5) = >>=-eq-ok (reads (host.route_list link Family.all)) _ _ h4 in
    let defaults = capture_defaults (family_of addr.ip) routes no_defaults in
    let (u6, d6, h6) =
      >>=-eq-ok (reorder host c link addr st.family_addrs defaults.family_route) _ _ h5 in
    let order = reorder host c link addr st.family_addrs defaults.family_route in
    let checked =
      reorder-Reordered host c link addr st.family_addrs defaults.family_route w
        (pair order w d6 ∙ ap (λ v. (ok tt, v)) (ap (λ r. r.1) h6)) in
    let (found, kept) = scan_present_lem addr listed none_present in
    let (four, six) = gateways-capture_defaults (family_of addr.ip) routes in
    record {
      link = link;
      link_found = d2;
      listed = listed;
      addresses_listed = d3;
      on_interface = sym found ∙ there;
      routes = routes;
      routes_listed = d5;
      order = desired_order addr.ip (of_family addr.ip listed);
      promotion = given_When _ _ (desired_order-IsPromotion addr.ip (of_family addr.ip listed));
      reordered =
          rw
            (
              family_addrs-scan_present addr listed none_present,
              route-capture_defaults addr.ip routes,
            )
            at checked;
      untouched = (promote-Keeps outside c iface addr).at w;
      written =
          sym (ap (λ r. r.1) e)
          ∙ ap (λ p. persist_primary host c iface addr.ip p (promote host c iface addr w).1)
              (same_plan plan
                (ap (λ p. p.addresses) (plan_of h6)
                  ∙ ap (λ x. (reorder_primary_address x addr).0) kept
                  ∙ reordered_lem (map (λ a. a.ip_net) (select is_routed listed)) addr)
                (ap (λ p. p.gateway4) (plan_of h6) ∙ four)
                (ap (λ p. p.gateway6) (plan_of h6) ∙ six))
          ∙ persist_primary-told_primary host c iface addr.ip _ (promote host c iface addr w).1;
    }
