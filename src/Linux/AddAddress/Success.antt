-- ===== src/Linux/AddAddress/Success.antt =====
-- What AddAddress has done where it succeeds.
use go_network_configurator.Prelude.{
  true, false, not, ◌||◌, Bool, true, if◌then◌else◌, ◌≡◌, ◌∙◌, sym, ap, ◌&&◌, List, map, select,
  any, Bytes, arith, if◌then◌else◌,
}
use go_network_configurator.Prelude.Exec.{
  wrap_error, bring_up_failed, pure, ◌>>◌, Exec, Result, ok, err, reads, >>=-eq-ok, pair, on_error,
}
use go_network_configurator.Net.{contains, is_link_local, Ip, IpNet, is_v4}
use go_network_configurator.Host.{Host, Link, Addr, NlRoute, Family}
use go_network_configurator.Host.Keeps.{IsOutside}
use go_network_configurator.Linux.{LinuxConfigurator, ensure_link_up, family_of}
use go_network_configurator.Linux.AddAddress.Safety.{apply_address-Keeps}
use go_network_configurator.Linux.AddAddress.{
  Plan, check_gateway, scan_addresses, add_if_new, no_addresses, start_gateways, scan_routes,
  clear_zero, confirm, change_runtime, lower_link, persist, apply_address, add_address,
}
use go_network_configurator.Linux.Online.{Tested}
use go_network_configurator.Linux.Performed.{Performed, Performed-from}
use go_network_configurator.Linux.AddAddress.AddressSet.{
  remasked, is_same, Added, scan_addresses-Performed, add_if_new-Added,
}
use go_network_configurator.Linux.AddAddress.Connected.{
  wrapped-ok, is_asked, is_missing, tested_gateway, GatewayAdded, confirm-Tested-found,
}
use go_network_configurator.Linux.AddAddress.Rerouted.{Rerouted, scan_routes-Rerouted}
use go_network_configurator.Linux.Defaults.{default_route_of}
use go_network_configurator.Linux.Plans.{plan_of, same_plan}
use go_network_configurator.Linux.AddAddress.Addresses.{
  file_addresses, listed-file_addresses, scan_addresses-ok,
}
use go_network_configurator.Linux.AddAddress.DefaultRoutes.{
  own, present_gateway, confirmed, confirmed-gateways,
}
use go_network_configurator.Linux.AddAddress.Scan.{scan_routes-ok}
use go_network_configurator.Linux.AddAddress.Confirmed.{confirm-ok}
use go_network_configurator.Linux.AddAddress.Outcome.{AddOutcome, persist-told_all}

module _ {W : Type 0} (host : Host W) (c : LinuxConfigurator W) (addr : IpNet) (gateway : Ip) where
  -- The lists that a change has read, and what it hands on.
  record Changed (link : Link) (plan : Plan) (w w' : W) : Type 0 where
    listed : List Addr
    addresses_listed : host.addr_list link w ≡ ok listed
    replaced : W
    masks_set :
        Performed
          (host.addr_replace link)
          (map (remasked addr) (select (is_same addr) listed))
          w
          replaced
    addressed : W
    address_set :
        if any (is_same addr) listed
        then (replaced ≡ addressed)
        else Added host c link addr replaced addressed
    routes : List NlRoute
    routes_listed : host.route_list link Family.all addressed ≡ ok routes
    rerouted : W
    default_changed :
        Rerouted host addr gateway (default_route_of (family_of addr.ip) routes) addressed rerouted
    routed : W
    default_added :
        GatewayAdded host link addr
          (is_asked addr gateway && is_missing (default_route_of (family_of addr.ip) routes))
          (tested_gateway addr gateway (present_gateway (family_of addr.ip) routes))
          rerouted
          routed
    tested :
        Tested host c
          (tested_gateway addr gateway (present_gateway (family_of addr.ip) routes))
          routed
          w'
    addresses : plan.addresses ≡ file_addresses addr listed
    gateway4 : plan.gateway4 ≡ (
        if is_v4 addr.ip
        then own addr gateway (present_gateway Family.v4 routes)
        else present_gateway Family.v4 routes)
    gateway6 : plan.gateway6 ≡ (
        if is_v4 addr.ip
        then present_gateway Family.v6 routes
        else own addr gateway (present_gateway Family.v6 routes))

  change_runtime-ok :
      (link : Link) (w : W) {plan : Plan} {w' : W}
      → change_runtime host c link addr gateway w ≡ (ok plan, w')
      → Changed link plan w w'
  unfolding change_runtime
  change_runtime-ok link w h =
      let (listed, d1, h1) = >>=-eq-ok (reads (host.addr_list link)) _ w h in
      let (st, d2, h2) = >>=-eq-ok (scan_addresses host link addr listed no_addresses) _ _ h1 in
      let (addresses, d3, h3) = >>=-eq-ok (add_if_new host c link addr st) _ _ h2 in
      let (routes, d4, h4) = >>=-eq-ok (reads (host.route_list link Family.all)) _ _ h3 in
      let (g, d5, h5) = >>=-eq-ok (scan_routes host addr routes (start_gateways gateway)) _ _ h4 in
      let (g', d6, h6) = >>=-eq-ok (confirm host c link addr st (clear_zero addr g)) _ _ h5 in
      let (noted, kept, originals) =
        scan_addresses-ok host link addr listed no_addresses w
          (pair (scan_addresses host link addr listed no_addresses) w d2) in
      let scanned =
        scan_routes-ok host addr routes (start_gateways gateway) _ g _
          (pair (scan_routes host addr routes (start_gateways gateway)) _ d5) in
      let checked =
        confirm-ok host c link addr st (clear_zero addr g) _
          (pair (confirm host c link addr st (clear_zero addr g)) _ d6) in
      let tests = confirm-Tested-found host c link addr st gateway routes g _ scanned (
        pair (confirm host c link addr st (clear_zero addr g)) _ d6
        ∙ ap (λ v. (ok g', v)) (ap (λ r. r.1) h6)) in
      let before =
        (add_if_new host c link addr st
          (scan_addresses host link addr listed no_addresses w).1).1 in
      let ends = checked ∙ ap (λ x. confirmed addr (clear_zero addr x)) scanned in
      let (four, six) = confirmed-gateways addr gateway routes in
      record {
        listed = listed;
        addresses_listed = d1;
        routes = routes;
        replaced = (scan_addresses host link addr listed no_addresses w).1;
        masks_set =
            scan_addresses-Performed host link addr listed no_addresses w
              (pair (scan_addresses host link addr listed no_addresses) w d2);
        addressed =
            (add_if_new host c link addr st
              (scan_addresses host link addr listed no_addresses w).1).1;
        address_set =
            rw noted at
              (add_if_new-Added host link addr c st _ (pair (add_if_new host c link addr st) _ d3));
        routes_listed = d4;
        rerouted = (scan_routes host addr routes (start_gateways gateway) before).1;
        default_changed =
            scan_routes-Rerouted host addr gateway routes _ g _
              (pair (scan_routes host addr routes (start_gateways gateway)) _ d5);
        routed = tests.0;
        default_added = tests.1;
        tested = tests.2;
        addresses =
            ap (λ p. p.addresses) (plan_of h6)
            ∙ listed-file_addresses host link addr c listed st _ _
                (pair (scan_addresses host link addr listed no_addresses) _ d2) d3;
        gateway4 = ap (λ p. p.gateway4) (plan_of h6) ∙ ap (λ x. x.gateway4) ends ∙ four;
        gateway6 = ap (λ p. p.gateway6) (plan_of h6) ∙ ap (λ x. x.gateway6) ends ∙ six;
      }

check_gateway-in_reach :
    {W : Type 0} (addr : IpNet) (gateway : Ip) (w : W) {u : Unit {0}}
    → (check_gateway addr gateway w).0 ≡ ok u
    → is_asked addr gateway && not (contains addr gateway || is_link_local gateway) ≡ false
unfolding check_gateway
check_gateway-in_reach addr gateway w h = ground arith

raised_if-ok :
    {W : Type 0} (is_up : Bool) (m : Exec W (Unit {0})) (w : W) {b : Bool} {w' : W}
    → (if is_up then pure false else wrap_error bring_up_failed m >> pure true) w ≡ (ok b, w')
    → if is_up then (w ≡ w') else (m w ≡ (ok tt, w'))
raised_if-ok true m w h = ap (λ r. r.1) h
raised_if-ok false m w h =
    let (u, d, h1) = >>=-eq-ok (wrap_error bring_up_failed m) _ w h in
    wrapped-ok bring_up_failed m w d ∙ ap (λ v. (ok tt, v)) (ap (λ r. r.1) h1)

-- A link that was down is up.
ensure_link_up-Raised :
    {W : Type 0} (host : Host W) (link : Link) (w : W) {up : Bool}
    → (ensure_link_up host link w).0 ≡ ok up
    → if link.flag_up
      then (w ≡ (ensure_link_up host link w).1)
      else (host.link_set_up link w ≡ (ok tt, (ensure_link_up host link w).1))
unfolding ensure_link_up
ensure_link_up-Raised host link w h = raised_if-ok link.flag_up (host.link_set_up link) w (
    pair
      (if link.flag_up
        then pure false
        else wrap_error bring_up_failed (host.link_set_up link) >> pure true)
      w h)

check_gateway-stays :
    {W : Type 0} (addr : IpNet) (gateway : Ip) (w : W) → (check_gateway addr gateway w).1 ≡ w
unfolding check_gateway
check_gateway-stays addr gateway w = ground arith

module _ {W A : Type 0} where
  on_error-result :
      (r : Result A) (cleanup : W → W) (w : W) {a : A} {w' : W}
      → ◌≡◌ {A = Result A × W} (r, elim r [ ok x ↦ w | err e ↦ cleanup w ]) (ok a, w')
      → ◌≡◌ {A = Result A × W} (r, w) (ok a, w')
  on_error-result (ok x) cleanup w h = h
  on_error-result (err e) cleanup w h = cc

  on_error-ok :
      (cleanup : W → W) (m : Exec W A) (w : W) {a : A} {w' : W}
      → on_error cleanup m w ≡ (ok a, w')
      → m w ≡ (ok a, w')
  on_error-ok cleanup m w h = on_error-result (m w).0 cleanup (m w).1 h

-- Where AddAddress succeeds, a gateway that is asked for, other than the zero address, is in the
-- network of the address or link-local, and the running system was changed in this order. The
-- interface was brought up, if it was down. Each of its addresses that equals the one that is
-- added was given the new mask, and if none does, that one was added after it had answered no
-- ping. The first default route of the family of the address was removed if the zero address is
-- asked for as the gateway, changed if another gateway is, and left alone if none is; and if there
-- was no such route and a gateway other than the zero address is asked for, one with it was added.
-- If there is a gateway then, the one that was asked for or else the present one, where the zero
-- address counts as none, and the check is not skipped, it was pinged and after that a test of the
-- internet has succeeded. Up to then what the calls on the running system do not touch, such as
-- the configuration files and the panels, is as it was. Then all backends are asked in turn, and
-- after them the panels to reload, if they are not skipped; nothing else happens. The backends get
-- the non-link-local addresses of the interface with the new mask on the one that is added, that
-- one behind them if it was not there; as the gateway of its family the one that was asked for,
-- none for the zero address, or the present one for nil; and the present gateway of the other
-- family.
pub add_address_succeeded :
    {W V : Type 0} {view : W → V} (host : Host W)
    → IsOutside view host
    → (c : LinuxConfigurator W) (iface : Bytes) (addr : IpNet) (gateway : Ip) (w w' : W)
    → add_address host c iface addr gateway w ≡ (ok tt, w')
    → AddOutcome view host c iface addr gateway w w'
unfolding add_address apply_address
add_address_succeeded host outside c iface addr gateway w w' h =
    let (plan, d, e) = >>=-eq-ok (apply_address host c iface addr gateway) _ w h in
    let (u, d1, h1) =
      >>=-eq-ok (reads host.new_handle) _ w (pair (apply_address host c iface addr gateway) w d) in
    let (link, d2, h2) = >>=-eq-ok (reads (host.link_by_name iface)) _ _ h1 in
    let (u3, d3, h3) = >>=-eq-ok (check_gateway addr gateway) _ _ h2 in
    let (up, d4, h4) = >>=-eq-ok (ensure_link_up host link) _ _ h3 in
    let changed =
      change_runtime-ok host c addr gateway link _
        (on_error-ok (lower_link host up link) (change_runtime host c link addr gateway) _ h4) in
    let at_start = check_gateway-stays addr gateway w in
    record {
      link = link;
      link_found = d2;
      in_reach = check_gateway-in_reach addr gateway w d3;
      raised = (ensure_link_up host link w).1;
      link_raised =
          ensure_link_up-Raised host link w
            (ap (λ v. (ensure_link_up host link v).0) (sym at_start) ∙ d4);
      listed = changed.listed;
      addresses_listed =
          ap (λ v. host.addr_list link (ensure_link_up host link v).1) (sym at_start)
          ∙ changed.addresses_listed;
      routes = changed.routes;
      replaced = changed.replaced;
      masks_set =
          Performed-from (host.addr_replace link) _ _
            (ap (λ v. (ensure_link_up host link v).1) at_start) changed.masks_set;
      addressed = changed.addressed;
      address_set = changed.address_set;
      routes_listed = changed.routes_listed;
      rerouted = changed.rerouted;
      default_changed = changed.default_changed;
      routed = changed.routed;
      default_added = changed.default_added;
      tested = changed.tested;
      untouched = (apply_address-Keeps outside c iface addr gateway).at w;
      written =
          sym (ap (λ r. r.1) e)
          ∙ ap (λ p. persist host c iface p (apply_address host c iface addr gateway w).1)
              (same_plan plan changed.addresses changed.gateway4 changed.gateway6)
          ∙ persist-told_all host c iface _ (apply_address host c iface addr gateway w).1;
    }
