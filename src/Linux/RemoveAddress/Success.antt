-- ===== src/Linux/RemoveAddress/Success.antt =====
-- What RemoveAddress has checked and done where it succeeds.
use go_network_configurator.Prelude.{
  ◌≡◌, refl, ◌∙◌, sym, ap, Bool, true, false, not, ◌&&◌, ◌||◌, List, [], ◌∷◌, ◌++◌, map, select,
  any, find, same, Option, none, some, Bytes, arith, Bool-cases, inl, inr, if◌then◌else◌,
  append_assoc, append-nil,
}
use go_network_configurator.Prelude.Exec.{
  pair, ok, reads, pure, raise, ◌>>◌, >>=-eq-ok, removal_broke_internet,
}
use go_network_configurator.Net.{Ip, IpNet, is_nil, non_nil, is_v4, ip_equal}
use go_network_configurator.Host.{Host, ping_test, test_internet, Link, Addr, NlRoute, Family}
use go_network_configurator.Host.Keeps.{IsOutside}
use go_network_configurator.Backend.Apply.{
  push, apply_iface_addresses-eq-push, remove_ip_from_panels-eq-push,
}
use go_network_configurator.Linux.{LinuxConfigurator, family_of}
use go_network_configurator.Linux.AddAddress.{Plan}
use go_network_configurator.Linux.RemoveAddress.Safety.{take_address-Keeps}
use go_network_configurator.Linux.Defaults.{
  no_defaults, capture_defaults, gateways-capture_defaults,
}
use go_network_configurator.Linux.Plans.{gw_of_lem}
use go_network_configurator.Linux.Online.{tested_after, Fails-then, Fails-raise}
use go_network_configurator.Linux.Plans.{plan_of, same_plan}
use go_network_configurator.Linux.AddAddress.Addresses.{is_routed}
use go_network_configurator.Linux.AddAddress.DefaultRoutes.{present_gateway}
use go_network_configurator.Linux.RemoveAddress.{
  gw_of, primary_of_family, Remaining, nothing_yet, reaches, remain, scan_remaining, check_removal,
  remove_found, take_address, persist_removal, remove_address,
}

-- The first address of the family of `ip` that is not link-local, nil if there is none.
abbrev pub primary_for : Ip → List Addr → Ip
primary_for ip listed =
    elim (find (λ a. is_routed a && same (is_v4 a.ip_net.ip) (is_v4 ip)) listed) [
      | none ↦ []
      | some a ↦ a.ip_net.ip
    ]

primary_of_family_lem :
    (ip : Ip) (listed : List Addr) → primary_of_family (is_v4 ip) listed ≡ primary_for ip listed
unfolding primary_of_family
primary_of_family_lem ip [] = refl
primary_of_family_lem ip (a ∷ listed) = ground (arith, primary_of_family_lem ip listed)

-- An address of the interface is another one than the one that is removed.
abbrev pub differs : IpNet → Addr → Bool
differs addr a = not (ip_equal a.ip_net.ip addr.ip)

-- The last address of the list that is the one to remove.
unfoldable pub last_same : IpNet → List Addr → Option Addr
last_same addr [] = none
last_same addr (a ∷ listed) = elim (last_same addr listed) [
  | none ↦ if differs addr a then none else some a
  | some b ↦ some b
]

module _ (gw : Ip) (addr : IpNet) where
  abbrev step : Addr → Remaining → Remaining
  step a st =
      if ip_equal a.ip_net.ip addr.ip then record st { nl_addr = some a } else remain gw a st

  scan_remaining_lem :
      (listed : List Addr) (st : Remaining)
      → ((scan_remaining gw addr listed st).addresses
          ≡ st.addresses
            ++ map (λ a. a.ip_net) (select (λ a. differs addr a && is_routed a) listed))
        × ((scan_remaining gw addr listed st).route_to_gateway
            ≡ st.route_to_gateway || any (λ a. differs addr a && reaches gw a) listed)
  unfolding scan_remaining
  scan_remaining_lem [] st = (ground (arith, append-nil st.addresses), ground arith)
  scan_remaining_lem (a ∷ listed) st = ground (
    arith,
    scan_remaining_lem listed (step a st),
    append_assoc st.addresses (a.ip_net ∷ [])
        (map (λ b. b.ip_net) (select (λ b. differs addr b && is_routed b) listed)),
  )

  nl_addr-scan_remaining :
      (listed : List Addr) (st : Remaining)
      → (scan_remaining gw addr listed st).nl_addr
        ≡ elim (last_same addr listed) [ none ↦ st.nl_addr | some a ↦ some a ]
  unfolding scan_remaining last_same
  nl_addr-scan_remaining [] st = refl
  nl_addr-scan_remaining (a ∷ listed) st = ground (arith, nl_addr-scan_remaining listed (step a st))

last_same-some :
    (addr : IpNet) (listed : List Addr)
    → (elim (last_same addr listed) [ none ↦ none | some a ↦ some a ]) ≡ last_same addr listed
last_same-some addr listed = ground arith

-- The address, if there is one, was deleted; and after that, if the check is not skipped, the
-- gateway was pinged, if there is one, and a test of the internet succeeded.
abbrev pub Removed :
    {W : Type 0} → Host W → LinuxConfigurator W → Link → Ip → Option Addr → W → W → Type 0
Removed host c link gw none w w' = w ≡ w'
Removed {W} host c link gw (some a) w w' =
    (v : W) × (host.addr_del link a w ≡ (ok tt, v))
    × (if c.options.skip_connectivity_check
        then (v ≡ w')
        else ((pinged : Bool) × (u : W) × ((if non_nil gw
                  then ping_test host gw c.options.ping_count c.options.ping_timeout
                  else pure false)
                v
              ≡ (ok pinged, u))
            × (test_internet host c.options.test_address c.options.connectivity_timeout u
                ≡ (ok true, w'))))

-- How a successful RemoveAddress went.
pub record RemovalOutcome {W V : Type 0} (view : W → V) (host : Host W) (c : LinuxConfigurator W)
    (iface : Bytes) (addr : IpNet) (w w' : W) : Type 0 where
  pub link : Link
  pub link_found : host.link_by_name iface w ≡ ok link
  pub routes : List NlRoute
  pub routes_listed : host.route_list link Family.all w ≡ ok routes
  pub listed : List Addr
  pub addresses_listed : host.addr_list link w ≡ ok listed
  pub not_primary :
      non_nil (primary_for addr.ip listed)
        && ip_equal (primary_for addr.ip listed) addr.ip
        && not c.options.allow_primary_removal
      ≡ false
  pub reachable :
      is_nil (present_gateway (family_of addr.ip) routes)
        || any
            (λ a. differs addr a && reaches (present_gateway (family_of addr.ip) routes) a)
            listed
      ≡ true
  pub removed :
      Removed host c link
        (present_gateway (family_of addr.ip) routes)
        (last_same addr listed)
        w
        (take_address host c iface addr w).1
  pub untouched : view (take_address host c iface addr w).1 ≡ view w
  pub written : w' ≡ (
      let applied = (take_address host c iface addr w).1 in
      push
        (λ b.
          b.set_iface_addresses iface
            (map (λ a. a.ip_net) (select (λ a. differs addr a && is_routed a) listed))
            (present_gateway Family.v4 routes)
            (present_gateway Family.v6 routes))
        c.iface_backends
        (if c.options.skip_panels
          then applied
          else push (λ p. p.remove_ip addr.ip) c.panel_backends applied))

persist_removal-pushed :
    {W : Type 0} (host : Host W) (c : LinuxConfigurator W) (iface : Bytes) (ip : Ip) (plan : Plan)
    (w : W)
    → persist_removal host c iface ip plan w
      ≡ push
          (λ b. b.set_iface_addresses iface plan.addresses plan.gateway4 plan.gateway6)
          c.iface_backends
          (if c.options.skip_panels then w else push (λ p. p.remove_ip ip) c.panel_backends w)
persist_removal-pushed host c iface ip plan w =
    rw (apply_iface_addresses-eq-push, remove_ip_from_panels-eq-push) refl

check_removal-ok :
    {W : Type 0} (c : LinuxConfigurator W) (addr : IpNet) (primary gw : Ip) (reached : Bool) (w : W)
    → (check_removal c addr primary gw reached w).0 ≡ ok tt
    → ((non_nil primary && ip_equal primary addr.ip && not c.options.allow_primary_removal) ≡ false)
      × (is_nil gw || reached ≡ true)
      × ((check_removal c addr primary gw reached w).1 ≡ w)
unfolding check_removal
check_removal-ok c addr primary gw reached w h = ground arith

remove_found-Removed :
    {W : Type 0} (host : Host W) (c : LinuxConfigurator W) (link : Link) (gw : Ip)
    (found : Option Addr) (w : W) {w' : W}
    → remove_found host c link gw found w ≡ (ok tt, w')
    → Removed host c link gw found w w'
unfolding remove_found
remove_found-Removed host c link gw none w h = ap (λ r. r.1) h
remove_found-Removed host c link gw (some a) w h =
    let (u, d, h1) = >>=-eq-ok (host.addr_del link a) _ w h in
    (
      (host.addr_del link a w).1,
      pair (host.addr_del link a) w d,
      elim (Bool-cases c.options.skip_connectivity_check) [
        | inl skip ↦ rw skip (ap (λ r. r.1) (rw skip at h1))
        | inr check ↦
            let put_back = host.addr_replace link a >> raise removal_broke_internet in
            rw check (
              tested_after host c
                (if non_nil gw
                  then ping_test host gw c.options.ping_count c.options.ping_timeout
                  else pure false)
                tt put_back _
                (Fails-then (host.addr_replace link a) _ (λ x. Fails-raise removal_broke_internet))
                (rw check at h1))
      ],
    )

-- Where RemoveAddress succeeds: the address was not the primary one of its family, the first that
-- is not link-local, unless the options allow that; the gateway of its family, if there is one,
-- can be reached by way of another address of the interface; the address was deleted, if the
-- interface had it, and after that, if the check is not skipped, the gateway was pinged, if there
-- is one, and a test of the internet has succeeded; the running system has not changed otherwise.
-- Up to then what the calls on the running system do not touch, such as the configuration files and
-- the panels, is as it was. Then all panels are asked in turn to remove the address, if they are not
-- skipped, and after them all backends are asked in turn to write the other addresses that are not
-- link-local and the present gateways; nothing else happens.
pub remove_address_succeeded :
    {W V : Type 0} {view : W → V} (host : Host W)
    → IsOutside view host
    → (c : LinuxConfigurator W) (iface : Bytes) (addr : IpNet) (w w' : W)
    → remove_address host c iface addr w ≡ (ok tt, w')
    → RemovalOutcome view host c iface addr w w'
unfolding remove_address take_address
remove_address_succeeded {view = view} host outside c iface addr w w' h =
    let (plan, d, e) = >>=-eq-ok (take_address host c iface addr) _ w h in
    let (u, d1, h1) =
      >>=-eq-ok (reads host.new_handle) _ w (pair (take_address host c iface addr) w d) in
    let (link, d2, h2) = >>=-eq-ok (reads (host.link_by_name iface)) _ _ h1 in
    let (routes, d3, h3) = >>=-eq-ok (reads (host.route_list link Family.all)) _ _ h2 in
    let defaults = capture_defaults (family_of addr.ip) routes no_defaults in
    let gw = gw_of defaults.family_route in
    let (listed, d4, h4) = >>=-eq-ok (reads (host.addr_list link)) _ _ h3 in
    let st = scan_remaining gw addr listed nothing_yet in
    let primary = primary_of_family (is_v4 addr.ip) listed in
    let (u5, d5, h5) = >>=-eq-ok (check_removal c addr primary gw st.route_to_gateway) _ _ h4 in
    let (u6, d6, h6) = >>=-eq-ok (remove_found host c link gw st.nl_addr) _ _ h5 in
    let (allowed, reached, stays) = check_removal-ok c addr primary gw st.route_to_gateway w d5 in
    let removal = remove_found host c link gw st.nl_addr in
    let removed =
      remove_found-Removed host c link gw st.nl_addr _
        (pair removal _ d6 ∙ ap (λ v. (ok tt, v)) (ap (λ r. r.1) h6)) in
    let (kept, found_way) = scan_remaining_lem gw addr listed nothing_yet in
    let (four, six) = gateways-capture_defaults (family_of addr.ip) routes in
    let gw_eq = gw_of_lem addr.ip routes in
    record {
      link = link;
      link_found = d2;
      routes = routes;
      routes_listed = d3;
      listed = listed;
      addresses_listed = d4;
      not_primary = rw (primary_of_family_lem addr.ip listed) at allowed;
      reachable = rw (found_way, gw_eq) at reached;
      removed =
          rw
            (
              stays,
              nl_addr-scan_remaining gw addr listed nothing_yet,
              last_same-some addr listed,
              gw_eq,
            )
            at removed;
      untouched = (take_address-Keeps outside c iface addr).at w;
      written =
          sym (ap (λ r. r.1) e)
          ∙ ap (λ p. persist_removal host c iface addr.ip p (take_address host c iface addr w).1)
              (same_plan plan (ap (λ p. p.addresses) (plan_of h6) ∙ kept)
                (ap (λ p. p.gateway4) (plan_of h6) ∙ four)
                (ap (λ p. p.gateway6) (plan_of h6) ∙ six))
          ∙ persist_removal-pushed host c iface addr.ip _ (take_address host c iface addr w).1;
    }
