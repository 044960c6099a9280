-- ===== src/Linux/AddAddress/Rerouted.antt =====
-- How AddAddress's loop over the routes changes the default route on the running system.
use go_network_configurator.Prelude.{
  ◌≡◌, ◌∙◌, ap, sym, Bool, true, false, not, ◌&&◌, ◌||◌, List, [], ◌∷◌, Option, none, some, arith,
  if◌then◌else◌, Bool-cases, inl, inr,
}
use go_network_configurator.Prelude.Exec.{ok, pure, ◌>>=◌, >>=-eq-ok, pair}
use go_network_configurator.Net.{Ip, IpNet, is_nil, is_v4, ip_equal}
use go_network_configurator.Host.{Host, NlRoute, family_eq}
use go_network_configurator.Linux.{zero_ip, family_of, is_default}
use go_network_configurator.Linux.Defaults.{default_route_of}
use go_network_configurator.Linux.AddAddress.{
  Gateways, start_gateways, seen, take_over, default_route, scan_routes,
}
use go_network_configurator.Linux.AddAddress.Scan.{Family-cases}

-- The default route was removed if the zero address is asked for, and changed if another gateway is.
abbrev pub Rerouted : {W : Type 0} → Host W → IpNet → Ip → Option NlRoute → W → W → Type 0
Rerouted host addr gateway none w w' = w ≡ w'
Rerouted host addr gateway (some route) w w' =
    if is_nil gateway
    then (w ≡ w')
    else if ip_equal gateway (zero_ip addr.ip)
    then (host.route_del route w ≡ (ok tt, w'))
    else (host.route_change (record route { gw = gateway }) w ≡ (ok tt, w'))

module _ {W : Type 0} (host : Host W) (addr : IpNet) where
  own_seen : Gateways → Bool
  own_seen g = seen g (family_of addr.ip)

  take_over-Rerouted :
      (route : NlRoute) (g : Gateways) (w : W) {g' : Gateways} {w' : W}
      → take_over host addr route g w ≡ (ok g', w')
      → Rerouted host addr g.gateway (some route) w w'
  unfolding take_over ◌>>=◌
  take_over-Rerouted route g w h = elim (Bool-cases (is_nil g.gateway)) [
    | inl n ↦ rw n (ap (λ r. r.1) (rw n at h))
    | inr given ↦ elim (Bool-cases (ip_equal g.gateway (zero_ip addr.ip))) [
      | inl zero ↦
          let (u, d, h1) = >>=-eq-ok (host.route_del route) _ w (rw (given, zero) at h) in
          rw (given, zero)
            (pair (host.route_del route) w d ∙ ap (λ v. (ok tt, v)) (ap (λ r. r.1) h1))
      | inr new ↦
          let change = host.route_change (record route { gw = g.gateway }) in
          let (u, d, h1) = >>=-eq-ok change _ w (rw (given, new) at h) in
          rw (given, new) (pair change w d ∙ ap (λ v. (ok tt, v)) (ap (λ r. r.1) h1))
    ]
  ]

  own_seen-take_over :
      (route : NlRoute) (g : Gateways) (w : W) {g' : Gateways}
      → family_eq route.family (family_of addr.ip) ≡ true
      → (take_over host addr route g w).0 ≡ ok g'
      → own_seen g' ≡ true
  unfolding take_over ◌>>=◌ own_seen
  own_seen-take_over route g w e h = elim (Family-cases route.family) [
    | inl f ↦ ground arith
    | inr (inl f) ↦ ground arith
    | inr (inr f) ↦ ground arith
  ]

  -- A default route of the other family is only noted.
  own_seen-noted :
      (route : NlRoute) (g : Gateways) (w : W) {g' : Gateways} {w' : W}
      → family_eq route.family (family_of addr.ip) ≡ false
      → default_route host addr route g w ≡ (ok g', w')
      → (own_seen g' ≡ own_seen g) × (g'.gateway ≡ g.gateway) × (w ≡ w')
  unfolding default_route own_seen
  own_seen-noted route g w e h = elim (Family-cases route.family) [
    | inl f ↦ ground arith
    | inr (inl f) ↦ ground arith
    | inr (inr f) ↦ ground arith
  ]

  -- What the loop does from a state of its variables.
  abbrev Goes : List NlRoute → Gateways → W → W → Type 0
  Goes routes g w w' =
      if own_seen g
      then (w ≡ w')
      else Rerouted host addr g.gateway (default_route_of (family_of addr.ip) routes) w w'

  not_first :
      (route : NlRoute) (routes : List NlRoute) (g : Gateways)
      → not (is_default route) || seen g route.family ≡ true
      → own_seen g ≡ false
      → default_route_of (family_of addr.ip) (route ∷ routes)
        ≡ default_route_of (family_of addr.ip) routes
  unfolding own_seen
  not_first route routes g skip unseen = elim (Family-cases route.family) [
    | inl f ↦ ground arith
    | inr (inl f) ↦ ground arith
    | inr (inr f) ↦ ground arith
  ]

  taken_over :
      (route : NlRoute) (routes : List NlRoute)
      → is_default route ≡ true
      → family_eq route.family (family_of addr.ip) ≡ true
      → default_route_of (family_of addr.ip) (route ∷ routes) ≡ some route
  taken_over route routes d e = ground arith

  not_own :
      (route : NlRoute) (routes : List NlRoute)
      → family_eq route.family (family_of addr.ip) ≡ false
      → default_route_of (family_of addr.ip) (route ∷ routes)
        ≡ default_route_of (family_of addr.ip) routes
  not_own route routes e = ground arith

  unseen_own :
      (route : NlRoute) (g : Gateways)
      → seen g route.family ≡ false
      → family_eq route.family (family_of addr.ip) ≡ true
      → own_seen g ≡ false
  unfolding own_seen
  unseen_own route g unseen e = elim (Family-cases route.family) [
    | inl f ↦ ground arith
    | inr (inl f) ↦ ground arith
    | inr (inr f) ↦ ground arith
  ]

  both_own : (g : Gateways) → g.seen4 && g.seen6 ≡ true → own_seen g ≡ true
  unfolding own_seen
  both_own g b = ground arith

  -- The end of a round: the break, or the rest of the loop
  break_or_rest :
      (routes : List NlRoute) (g : Gateways) (w : W) {g' : Gateways} {w' : W}
      → ((g1 : Gateways) (v : W) (g2 : Gateways) (v' : W)
          → scan_routes host addr routes g1 v ≡ (ok g2, v')
          → Goes routes g1 v v')
      → (if g.seen4 && g.seen6 then pure g else scan_routes host addr routes g) w ≡ (ok g', w')
      → Goes routes g w w'
  break_or_rest routes g w ih h = elim (Bool-cases (g.seen4 && g.seen6)) [
    | inl b ↦ rw (both_own g b) (ap (λ r. r.1) (rw b at h))
    | inr more ↦ ih g w _ _ (rw more at h)
  ]

  -- A round for a default route whose family was not seen
  round-Goes :
      (route : NlRoute) (routes : List NlRoute) (g : Gateways) (w : W) (g1 : Gateways) {v : W}
      (w' : W)
      → is_default route ≡ true
      → seen g route.family ≡ false
      → default_route host addr route g w ≡ (ok g1, v)
      → Goes routes g1 v w'
      → Goes (route ∷ routes) g w w'
  unfolding default_route
  round-Goes route routes g w g1 w' d unseen round later =
      elim (Bool-cases (family_eq route.family (family_of addr.ip))) [
        | inl e ↦
            let over = rw e at round in
            let done = own_seen-take_over route g w e (ap (λ r. r.0) over) in
            rw (unseen_own route g unseen e, taken_over route routes d e)
              (rw (rw done at later) at (take_over-Rerouted route g w over))
        | inr other ↦
            let (same_seen, same_gateway, stays) = own_seen-noted route g w other round in
            rw (stays, sym same_seen, sym same_gateway, not_own route routes other) later
      ]

  scan_routes-Goes :
      (routes : List NlRoute) (g : Gateways) (w : W) (g' : Gateways) (w' : W)
      → scan_routes host addr routes g w ≡ (ok g', w')
      → Goes routes g w w'
  unfolding scan_routes
  scan_routes-Goes [] g w g' w' h = elim (Bool-cases (own_seen g)) [
    | inl s ↦ rw s (ap (λ r. r.1) h)
    | inr n ↦ rw n (ap (λ r. r.1) h)
  ]
  scan_routes-Goes (route ∷ routes) g w g' w' h =
      elim (Bool-cases (not (is_default route) || seen g route.family)) [
        | inl skip ↦
            let later = scan_routes-Goes routes g w g' w' (rw skip at h) in
            elim (Bool-cases (own_seen g)) [
              | inl s ↦ rw s (rw s at later)
              | inr n ↦ rw (n, not_first route routes g skip n) (rw n at later)
            ]
        | inr take ↦
            let round = default_route host addr route g in
            let (g1, d, h1) = >>=-eq-ok round _ w (rw take at h) in
            let later = break_or_rest routes g1 (round w).1 (scan_routes-Goes routes) h1 in
            round-Goes route routes g w g1 w' (ground arith) (ground arith) (pair round w d) later
      ]

  pub scan_routes-Rerouted :
      (gateway : Ip) (routes : List NlRoute) (w : W) (g' : Gateways) (w' : W)
      → scan_routes host addr routes (start_gateways gateway) w ≡ (ok g', w')
      → Rerouted host addr gateway (default_route_of (family_of addr.ip) routes) w w'
  unfolding own_seen
  scan_routes-Rerouted gateway routes w g' w' h = elim (Bool-cases (is_v4 addr.ip)) [
    | inl v ↦ rw v (rw v at (scan_routes-Goes routes (start_gateways gateway) w g' w' h))
    | inr v ↦ rw v (rw v at (scan_routes-Goes routes (start_gateways gateway) w g' w' h))
  ]
