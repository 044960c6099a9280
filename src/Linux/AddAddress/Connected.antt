-- ===== src/Linux/AddAddress/Connected.antt =====
-- AddAddress with a gateway goes through only if the host still reaches the internet.
use go_network_configurator.Prelude.{
  ◌≡◌, refl, ◌∙◌, ap, Bool, true, false, not, ◌&&◌, List, [], Option, none, some, arith,
  if◌then◌else◌, Bool-cases, inl, inr,
}
use go_network_configurator.Prelude.Exec.{
  ok, pure, internet_lost, ◌>>◌, >>=-eq-ok, pair, wrap_error, Exec, Error, Result, err,
  add_gateway_failed,
}
use go_network_configurator.Net.{Ip, IpNet, is_nil, non_nil, is_v4, ip_equal}
use go_network_configurator.Host.{Host, Link, NlRoute}
use go_network_configurator.Linux.{LinuxConfigurator, zero_ip, family_of}
use go_network_configurator.Linux.Online.{
  Tested, tested_by, Fails, Fails-raise, Fails-then, Fails-first,
}
use go_network_configurator.Linux.Defaults.{default_route_of}
use go_network_configurator.Linux.AddAddress.{
  Existing, Gateways, start_gateways, clear_zero, default_net, add_missing_gateway,
  restore_addresses, restore_route, roll_back, confirm,
}
use go_network_configurator.Linux.AddAddress.DefaultRoutes.{
  present_gateway, gateway-scan4, gateway-scan6, gateway4-scan4, gateway6-scan6,
}
use go_network_configurator.Linux.AddAddress.Scan.{scan}

-- A gateway is asked for: it is given, and not the zero address.
abbrev pub is_asked : IpNet → Ip → Bool
is_asked addr gateway = non_nil gateway && not (ip_equal gateway (zero_ip addr.ip))

-- The gateway that is tested: the one that is asked for or else the present one, none for zero.
abbrev pub tested_gateway : IpNet → Ip → Ip → Ip
tested_gateway addr gateway present =
    let g = if is_nil gateway then present else gateway in
    if ip_equal g (zero_ip addr.ip) then [] else g

-- The default route that is added
abbrev pub new_default : Link → IpNet → Ip → NlRoute
new_default link addr gateway = record {
  family = family_of addr.ip;
  link_index = link.index;
  dst = default_net addr.ip;
  gw = gateway;
  priority = 0;
  attributes = 0;
}

abbrev pub is_missing : Option NlRoute → Bool
is_missing none = true
is_missing (some r) = false

abbrev lacks_gateway : IpNet → Gateways → Bool
lacks_gateway addr g = if is_v4 addr.ip then is_nil g.gateway4 else is_nil g.gateway6

module _ (addr : IpNet) (gateway : Ip) (routes : List NlRoute) where
  abbrev found : Gateways
  found = clear_zero addr (scan addr routes (start_gateways gateway))

  gateway-found :
      found.gateway ≡ tested_gateway addr gateway (present_gateway (family_of addr.ip) routes)
  unfolding present_gateway
  gateway-found = elim (Bool-cases (is_v4 addr.ip)) [
    | inl v ↦ rw v (ground (arith, gateway-scan4 addr v routes (start_gateways gateway)))
    | inr v ↦ rw v (ground (arith, gateway-scan6 addr v routes (start_gateways gateway)))
  ]

  lacks_gateway-found :
      non_nil found.gateway && lacks_gateway addr found
      ≡ is_asked addr gateway && is_missing (default_route_of (family_of addr.ip) routes)
  lacks_gateway-found = elim (Bool-cases (is_v4 addr.ip)) [
    | inl v ↦ rw v (
        ground (
          arith,
          gateway-scan4 addr v routes (start_gateways gateway),
          gateway4-scan4 addr v routes (start_gateways gateway),
        ))
    | inr v ↦ rw v (
        ground (
          arith,
          gateway-scan6 addr v routes (start_gateways gateway),
          gateway6-scan6 addr v routes (start_gateways gateway),
        ))
  ]

-- A missing gateway was added.
abbrev pub GatewayAdded : {W : Type 0} → Host W → Link → IpNet → Bool → Ip → W → W → Type 0
GatewayAdded host link addr added gateway w w' =
    if added then (host.route_add (new_default link addr gateway) w ≡ (ok tt, w')) else (w ≡ w')

unwrapped :
    {A : Type 0} (wrap : Error → Error) (r : Result A) {a : A}
    → ◌≡◌ {A = Result A} (elim r [ ok x ↦ ok x | err e ↦ err (wrap e) ]) (ok a)
    → r ≡ ok a
unwrapped wrap (ok x) h = h
unwrapped wrap (err e) h = cc

pub wrapped-ok :
    {W A : Type 0} (wrap : Error → Error) (m : Exec W A) (w : W) {a : A}
    → (wrap_error wrap m w).0 ≡ ok a
    → m w ≡ (ok a, (m w).1)
wrapped-ok wrap m w h = ap (λ r. (r, (m w).1)) (unwrapped wrap (m w).0 h)

module _ {W : Type 0} (host : Host W) (c : LinuxConfigurator W) (link : Link) (addr : IpNet)
    (st : Existing) where
  roll_back-Fails : (orig added : Option NlRoute) → Fails (roll_back host link addr st orig added)
  unfolding roll_back
  roll_back-Fails orig added = Fails-then _ _ λ _.
      Fails-then (restore_addresses host link st.orig_addresses) _
        λ _. Fails-then (restore_route host orig added) _ λ _. Fails-raise internet_lost

  add_missing_gateway-Added :
      (g : Gateways) (w : W) {p : Option NlRoute × Gateways} {w' : W}
      → add_missing_gateway host link addr g w ≡ (ok p, w')
      → GatewayAdded host link addr (lacks_gateway addr g) g.gateway w w'
        × (p.1.gateway ≡ g.gateway)
  unfolding add_missing_gateway
  add_missing_gateway-Added g w h = elim (Bool-cases (lacks_gateway addr g)) [
    | inl m ↦
        let add = host.route_add (new_default link addr g.gateway) in
        let (u, d, h1) = >>=-eq-ok (wrap_error add_gateway_failed add) _ w (rw m at h) in
        (
          rw m (wrapped-ok add_gateway_failed add w d ∙ ap (λ v. (ok tt, v)) (ap (λ r. r.1) h1)),
          ground arith,
        )
    | inr there ↦ (rw there (ap (λ r. r.1) (rw there at h)), cc (rw there at h))
  ]

  confirm-Tested :
      (g : Gateways) (w : W) {g' : Gateways} {w' : W}
      → confirm host c link addr st g w ≡ (ok g', w')
      → (v : W) × GatewayAdded host link addr
          (non_nil g.gateway && lacks_gateway addr g)
          g.gateway
          w
          v
        × Tested host c g.gateway v w'
  unfolding confirm
  confirm-Tested g w h = elim (Bool-cases (is_nil g.gateway)) [
    | inl n ↦ (w, rw n refl, rw n (ap (λ r. r.1) (rw n at h)))
    | inr given ↦
        let add = add_missing_gateway host link addr g in
        let (p, d, h1) = >>=-eq-ok add _ w (rw given at h) in
        let (added, kept) = add_missing_gateway-Added g w (pair add w d) in
        (
          (add w).1,
          rw given added,
          elim (Bool-cases c.options.skip_connectivity_check) [
            | inl skip ↦ rw (given, skip) (ap (λ r. r.1) (rw skip at h1))
            | inr check ↦
                let otherwise = roll_back host link addr st p.1.orig_route p.0 in
                rw (given, check)
                  (rw kept at (
                    tested_by host c p.1.gateway p.1 (otherwise >> pure p.1) _
                      (Fails-first otherwise _ (roll_back-Fails p.1.orig_route p.0))
                      (rw check at h1)))
          ],
        )
  ]

  -- What the check does after the loop over the routes
  pub confirm-Tested-found :
      (gateway : Ip) (routes : List NlRoute) (g : Gateways) (w : W) {g' : Gateways} {w' : W}
      → g ≡ scan addr routes (start_gateways gateway)
      → confirm host c link addr st (clear_zero addr g) w ≡ (ok g', w')
      → let gw = tested_gateway addr gateway (present_gateway (family_of addr.ip) routes) in
        (v : W) × GatewayAdded host link addr
          (is_asked addr gateway && is_missing (default_route_of (family_of addr.ip) routes))
          gw
          w
          v
        × Tested host c gw v w'
  confirm-Tested-found gateway routes g w e h =
      rw (← (gateway-found addr gateway routes), ← (lacks_gateway-found addr gateway routes), ← e)
        (confirm-Tested (clear_zero addr g) w h)
