-- ===== src/Linux/AddAddress/Scan.antt =====
-- AddAddress's loop over the routes, where its calls succeed.
use go_network_configurator.Prelude.{
  ◌≡◌, refl, ◌∙◌, ap, true, not, ◌&&◌, ◌||◌, List, [], ◌∷◌, some, arith, if◌then◌else◌, Bool-cases,
  ◌⊎◌, inl, inr,
}
use go_network_configurator.Prelude.Exec.{Exec, ok, pure, ◌>>=◌, >>=-eq-ok}
use go_network_configurator.Net.{IpNet, ip_equal, is_nil}
use go_network_configurator.Host.{Host, NlRoute, Family, family_eq}
use go_network_configurator.Linux.{is_default, zero_ip, family_of}
use go_network_configurator.Linux.AddAddress.{
  Gateways, seen, capture, take_over, default_route, scan_routes,
}

pub Family-cases : (f : Family) → (f ≡ Family.all) ⊎ (f ≡ Family.v4) ⊎ (f ≡ Family.v6)
Family-cases Family.all = inl refl
Family-cases Family.v4 = inr (inl refl)
Family-cases Family.v6 = inr (inr refl)

-- What the loop makes of a default route where its calls succeed.
abbrev taken : IpNet → NlRoute → Gateways → Gateways
taken addr r g =
    if family_eq r.family (family_of addr.ip)
    then if is_nil g.gateway
      then capture r.family r.gw (record g { gateway = r.gw; orig_route = some r })
      else if ip_equal g.gateway (zero_ip addr.ip)
      then capture r.family [] (record g { orig_route = some r })
      else capture r.family g.gateway (record g { orig_route = some r })
    else capture r.family r.gw g

-- One round of the loop.
unfoldable pub next : IpNet → NlRoute → Gateways → Gateways
next addr r g = if not (is_default r) || seen g r.family then g else taken addr r g

unfoldable pub scan : IpNet → List NlRoute → Gateways → Gateways
scan addr [] g = g
scan addr (r ∷ routes) g = scan addr routes (next addr r g)

-- Once both families are seen, the rest of the routes changes nothing, so the loop may break.
next-both :
    (addr : IpNet) (r : NlRoute) (g : Gateways) → g.seen4 && g.seen6 ≡ true → next addr r g ≡ g
unfolding next
next-both addr r g h = elim (Family-cases r.family) [
  | inl a ↦ rw a (ground arith)
  | inr (inl f) ↦ rw f (ground arith)
  | inr (inr f) ↦ rw f (ground arith)
]

scan-both :
    (addr : IpNet) (routes : List NlRoute) (g : Gateways)
    → g.seen4 && g.seen6 ≡ true
    → scan addr routes g ≡ g
unfolding scan
scan-both addr [] g h = refl
scan-both addr (r ∷ routes) g h = rw (next-both addr r g h) (scan-both addr routes g h)

module _ {W : Type 0} (host : Host W) (addr : IpNet) where
  default_route-ok :
      (r : NlRoute) (g : Gateways) (w : W) {g' : Gateways}
      → (default_route host addr r g w).0 ≡ ok g'
      → g' ≡ taken addr r g
  unfolding default_route take_over ◌>>=◌
  default_route-ok r g w h = ground arith

  module _ (rest : Gateways → Exec W Gateways) (then_ : Gateways → Gateways)
      (stops : (g : Gateways) → g.seen4 && g.seen6 ≡ true → then_ g ≡ g)
      (ih : (g : Gateways) (w : W) (g' : Gateways) (w' : W)
        → rest g w ≡ (ok g', w')
        → g' ≡ then_ g) where
    last-ok :
        (g : Gateways) (w : W) {g' : Gateways} {w' : W}
        → (if g.seen4 && g.seen6 then pure g else rest g) w ≡ (ok g', w')
        → g' ≡ then_ g
    last-ok g w {g'} {w'} h = elim (Bool-cases (g.seen4 && g.seen6)) [
      | inl both ↦ cc (rw both at h, stops g both)
      | inr more ↦ ih g w g' w' (rw more at h)
    ]

    round-ok :
        (r : NlRoute) (g : Gateways) (w : W) {g' : Gateways} {w' : W}
        → (default_route host addr r g >>= λ g1. if g1.seen4 && g1.seen6 then pure g1 else rest g1)
            w
          ≡ (ok g', w')
        → g' ≡ then_ (taken addr r g)
    round-ok r g w h =
        let (g1, done, more) = >>=-eq-ok (default_route host addr r g) _ w h in
        last-ok g1 _ more ∙ ap then_ (default_route-ok r g w done)

  pub scan_routes-ok :
      (routes : List NlRoute) (g : Gateways) (w : W) (g' : Gateways) (w' : W)
      → scan_routes host addr routes g w ≡ (ok g', w')
      → g' ≡ scan addr routes g
  unfolding scan_routes scan next
  scan_routes-ok [] g w g' w' h = cc
  scan_routes-ok (r ∷ routes) g w g' w' h =
      elim (Bool-cases (not (is_default r) || seen g r.family)) [
        | inl skip ↦ rw skip (scan_routes-ok routes g w g' w' (rw skip at h))
        | inr take ↦ rw take (
            round-ok (scan_routes host addr routes) (scan addr routes) (scan-both addr routes)
              (scan_routes-ok routes) r g w (rw take at h))
      ]
