-- ===== src/Linux/AddAddress/DefaultRoutes.antt =====
-- The gateways that AddAddress hands to the configuration files.
use go_network_configurator.Prelude.{
  ◌≡◌, Bool, true, false, not, ◌&&◌, ◌||◌, List, [], ◌∷◌, find, none, some, arith, if◌then◌else◌,
  Bool-cases, inl, inr,
}
use go_network_configurator.Net.{Ip, IpNet, ip_equal, is_nil, is_v4}
use go_network_configurator.Host.{NlRoute, Family, family_eq}
use go_network_configurator.Linux.{is_default, zero_ip}
use go_network_configurator.Linux.AddAddress.{Gateways, start_gateways, clear_zero, capture_missing}
use go_network_configurator.Linux.AddAddress.Scan.{Family-cases, next, scan}

-- The gateway of the first default route of a family, nil if there is none.
unfoldable pub present_gateway : Family → List NlRoute → Ip
present_gateway f routes = elim (find (λ r. is_default r && family_eq r.family f) routes) [
  | none ↦ []
  | some r ↦ r.gw
]

-- The gateway of the family of the address: what was asked for, or what is there.
abbrev pub own : IpNet → Ip → Ip → Ip
own addr gateway present =
    if is_nil gateway then present else if ip_equal gateway (zero_ip addr.ip) then [] else gateway

-- What a round does to each variable, for an address of family `f` (the other one is `o`).
module _ (addr : IpNet) (r : NlRoute) (g : Gateways) where
  next4_lem :
      is_v4 addr.ip ≡ true
      → ((next addr r g).seen4 ≡ g.seen4 || (is_default r && family_eq r.family Family.v4))
        × ((next addr r g).gateway4 ≡ (
            if not g.seen4 && (is_default r && family_eq r.family Family.v4)
            then own addr g.gateway r.gw
            else g.gateway4))
        × ((next addr r g).gateway ≡ (
            if not g.seen4 && (is_default r && family_eq r.family Family.v4) && is_nil g.gateway
            then r.gw
            else g.gateway))
        × ((next addr r g).seen6 ≡ g.seen6 || (is_default r && family_eq r.family Family.v6))
        × ((next addr r g).gateway6 ≡ (
            if not g.seen6 && (is_default r && family_eq r.family Family.v6)
            then r.gw
            else g.gateway6))
  unfolding next
  next4_lem v = elim (Family-cases r.family) [
    | inl f ↦ rw (f, v) (ground arith)
    | inr (inl f) ↦ rw (f, v) (ground arith)
    | inr (inr f) ↦ rw (f, v) (ground arith)
  ]

  next6_lem :
      is_v4 addr.ip ≡ false
      → ((next addr r g).seen6 ≡ g.seen6 || (is_default r && family_eq r.family Family.v6))
        × ((next addr r g).gateway6 ≡ (
            if not g.seen6 && (is_default r && family_eq r.family Family.v6)
            then own addr g.gateway r.gw
            else g.gateway6))
        × ((next addr r g).gateway ≡ (
            if not g.seen6 && (is_default r && family_eq r.family Family.v6) && is_nil g.gateway
            then r.gw
            else g.gateway))
        × ((next addr r g).seen4 ≡ g.seen4 || (is_default r && family_eq r.family Family.v4))
        × ((next addr r g).gateway4 ≡ (
            if not g.seen4 && (is_default r && family_eq r.family Family.v4)
            then r.gw
            else g.gateway4))
  unfolding next
  next6_lem v = elim (Family-cases r.family) [
    | inl f ↦ rw (f, v) (ground arith)
    | inr (inl f) ↦ rw (f, v) (ground arith)
    | inr (inr f) ↦ rw (f, v) (ground arith)
  ]

-- The first default route of a family decides, unless one was seen before.
abbrev decided : {A : Type 0} → Family → List NlRoute → Bool → A → (NlRoute → A) → A
decided f routes seen_before before found =
    if seen_before then before else elim (find (λ r. is_default r && family_eq r.family f) routes) [
      | none ↦ before
      | some r ↦ found r
    ]

abbrev new_gateway : Gateways → NlRoute → Ip
new_gateway g r = if is_nil g.gateway then r.gw else g.gateway

module _ (addr : IpNet) (v : is_v4 addr.ip ≡ true) where
  pub gateway4-scan4 :
      (routes : List NlRoute) (g : Gateways)
      → (scan addr routes g).gateway4
        ≡ decided Family.v4 routes g.seen4 g.gateway4 (λ r. own addr g.gateway r.gw)
  unfolding scan
  gateway4-scan4 [] g = ground arith
  gateway4-scan4 (r ∷ routes) g =
      ground (arith, next4_lem addr r g v, gateway4-scan4 routes (next addr r g))

  gateway6-scan4 :
      (routes : List NlRoute) (g : Gateways)
      → (scan addr routes g).gateway6 ≡ decided Family.v6 routes g.seen6 g.gateway6 (λ r. r.gw)
  unfolding scan
  gateway6-scan4 [] g = ground arith
  gateway6-scan4 (r ∷ routes) g =
      ground (arith, next4_lem addr r g v, gateway6-scan4 routes (next addr r g))

  pub gateway-scan4 :
      (routes : List NlRoute) (g : Gateways)
      → (scan addr routes g).gateway ≡ decided Family.v4 routes g.seen4 g.gateway (new_gateway g)
  unfolding scan
  gateway-scan4 [] g = ground arith
  gateway-scan4 (r ∷ routes) g =
      ground (arith, next4_lem addr r g v, gateway-scan4 routes (next addr r g))

module _ (addr : IpNet) (v : is_v4 addr.ip ≡ false) where
  gateway4-scan6 :
      (routes : List NlRoute) (g : Gateways)
      → (scan addr routes g).gateway4 ≡ decided Family.v4 routes g.seen4 g.gateway4 (λ r. r.gw)
  unfolding scan
  gateway4-scan6 [] g = ground arith
  gateway4-scan6 (r ∷ routes) g =
      ground (arith, next6_lem addr r g v, gateway4-scan6 routes (next addr r g))

  pub gateway6-scan6 :
      (routes : List NlRoute) (g : Gateways)
      → (scan addr routes g).gateway6
        ≡ decided Family.v6 routes g.seen6 g.gateway6 (λ r. own addr g.gateway r.gw)
  unfolding scan
  gateway6-scan6 [] g = ground arith
  gateway6-scan6 (r ∷ routes) g =
      ground (arith, next6_lem addr r g v, gateway6-scan6 routes (next addr r g))

  pub gateway-scan6 :
      (routes : List NlRoute) (g : Gateways)
      → (scan addr routes g).gateway ≡ decided Family.v6 routes g.seen6 g.gateway (new_gateway g)
  unfolding scan
  gateway-scan6 [] g = ground arith
  gateway-scan6 (r ∷ routes) g =
      ground (arith, next6_lem addr r g v, gateway-scan6 routes (next addr r g))

-- What the connectivity check makes of the loop's variables, where it succeeds.
abbrev pub confirmed : IpNet → Gateways → Gateways
confirmed addr g =
    if is_nil g.gateway
    then g
    else if (if is_v4 addr.ip then is_nil g.gateway4 else is_nil g.gateway6)
    then capture_missing addr.ip g
    else g

-- The gateways in the end: the one of the address's family is `own`, the other one stays.
pub confirmed-gateways :
    (addr : IpNet) (gateway : Ip) (routes : List NlRoute)
    → let g = confirmed addr (clear_zero addr (scan addr routes (start_gateways gateway))) in
      (g.gateway4 ≡ (
        if is_v4 addr.ip
        then own addr gateway (present_gateway Family.v4 routes)
        else present_gateway Family.v4 routes))
      × (g.gateway6 ≡ (
          if is_v4 addr.ip
          then present_gateway Family.v6 routes
          else own addr gateway (present_gateway Family.v6 routes)))
unfolding present_gateway
confirmed-gateways addr gateway routes = elim (Bool-cases (is_v4 addr.ip)) [
  | inl v ↦ rw v (
      ground (
        arith,
        gateway4-scan4 addr v routes (start_gateways gateway),
        gateway6-scan4 addr v routes (start_gateways gateway),
        gateway-scan4 addr v routes (start_gateways gateway),
      ))
  | inr v ↦ rw v (
      ground (
        arith,
        gateway4-scan6 addr v routes (start_gateways gateway),
        gateway6-scan6 addr v routes (start_gateways gateway),
        gateway-scan6 addr v routes (start_gateways gateway),
      ))
]
