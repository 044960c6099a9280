-- ===== src/Linux/Defaults.antt =====
-- The loop of RemoveAddress and SetPrimaryAddress over the routes, which captures the first
-- default route of each family.
use go_network_configurator.Prelude.{
  ◌≡◌, refl, Bool, true, false, not, ◌&&◌, ◌||◌, List, [], ◌∷◌, find, Option, none, some,
  if◌then◌else◌, arith, Bool-cases, inl, inr,
}
use go_network_configurator.Net.{Ip, is_v4}
use go_network_configurator.Host.{NlRoute, Family, family_eq}
use go_network_configurator.Linux.{is_default, family_of}
use go_network_configurator.Linux.AddAddress.DefaultRoutes.{present_gateway}
use go_network_configurator.Linux.AddAddress.Scan.{Family-cases}

-- The loop's variables. `family_route` is `none` while no default route of the family is found.
pub record Defaults : Type 0 where
  pub gateway4 : Ip
  pub gateway6 : Ip
  pub seen4 : Bool
  pub seen6 : Bool
  pub family_route : Option NlRoute

abbrev pub no_defaults : Defaults
no_defaults = record {
  gateway4 = [];
  gateway6 = [];
  seen4 = false;
  seen6 = false;
  family_route = none;
}

-- A default route of no family, or of one that was seen, is passed over.
abbrev pub passed_over : NlRoute → Defaults → Bool
passed_over route d = elim route.family [
  | Family.v4 ↦ d.seen4
  | Family.v6 ↦ d.seen6
  | Family.all ↦ true
]

abbrev pub captured : Family → NlRoute → Defaults → Defaults
captured family route d =
    let own_route = if family_eq route.family family then some route else d.family_route in
    elim route.family [
      | Family.v4 ↦ record d { gateway4 = route.gw; seen4 = true; family_route = own_route }
      | Family.v6 ↦ record d { gateway6 = route.gw; seen6 = true; family_route = own_route }
      | Family.all ↦ d
    ]

unfoldable pub capture_defaults : Family → List NlRoute → Defaults → Defaults
capture_defaults family [] d = d
capture_defaults family (route ∷ routes) d =
    let rest = capture_defaults family routes in
    let d' = captured family route d in
    if not (is_default route) || passed_over route d
    then rest d
    else if d'.seen4 && d'.seen6
    then d'
    else rest d'

-- The first default route of a family
abbrev pub default_route_of : Family → List NlRoute → Option NlRoute
default_route_of f routes = find (λ r. is_default r && family_eq r.family f) routes

abbrev decided : {A : Type 0} → Family → List NlRoute → Bool → A → (NlRoute → A) → A
decided f routes seen before found =
    if seen then before else elim (default_route_of f routes) [ none ↦ before | some r ↦ found r ]

-- One round of the loop, and the loop without its break.
next : Family → NlRoute → Defaults → Defaults
next f r d = if not (is_default r) || passed_over r d then d else captured f r d

scan : Family → List NlRoute → Defaults → Defaults
scan f [] d = d
scan f (r ∷ routes) d = scan f routes (next f r d)

abbrev is_of : NlRoute → Family → Bool
is_of r f = is_default r && family_eq r.family f

next_lem :
    (f : Family) (r : NlRoute) (d : Defaults)
    → ((next f r d).seen4 ≡ d.seen4 || is_of r Family.v4)
      × ((next f r d).seen6 ≡ d.seen6 || is_of r Family.v6)
      × ((next f r d).gateway4 ≡ (if not d.seen4 && is_of r Family.v4 then r.gw else d.gateway4))
      × ((next f r d).gateway6 ≡ (if not d.seen6 && is_of r Family.v6 then r.gw else d.gateway6))
unfolding next
next_lem f r d = elim (Family-cases r.family) [
  | inl c ↦ rw c (ground arith)
  | inr (inl c) ↦ rw c (ground arith)
  | inr (inr c) ↦ rw c (ground arith)
]

next-both : (f : Family) (r : NlRoute) (d : Defaults) → d.seen4 && d.seen6 ≡ true → next f r d ≡ d
unfolding next
next-both f r d h = elim (Family-cases r.family) [
  | inl c ↦ rw c (ground arith)
  | inr (inl c) ↦ rw c (ground arith)
  | inr (inr c) ↦ rw c (ground arith)
]

scan-both :
    (f : Family) (routes : List NlRoute) (d : Defaults)
    → d.seen4 && d.seen6 ≡ true
    → scan f routes d ≡ d
unfolding scan
scan-both f [] d h = refl
scan-both f (r ∷ routes) d h = rw (next-both f r d h) (scan-both f routes d h)

capture_defaults-scan :
    (f : Family) (routes : List NlRoute) (d : Defaults)
    → capture_defaults f routes d ≡ scan f routes d
unfolding capture_defaults scan next
capture_defaults-scan f [] d = refl
capture_defaults-scan f (r ∷ routes) d = ground (
  arith,
  capture_defaults-scan f routes d,
  capture_defaults-scan f routes (captured f r d),
  scan-both f routes (captured f r d),
)

gateways-scan :
    (f : Family) (routes : List NlRoute) (d : Defaults)
    → ((scan f routes d).gateway4 ≡ decided Family.v4 routes d.seen4 d.gateway4 (λ r. r.gw))
      × ((scan f routes d).gateway6 ≡ decided Family.v6 routes d.seen6 d.gateway6 (λ r. r.gw))
unfolding scan
gateways-scan f [] d = ground arith
gateways-scan f (r ∷ routes) d = ground (arith, next_lem f r d, gateways-scan f routes (next f r d))

-- The gateways in the end are the present ones.
pub gateways-capture_defaults :
    (f : Family) (routes : List NlRoute)
    → ((capture_defaults f routes no_defaults).gateway4 ≡ present_gateway Family.v4 routes)
      × ((capture_defaults f routes no_defaults).gateway6 ≡ present_gateway Family.v6 routes)
unfolding present_gateway
gateways-capture_defaults f routes =
    rw (capture_defaults-scan f routes no_defaults)
      (ground (arith, gateways-scan f routes no_defaults))

-- Whether the family was seen before
abbrev seen_of : Family → Defaults → Bool
seen_of Family.v4 d = d.seen4
seen_of Family.v6 d = d.seen6
seen_of Family.all d = true

next-route :
    (f : Family) (r : NlRoute) (d : Defaults)
    → (seen_of f (next f r d) ≡ seen_of f d || is_of r f)
      × ((next f r d).family_route
          ≡ (if not (seen_of f d) && is_of r f then some r else d.family_route))
unfolding next
next-route f r d = elim (Family-cases r.family) [
  | inl c ↦ rw c (elim (Family-cases f) [
    | inl e ↦ rw e (ground arith)
    | inr (inl e) ↦ rw e (ground arith)
    | inr (inr e) ↦ rw e (ground arith)
  ])
  | inr (inl c) ↦ rw c (elim (Family-cases f) [
    | inl e ↦ rw e (ground arith)
    | inr (inl e) ↦ rw e (ground arith)
    | inr (inr e) ↦ rw e (ground arith)
  ])
  | inr (inr c) ↦ rw c (elim (Family-cases f) [
    | inl e ↦ rw e (ground arith)
    | inr (inl e) ↦ rw e (ground arith)
    | inr (inr e) ↦ rw e (ground arith)
  ])
]

route-scan :
    (f : Family) (routes : List NlRoute) (d : Defaults)
    → (scan f routes d).family_route ≡ decided f routes (seen_of f d) d.family_route some
unfolding scan
route-scan f [] d = ground arith
route-scan f (r ∷ routes) d = ground (arith, next-route f r d, route-scan f routes (next f r d))

-- The remembered route is the first default route of the family.
pub route-capture_defaults :
    (ip : Ip) (routes : List NlRoute)
    → (capture_defaults (family_of ip) routes no_defaults).family_route
      ≡ default_route_of (family_of ip) routes
route-capture_defaults ip routes =
    rw (capture_defaults-scan (family_of ip) routes no_defaults) (elim (Bool-cases (is_v4 ip)) [
      | inl v ↦ rw v (ground (arith, route-scan Family.v4 routes no_defaults))
      | inr v ↦ rw v (ground (arith, route-scan Family.v6 routes no_defaults))
    ])
