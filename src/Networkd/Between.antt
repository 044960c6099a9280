-- ===== src/Networkd/Between.antt =====
-- Files with one section Network: what stands before and behind it counts little, part by part.
use go_network_configurator.Prelude.{
  ℕ, ◌≡◌, refl, Bool, false, not, List, [], ◌∷◌, ◌++◌, Option, arith, bytes_eq, eq_of_bytes_eq, any,
  select, Bool-cases, inl, inr,
}
use go_network_configurator.Iface.{Route}
use go_network_configurator.NetTexts.{Texts}
use go_network_configurator.Networkd.{Key, network, address, dhcp}
use go_network_configurator.Networkd.Report.{Keys}
use go_network_configurator.Networkd.Config.{Table, is_named}
use go_network_configurator.Networkd.Parts.{
  Addressing, dhcp_key_part, dhcp_part, route_part, key_addressing, addressing_part,
}

-- Sections of other names
dhcp_part-others :
    (ts : List Table) (d : Bool × Bool) → any (is_named network) ts ≡ false → dhcp_part ts d ≡ d
unfolding dhcp_part
dhcp_part-others [] d h = refl
dhcp_part-others ((name, keys) ∷ ts) d h = ground (arith, dhcp_part-others ts d)

pub dhcp_part-between :
    (pre : List Table) (keys : Keys) (post : List Table) (d : Bool × Bool)
    → any (is_named network) pre ≡ false
    → any (is_named network) post ≡ false
    → dhcp_part (pre ++ (network, keys) ∷ post) d ≡ dhcp_key_part (keys dhcp) d
unfolding dhcp_part bytes_eq
dhcp_part-between [] keys post d h k = dhcp_part-others post (dhcp_key_part (keys dhcp) d) k
dhcp_part-between ((name, old) ∷ pre) keys post d h k =
    ground (arith, dhcp_part-between pre keys post d)

abbrev pub no_address : List Table → List Table
no_address ts = select (λ t. not (is_named address t)) ts

-- The sections Address do not count for the DHCP setting and the routes.
pub no_address-dhcp :
    (ts : List Table) (d : Bool × Bool) → dhcp_part (no_address ts) d ≡ dhcp_part ts d
unfolding dhcp_part bytes_eq
no_address-dhcp [] d = refl
no_address-dhcp ((name, keys) ∷ ts) d = elim (Bool-cases (bytes_eq name address)) [
  | inl e ↦ rw (eq_of_bytes_eq name address e) (no_address-dhcp ts d)
  | inr e ↦ rw e (no_address-dhcp ts _)
]

pub no_address-routes :
    (texts : Texts) (key_int : Key → Option ℕ) (ts : List Table) (routes : List Route)
    → route_part texts key_int (no_address ts) routes ≡ route_part texts key_int ts routes
unfolding route_part bytes_eq
no_address-routes texts key_int [] routes = refl
no_address-routes texts key_int ((name, keys) ∷ ts) routes =
    elim (Bool-cases (bytes_eq name address)) [
      | inl e ↦ rw (eq_of_bytes_eq name address e) (no_address-routes texts key_int ts routes)
      | inr e ↦ rw e (no_address-routes texts key_int ts _)
    ]

pub no_address-network :
    (ts : List Table) → select (is_named network) (no_address ts) ≡ select (is_named network) ts
unfolding bytes_eq
no_address-network [] = refl
no_address-network ((name, keys) ∷ ts) = elim (Bool-cases (bytes_eq name address)) [
  | inl e ↦ rw (eq_of_bytes_eq name address e) (no_address-network ts)
  | inr e ↦ rw e (rw (no_address-network ts) refl)
]

pub no_address-any : (ts : List Table) → any (is_named address) (no_address ts) ≡ false
no_address-any [] = refl
no_address-any ((name, keys) ∷ ts) = ground (arith, no_address-any ts)

pub any-between {ℓ} :
    {A : Type ℓ} (p : A → Bool) (xs : List A) (y : A) (ys : List A)
    → any p (xs ++ y ∷ ys) ≡ false
    → (any p xs ≡ false) × (any p ys ≡ false)
any-between p [] y ys h = ground arith
any-between p (x ∷ xs) y ys h = ground (arith, any-between p xs y ys)

module _ (texts : Texts) where
  addressing_part-others :
      (ts : List Table) (a : Addressing)
      → any (is_named network) ts ≡ false
      → any (is_named address) ts ≡ false
      → addressing_part texts ts a ≡ a
  unfolding addressing_part
  addressing_part-others [] a h k = refl
  addressing_part-others ((name, keys) ∷ ts) a h k = ground (arith, addressing_part-others ts a)

  pub addressing_part-single :
      (pre : List Table) (keys : Keys) (post : List Table) (a : Addressing)
      → any (is_named network) pre ≡ false
      → any (is_named network) post ≡ false
      → any (is_named address) pre ≡ false
      → any (is_named address) post ≡ false
      → addressing_part texts (pre ++ (network, keys) ∷ post) a
        ≡ key_addressing texts (keys address) keys a
  unfolding addressing_part bytes_eq
  addressing_part-single [] keys post a h k h' k' =
      addressing_part-others post (key_addressing texts (keys address) keys a) k k'
  addressing_part-single ((name, old) ∷ pre) keys post a h k h' k' =
      ground (arith, addressing_part-single pre keys post a)

  pub route_part-between :
      (key_int : Key → Option ℕ) (pre : List Table) (keys keys' : Keys) (post : List Table)
      (routes : List Route)
      → route_part texts key_int (pre ++ (network, keys') ∷ post) routes
        ≡ route_part texts key_int (pre ++ (network, keys) ∷ post) routes
  unfolding route_part bytes_eq
  route_part-between key_int [] keys keys' post routes = refl
  route_part-between key_int ((name, old) ∷ pre) keys keys' post routes =
      route_part-between key_int pre keys keys' post _
