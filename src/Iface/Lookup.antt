-- ===== src/Iface/Lookup.antt =====
-- FindInterfaceByName returns the first interface that the name stands for.
use go_network_configurator.Prelude.{
  ◌≡◌, ◌≢◌, ◌↔◌, ◌⊎◌, inl, inr, Bool, true, false, List, [], ◌∷◌, arith, Bool-cases, Option, none,
  some, Bytes, bytes_eq, bytes_eq_iff, eq_of_bytes_eq, find,
}
use go_network_configurator.Net.{Ip, non_nil}
use go_network_configurator.Iface.{Interface, public, public6, find_interface_by_name}

-- The interface that a name stands for: the one with the IPv4 default gateway, the one with the
-- IPv6 default gateway, or the one of that name.
abbrev pub Carries : Bytes → Interface → Type 0
Carries name i =
    ((name ≡ public) × (i.gateway4 ≢ []))
    ⊎ ((name ≡ public6) × (i.gateway6 ≢ []))
    ⊎ ((name ≢ public) × (name ≢ public6) × (i.name ≡ name))

-- The first element of a list that has a property, if any has.
pub data IsFirst {A : Type 0} (P : A → Type 0) : List A → Option A → Type 0 where
  nothing : IsFirst P [] none
  here : {a : A} {xs : List A} → P a → IsFirst P (a ∷ xs) (some a)
  later : {a : A} {xs : List A} {o : Option A} → ¬ P a → IsFirst P xs o → IsFirst P (a ∷ xs) o

find-IsFirst :
    {A : Type 0} (P : A → Type 0) (p : A → Bool) (test : (a : A) → (p a ≡ true) ↔ P a) (xs : List A)
    → IsFirst P xs (find p xs)
find-IsFirst P p test [] = nothing
find-IsFirst P p test (x ∷ xs) = elim (Bool-cases (p x)) [
  | inl h ↦ rw h (here ((test x).0 h))
  | inr h ↦ rw h (later (λ px. cc ((test x).1 px)) (find-IsFirst P p test xs))
]

non_nil_iff : (ip : Ip) → (non_nil ip ≡ true) ↔ (ip ≢ [])
non_nil_iff [] = ground arith
non_nil_iff (b ∷ ip) = ground arith

-- The three tests, each under the guards that lead to it.
module _ (name : Bytes) (i : Interface) where
  Carries-gateway4 : bytes_eq name public ≡ true → (non_nil i.gateway4 ≡ true) ↔ Carries name i
  Carries-gateway4 p =
      let e = eq_of_bytes_eq name public p in
      (
        λ h. inl (e, (non_nil_iff i.gateway4).0 h),
        λ c. elim c [
          | inl (_, g) ↦ (non_nil_iff i.gateway4).1 g
          | inr (inl (e', _)) ↦ cc
          | inr (inr (n, _, _)) ↦ absurd (n e)
        ],
      )

  Carries-gateway6 :
      bytes_eq name public ≡ false
      → bytes_eq name public6 ≡ true
      → (non_nil i.gateway6 ≡ true) ↔ Carries name i
  Carries-gateway6 p q =
      let e = eq_of_bytes_eq name public6 q in
      (
        λ h. inr (inl (e, (non_nil_iff i.gateway6).0 h)),
        λ c. elim c [
          | inl (e', _) ↦ cc ((bytes_eq_iff name public).1 e')
          | inr (inl (_, g)) ↦ (non_nil_iff i.gateway6).1 g
          | inr (inr (_, n, _)) ↦ absurd (n e)
        ],
      )

  Carries-name :
      bytes_eq name public ≡ false
      → bytes_eq name public6 ≡ false
      → (bytes_eq i.name name ≡ true) ↔ Carries name i
  Carries-name p q = (
    λ h. inr (
        inr (
          λ e. cc ((bytes_eq_iff name public).1 e),
          λ e. cc ((bytes_eq_iff name public6).1 e),
          eq_of_bytes_eq i.name name h,
        )),
    λ c. elim c [
      | inl (e, _) ↦ cc ((bytes_eq_iff name public).1 e)
      | inr (inl (e, _)) ↦ cc ((bytes_eq_iff name public6).1 e)
      | inr (inr (_, _, e)) ↦ (bytes_eq_iff i.name name).1 e
    ],
  )

-- FindInterfaceByName returns the first interface of the list that the name stands for, and none
-- only where the name stands for no interface of the list.
pub find_interface_by_name-IsFirst :
    (name : Bytes) (ifaces : List Interface)
    → IsFirst (Carries name) ifaces (find_interface_by_name name ifaces)
unfolding find_interface_by_name
find_interface_by_name-IsFirst name ifaces = elim (Bool-cases (bytes_eq name public)) [
  | inl p ↦ rw p (
      find-IsFirst (Carries name) (λ i. non_nil i.gateway4) (λ i. Carries-gateway4 name i p) ifaces)
  | inr p ↦ elim (Bool-cases (bytes_eq name public6)) [
    | inl q ↦
        rw (p, q)
          (find-IsFirst (Carries name) (λ i. non_nil i.gateway6) (λ i. Carries-gateway6 name i p q)
            ifaces)
    | inr q ↦
        rw (p, q)
          (find-IsFirst (Carries name) (λ i. bytes_eq i.name name) (λ i. Carries-name name i p q)
            ifaces)
  ]
]
