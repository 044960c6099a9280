-- ===== src/Iface/Order.antt =====
-- Comparisons that may drive a stable sort, and what the sort does with them.
use mathlib.Core.List.{Perm}
use mathlib.Core.List.Perm
use go_network_configurator.Prelude.{
  ℕ, ◌≡◌, refl, Bool, false, not, ◌&&◌, List, [], ◌∷◌, ltb, ◌==◌, if◌then◌else◌, arith, select, All,
  Bool-cases, inl, inr,
}
use go_network_configurator.Natural.Order.{IsStrictWeak}
use go_network_configurator.Iface.{insert, stable_sort}

-- Compare by a rank first, and by `less` at equal ranks.
abbrev pub by_rank {ℓ} : {A : Type ℓ} → (A → ℕ) → (A → A → Bool) → A → A → Bool
by_rank rank less a b = if rank a == rank b then less a b else ltb (rank a) (rank b)

module _ {ℓ} {A : Type ℓ} (rank : A → ℕ) {less : A → A → Bool} (w : IsStrictWeak less) where
  pub by_rank-IsStrictWeak : IsStrictWeak (by_rank rank less)
  by_rank-IsStrictWeak = record {
    irrefl = λ a. ground (arith, w.irrefl a);
    trans = λ a b c p q. ground (arith, w.trans a b c);
    tie_trans = λ a b c p q r s. ground (arith, w.tie_trans a b c);
  }

pub pullback-IsStrictWeak {ℓ κ} :
    {A : Type ℓ} {B : Type κ} (f : A → B) {less : B → B → Bool}
    → IsStrictWeak less
    → IsStrictWeak (λ a b. less (f a) (f b))
pullback-IsStrictWeak f w = record {
  irrefl = λ a. w.irrefl (f a);
  trans = λ a b c. w.trans (f a) (f b) (f c);
  tie_trans = λ a b c. w.tie_trans (f a) (f b) (f c);
}

module _ {ℓ} {A : Type ℓ} (less : A → A → Bool) where
  -- No element comes after one that it should precede.
  abbrev pub IsSorted : List A → Type 0
  IsSorted [] = Unit
  IsSorted (x ∷ xs) = All (λ y. less y x ≡ false) xs × IsSorted xs

  -- Neither comes before the other.
  abbrev pub tie : A → A → Bool
  tie a b = not (less a b) && not (less b a)

  pub insert-perm : (x : A) (xs : List A) → Perm (insert less x xs) (x ∷ xs)
  unfolding insert
  insert-perm x [] = Perm.refl (x ∷ [])
  insert-perm x (y ∷ ys) = elim (Bool-cases (less y x)) [
    | inl p ↦ rw p (Perm.trans (Perm.cons y (insert-perm x ys)) (Perm.swap x y ys))
    | inr p ↦ rw p (Perm.refl (x ∷ y ∷ ys))
  ]

  pub stable_sort-perm : (xs : List A) → Perm (stable_sort less xs) xs
  unfolding stable_sort
  stable_sort-perm [] = Perm.refl []
  stable_sort-perm (x ∷ xs) =
      Perm.trans (insert-perm x (stable_sort less xs)) (Perm.cons x (stable_sort-perm xs))

module _ {ℓ} {A : Type ℓ} (less : A → A → Bool) where
  pub All-insert {κ} :
      (P : A → Type κ) (x : A) (ys : List A) → P x → All P ys → All P (insert less x ys)
  unfolding insert
  All-insert P x [] p h = (p, tt)
  All-insert P x (y ∷ ys) p h = elim (Bool-cases (less y x)) [
    | inl q ↦ rw q (h.0, All-insert P x ys p h.1)
    | inr q ↦ rw q (p, h)
  ]

module _ {ℓ} {A : Type ℓ} {less : A → A → Bool} (w : IsStrictWeak less) where
  -- What does not come before `y` does not come before `x`, if `y` does not.
  not_less_trans : (x y z : A) → less y x ≡ false → less z y ≡ false → less z x ≡ false
  not_less_trans x y z p q = ground (arith, w.trans z x y, w.trans y z x, w.tie_trans x y z)

  All-not_less :
      (x y : A) (zs : List A)
      → less y x ≡ false
      → All (λ z. less z y ≡ false) zs
      → All (λ z. less z x ≡ false) zs
  All-not_less x y [] p h = tt
  All-not_less x y (z ∷ zs) p h = (not_less_trans x y z p h.0, All-not_less x y zs p h.1)

  insert-IsSorted : (x : A) (ys : List A) → IsSorted less ys → IsSorted less (insert less x ys)
  unfolding insert
  insert-IsSorted x [] h = (tt, tt)
  insert-IsSorted x (y ∷ ys) h = elim (Bool-cases (less y x)) [
    | inl q ↦ rw q (
      All-insert less (λ z. less z y ≡ false) x ys (ground (arith, w.trans x y x, w.irrefl x)) h.0,
      insert-IsSorted x ys h.1,
    )
    | inr q ↦ rw q ((q, All-not_less x y ys q h.0), h)
  ]

  pub stable_sort-IsSorted : (xs : List A) → IsSorted less (stable_sort less xs)
  unfolding stable_sort
  stable_sort-IsSorted [] = tt
  stable_sort-IsSorted (x ∷ xs) = insert-IsSorted x (stable_sort less xs) (stable_sort-IsSorted xs)

  -- An insertion keeps the order of the elements that tie with `a`.
  select-insert :
      (a x : A) (ys : List A)
      → select (tie less a) (insert less x ys) ≡ select (tie less a) (x ∷ ys)
  unfolding insert
  select-insert a x [] = refl
  select-insert a x (y ∷ ys) = ground (arith, select-insert a x ys, w.tie_trans x a y)

  pub select-stable_sort :
      (a : A) (xs : List A) → select (tie less a) (stable_sort less xs) ≡ select (tie less a) xs
  unfolding stable_sort
  select-stable_sort a [] = refl
  select-stable_sort a (x ∷ xs) =
      ground (arith, select-insert a x (stable_sort less xs), select-stable_sort a xs)
