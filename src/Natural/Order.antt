-- ===== src/Natural/Order.antt =====
-- naturalLess is a strict weak order, as the sort asks of its comparison.
use go_network_configurator.Prelude.{◌≡◌, refl, ◌∙◌, Bool, true, false, [], ◌∷◌, Bytes, arith}
use go_network_configurator.Natural.{bytes_lt, natural_less}
use go_network_configurator.Natural.Key.{key, natural_less-eq-key}

pub bytes_lt_irrefl : (a : Bytes) → bytes_lt a a ≡ false
unfolding bytes_lt
bytes_lt_irrefl [] = refl
bytes_lt_irrefl (x ∷ a) = ground (arith, bytes_lt_irrefl a)

pub bytes_lt_trans :
    (a b c : Bytes) → bytes_lt a b ≡ true → bytes_lt b c ≡ true → bytes_lt a c ≡ true
unfolding bytes_lt
bytes_lt_trans a b [] p q = cc
bytes_lt_trans a [] (z ∷ c) p q = cc
bytes_lt_trans [] (y ∷ b) (z ∷ c) p q = refl
bytes_lt_trans (x ∷ a) (y ∷ b) (z ∷ c) p q = ground (arith, bytes_lt_trans a b c)

-- Two texts of which neither comes first are equal.
pub bytes_lt_total : (a b : Bytes) → bytes_lt a b ≡ false → bytes_lt b a ≡ false → a ≡ b
unfolding bytes_lt
bytes_lt_total [] [] p q = refl
bytes_lt_total [] (y ∷ b) p q = cc
bytes_lt_total (x ∷ a) [] p q = cc
bytes_lt_total (x ∷ a) (y ∷ b) p q = ground (arith, bytes_lt_total a b)

-- A comparison that a stable sort may use: no element comes before itself, the order is
-- transitive, and so is "neither comes first".
pub record IsStrictWeak {ℓ} {A : Type ℓ} (less : A → A → Bool) : Type ℓ where
  pub irrefl : (a : A) → less a a ≡ false
  pub trans : (a b c : A) → less a b ≡ true → less b c ≡ true → less a c ≡ true
  pub tie_trans :
      (a b c : A)
      → less a b ≡ false
      → less b a ≡ false
      → less b c ≡ false
      → less c b ≡ false
      → (less a c ≡ false) × (less c a ≡ false)

-- naturalLess is a strict weak order on all names.
pub natural_less-IsStrictWeak : IsStrictWeak natural_less
natural_less-IsStrictWeak = record {
  irrefl = λ a. rw natural_less-eq-key (bytes_lt_irrefl (key a));
  trans = λ a b c. simp natural_less-eq-key (bytes_lt_trans (key a) (key b) (key c));
  tie_trans = λ a b c. simp natural_less-eq-key (λ p q r s.
      let ab = bytes_lt_total (key a) (key b) p q in
      let bc = bytes_lt_total (key b) (key c) r s in
      let ac = ab ∙ bc in (rw ac (bytes_lt_irrefl (key c)), rw ac (bytes_lt_irrefl (key c))));
}
