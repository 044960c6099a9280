-- ===== src/Networkd/Paths.antt =====
-- Paths of files that stand beside each other in a directory.
use go_network_configurator.Prelude.{
  ℕ, ◌≡◌, refl, true, false, [], ◌∷◌, ◌++◌, arith, Bytes, bytes_eq, has_prefix,
}

-- Texts that go on differently behind a common part
pub differ : (p s t : Bytes) → bytes_eq s t ≡ false → bytes_eq (p ++ s) (p ++ t) ≡ false
unfolding bytes_eq
differ [] s t h = h
differ (c ∷ p) s t h = ground (arith, differ p s t)

pub longer_left : (p : Bytes) (c : ℕ) (s : Bytes) → bytes_eq (p ++ c ∷ s) p ≡ false
unfolding bytes_eq
longer_left [] c s = refl
longer_left (d ∷ p) c s = ground (arith, longer_left p c s)

-- A text without a prefix is none with it.
pub ne_of_prefix : (q p s : Bytes) → has_prefix q p ≡ false → bytes_eq q (p ++ s) ≡ false
unfolding has_prefix bytes_eq
ne_of_prefix q [] s h = cc
ne_of_prefix [] (c ∷ p) s h = refl
ne_of_prefix (d ∷ q) (c ∷ p) s h = ground (arith, ne_of_prefix q p s)

-- A prefix behind a common part
pub has_prefix-behind :
    (d s p : Bytes) → has_prefix s p ≡ true → has_prefix (d ++ s) (d ++ p) ≡ true
unfolding has_prefix
has_prefix-behind [] s p h = h
has_prefix-behind (c ∷ d) s p h = ground (arith, has_prefix-behind d s p)

-- A text that goes on with a dot and more goes on with a dot.
pub prefix_part :
    (s p t : Bytes)
    → has_prefix s (p ++ b'.' ∷ t) ≡ true
    → has_prefix (b'/' ∷ s) (b'/' ∷ (p ++ b'.' ∷ [])) ≡ true
unfolding has_prefix
prefix_part [] [] t h = cc
prefix_part [] (c ∷ p) t h = cc
prefix_part (d ∷ s) [] t h = ground arith
prefix_part (d ∷ s) (c ∷ p) t h = ground (arith, prefix_part s p t)
