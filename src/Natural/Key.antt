-- ===== src/Natural/Key.antt =====
-- The order of names by a key: each run of digits becomes a 48 (the code of '0'), the count of
-- its digits without leading zeros, and those digits; other bytes stand for themselves.
use go_network_configurator.Prelude.{
  ℕ, zero, suc, ◌<◌, ◌≤◌, ◌≡◌, refl, ap, true, false, ◌&&◌, List, [], ◌∷◌, ◌++◌, ltb, ◌==◌,
  if◌then◌else◌, Bytes, bytes_eq, length, arith, Bool-cases, inl, inr, ◌⊎◌,
}
use go_network_configurator.Natural.{
  is_digit, leading_digits, trim_zeros, bytes_lt, natural_loop, natural_less,
}

data Token : Type 0 where
  byte : ℕ → Token
  number : Bytes → Token

push : ℕ → List Token → List Token
push c [] = if is_digit c then number (c ∷ []) ∷ [] else byte c ∷ []
push c (byte b ∷ ts) = if is_digit c then number (c ∷ []) ∷ byte b ∷ ts else byte c ∷ byte b ∷ ts
push c (number d ∷ ts) = if is_digit c then number (c ∷ d) ∷ ts else byte c ∷ number d ∷ ts

tokens : Bytes → List Token
tokens [] = []
tokens (c ∷ s) = push c (tokens s)

emit : List Token → Bytes
emit [] = []
emit (byte c ∷ ts) = c ∷ emit ts
emit (number d ∷ ts) = b'0' ∷ length (trim_zeros d) ∷ (trim_zeros d ++ emit ts)

pub key : Bytes → Bytes
unfolding push tokens emit trim_zeros is_digit
key s = emit (tokens s)

push-nondigit : (c : ℕ) (ts : List Token) → is_digit c ≡ false → push c ts ≡ byte c ∷ ts
unfolding push
push-nondigit c [] h = rw h
push-nondigit c (byte b ∷ ts) h = rw h
push-nondigit c (number d ∷ ts) h = rw h

tokens-digit :
    (x : ℕ) (a : Bytes)
    → is_digit x ≡ true
    → tokens (x ∷ a) ≡ number (x ∷ (leading_digits a).0) ∷ tokens (leading_digits a).1
unfolding tokens push leading_digits
tokens-digit x [] h = rw h
tokens-digit x (y ∷ a) h = elim (Bool-cases (is_digit y)) [
  | inl d ↦ rw (d, tokens-digit y a d, h)
  | inr n ↦ rw (n, push-nondigit y (tokens a) n, h)
]

key-digit :
    (x : ℕ) (a : Bytes)
    → is_digit x ≡ true
    → key (x ∷ a)
      ≡ b'0'
        ∷ length (trim_zeros (leading_digits (x ∷ a)).0)
        ∷ (trim_zeros (leading_digits (x ∷ a)).0 ++ key (leading_digits (x ∷ a)).1)
unfolding key leading_digits
key-digit x a h = rw h (ap emit (tokens-digit x a h))

key-nondigit : (x : ℕ) (a : Bytes) → is_digit x ≡ false → key (x ∷ a) ≡ x ∷ key a
unfolding key
key-nondigit x a h = ap emit (push-nondigit x (tokens a) h)

bytes_lt-append :
    (p q s t : Bytes)
    → length p ≡ length q
    → bytes_lt (p ++ s) (q ++ t) ≡ (if bytes_eq p q then bytes_lt s t else bytes_lt p q)
unfolding bytes_lt bytes_eq
bytes_lt-append [] [] s t e = refl
bytes_lt-append [] (y ∷ q) s t e = absurd (omega arith)
bytes_lt-append (x ∷ p) [] s t e = absurd (omega arith)
bytes_lt-append (x ∷ p) (y ∷ q) s t e = ground (arith, bytes_lt-append p q s t)

length-rest-le : (a : Bytes) → length (leading_digits a).1 ≤ length a
unfolding leading_digits
length-rest-le [] = omega arith
length-rest-le (c ∷ s) = ground (arith, length-rest-le s)

key-nil : key [] ≡ []
unfolding key
key-nil = refl

key-cons : (y : ℕ) (b : Bytes) → bytes_lt (key []) (key (y ∷ b)) ≡ true
unfolding bytes_lt key
key-cons y b = elim (Bool-cases (is_digit y)) [
  | inl d ↦ rw (key-digit y b d)
  | inr n ↦ rw (key-nondigit y b n)
]

length-rest-le_of_digit :
    (x : ℕ) (a : Bytes) → is_digit x ≡ true → length (leading_digits (x ∷ a)).1 ≤ length a
unfolding leading_digits
length-rest-le_of_digit x a h = rw h (length-rest-le a)

digit_bounds : (x : ℕ) → is_digit x ≡ true → (b'0' ≤ x) × (x ≤ b'9')
unfolding is_digit
digit_bounds x h = ground arith

nondigit_bounds : (x : ℕ) → is_digit x ≡ false → (x < b'0') ⊎ (b'9' < x)
unfolding is_digit
nondigit_bounds x h = ground arith

module _ (x y : ℕ) (a b : Bytes) where
  -- A round at two digits, and a round at any other pair of bytes.
  round-digits :
      is_digit x ≡ true
      → is_digit y ≡ true
      → bytes_lt (key (x ∷ a)) (key (y ∷ b)) ≡ (
          let p = trim_zeros (leading_digits (x ∷ a)).0 in
          let q = trim_zeros (leading_digits (y ∷ b)).0 in
          if length p == length q
          then if bytes_eq p q
            then bytes_lt (key (leading_digits (x ∷ a)).1) (key (leading_digits (y ∷ b)).1)
            else bytes_lt p q
          else ltb (length p) (length q))
  unfolding bytes_lt
  round-digits dx dy =
      rw (key-digit x a dx, key-digit y b dy)
        (ground (
          arith,
          bytes_lt-append (trim_zeros (leading_digits (x ∷ a)).0)
              (trim_zeros (leading_digits (y ∷ b)).0) (key (leading_digits (x ∷ a)).1)
              (key (leading_digits (y ∷ b)).1),
        ))

  round-bytes :
      is_digit x && is_digit y ≡ false
      → bytes_lt (key (x ∷ a)) (key (y ∷ b))
        ≡ (if x == y then bytes_lt (key a) (key b) else ltb x y)
  unfolding bytes_lt
  round-bytes n = elim (Bool-cases (is_digit x)) [
    | inl dx ↦
        let ny : is_digit y ≡ false = ground arith in
        rw (key-digit x a dx, key-nondigit y b ny)
          (ground (arith, digit_bounds x dx, nondigit_bounds y ny))
    | inr nx ↦ elim (Bool-cases (is_digit y)) [
      | inl dy ↦
          rw (key-nondigit x a nx, key-digit y b dy)
            (ground (arith, digit_bounds y dy, nondigit_bounds x nx))
      | inr ny ↦ rw (key-nondigit x a nx, key-nondigit y b ny)
    ]
  ]

-- The loop compares keys, and `length a + 1` rounds are enough for it.
pub natural_loop-eq-key :
    (fuel : ℕ) (a b : Bytes) → length a < fuel → natural_loop fuel a b ≡ bytes_lt (key a) (key b)
unfolding natural_loop bytes_lt
natural_loop-eq-key zero a b h = absurd (omega arith)
natural_loop-eq-key (suc fuel) [] [] h = rw key-nil
natural_loop-eq-key (suc fuel) [] (y ∷ b) h = ground (arith, key-cons y b)
natural_loop-eq-key (suc fuel) (x ∷ a) [] h = rw key-nil
natural_loop-eq-key (suc fuel) (x ∷ a) (y ∷ b) h = elim (Bool-cases (is_digit x && is_digit y)) [
  | inl digits ↦
      let dx : is_digit x ≡ true = ground arith in
      let dy : is_digit y ≡ true = ground arith in
      ground (
        arith,
        round-digits x y a b dx dy,
        length-rest-le_of_digit x a dx,
        natural_loop-eq-key fuel (leading_digits (x ∷ a)).1 (leading_digits (y ∷ b)).1,
      )
  | inr other ↦ ground (arith, round-bytes x y a b other, natural_loop-eq-key fuel a b)
]

-- naturalLess orders names as their keys are ordered, byte by byte.
pub natural_less-eq-key : (a b : Bytes) → natural_less a b ≡ bytes_lt (key a) (key b)
unfolding natural_less
natural_less-eq-key a b = natural_loop-eq-key (suc (length a)) a b (omega arith)
