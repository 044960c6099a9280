-- ===== src/Natural.antt =====
-- naturalLess, isDigit and leadingDigits of utils.go: the order of interface names.
pub mod Key
pub mod Order
use go_network_configurator.Prelude.{
  ℕ, zero, suc, ◌<◌, Bool, true, false, ◌&&◌, List, [], ◌∷◌, ltb, leb, ◌==◌, if◌then◌else◌, Bytes,
  bytes_eq, length,
}

-- isDigit
unfoldable pub is_digit : ℕ → Bool
is_digit c = leb b'0' c && leb c b'9'

-- leadingDigits
unfoldable pub leading_digits : Bytes → Bytes × Bytes
leading_digits [] = ([], [])
leading_digits (c ∷ s) =
    let (digits, rest) = leading_digits s in if is_digit c then (c ∷ digits, rest) else ([], c ∷ s)

-- `strings.TrimLeft(s, "0")`
unfoldable pub trim_zeros : Bytes → Bytes
trim_zeros [] = []
trim_zeros (c ∷ s) = if c == b'0' then trim_zeros s else c ∷ s

-- `a < b` on strings
unfoldable pub bytes_lt : Bytes → Bytes → Bool
bytes_lt a [] = false
bytes_lt [] (y ∷ b) = true
bytes_lt (x ∷ a) (y ∷ b) = if x == y then bytes_lt a b else ltb x y

-- The loop of naturalLess. Each round takes at least one byte off `a`, so that `length a + 1`
-- rounds are enough.
unfoldable pub natural_loop : ℕ → Bytes → Bytes → Bool
natural_loop zero a b = false
natural_loop (suc fuel) [] b = ltb 0 (length b)
natural_loop (suc fuel) (x ∷ a) [] = false
natural_loop (suc fuel) (x ∷ a) (y ∷ b) =
    let (a_run, a_rest) = leading_digits (x ∷ a) in
    let (b_run, b_rest) = leading_digits (y ∷ b) in
    let a_num = trim_zeros a_run in
    let b_num = trim_zeros b_run in
    let after_run = natural_loop fuel a_rest b_rest in
    let after_byte = natural_loop fuel a b in
    if is_digit x && is_digit y
    then if length a_num == length b_num
      then if bytes_eq a_num b_num then after_run else bytes_lt a_num b_num
      else ltb (length a_num) (length b_num)
    else if x == y
    then after_byte
    else ltb x y

-- naturalLess
unfoldable pub natural_less : Bytes → Bytes → Bool
unfolding natural_loop is_digit leading_digits trim_zeros bytes_lt bytes_eq
natural_less a b = natural_loop (suc (length a)) a b
