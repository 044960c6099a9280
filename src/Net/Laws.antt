-- ===== src/Net/Laws.antt =====
-- `Equal` on IP addresses compares them in their 16-byte form, so it is an equivalence.
use go_network_configurator.Prelude.{
  ◌≡◌, refl, sym, ◌∙◌, ap, true, ◌&&◌, [], ◌∷◌, ◌++◌, arith, ◌==◌, if◌then◌else◌, Bytes, bytes_eq,
  bytes_eq_refl, eq_of_bytes_eq, length, take, drop, Bool-cases, inl, inr,
}
use go_network_configurator.Net.{Ip, ip_equal, is_v4, v4_in_v6_prefix}

-- `ip.To16()`, of an address of 4 or 16 bytes
abbrev pub to16 : Ip → Ip
to16 ip = if length ip == 4 then v4_in_v6_prefix ++ ip else ip

bytes_eq-append :
    (p a b : Bytes)
    → bytes_eq (p ++ a) b ≡ bytes_eq p (take (length p) b) && bytes_eq a (drop (length p) b)
unfolding bytes_eq
bytes_eq-append [] a b = refl
bytes_eq-append (x ∷ p) a [] = refl
bytes_eq-append (x ∷ p) a (y ∷ b) = ground (arith, bytes_eq-append p a b)

pub bytes_eq_sym : (a b : Bytes) → bytes_eq a b ≡ bytes_eq b a
unfolding bytes_eq
bytes_eq_sym [] [] = refl
bytes_eq_sym [] (y ∷ b) = refl
bytes_eq_sym (x ∷ a) [] = refl
bytes_eq_sym (x ∷ a) (y ∷ b) = ground (arith, bytes_eq_sym a b)

length_of_bytes_eq : (a b : Bytes) → bytes_eq a b ≡ true → length a ≡ length b
length_of_bytes_eq a b h = ap length (eq_of_bytes_eq a b h)

ip_equal-eq-to16 : (a b : Ip) → ip_equal a b ≡ bytes_eq (to16 a) (to16 b)
unfolding ip_equal
ip_equal-eq-to16 a b = elim (Bool-cases (length a == 4)) [
  | inl p ↦ elim (Bool-cases (length b == 4)) [
    | inl q ↦
        rw (p, q)
          (ground (
            arith,
            bytes_eq-append v4_in_v6_prefix a (v4_in_v6_prefix ++ b),
            bytes_eq_refl v4_in_v6_prefix,
          ))
    | inr q ↦
        rw (p, q)
          (ground (
            arith,
            bytes_eq-append v4_in_v6_prefix a b,
            bytes_eq_sym v4_in_v6_prefix (take 12 b),
            length_of_bytes_eq (v4_in_v6_prefix ++ a) b,
          ))
  ]
  | inr p ↦ elim (Bool-cases (length b == 4)) [
    | inl q ↦
        rw (p, q)
          (ground (
            arith,
            bytes_eq-append v4_in_v6_prefix b a,
            bytes_eq_sym v4_in_v6_prefix (take 12 a),
            bytes_eq_sym b (drop 12 a),
            bytes_eq_sym a (v4_in_v6_prefix ++ b),
            length_of_bytes_eq a (v4_in_v6_prefix ++ b),
          ))
    | inr q ↦ rw (p, q) (ground (arith, length_of_bytes_eq a b))
  ]
]

pub ip_equal_refl : (a : Ip) → ip_equal a a ≡ true
ip_equal_refl a = ip_equal-eq-to16 a a ∙ bytes_eq_refl (to16 a)

pub ip_equal_sym : (a b : Ip) → ip_equal a b ≡ ip_equal b a
ip_equal_sym a b =
    ip_equal-eq-to16 a b ∙ bytes_eq_sym (to16 a) (to16 b) ∙ sym (ip_equal-eq-to16 b a)

pub to16_eq : (a b : Ip) → ip_equal a b ≡ true → to16 a ≡ to16 b
to16_eq a b h = eq_of_bytes_eq (to16 a) (to16 b) (sym (ip_equal-eq-to16 a b) ∙ h)

-- Equal addresses are interchangeable on the left of `Equal`.
pub ip_equal_congr : (a b c : Ip) → ip_equal a b ≡ true → ip_equal a c ≡ ip_equal b c
ip_equal_congr a b c h =
    ip_equal-eq-to16 a c
    ∙ ap (λ x. bytes_eq x (to16 c)) (to16_eq a b h)
    ∙ sym (ip_equal-eq-to16 b c)

is_v4-eq-to16 :
    (a : Ip) → is_v4 a ≡ length (to16 a) == 16 && bytes_eq (take 12 (to16 a)) v4_in_v6_prefix
unfolding is_v4
is_v4-eq-to16 a = ground (arith, bytes_eq_refl v4_in_v6_prefix)

-- Equal addresses are of one family.
pub is_v4_congr : (a b : Ip) → ip_equal a b ≡ true → is_v4 a ≡ is_v4 b
is_v4_congr a b h =
    is_v4-eq-to16 a
    ∙ ap (λ x. length x == 16 && bytes_eq (take 12 x) v4_in_v6_prefix) (to16_eq a b h)
    ∙ sym (is_v4-eq-to16 b)
