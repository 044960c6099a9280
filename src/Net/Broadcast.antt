-- ===== src/Net/Broadcast.antt =====
-- allFF and getBroadcast of utils.go, and the round trip of ip2Uint and uint2IP.
use go_network_configurator.Prelude.{
  ℕ, zero, suc, ◌+◌, ◌*◌, ◌<◌, ◌^◌, bit_and, bit_or, bit_xor, ◌≡◌, refl, ap, Bool, true, false,
  ◌&&◌, Option, none, some, [], ◌∷◌, ◌++◌, arith, ◌==◌, if◌then◌else◌, Bytes, bytes_eq, length,
  take, drop, All,
}
use go_network_configurator.Net.{
  Ip, IpNet, to4, v4_in_v6_prefix, contains, ip_to_uint, uint_to_ip, same_network,
}

-- allFF
unfoldable pub all_ff : Bytes → Bool
all_ff [] = true
all_ff (c ∷ b) = if c == 0xff then all_ff b else false

-- `(ip[i] & mask[i]) | (mask[i] ^ 0xff)` for each byte of the address; Go panics (`none`) where
-- the mask is shorter.
fill_host : Bytes → Bytes → Option Bytes
fill_host [] mask = some []
fill_host (b ∷ ip) [] = none
fill_host (b ∷ ip) (m ∷ mask) = elim (fill_host ip mask) [
  | none ↦ none
  | some rest ↦ some (bit_or (bit_and b m) (bit_xor m 0xff) ∷ rest)
]

-- getBroadcast
unfoldable pub get_broadcast : IpNet → Option Ip
unfolding all_ff fill_host
get_broadcast network =
    let mask =
      if length network.mask == 16 && length network.ip == 4 && all_ff (take 12 network.mask)
      then drop 12 network.mask
      else network.mask in
    let ip =
      if length mask == 4
        && length network.ip == 16
        && bytes_eq (take 12 network.ip) v4_in_v6_prefix
      then drop 12 network.ip
      else network.ip in
    fill_host ip mask

abbrev pub IsBytes : Bytes → Type 0
IsBytes = All (λ b. b < 0x100)

-- uint2IP gives back the four bytes that ip2Uint read.
pub uint_to_ip-ip_to_uint :
    (a b c d : ℕ)
    → IsBytes (a ∷ b ∷ c ∷ d ∷ [])
    → (n : ℕ) × (ip_to_uint (a ∷ b ∷ c ∷ d ∷ []) ≡ some n)
      × (uint_to_ip n ≡ a ∷ b ∷ c ∷ d ∷ [])
      × (n < 2 ^ 32)
unfolding ip_to_uint uint_to_ip
uint_to_ip-ip_to_uint a b c d h =
    (a + b * 0x100 + c * 0x1_0000 + d * 0x100_0000, refl, ground arith, omega arith)

-- A test that passes at every number below a size, by evaluation.
table_holds : ℕ → (ℕ → Bool) → Bool
table_holds zero row = true
table_holds (suc size) row = row size && table_holds size row

table_lem :
    (size : ℕ) (row : ℕ → Bool) (i : ℕ) → i < size → table_holds size row ≡ true → row i ≡ true
unfolding table_holds
table_lem zero row i below h = elim below [ ]
table_lem (suc size) row i below h = ground (arith, table_lem size row i)

host_bits : ℕ → ℕ → Bool
host_bits m b = bit_and (bit_or (bit_and b m) (bit_xor m 0xff)) m == bit_and b m

host_bits_table : table_holds 0x100 (λ m. table_holds 0x100 (host_bits m)) ≡ true
unfolding table_holds host_bits
host_bits_table = refl

-- Every bit outside the mask is set.
unfoldable pub host_ones : Bytes → Bytes → Bool
host_ones (m ∷ ms) (b ∷ bs) = bit_or b (bit_xor m 0xff) == b && host_ones ms bs
host_ones _ _ = true

last_host : ℕ → ℕ → Bool
last_host m b =
    let out = bit_or (bit_and b m) (bit_xor m 0xff) in bit_or out (bit_xor m 0xff) == out

last_host_table : table_holds 0x100 (λ m. table_holds 0x100 (last_host m)) ≡ true
unfolding table_holds last_host
last_host_table = refl

module _ (table : ℕ → ℕ → Bool)
    (checked : table_holds 0x100 (λ m. table_holds 0x100 (table m)) ≡ true) where
  byte_table : (m b : ℕ) → m < 0x100 → b < 0x100 → table m b ≡ true
  byte_table m b hm hb =
      table_lem 0x100 (table m) b hb
        (table_lem 0x100 (λ k. table_holds 0x100 (table k)) m hm checked)

fill_host_lem :
    (ip mask : Bytes)
    → IsBytes ip
    → IsBytes mask
    → length ip ≡ length mask
    → (r : Bytes) × (fill_host ip mask ≡ some r)
      × (length r ≡ length ip)
      × (same_network ip mask r ≡ true)
      × (host_ones mask r ≡ true)
unfolding fill_host same_network host_ones host_bits last_host
fill_host_lem [] [] hi hm e = ([], refl, refl, refl, refl)
fill_host_lem [] (m ∷ mask) hi hm e = absurd (omega arith)
fill_host_lem (b ∷ ip) [] hi hm e = absurd (omega arith)
fill_host_lem (b ∷ ip) (m ∷ mask) hi hm e =
    let (r, done, len, net, ones) = fill_host_lem ip mask hi.1 hm.1 (omega arith) in
    (
      bit_or (bit_and b m) (bit_xor m 0xff) ∷ r,
      rw done,
      omega arith,
      ground (arith, byte_table host_bits host_bits_table m b hm.0 hi.0),
      ground (arith, byte_table last_host last_host_table m b hm.0 hi.0),
    )

-- The bytes that are filled
abbrev filled_byte : ℕ → ℕ → ℕ
filled_byte b m = bit_or (bit_and b m) (bit_xor m 0xff)

abbrev filled_bytes : (a b c d m n o p : ℕ) → Bytes
filled_bytes a b c d m n o p =
    filled_byte a m ∷ filled_byte b n ∷ filled_byte c o ∷ filled_byte d p ∷ []

filled :
    (a b c d m n o p : ℕ)
    → IsBytes (a ∷ b ∷ c ∷ d ∷ [])
    → IsBytes (m ∷ n ∷ o ∷ p ∷ [])
    → (same_network (a ∷ b ∷ c ∷ d ∷ []) (m ∷ n ∷ o ∷ p ∷ []) (filled_bytes a b c d m n o p) ≡ true)
      × (host_ones (m ∷ n ∷ o ∷ p ∷ []) (filled_bytes a b c d m n o p) ≡ true)
unfolding fill_host
filled a b c d m n o p hi hm =
    let (r, done, len, net, ones) =
      fill_host_lem (a ∷ b ∷ c ∷ d ∷ []) (m ∷ n ∷ o ∷ p ∷ []) hi hm refl in
    let e = ap (λ x. elim x [ none ↦ [] | some y ↦ y ]) done in (rw e net, rw e ones)

-- The mask of the bytes in front of an IPv4 address
abbrev pub v4_in_v6_mask : Bytes
v4_in_v6_mask =
    0xff ∷ 0xff ∷ 0xff ∷ 0xff ∷ 0xff ∷ 0xff ∷ 0xff ∷ 0xff ∷ 0xff ∷ 0xff ∷ 0xff ∷ 0xff ∷ []

-- An IPv4 network in one of the forms of package net: the address and the mask in 16 bytes each,
-- if `wide_address` and `wide_mask`, or in 4.
abbrev pub v4_network : Bool → Bool → Bytes → Bytes → IpNet
v4_network wide_address wide_mask address mask = record {
  ip = if wide_address then v4_in_v6_prefix ++ address else address;
  mask = if wide_mask then v4_in_v6_mask ++ mask else mask;
}

-- The broadcast address of an IPv4 network exists, lies in the network, and has every host bit
-- set. The network is in any of the four forms: an address of 4 bytes or of 16 with the prefix of
-- IPv4, and a mask of 4 bytes or of 16 of which the first 12 are full.
pub get_broadcast-contains :
    (wide_address wide_mask : Bool) (a b c d m n o p : ℕ)
    → IsBytes (a ∷ b ∷ c ∷ d ∷ [])
    → IsBytes (m ∷ n ∷ o ∷ p ∷ [])
    → let network = v4_network wide_address wide_mask (a ∷ b ∷ c ∷ d ∷ []) (m ∷ n ∷ o ∷ p ∷ []) in
      (r : Ip) × (get_broadcast network ≡ some r)
      × (contains network r ≡ true)
      × (host_ones (m ∷ n ∷ o ∷ p ∷ []) (to4 r) ≡ true)
unfolding get_broadcast contains to4 bytes_eq
get_broadcast-contains false false a b c d m n o p hi hm =
    let f = filled a b c d m n o p hi hm in (filled_bytes a b c d m n o p, refl, f.0, f.1)
get_broadcast-contains false true a b c d m n o p hi hm =
    let f = filled a b c d m n o p hi hm in (filled_bytes a b c d m n o p, refl, f.0, f.1)
get_broadcast-contains true false a b c d m n o p hi hm =
    let f = filled a b c d m n o p hi hm in (filled_bytes a b c d m n o p, refl, f.0, f.1)
get_broadcast-contains true true a b c d m n o p hi hm =
    let f = filled a b c d m n o p hi hm in
    (v4_in_v6_prefix ++ filled_bytes a b c d m n o p, refl, f.0, f.1)
