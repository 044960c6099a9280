-- ===== src/Net.antt =====
-- What the program uses of Go's package `net`: an IP is its 4 or 16 bytes, and `nil` is `[]`.
-- Then the address helpers of utils.go and networkConfigurator.go.
pub mod Laws
pub mod Broadcast
use go_network_configurator.Prelude.{
  ℕ, zero, suc, ◌+◌, ◌-◌, ◌*◌, ◌/◌, ◌%◌, bit_and, bit_or, bit_xor, ◌≡◌, refl, Bool, true, false,
  not, ◌&&◌, ◌||◌, Option, none, some, List, [], ◌∷◌, ◌++◌, arith, ltb, leb, ◌==◌, if◌then◌else◌,
  Bytes, bytes_eq, length, take, drop, get_or, all,
}

abbrev pub Ip : Type 0
Ip = Bytes

-- `net.IPNet`: the address as it was given, and the bytes of the mask
pub record IpNet : Type 0 where
  pub ip : Ip
  pub mask : Bytes

-- `ip == nil`
abbrev pub is_nil : Ip → Bool
is_nil [] = true
is_nil (b ∷ bs) = false

abbrev pub non_nil : Ip → Bool
non_nil ip = not (is_nil ip)

-- v4InV6Prefix
abbrev pub v4_in_v6_prefix : Bytes
v4_in_v6_prefix = 0 ∷ 0 ∷ 0 ∷ 0 ∷ 0 ∷ 0 ∷ 0 ∷ 0 ∷ 0 ∷ 0 ∷ 0xff ∷ 0xff ∷ []

-- `ip.To4()`
unfoldable pub to4 : Ip → Ip
to4 ip =
    if length ip == 4
    then ip
    else if length ip == 16 && bytes_eq (take 12 ip) v4_in_v6_prefix
    then drop 12 ip
    else []

-- `ip.To4() != nil`
unfoldable pub is_v4 : Ip → Bool
unfolding to4
is_v4 ip = non_nil (to4 ip)

-- `ip.Equal(x)`
unfoldable pub ip_equal : Ip → Ip → Bool
ip_equal ip x =
    if length ip == length x
    then bytes_eq ip x
    else if length ip == 4 && length x == 16
    then bytes_eq (take 12 x) v4_in_v6_prefix && bytes_eq ip (drop 12 x)
    else if length ip == 16 && length x == 4
    then bytes_eq (take 12 ip) v4_in_v6_prefix && bytes_eq (drop 12 ip) x
    else false

-- `ip.IsLinkLocalUnicast()`: 169.254.0.0/16 and fe80::/10
unfoldable pub is_link_local : Ip → Bool
unfolding to4
is_link_local ip =
    if non_nil (to4 ip)
    then get_or (to4 ip) 0 0 == 169 && get_or (to4 ip) 1 0 == 254
    else length ip == 16 && get_or ip 0 0 == 0xfe && bit_and (get_or ip 1 0) 0xc0 == 0x80

-- The ones at the front of a byte whose other bits are 0, as in a mask.
leading_ones : ℕ → Option ℕ
leading_ones b =
    if b == 0
    then some 0
    else if b == 0x80
    then some 1
    else if b == 0xc0
    then some 2
    else if b == 0xe0
    then some 3
    else if b == 0xf0
    then some 4
    else if b == 0xf8
    then some 5
    else if b == 0xfc
    then some 6
    else if b == 0xfe
    then some 7
    else none

-- The length of a mask that is ones and then zeros.
mask_length : Bytes → ℕ → Option ℕ
mask_length [] n = some n
mask_length (b ∷ bs) n =
    let more = mask_length bs (n + 8) in
    if b == 0xff then more else elim (leading_ones b) [
      | none ↦ none
      | some k ↦ if all (λ c. c == 0) bs then some (n + k) else none
    ]

-- `ones, _ := mask.Size()`, which is 0 too for a mask that is no prefix of ones
unfoldable pub mask_ones : Bytes → ℕ
unfolding mask_length leading_ones
mask_ones mask = elim (mask_length mask 0) [ none ↦ 0 | some n ↦ n ]

-- The bytes of two addresses agree under a mask.
same_network : Bytes → Bytes → Bytes → Bool
same_network (n ∷ ns) (m ∷ ms) (b ∷ bs) = bit_and n m == bit_and b m && same_network ns ms bs
same_network [] _ [] = true
same_network _ _ _ = false

-- The network's address and mask in one length, `nil` if they do not fit.
network_number : IpNet → Ip
network_number n =
    let four = to4 n.ip in
    let ip = if non_nil four then four else n.ip in
    if length ip == 4
    then if length n.mask == 4 || length n.mask == 16 then ip else []
    else if length ip == 16 && length n.mask == 16
    then ip
    else []

network_mask : IpNet → Bytes
network_mask n =
    if length (network_number n) == 4 && length n.mask == 16 then drop 12 n.mask else n.mask

-- `n.Contains(ip)`
unfoldable pub contains : IpNet → Ip → Bool
unfolding network_number network_mask same_network to4
contains n ip =
    let four = to4 ip in
    let x = if non_nil four then four else ip in
    length x == length (network_number n) && same_network (network_number n) (network_mask n) x

-- `net.IPv4zero` and `net.IPv6zero`
abbrev pub ipv4_zero : Ip
ipv4_zero = v4_in_v6_prefix ++ 0 ∷ 0 ∷ 0 ∷ 0 ∷ []

abbrev pub ipv6_zero : Ip
ipv6_zero = 0 ∷ 0 ∷ 0 ∷ 0 ∷ 0 ∷ 0 ∷ 0 ∷ 0 ∷ 0 ∷ 0 ∷ 0 ∷ 0 ∷ 0 ∷ 0 ∷ 0 ∷ 0 ∷ []

-- ipIsIn
unfoldable pub ip_is_in : List Ip → Ip → Bool
ip_is_in [] ip = false
ip_is_in (a ∷ addrs) ip = if ip_equal a ip then true else ip_is_in addrs ip

-- stringInSlice
unfoldable pub string_in_slice : List Bytes → Bytes → Bool
string_in_slice [] s = false
string_in_slice (v ∷ list) s = if bytes_eq v s then true else string_in_slice list s

-- `binary.LittleEndian.Uint32`; Go panics on fewer than 4 bytes.
little_endian : Bytes → Option ℕ
little_endian (a ∷ b ∷ c ∷ d ∷ rest) = some (a + b * 0x100 + c * 0x1_0000 + d * 0x100_0000)
little_endian _ = none

-- ip2Uint: the bytes of an IPv4 address as a uint32
unfoldable pub ip_to_uint : Ip → Option ℕ
unfolding little_endian
ip_to_uint ip = little_endian (if length ip == 16 then drop 12 ip else ip)

-- uint2IP
unfoldable pub uint_to_ip : ℕ → Ip
uint_to_ip u =
    (u % 0x100) ∷ (u / 0x100 % 0x100) ∷ (u / 0x1_0000 % 0x100) ∷ (u / 0x100_0000 % 0x100) ∷ []
