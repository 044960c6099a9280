-- ===== src/Iface.antt =====
-- Interface, Route and the pure functions on interfaces of networkConfigurator.go: ranking,
-- lookup by name, and promotion of an address.
pub mod Order
pub mod Ranking
pub mod Lookup
pub mod Primary
use go_network_configurator.Prelude.{
  ℕ, ◌+◌, ◌-◌, Bool, true, false, not, ◌&&◌, ◌||◌, List, [], ◌∷◌, ◌++◌, Option, none, some, ltb,
  leb, ◌==◌, same, if◌then◌else◌, Bytes, codes, bytes_eq, has_prefix, map, any, select, find,
}
use go_network_configurator.Net.{Ip, IpNet, non_nil, is_nil, ip_equal}
use go_network_configurator.Natural.{natural_less}

pub record Route : Type 0 where
  pub destination : IpNet
  pub gateway : Ip
  pub metric : ℕ

-- Every field of Interface but the opaque `Link`
pub record Interface : Type 0 where
  pub name : Bytes
  pub mac : Bytes
  pub addresses : List IpNet
  pub gateway4 : Ip
  pub gateway6 : Ip
  pub routes : List Route
  pub dns : List Ip
  pub up : Bool
  pub physical : Bool
  pub dhcp4 : Bool
  pub dhcp6 : Bool
  pub search_domains : List Bytes

abbrev pub public : Bytes
public = codes "public-internet"

abbrev pub public6 : Bytes
public6 = codes "public-internet-6"

-- FindInterfaceByName: the first interface that the name asks for
unfoldable pub find_interface_by_name : Bytes → List Interface → Option Interface
find_interface_by_name name ifaces =
    if bytes_eq name public
    then find (λ i. non_nil i.gateway4) ifaces
    else if bytes_eq name public6
    then find (λ i. non_nil i.gateway6) ifaces
    else find (λ i. bytes_eq i.name name) ifaces

-- gatewayRank
unfoldable pub gateway_rank : Interface → ℕ
gateway_rank i = if non_nil i.gateway4 then 0 else if non_nil i.gateway6 then 1 else 2

-- ifaceRankWired, ifaceRankWireless, ifaceRankOther
abbrev pub iface_rank_wired : ℕ
iface_rank_wired = 0

abbrev pub iface_rank_wireless : ℕ
iface_rank_wireless = 1

abbrev pub iface_rank_other : ℕ
iface_rank_other = 2

abbrev pub wired_name_prefixes : List Bytes
wired_name_prefixes = codes "eth" ∷ codes "en" ∷ codes "em" ∷ []

abbrev pub wireless_name_prefixes : List Bytes
wireless_name_prefixes = codes "wl" ∷ codes "wifi" ∷ codes "wi-fi" ∷ []

-- `strings.ToLower` on ASCII
unfoldable pub to_lower : Bytes → Bytes
to_lower s = map (λ c. if leb b'A' c && leb c b'Z' then c + 32 else c) s

-- ifaceNameRank
unfoldable pub iface_name_rank : Bytes → ℕ
unfolding to_lower has_prefix
iface_name_rank name =
    let lower = to_lower name in
    if any (has_prefix lower) wireless_name_prefixes
    then iface_rank_wireless
    else if any (has_prefix lower) wired_name_prefixes
    then iface_rank_wired
    else iface_rank_other

-- preferInterface
unfoldable pub prefer_interface : Interface → Interface → Bool
prefer_interface a b =
    if not (same a.up b.up)
    then a.up
    else if not (gateway_rank a == gateway_rank b)
    then ltb (gateway_rank a) (gateway_rank b)
    else if not (iface_name_rank a.name == iface_name_rank b.name)
    then ltb (iface_name_rank a.name) (iface_name_rank b.name)
    else natural_less a.name b.name

module _ {ℓ} {A : Type ℓ} (less : A → A → Bool) where
  -- `x` goes in front of the first element that does not come before it.
  unfoldable pub insert : A → List A → List A
  insert x [] = x ∷ []
  insert x (y ∷ ys) = if less y x then y ∷ insert x ys else x ∷ y ∷ ys

  -- `sort.SliceStable`
  unfoldable pub stable_sort : List A → List A
  unfolding insert
  stable_sort [] = []
  stable_sort (x ∷ xs) = insert x (stable_sort xs)

-- FindPhysicalInterfaces
unfoldable pub find_physical_interfaces : List Interface → List Interface
find_physical_interfaces ifaces = stable_sort prefer_interface (select (λ i. i.physical) ifaces)

-- The loop of reorderPrimaryAddress: whether the target was found, and the other addresses.
unfoldable pub without_target : List IpNet → IpNet → Bool × List IpNet
without_target [] target = (false, [])
without_target (addr ∷ addrs) target =
    let (found, reordered) = without_target addrs target in
    if ip_equal addr.ip target.ip then (true, reordered) else (found, addr ∷ reordered)

-- reorderPrimaryAddress
unfoldable pub reorder_primary_address : List IpNet → IpNet → List IpNet × Bool
unfolding without_target
reorder_primary_address addrs target =
    let (found, reordered) = without_target addrs target in
    if not found then (addrs, false) else (target ∷ reordered, true)
