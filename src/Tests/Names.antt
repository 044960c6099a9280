-- ===== src/Tests/Names.antt =====
-- Names, addresses, options and interfaces at concrete values.
use go_network_configurator.Prelude.{
  ◌≡◌, refl, negsuc, true, false, not, List, [], ◌∷◌, Option, none, some, any, select,
  if◌then◌else◌, Bytes, codes, arith,
}
use go_network_configurator.Net.{Ip, IpNet, to4, ip_equal, contains}
use go_network_configurator.Net.Broadcast.{
  get_broadcast, host_ones, v4_network, get_broadcast-contains,
}
use go_network_configurator.Natural.{bytes_lt, natural_less}
use go_network_configurator.Natural.Key.{key, natural_less-eq-key}
use go_network_configurator.Iface.{
  Interface, public, find_interface_by_name, find_physical_interfaces, reorder_primary_address,
}
use go_network_configurator.Iface.Ranking.{IsRanking, find_physical_interfaces-IsRanking}
use go_network_configurator.Iface.Lookup.{IsFirst, Carries, find_interface_by_name-IsFirst}
use go_network_configurator.Iface.Primary.{other_family, reorder_primary_address_lem}
use go_network_configurator.Options.{
  ConfigOption, new_config_options, with_ping_count, with_test_address,
}
use go_network_configurator.Options.Bounds.{
  Offered, AllOffered, IsUsable, new_config_options-IsUsable,
}
use go_network_configurator.Tests.{net10}

eth2_before_eth10 : natural_less (codes "eth2") (codes "eth10") ≡ true
unfolding natural_less
eth2_before_eth10 = refl

zeros_do_not_count : natural_less (codes "eth02") (codes "eth2") ≡ false
unfolding natural_less
zeros_do_not_count = refl

natural_less-eq-key_example :
    natural_less (codes "eth2") (codes "eth10")
    ≡ bytes_lt (key (codes "eth2")) (key (codes "eth10"))
natural_less-eq-key_example = natural_less-eq-key (codes "eth2") (codes "eth10")

-- An interface with or without an IPv4 gateway
abbrev named : Bytes → Ip → Interface
named name gateway4 = record {
  name = name;
  mac = [];
  addresses = [];
  gateway4 = gateway4;
  gateway6 = [];
  routes = [];
  dns = [];
  up = true;
  physical = true;
  dhcp4 = false;
  dhcp6 = false;
  search_domains = [];
}

abbrev three : List Interface
three =
    named (codes "wlan0") []
    ∷ named (codes "eth10") []
    ∷ named (codes "eth2") (10 ∷ 0 ∷ 0 ∷ 1 ∷ [])
    ∷ []

find_physical_interfaces-IsRanking_example : IsRanking three (find_physical_interfaces three)
find_physical_interfaces-IsRanking_example = find_physical_interfaces-IsRanking three

find_interface_by_name-IsFirst_example :
    IsFirst (Carries public) three (find_interface_by_name public three)
find_interface_by_name-IsFirst_example = find_interface_by_name-IsFirst public three

reorder_primary_address_lem_example :
    (reorder_primary_address (net10 5 ∷ net10 6 ∷ []) (net10 6) ≡ (
      if any (λ a. ip_equal a.ip (net10 6).ip) (net10 5 ∷ net10 6 ∷ [])
      then (net10 6 ∷ select (λ a. not (ip_equal a.ip (net10 6).ip)) (net10 5 ∷ net10 6 ∷ []), true)
      else (net10 5 ∷ net10 6 ∷ [], false)))
    × (other_family (net10 6).ip (reorder_primary_address (net10 5 ∷ net10 6 ∷ []) (net10 6)).0
        ≡ other_family (net10 6).ip (net10 5 ∷ net10 6 ∷ []))
reorder_primary_address_lem_example = reorder_primary_address_lem (net10 5 ∷ net10 6 ∷ []) (net10 6)

abbrev opts : List (Option ConfigOption)
opts = some (with_ping_count (negsuc 0)) ∷ none ∷ some (with_test_address []) ∷ []

opts-AllOffered : AllOffered opts
opts-AllOffered = (Offered.ping_count (negsuc 0), (Offered.test_address [], tt))

new_config_options-IsUsable_example : IsUsable (new_config_options opts)
new_config_options-IsUsable_example = new_config_options-IsUsable opts opts-AllOffered

-- 10.0.0.5/20, with the address in 16 bytes and the mask in 4
abbrev wide_network : IpNet
wide_network = v4_network true false (10 ∷ 0 ∷ 0 ∷ 5 ∷ []) (255 ∷ 255 ∷ 240 ∷ 0 ∷ [])

get_broadcast-contains_example :
    (b : Ip) × (get_broadcast wide_network ≡ some b)
    × (contains wide_network b ≡ true)
    × (host_ones (255 ∷ 255 ∷ 240 ∷ 0 ∷ []) (to4 b) ≡ true)
get_broadcast-contains_example =
    get_broadcast-contains true false 10 0 0 5 255 255 240 0 (ground arith) (ground arith)
