-- ===== src/Ifupdown/Write.antt =====
-- Write of ifupdown.go, as the lines that it prints.
use go_network_configurator.Prelude.{
  Bool, true, false, not, ◌||◌, List, [], ◌∷◌, ◌++◌, if◌then◌else◌, Bytes, codes, bytes_eq,
}
use go_network_configurator.Natural.{bytes_lt}
use go_network_configurator.Net.{Ip, IpNet, is_nil, is_v4}
use go_network_configurator.NetTexts.{Texts}
use go_network_configurator.Iface.{Route, stable_sort}
use go_network_configurator.Ifupdown.{IfInterface}

abbrev Config : Type 0
Config = List (Bytes × List Bytes)

-- `iface.Config[key]`
unfoldable pub config_values : Bytes → Config → List Bytes
config_values key [] = []
config_values key ((k, values) ∷ config) =
    let rest = config_values key config in if bytes_eq k key then values else rest

abbrev pub is_script : Bytes → Bool
is_script key = bytes_eq key (codes "up") || bytes_eq key (codes "down")

-- The keys that are neither "up" nor "down"
unfoldable pub plain_keys : Config → List Bytes
plain_keys [] = []
plain_keys ((k, values) ∷ config) =
    let rest = plain_keys config in if is_script k then rest else k ∷ rest

unfoldable pub has_key : Bytes → Config → Bool
has_key key [] = false
has_key key ((k, values) ∷ config) = bytes_eq k key || has_key key config

abbrev if_has : Bytes → Config → List Bytes
if_has key config = if has_key key config then key ∷ [] else []

-- The keys in the order in which they are written
unfoldable pub written_keys : Config → List Bytes
unfolding plain_keys has_key
written_keys config =
    stable_sort bytes_lt (plain_keys config)
    ++ (if_has (codes "up") config ++ if_has (codes "down") config)

unfoldable pub value_lines : Bytes → List Bytes → List Bytes
value_lines key [] = []
value_lines key (value ∷ values) = (b'\t' ∷ key ++ b' ' ∷ value) ∷ value_lines key values

-- The loop over the keys
unfoldable pub config_lines : Config → List Bytes → List Bytes
unfolding config_values value_lines
config_lines config [] = []
config_lines config (key ∷ keys) =
    value_lines key (config_values key config) ++ config_lines config keys

module _ (texts : Texts) where
  abbrev address_line : IpNet → Bytes
  address_line addr = b'\t' ∷ codes "address " ++ texts.net_string addr

  -- The loop with first4 and first6 that are true before the first address of the family
  unfoldable pub first_addresses : Bool → Bool → List IpNet → List Bytes
  first_addresses first4 first6 [] = []
  first_addresses first4 first6 (addr ∷ addrs) =
      let later4 = first_addresses false first6 addrs in
      let later6 = first_addresses first4 false addrs in
      let skipped = first_addresses first4 first6 addrs in
      if not (is_v4 addr.ip)
      then (if not first6 then skipped else address_line addr ∷ later6)
      else if not first4
      then skipped
      else address_line addr ∷ later4

  abbrev gateway_lines : Ip → List Bytes
  gateway_lines gateway =
      if is_nil gateway then [] else (b'\t' ∷ codes "gateway " ++ texts.ip_string gateway) ∷ []

  abbrev ip_command : Bytes → Bytes → IpNet → Bytes
  ip_command script command addr =
      b'\t' ∷ script ++ command ++ texts.net_string addr ++ codes " dev $IFACE"

  -- The loop with first4 and first6 that are true after the first address of the family
  unfoldable pub more_addresses : Bool → Bool → List IpNet → List Bytes
  more_addresses seen4 seen6 [] = []
  more_addresses seen4 seen6 (addr ∷ addrs) =
      let now4 = more_addresses true seen6 addrs in
      let now6 = more_addresses seen4 true addrs in
      let rest = more_addresses seen4 seen6 addrs in
      if not (is_v4 addr.ip)
      then (if not seen6
          then now6
          else ip_command (codes "up ") (codes "ip -6 addr add ") addr
            ∷ ip_command (codes "down ") (codes "ip -6 addr del ") addr
            ∷ rest)
      else if not seen4
      then now4
      else ip_command (codes "up ") (codes "ip addr add ") addr
        ∷ ip_command (codes "down ") (codes "ip addr del ") addr
        ∷ rest

  abbrev route_command : Bytes → Bytes → Route → Bytes
  route_command script command r =
      b'\t' ∷ script
      ++ command
      ++ texts.net_string r.destination
      ++ codes " via "
      ++ texts.ip_string r.gateway
      ++ codes " metric "
      ++ texts.itoa r.metric
      ++ codes " dev $IFACE"

  -- The loop over the routes
  unfoldable pub route_lines : List Route → List Bytes
  route_lines [] = []
  route_lines (r ∷ routes) =
      let rest = route_lines routes in
      if not (is_v4 r.destination.ip)
      then route_command (codes "up ") (codes "ip -6 route add ") r
        ∷ route_command (codes "down ") (codes "ip -6 route del ") r
        ∷ rest
      else route_command (codes "up ") (codes "ip route add ") r
        ∷ route_command (codes "down ") (codes "ip route del ") r
        ∷ rest

  abbrev head_line : IfInterface → Bytes
  head_line iface =
      codes "iface " ++ iface.name ++ (if bytes_eq iface.mode [] then [] else b' ' ∷ iface.mode)

  -- Write
  unfoldable pub write_lines : IfInterface → List Bytes
  unfolding first_addresses written_keys config_lines more_addresses route_lines
  write_lines iface =
      head_line iface ∷ first_addresses true true iface.addresses
      ++ gateway_lines iface.gateway4
      ++ gateway_lines iface.gateway6
      ++ config_lines iface.config (written_keys iface.config)
      ++ more_addresses false false iface.addresses
      ++ route_lines iface.routes
      ++ [] ∷ []
