-- ===== src/Ifupdown/Scripts.antt =====
-- The `up` and `down` lines of ReadFile of ifupdown.go: the commands route and ip among them that set
-- or remove a route or an address.
use go_network_configurator.Prelude.{
  ℕ, Bool, true, false, ◌||◌, List, [], ◌∷◌, Option, none, some, ◌==◌, if◌then◌else◌, Bytes, codes,
  bytes_eq,
}
use go_network_configurator.Prelude.Exec.{Result, ok, err}
use go_network_configurator.Net.{Ip, IpNet, is_nil, is_v4, to4}
use go_network_configurator.NetTexts.{Texts}
use go_network_configurator.Ifupdown.Rewrite.{has_byte}

-- `net.CIDRMask(32, 32)` or `net.CIDRMask(128, 128)`, by the family of the address
abbrev pub whole_mask : Ip → Bytes
whole_mask ip =
    if is_v4 ip
    then 255 ∷ 255 ∷ 255 ∷ 255 ∷ []
    else 255 ∷ 255 ∷ 255 ∷ 255 ∷ 255 ∷ 255 ∷ 255 ∷ 255 ∷ 255 ∷ 255 ∷ 255 ∷ 255 ∷ 255 ∷ 255 ∷ 255
      ∷ 255 ∷ []

-- What a command has named so far
pub record Command : Type 0 where
  pub adds : Bool
  pub deletes : Bool
  pub on_route : Bool
  pub on_address : Bool
  pub this_dev : Bool
  pub dst : Option IpNet
  pub address : Option IpNet
  pub gateway : Ip
  pub metric : ℕ

abbrev pub no_command : Command
no_command = record {
  adds = false;
  deletes = false;
  on_route = false;
  on_address = false;
  this_dev = false;
  dst = none;
  address = none;
  gateway = [];
  metric = 256;
}

-- `strconv.Atoi` with the metric that stands for an error
abbrev pub or_256 : Result ℕ → ℕ
or_256 (ok n) = n
or_256 (err e) = 256

module _ (texts : Texts) (atoi : Bytes → Result ℕ) where
  abbrev to_network : Result IpNet → Option IpNet
  to_network (ok n) = some n
  to_network (err e) = none

  -- A destination or an address, with a prefix or without one
  unfoldable pub parse_host : Bytes → Option IpNet
  unfolding has_byte
  parse_host host =
      if has_byte b'/' host
      then to_network (texts.parse_cidr host)
      else if is_nil (texts.parse_ip host)
      then none
      else some (record { ip = texts.parse_ip host; mask = whole_mask (texts.parse_ip host) })

  -- `dst.Mask = …`, unless there is no destination or the text is no IPv4 address
  unfoldable pub with_netmask : Bytes → Option IpNet → Option IpNet
  with_netmask value none = none
  with_netmask value (some dst) =
      let mask = to4 (texts.parse_ip value) in
      if is_nil mask then some dst else some (record dst { mask = mask })

  abbrev pub or_parsed : Bytes → Option IpNet → Option IpNet
  or_parsed field none = parse_host field
  or_parsed field (some dst) = some dst

  abbrev pub is_skipped : Bytes → Bool
  is_skipped field = bytes_eq field (codes "-net") || bytes_eq field (codes "-host")

  -- A field of `up route …` that is followed by its value
  abbrev pub route_takes_value : Bytes → Bool
  route_takes_value field =
      bytes_eq field (codes "netmask")
      || bytes_eq field (codes "gw")
      || bytes_eq field (codes "metric")

  unfoldable pub take_route_value : Bytes → Bytes → Command → Command
  unfolding with_netmask
  take_route_value field value c =
      if bytes_eq field (codes "netmask")
      then record c { dst = with_netmask value c.dst }
      else if bytes_eq field (codes "gw")
      then record c { gateway = texts.parse_ip value }
      else record c { metric = or_256 (atoi value) }

  unfoldable pub take_route_field : Bytes → Command → Command
  unfolding parse_host
  take_route_field field c =
      if bytes_eq field (codes "add")
      then record c { adds = true }
      else if is_skipped field
      then c
      else record c { dst = or_parsed field c.dst }

  -- The loop of `up route …`; the last field is passed over.
  unfoldable pub scan_up_route : List Bytes → Command → Command
  unfolding take_route_value take_route_field
  scan_up_route [] c = c
  scan_up_route (field ∷ []) c = c
  scan_up_route (field ∷ value ∷ fields) c =
      let after_value = scan_up_route fields (take_route_value field value c) in
      let after_field = scan_up_route (value ∷ fields) (take_route_field field c) in
      if route_takes_value field then after_value else after_field

  unfoldable pub take_down_field : Bytes → Command → Command
  unfolding parse_host
  take_down_field field c =
      if bytes_eq field (codes "del")
      then record c { deletes = true }
      else if is_skipped field
      then c
      else record c { dst = or_parsed field c.dst }

  -- The loop of `down route …`
  unfoldable pub scan_down_route : List Bytes → Command → Command
  unfolding with_netmask take_down_field
  scan_down_route [] c = c
  scan_down_route (field ∷ []) c = c
  scan_down_route (field ∷ value ∷ fields) c =
      let after_value = scan_down_route fields (record c { dst = with_netmask value c.dst }) in
      let after_field = scan_down_route (value ∷ fields) (take_down_field field c) in
      if bytes_eq field (codes "netmask") then after_value else after_field

  -- What follows `add` or `del` of a command ip: the address or the destination
  abbrev pub with_network : Result IpNet → Command → Command
  with_network (err e) c = c
  with_network (ok n) c =
      if c.on_address
      then record c { address = some n }
      else if c.on_route
      then record c { dst = some n }
      else c

  abbrev pub is_address : Bytes → Bool
  is_address field = bytes_eq field (codes "addr") || bytes_eq field (codes "address")

  abbrev pub with_dev : Bytes → Bytes → Command → Command
  with_dev name dev c =
      if bytes_eq dev (codes "$IFACE") || bytes_eq dev name then record c { this_dev = true } else c

  -- `up ip …`
  abbrev pub up_ip_takes_value : Bytes → Bool
  up_ip_takes_value field =
      bytes_eq field (codes "add")
      || bytes_eq field (codes "dev")
      || bytes_eq field (codes "via")
      || bytes_eq field (codes "metric")

  abbrev pub positive_or_256 : Result ℕ → ℕ
  positive_or_256 r = if or_256 r == 0 then 256 else or_256 r

  unfoldable pub take_up_ip_value : Bytes → Bytes → Bytes → Command → Command
  take_up_ip_value name field value c =
      if bytes_eq field (codes "add")
      then with_network (texts.parse_cidr value) (record c { adds = true })
      else if bytes_eq field (codes "dev")
      then with_dev name value c
      else if bytes_eq field (codes "via")
      then record c { gateway = texts.parse_ip value }
      else record c { metric = positive_or_256 (atoi value) }

  unfoldable pub take_ip_field : Bytes → Command → Command
  take_ip_field field c =
      if is_address field
      then record c { on_address = true }
      else if bytes_eq field (codes "route")
      then record c { on_route = true }
      else c

  -- The loop of `up ip …`
  unfoldable pub scan_up_ip : Bytes → List Bytes → Command → Command
  unfolding take_up_ip_value take_ip_field
  scan_up_ip name [] c = c
  scan_up_ip name (field ∷ []) c = c
  scan_up_ip name (field ∷ value ∷ fields) c =
      let after_value = scan_up_ip name fields (take_up_ip_value name field value c) in
      let after_field = scan_up_ip name (value ∷ fields) (take_ip_field field c) in
      if up_ip_takes_value field then after_value else after_field

  -- `down ip …`
  abbrev pub is_delete : Bytes → Bool
  is_delete field = bytes_eq field (codes "del") || bytes_eq field (codes "delete")

  unfoldable pub take_down_ip_value : Bytes → Bytes → Bytes → Command → Command
  take_down_ip_value name field value c =
      if is_delete field
      then with_network (texts.parse_cidr value) (record c { deletes = true })
      else with_dev name value c

  -- The loop of `down ip …`
  unfoldable pub scan_down_ip : Bytes → List Bytes → Command → Command
  unfolding take_down_ip_value take_ip_field
  scan_down_ip name [] c = c
  scan_down_ip name (field ∷ []) c = c
  scan_down_ip name (field ∷ value ∷ fields) c =
      let after_value = scan_down_ip name fields (take_down_ip_value name field value c) in
      let after_field = scan_down_ip name (value ∷ fields) (take_ip_field field c) in
      if is_delete field || bytes_eq field (codes "dev") then after_value else after_field
