-- ===== src/Ifupdown/Kept.antt =====
-- The option lines of ReadFile of ifupdown.go keep the name of the interface.
use go_network_configurator.Prelude.{
  ℕ, ◌≡◌, refl, Bool, true, false, List, [], ◌∷◌, Option, none, some, if◌then◌else◌, Bytes,
  bytes_eq, codes,
}
use go_network_configurator.Prelude.Exec.{Result}
use go_network_configurator.NetTexts.{Texts}
use go_network_configurator.Net.{IpNet}
use go_network_configurator.Ifupdown.{IfInterface}
use go_network_configurator.Ifupdown.Scripts.{Command, no_command, scan_up_route, scan_up_ip}
use go_network_configurator.Ifupdown.Effects.{
  add_to_routes, add_to_addresses, apply_up_route, apply_up_ip,
}
use go_network_configurator.Ifupdown.Read.{add_config, or_config, read_up, read_option}
use go_network_configurator.Ifupdown.Names.{Keeps}

-- The interface that a script line gives keeps the name.
unfoldable pub NameKept : IfInterface → Option IfInterface → Type 0
NameKept i none = Unit {0}
NameKept i (some i') = i'.name ≡ i.name

none-NameKept : (i : IfInterface) → NameKept i none
unfolding NameKept
none-NameKept i = tt

some-NameKept : (i i' : IfInterface) → i'.name ≡ i.name → NameKept i (some i')
unfolding NameKept
some-NameKept i i' h = h

if-NameKept :
    (i : IfInterface) (b : Bool) (x y : Option IfInterface)
    → NameKept i x
    → NameKept i y
    → NameKept i (if b then x else y)
if-NameKept i true x y h k = h
if-NameKept i false x y h k = k

add_to_routes-NameKept :
    (c : Command) (dst : Option IpNet) (i : IfInterface) → NameKept i (add_to_routes c dst i)
add_to_routes-NameKept c none i = none-NameKept i
add_to_routes-NameKept c (some dst) i =
    if-NameKept i _ _ _ (none-NameKept i) (some-NameKept i _ refl)

add_to_addresses-NameKept :
    (c : Command) (a : Option IpNet) (i : IfInterface) → NameKept i (add_to_addresses c a i)
add_to_addresses-NameKept c none i = none-NameKept i
add_to_addresses-NameKept c (some a) i =
    if-NameKept i _ _ _ (some-NameKept i _ refl) (none-NameKept i)

apply_up_route-NameKept : (c : Command) (i : IfInterface) → NameKept i (apply_up_route c i)
unfolding apply_up_route
apply_up_route-NameKept c i =
    if-NameKept i c.adds _ _ (add_to_routes-NameKept c c.dst i) (none-NameKept i)

apply_up_ip-NameKept : (c : Command) (i : IfInterface) → NameKept i (apply_up_ip c i)
unfolding apply_up_ip
apply_up_ip-NameKept c i = if-NameKept i _ _ _ (none-NameKept i) (
    if-NameKept i _ _ _ (add_to_routes-NameKept c c.dst i)
      (if-NameKept i c.on_address _ _ (add_to_addresses-NameKept c c.address i) (none-NameKept i)))

module _ (texts : Texts) (atoi : Bytes → Result ℕ) where
  read_up-NameKept :
      (values : List Bytes) (i : IfInterface) → NameKept i (read_up texts atoi values i)
  unfolding read_up
  read_up-NameKept [] i = none-NameKept i
  read_up-NameKept (command ∷ args) i =
      if-NameKept i (bytes_eq command (codes "route")) _ _
        (apply_up_route-NameKept (scan_up_route texts atoi args no_command) i)
        (if-NameKept i (bytes_eq command (codes "ip")) _ _
          (apply_up_ip-NameKept (scan_up_ip texts atoi i.name args no_command) i) (none-NameKept i))

  or_config-name :
      (i kept : IfInterface) (r : Option IfInterface)
      → NameKept i r
      → kept.name ≡ i.name
      → (or_config r kept).name ≡ i.name
  unfolding NameKept
  or_config-name i kept none h k = k
  or_config-name i kept (some i') h k = h

  chosen-name :
      (a b : Bool) (i x y : IfInterface)
      → x.name ≡ i.name
      → y.name ≡ i.name
      → (if a then x else if b then i else y).name ≡ i.name
  chosen-name true b i x y h k = h
  chosen-name false true i x y h k = refl
  chosen-name false false i x y h k = k

  pub read_option-Keeps :
      (key : Bytes) (values : List Bytes) → Keeps (read_option texts atoi key values)
  unfolding read_option add_config
  read_option-Keeps key values i =
      chosen-name _ _ i _ _
        (or_config-name i (add_config key values i) _ (read_up-NameKept values i) refl) refl
