-- ===== src/Ifupdown.antt =====
-- ifupdown.go: the interfaces of /etc/network/interfaces, with the DHCP setting of a stanza.
pub mod Config
pub mod Dhcp
pub mod Distinct
pub mod Names
pub mod Kept
pub mod Cases
pub mod Lines
pub mod Scanned
pub mod Scripts
pub mod Effects
pub mod Read
pub mod ReadFile
pub mod Replaced
pub mod Report
pub mod Added
pub mod Reported
pub mod Rewrite
pub mod Save
pub mod Write
pub mod Update
use go_network_configurator.Prelude.{
  ℕ, Bool, true, false, not, ◌&&◌, ◌||◌, List, [], ◌∷◌, ◌++◌, Option, none, some, if◌then◌else◌,
  Bytes, codes, bytes_eq, ℤ,
}
use go_network_configurator.Prelude.Exec.{
  Result, ok, err, ppp_interface, both_families, other_family, wrong_method,
}
use go_network_configurator.Net.{Ip, IpNet}
use go_network_configurator.Iface.{Route}
use go_network_configurator.InitState.{fields}

-- ifInterface; the map `Config` is a list of pairs with one for each key.
pub record IfInterface : Type 0 where
  pub name : Bytes
  pub mode : Bytes
  pub is_dhcp : Bool
  pub is_ppp : Bool
  pub files : List Bytes
  pub addresses : List IpNet
  pub gateway4 : Ip
  pub gateway6 : Ip
  pub routes : List Route
  pub config : List (Bytes × List Bytes)

-- ifUpDown
pub record IfUpDown : Type 0 where
  pub interfaces : List IfInterface
  pub base_config : Bytes
  pub backup_dir : Bytes
  pub backup_retention : ℤ

abbrev pub inet : Bytes
inet = codes "inet"

abbrev pub inet6 : Bytes
inet6 = codes "inet6"

abbrev pub dhcp : Bytes
dhcp = codes "dhcp"

-- The first and the second field of a stanza's mode, empty if there is none
abbrev pub first_field : List Bytes → Bytes
first_field [] = []
first_field (f ∷ fs) = f

abbrev pub second_field : List Bytes → Bytes
second_field [] = []
second_field (f ∷ fs) = first_field fs

-- stanzaFamily
unfoldable pub stanza_family : IfInterface → Bytes
unfolding fields bytes_eq
stanza_family iface =
    let family = first_field (fields iface.mode) in
    if bytes_eq family inet || bytes_eq family inet6 then family else []

-- dhcpState
unfoldable pub dhcp_state : IfInterface → Bool × Bool
unfolding stanza_family
dhcp_state iface =
    if not iface.is_dhcp
    then (false, false)
    else (bytes_eq (stanza_family iface) inet, bytes_eq (stanza_family iface) inet6)

abbrev pub with_mode : IfInterface → Bytes → Bool → IfInterface
with_mode iface mode is_dhcp = record iface { mode = mode; is_dhcp = is_dhcp }

-- The case of an interface with no stanza yet
unfoldable pub new_stanza : IfInterface → Bool → Bool → Result IfInterface
new_stanza iface dhcp4 dhcp6 =
    if dhcp4 && dhcp6
    then err both_families
    else if dhcp4
    then ok (with_mode iface (codes "inet dhcp") true)
    else if dhcp6
    then ok (with_mode iface (codes "inet6 dhcp") true)
    else ok (with_mode iface (codes "inet static") false)

abbrev pub is_fixed_method : Bytes → Bool
is_fixed_method method =
    bytes_eq method (codes "loopback")
    || bytes_eq method (codes "ppp")
    || bytes_eq method (codes "tunnel")
    || bytes_eq method (codes "wvdial")

-- The last switch of setDHCP
unfoldable pub switch_method : IfInterface → Bytes → Bytes → Bool → IfInterface
switch_method iface family method enable =
    if enable && not (bytes_eq method dhcp)
    then with_mode iface (family ++ codes " dhcp") true
    else if not enable && bytes_eq method dhcp
    then with_mode iface (family ++ codes " static") false
    else iface

-- setDHCP, which changes the interface only where it succeeds
unfoldable pub set_dhcp : IfInterface → Bool → Bool → Result IfInterface
set_dhcp iface dhcp4 dhcp6 =
    let family = stanza_family iface in
    let method = second_field (fields iface.mode) in
    if iface.is_ppp
    then err ppp_interface
    else if bytes_eq family []
    then new_stanza iface dhcp4 dhcp6
    else if (if bytes_eq family inet6 then dhcp4 else dhcp6)
    then err other_family
    else if is_fixed_method method
    then err wrong_method
    else ok (switch_method iface family method (if bytes_eq family inet6 then dhcp6 else dhcp4))

abbrev pub new_if_interface : Bytes → Bytes → IfInterface
new_if_interface name base_config = record {
  name = name;
  mode = [];
  is_dhcp = false;
  is_ppp = false;
  files = base_config ∷ [];
  addresses = [];
  gateway4 = [];
  gateway6 = [];
  routes = [];
  config = [];
}

-- The loop of EnsureInterface: the list with an interface of the name in it
unfoldable pub ensured : Bytes → List IfInterface → Bytes → List IfInterface
ensured base_config [] name = new_if_interface name base_config ∷ []
ensured base_config (i ∷ interfaces) name =
    let rest = ensured base_config interfaces name in
    if bytes_eq i.name name then i ∷ interfaces else i ∷ rest

-- EnsureInterface, as the list that it leaves
unfoldable pub ensure_interface : IfUpDown → Bytes → IfUpDown
unfolding ensured
ensure_interface i name = record i { interfaces = ensured i.base_config i.interfaces name }
