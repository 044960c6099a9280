-- ===== src/Networkd.antt =====
-- networkd.go: the types, and the DHCP setting. A *ini.File is a value of type `F` and a
-- *ini.Section one of type `S`; what the package gopkg.in/ini.v1 does is a parameter.
pub mod Addresses
pub mod Assembled
pub mod Between
pub mod Collected
pub mod Config
pub mod Parts
pub mod Dhcp
pub mod Keys
pub mod Named
pub mod Paths
pub mod Read
pub mod Report
pub mod Rewritten
pub mod Routes
pub mod Save
pub mod Saved
pub mod SubFiles
pub mod Update
pub mod Values
pub mod Words
use go_network_configurator.Prelude.{
  ℕ, Bool, true, false, not, ◌&&◌, ◌||◌, List, [], ◌∷◌, Option, none, some, if◌then◌else◌, Bytes,
  codes, bytes_eq, ℤ,
}
use go_network_configurator.Prelude.Exec.{Exec, Result, ok, err, attempt, finish, ◌>>=◌, ◌>>◌}
use go_network_configurator.Net.{Ip, IpNet}
use go_network_configurator.Iface.{to_lower}
use go_network_configurator.Spaces.{trim_space}

-- `*ini.Key`: its `String()` and its `ValueWithShadows()`
pub record Key : Type 0 where
  pub value : Bytes
  pub values : List Bytes

-- The calls of the package. A method of a section takes the file that the section stands in.
pub record Ini (F S : Type 0) : Type 0 where
  pub sections : F → List S
  pub section_name : S → Bytes
  pub get_section : Bytes → F → Result S
  pub new_section : Bytes → Exec F S
  pub delete_section : Bytes → F → F
  -- `none` is a nil key
  pub get_key : S → Bytes → F → Option Key
  pub new_key : S → Bytes → Bytes → Exec F (Unit {0})
  -- `sec.GetKey(k)` and then `key.SetValue(v)`
  pub set_value : S → Bytes → Bytes → F → F
  pub delete_key : S → Bytes → F → F
  -- `key.Int()`
  pub key_int : Key → Option ℕ

-- networkdNetwork, without the opaque `Link`
pub record NetworkdNetwork (F : Type 0) : Type 0 where
  pub config : F
  pub name : Bytes
  pub mac : Bytes
  pub file : Bytes
  pub sub_files : List Bytes

-- networkd
pub record Networkd (F : Type 0) : Type 0 where
  pub networks : List (NetworkdNetwork F)
  pub config_dir : Bytes
  pub backup_retention : ℤ

-- The names of sections and keys
abbrev pub network : Bytes
network = codes "Network"

abbrev pub address : Bytes
address = codes "Address"

abbrev pub route : Bytes
route = codes "Route"

abbrev pub match_ : Bytes
match_ = codes "Match"

abbrev pub dhcp : Bytes
dhcp = codes "DHCP"

abbrev pub dns : Bytes
dns = codes "DNS"

abbrev pub domains : Bytes
domains = codes "Domains"

abbrev pub gateway : Bytes
gateway = codes "Gateway"

abbrev pub destination : Bytes
destination = codes "Destination"

abbrev pub metric : Bytes
metric = codes "Metric"

-- parseNetworkdDHCP
unfoldable pub parse_networkd_dhcp : Bytes → Bool × Bool
unfolding trim_space to_lower
parse_networkd_dhcp value =
    let v = to_lower (trim_space value) in
    if bytes_eq v (codes "yes")
      || bytes_eq v (codes "true")
      || bytes_eq v (codes "on")
      || bytes_eq v (codes "1")
      || bytes_eq v (codes "both")
    then (true, true)
    else if bytes_eq v (codes "ipv4") || bytes_eq v (codes "v4")
    then (true, false)
    else if bytes_eq v (codes "ipv6") || bytes_eq v (codes "v6")
    then (false, true)
    else (false, false)

-- formatNetworkdDHCP
unfoldable pub format_networkd_dhcp : Bool → Bool → Bytes × Bool
format_networkd_dhcp dhcp4 dhcp6 =
    if dhcp4 && dhcp6
    then (codes "yes", true)
    else if dhcp4
    then (codes "ipv4", true)
    else if dhcp6
    then (codes "ipv6", true)
    else ([], false)

module _ {F S : Type 0} (ini : Ini F S) (sec : S) where
  -- A key that is there gets the value, and else a new one.
  unfoldable pub write_dhcp : Bytes → Option Key → Exec F (Unit {0})
  write_dhcp value (some key) f = (ok tt, ini.set_value sec dhcp value f)
  write_dhcp value none f = ini.new_key sec dhcp value f

  -- setNetworkdDHCP
  unfoldable pub set_networkd_dhcp : Bool → Bool → Exec F (Unit {0})
  unfolding format_networkd_dhcp write_dhcp
  set_networkd_dhcp dhcp4 dhcp6 f =
      let (value, keep) = format_networkd_dhcp dhcp4 dhcp6 in
      if not keep
      then (ok tt, ini.delete_key sec dhcp f)
      else write_dhcp value (ini.get_key sec dhcp f) f
