-- ===== src/Tests/Ifupdown.antt =====
-- ifupdown.go at a concrete file: eth0 between lo and eth1.
use go_network_configurator.Prelude.{
  ◌≡◌, refl, pos, true, false, List, [], ◌∷◌, ◌++◌, Option, none, some, if◌then◌else◌, Bytes, codes,
  bytes_eq, map,
}
use go_network_configurator.Prelude.Exec.{Result, ok, err, external, pure, ◌>>=◌}
use go_network_configurator.Net.{Ip, IpNet, string_in_slice}
use go_network_configurator.Spaces.{trim_space}
use go_network_configurator.InitState.{fields}
use go_network_configurator.Files.{file_move}
use go_network_configurator.NetTexts.{Texts}
use go_network_configurator.Ifupdown.{
  IfInterface, IfUpDown, ensured, new_if_interface, stanza_family, switch_method,
}
use go_network_configurator.Ifupdown.Rewrite.{before_byte, kind_of, rewritten}
use go_network_configurator.Ifupdown.Lines.{filtered, outside, inside}
use go_network_configurator.Ifupdown.Replaced.{placed, stanzas_replaced, lost_after_second_group}
use go_network_configurator.Ifupdown.Report.{report, get_interfaces}
use go_network_configurator.Ifupdown.Save.{Disk, base_name, save}
use go_network_configurator.Ifupdown.Update.{set_iface_dhcp, set_iface_dns}
use go_network_configurator.Linux.NewConfigurator.{if_up_down_config}
use go_network_configurator.Linux.Dns.{joined}
use go_network_configurator.Ifupdown.Read.{
  append_config, finish_address, note_stanza, on_named, read_option, read_stanza,
}
use go_network_configurator.Ifupdown.ReadFile.{Sources, read_file, new_if_up_down}
use go_network_configurator.Ifupdown.Scripts.{scan_up_ip}
use go_network_configurator.Ifupdown.Effects.{apply_up_ip}
use go_network_configurator.Ifupdown.Names.{names, AreDistinct}
use go_network_configurator.Ifupdown.Distinct.{new_if_up_down-AreDistinct}
use go_network_configurator.Ifupdown.Added.{or_added}
use go_network_configurator.Ifupdown.Reported.{
  put_first, put_dhcp, put_dns, set_iface_dhcp-reported, set_iface_dns-reported,
}

abbrev eth0 : Bytes
eth0 = codes "eth0"

abbrev lo_lines : List Bytes
lo_lines = codes "auto lo" ∷ codes "iface lo inet loopback" ∷ [] ∷ [] ∷ []

abbrev eth0_line : Bytes
eth0_line = codes "iface eth0 inet static"

abbrev eth0_options : List Bytes
eth0_options = codes "  address 10.0.0.2" ∷ codes "# office" ∷ codes "iface eth0:1 inet static" ∷ []

abbrev eth1_line : Bytes
eth1_line = codes "iface eth1 inet manual"

abbrev eth2_lines : List Bytes
eth2_lines = codes "auto eth2" ∷ codes "iface eth2 inet dhcp" ∷ []

abbrev block : List Bytes
block = codes "iface eth0 inet dhcp" ∷ [] ∷ []

stanzas_replaced_example :
    rewritten true block eth0 (lo_lines ++ eth0_line ∷ (eth0_options ++ eth1_line ∷ []))
    ≡ outside eth0 lo_lines
      ++ (inside eth0 eth0_options
          ++ (placed true block (eth1_line ∷ []) ++ outside eth0 (eth1_line ∷ [])))
unfolding kind_of trim_space fields bytes_eq
stanzas_replaced_example =
    stanzas_replaced true block eth0 lo_lines eth0_options (eth1_line ∷ []) eth0_line
      (refl, (refl, (refl, (refl, tt)))) refl (refl, (refl, (refl, tt))) refl (refl, tt)

lost_after_second_group_example :
    rewritten true block eth0 (
      lo_lines
      ++ eth0_line
        ∷ (eth0_options ++ ((eth1_line ∷ []) ++ codes "iface eth0 inet6 auto" ∷ eth2_lines)))
    ≡ outside eth0 lo_lines
      ++ (inside eth0 eth0_options
          ++ (block ++ (outside eth0 (eth1_line ∷ []) ++ inside eth0 eth2_lines)))
unfolding kind_of trim_space fields bytes_eq
lost_after_second_group_example =
    lost_after_second_group true block eth0 lo_lines eth0_options [] eth2_lines eth0_line eth1_line
      (codes "iface eth0 inet6 auto") (refl, (refl, (refl, (refl, tt)))) refl
      (refl, (refl, (refl, tt))) refl (refl, tt) refl

-- The stanza of eth2 is lost: only its `auto` line stays.
eth2_lost : inside eth0 eth2_lines ≡ codes "auto eth2" ∷ []
unfolding filtered kind_of trim_space fields bytes_eq
eth2_lost = refl

-- Addresses are their own texts.
abbrev texts : Texts
texts = record {
  parse_ip = λ s. s;
  parse_cidr = λ s. ok (record { ip = s; mask = [] });
  parse_mac = λ s. ok s;
  ip_string = λ ip. ip;
  net_string = λ n. n.ip;
  itoa = λ m. m ∷ [];
}

-- What each file holds
abbrev Store : Type 0
Store = Bytes → Option (List Bytes)

abbrev put : Bytes → Option (List Bytes) → Store → Store
put p o w q = if bytes_eq q p then o else w q

unfoldable rename_file : Bytes → Bytes → Option (List Bytes) → Store → Result (Unit {0}) × Store
rename_file a b none w = (err (external 2), w)
rename_file a b (some f) w = (ok tt, put b (some f) (put a none w))

abbrev lines_of : Option (List Bytes) → Result (List Bytes)
lines_of none = err (external 2)
lines_of (some lines) = ok lines

abbrev disk : Disk Store
disk = record {
  unix_nano = λ w. (ok (codes "7"), w);
  is_missing = λ p w. false;
  mkdir = λ p. pure tt;
  open_for_writing = λ p w. (ok tt, put p (some []) w);
  read_lines = λ p w. lines_of (w p);
  print_lines = λ p lines w. put p (some lines) w;
  os = record {
    rename = λ a b w. rename_file a b (w a) w;
    open_source = λ p w. ok tt;
    create = λ p. pure tt;
    copy = λ a b. pure tt;
    mode = λ p w. ok 0;
    chmod = λ p m. pure tt;
    remove = λ p. pure tt;
  };
  files = record { read_dir = λ d w. err (external 2); remove = λ p w. (ok tt, put p none w) };
}

abbrev static_eth0 : IfInterface
static_eth0 = record (new_if_interface eth0 (codes "/i")) {
  mode = codes "inet static";
  gateway4 = codes "1234";
}

abbrev if_up_down : IfUpDown
if_up_down = record {
  interfaces = static_eth0 ∷ [];
  base_config = codes "/i";
  backup_dir = codes "/b";
  backup_retention = pos 0;
}

abbrev store : Store
store = put (codes "/i") (some (eth0_line ∷ [])) (λ p. none)

abbrev servers : List Ip
servers = codes "8888" ∷ [] ∷ []

abbrev domains : List Bytes
domains = codes "a.org" ∷ codes "b.org" ∷ []

set_iface_dns-reported_example :
    get_interfaces texts
      (ok [])
      (set_iface_dns disk texts eth0 servers domains (if_up_down, store)).1.0
    ≡ ok (
        put_first eth0
          (put_dns servers domains)
          (or_added [] eth0 (map (report texts []) if_up_down.interfaces)))
unfolding set_iface_dns save file_move rename_file base_name bytes_eq ◌>>=◌
set_iface_dns-reported_example =
    set_iface_dns-reported disk texts [] eth0 servers domains if_up_down store
      ((λ h. ((refl, refl), refl)), ((λ h. cc), tt)) ((refl, refl), ((refl, refl), tt)) refl

set_iface_dhcp-reported_example :
    get_interfaces texts (ok []) (set_iface_dhcp disk texts eth0 true false (if_up_down, store)).1.0
    ≡ ok (
        put_first eth0
          (put_dhcp true false)
          (or_added [] eth0 (map (report texts []) if_up_down.interfaces)))
unfolding set_iface_dhcp save file_move rename_file base_name fields stanza_family switch_method
    bytes_eq ◌>>=◌
set_iface_dhcp-reported_example =
    set_iface_dhcp-reported disk texts [] eth0 true false if_up_down store (refl, tt) refl

-- A file that is read
abbrev sources : List Bytes → Sources
sources lines = record {
  read_lines = λ file. if bytes_eq file if_up_down_config then ok lines else err (external 2);
  read_dir = λ dir. err (external 2);
  atoi = λ s. ok 7;
}

abbrev read_stanza_of : Bytes → Bytes → IfInterface
read_stanza_of name mode = record (new_if_interface name if_up_down_config) { mode = mode }

abbrev file_lines : List Bytes
file_lines =
    codes "auto lo eth0"
    ∷ codes "iface lo inet loopback"
    ∷ codes "iface eth0 inet dhcp # office"
    ∷ codes "  mtu 1500"
    ∷ codes "iface eth0:1 inet dhcp"
    ∷ []

abbrev file_interfaces : List IfInterface
file_interfaces =
    read_stanza_of (codes "lo") (codes "inet loopback")
    ∷ record (read_stanza_of eth0 (codes "inet dhcp")) {
      is_dhcp = true;
      config = (codes "mtu", codes "1500" ∷ []) ∷ [];
    }
    ∷ []

abbrev file_if_up_down : IfUpDown
file_if_up_down = record {
  interfaces = file_interfaces;
  base_config = if_up_down_config;
  backup_dir = if_up_down_config ++ codes ".backup";
  backup_retention = pos 5;
}

new_if_up_down-AreDistinct_example : AreDistinct (names file_interfaces)
unfolding new_if_up_down read_stanza read_option bytes_eq ensured on_named note_stanza
    finish_address string_in_slice joined fields trim_space before_byte append_config
new_if_up_down-AreDistinct_example =
    new_if_up_down-AreDistinct texts (sources file_lines) 1 (pos 5) file_if_up_down refl

abbrev first_address : Bytes
first_address = codes "10.0.0.1/24"

abbrev second_address : Bytes
second_address = codes "10.0.0.2/24"

abbrev net_of : Bytes → IpNet
net_of text = record { ip = text; mask = [] }

-- The address of the address line comes behind the one that a command adds.
addresses_swapped :
    read_file texts
      (sources (
        eth0_line
        ∷ (codes "address " ++ first_address)
        ∷ (codes "up ip addr add " ++ second_address ++ codes " dev $IFACE")
        ∷ []))
      if_up_down_config
      1
      if_up_down_config
      []
    ≡ ok (
        record (read_stanza_of eth0 (codes "inet static")) {
          addresses = net_of second_address ∷ net_of first_address ∷ [];
        }
        ∷ [])
unfolding read_file read_stanza read_option bytes_eq ensured on_named note_stanza finish_address
    string_in_slice joined fields trim_space before_byte scan_up_ip apply_up_ip
addresses_swapped = refl
