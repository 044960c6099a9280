-- ===== src/Tests/Networkd.antt =====
-- networkd.go at concrete files: 10.network of eth0 with an address, a DNS server and a route.
use go_network_configurator.Prelude.{
  ℕ, ◌≡◌, ◌≢◌, refl, pos, true, false, List, [], ◌∷◌, ◌++◌, Option, none, some, if◌then◌else◌,
  Bytes, codes, bytes_eq, take, drop, map, has_prefix,
}
use go_network_configurator.Prelude.Exec.{Result, ok, err, Error, external, pure, ◌>>=◌}
use go_network_configurator.Net.{Ip, IpNet, is_v4}
use go_network_configurator.Iface.{Route}
use go_network_configurator.Files.{file_move, is_exdev}
use go_network_configurator.NetTexts.{Texts}
use go_network_configurator.Networkd.{
  NetworkdNetwork, Networkd, network, address, route, dns, gateway, destination,
}
use go_network_configurator.Networkd.Report.{Keys, get_interfaces}
use go_network_configurator.Networkd.Config.{added}
use go_network_configurator.Networkd.Save.{Disk, in_dir, save}
use go_network_configurator.Networkd.Update.{set_iface_dhcp, set_iface_routes, set_iface_addresses}
use go_network_configurator.Networkd.Saved.{IsDisk, save_succeeded}
use go_network_configurator.Networkd.SubFiles.{save_refused}
use go_network_configurator.Networkd.Dhcp.{put_dhcp, set_iface_dhcp-get_interfaces}
use go_network_configurator.Networkd.Routes.{put_routes, set_iface_routes-get_interfaces}
use go_network_configurator.Networkd.Addresses.{put_addresses, set_iface_addresses-get_interfaces}
use go_network_configurator.Networkd.Values as Readable
use go_network_configurator.Tests.Ini.{File, number, keys_at, first_named, list_ini, list_ini-IsIni}

-- Addresses are their own texts; a network is its address, a slash and its mask.
abbrev texts : Texts
texts = record {
  parse_ip = λ s. s;
  parse_cidr = λ s. ok (record { ip = take 4 s; mask = drop 5 s });
  parse_mac = λ s. ok s;
  ip_string = λ ip. ip;
  net_string = λ n. n.ip ++ b'/' ∷ n.mask;
  itoa = λ m. m ∷ [];
}

-- What each file holds
abbrev Store : Type 0
Store = Bytes → Option File

abbrev put : Bytes → Option File → Store → Store
put p o w q = if bytes_eq q p then o else w q

unfoldable rename_file : Bytes → Bytes → Option File → Store → Result (Unit {0}) × Store
rename_file a b none w = (err (external 2), w)
rename_file a b (some f) w = (ok tt, put b (some f) (put a none w))

abbrev disk : Disk Store File
disk = record {
  unix_nano = λ w. (ok (codes "7"), w);
  write_config = λ p f w. (ok tt, put p (some f) w);
  os = record {
    rename = λ a b w. rename_file a b (w a) w;
    open_source = λ p w. ok tt;
    create = λ p. pure tt;
    copy = λ a b. pure tt;
    mode = λ p w. ok 0;
    chmod = λ p m. pure tt;
    remove = λ p. pure tt;
  };
  files = record { read_dir = λ d w. err (external 2); remove = λ p w. (ok tt, put p none w) };
}

renamed_lem :
    (a b : Bytes) (w : Store) (q : Bytes) (o : Option File)
    → w a ≡ o
    → (rename_file a b o w).0 ≡ ok tt
    → (rename_file a b o w).1 q ≡ (if bytes_eq q b then w a else if bytes_eq q a then none else w q)
unfolding rename_file
renamed_lem a b w q none e h = cc
renamed_lem a b w q (some f) e h = rw e refl

absent_lem :
    (a b : Bytes) (w : Store) (o : Option File) → o ≡ none → (rename_file a b o w).0 ≢ ok tt
unfolding rename_file
absent_lem a b w none e h = cc
absent_lem a b w (some f) e h = cc

same_device_lem :
    (a b : Bytes) (w : Store) (o : Option File) (e : Error)
    → (rename_file a b o w).0 ≡ err e
    → is_exdev e ≡ false
unfolding rename_file
same_device_lem a b w none e h = let i : external 2 ≡ e = cc in rw (← i) refl
same_device_lem a b w (some f) e h = cc

disk-IsDisk : IsDisk disk (λ w. w)
disk-IsDisk = record {
  time_keeps = λ w. refl;
  written = λ p f w q h. refl;
  renamed = λ a b w q h. renamed_lem a b w q (w a) refl h;
  absent = λ a b w gone. absent_lem a b w (w a) gone;
  same_device = λ a b w e h. same_device_lem a b w (w a) e h;
  removed = λ p w q h. rw h refl;
}

abbrev no_keys : Keys
no_keys k = none

-- 10.0.0.n/24
abbrev net10 : ℕ → IpNet
net10 n = record { ip = 10 ∷ 0 ∷ 0 ∷ n ∷ []; mask = 255 ∷ 255 ∷ 255 ∷ 0 ∷ [] }

abbrev gateway10 : Ip
gateway10 = 10 ∷ 0 ∷ 0 ∷ 1 ∷ []

abbrev file : File
file =
    (codes "Match", added (codes "Name") (codes "eth0") no_keys)
    ∷ (
      network,
      added dns (10 ∷ 0 ∷ 0 ∷ 9 ∷ []) (added address (texts.net_string (net10 5)) no_keys),
    )
    ∷ (route, added gateway gateway10 (added destination (texts.net_string (net10 0)) no_keys))
    ∷ []

abbrev eth0 : NetworkdNetwork File
eth0 = record {
  config = file;
  name = codes "eth0";
  mac = [];
  file = codes "10.network";
  sub_files = [];
}

abbrev directory : Bytes
directory = codes "/etc/systemd/network"

abbrev nd : Networkd File
nd = record { networks = eth0 ∷ []; config_dir = directory; backup_retention = pos 0 }

abbrev path : Bytes
path = in_dir disk directory (codes "10.network")

abbrev store : Store
store = put path (some file) (λ q. none)

set_dhcp_works : (set_iface_dhcp list_ini disk (codes "eth0") true false (nd, store)).0 ≡ ok tt
unfolding set_iface_dhcp bytes_eq ◌>>=◌ first_named keys_at save file_move rename_file
set_dhcp_works = refl

set_iface_dhcp-get_interfaces_example :
    get_interfaces list_ini texts
      (set_iface_dhcp list_ini disk (codes "eth0") true false (nd, store)).1.0
    ≡ map
        (λ i. if bytes_eq i.name (codes "eth0") then put_dhcp true false i else i)
        (get_interfaces list_ini texts nd)
unfolding bytes_eq number keys_at
set_iface_dhcp-get_interfaces_example =
    set_iface_dhcp-get_interfaces list_ini-IsIni texts disk (codes "eth0") true false nd store
      ((λ e. refl), tt) set_dhcp_works

abbrev routes : List Route
routes = record { destination = net10 128; gateway = gateway10; metric = 7 } ∷ []

set_routes_works :
    (set_iface_routes list_ini texts disk (codes "eth0") routes (nd, store)).0 ≡ ok tt
unfolding set_iface_routes bytes_eq ◌>>=◌ first_named keys_at save file_move rename_file
set_routes_works = refl

set_iface_routes-get_interfaces_example :
    get_interfaces list_ini texts
      (set_iface_routes list_ini texts disk (codes "eth0") routes (nd, store)).1.0
    ≡ map
        (λ i. if bytes_eq i.name (codes "eth0") then put_routes routes i else i)
        (get_interfaces list_ini texts nd)
set_iface_routes-get_interfaces_example =
    set_iface_routes-get_interfaces list_ini-IsIni texts disk (codes "eth0") routes nd store
      (
        record {
          destination_lem = refl;
          gateway_lem = refl;
          gateway_present = refl;
          metric_lem = λ values. refl;
        },
        tt,
      )
      set_routes_works

abbrev addrs : List IpNet
addrs = net10 6 ∷ net10 7 ∷ []

set_addresses_works :
    (set_iface_addresses list_ini texts disk (codes "eth0") addrs gateway10 [] (nd, store)).0
    ≡ ok tt
unfolding set_iface_addresses bytes_eq ◌>>=◌ first_named keys_at save file_move rename_file
set_addresses_works = refl

net10-IsReadable : (n : ℕ) → Readable.IsReadable texts (net10 n)
unfolding bytes_eq
net10-IsReadable n = record { net_lem = refl; text_present = refl }

set_iface_addresses-get_interfaces_example :
    get_interfaces list_ini texts
      (set_iface_addresses list_ini texts disk (codes "eth0") addrs gateway10 [] (nd, store)).1.0
    ≡ map
        (λ i. if bytes_eq i.name (codes "eth0") then put_addresses addrs gateway10 [] i else i)
        (get_interfaces list_ini texts nd)
unfolding bytes_eq number keys_at is_v4
set_iface_addresses-get_interfaces_example =
    set_iface_addresses-get_interfaces list_ini-IsIni texts disk (codes "eth0") addrs gateway10 []
      nd store (net10-IsReadable 6, (net10-IsReadable 7, tt)) (λ e. cc)
      (record { ip_lem = λ e. refl; text_present = λ e. refl; family = λ e. refl })
      (record { ip_lem = λ e. cc; text_present = λ e. cc; family = λ e. cc }) refl
      ((λ e. (refl, refl)), tt) set_addresses_works

save_works : (save disk directory (pos 0) (eth0, store)).0 ≡ ok tt
unfolding save ◌>>=◌ file_move rename_file bytes_eq
save_works = refl

save_succeeded_example :
    (save disk directory (pos 0) (eth0, store)).1.1 path
    ≡ (if bytes_eq path path then some file else store path)
unfolding has_prefix
save_succeeded_example =
    save_succeeded disk-IsDisk directory (pos 0) eth0 store path refl save_works refl

-- A network with the sub file 10.network.d/a.conf, which is not beside 10.network
abbrev split_eth0 : NetworkdNetwork File
split_eth0 = record eth0 { sub_files = codes "a.conf" ∷ [] }

save_refused_example : (save disk directory (pos 0) (split_eth0, store)).0 ≢ ok tt
unfolding bytes_eq
save_refused_example =
    save_refused disk-IsDisk directory (pos 0) split_eth0 (codes "a.conf") [] store refl refl
      (λ tmp. refl)
