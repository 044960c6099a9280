-- ===== src/Tests.antt =====
-- A small machine on which the theorems are tried at concrete inputs, and tests by evaluation.
mod Names
mod Values
mod Detection
mod Runs
mod Refusals
mod Files
mod Ifupdown
mod Ini
mod Networkd
use go_network_configurator.Prelude.{
  ℕ, ℤ, pos, Bool, true, false, not, ◌&&◌, List, [], ◌∷◌, ◌++◌, Option, none, some, map, select,
  any, refl, if◌then◌else◌, Bytes, codes, bytes_eq,
}
use go_network_configurator.Prelude.Exec.{Exec, Result, ok, err, Error, external, pure}
use go_network_configurator.Net.{Ip, IpNet, ip_equal}
use go_network_configurator.Iface.{Interface, Route}
use go_network_configurator.Options.{ConfigOptions, default_config_options}
use go_network_configurator.Backend.{IfaceBackend, PanelBackend}
use go_network_configurator.Host.{Host, Family, OperState, Link, Addr, NlRoute, test_success}
use go_network_configurator.Host.Keeps.{IsOutside}
use go_network_configurator.Linux.{LinuxConfigurator}

-- The kernel's addresses and routes; what the configuration file, and the panel, were told.
pub record Machine : Type 0 where
  pub addrs : List Addr
  pub nl_routes : List NlRoute
  pub file_addresses : List IpNet
  pub file_gateway4 : Ip
  pub file_routes : List Route
  pub file_dhcp : Bool
  pub main_ip : Ip

abbrev pub eth0 : Link
eth0 = record {
  index = 2;
  name = codes "eth0";
  hardware_addr = [];
  flag_up = true;
  oper_state = OperState.up;
  is_device = true;
}

abbrev pub loopback : Link
loopback = record {
  index = 1;
  name = codes "lo";
  hardware_addr = [];
  flag_up = true;
  oper_state = OperState.unknown;
  is_device = true;
}

abbrev replaced : Addr → List Addr → List Addr
replaced a addrs =
    if any (λ b. ip_equal b.ip_net.ip a.ip_net.ip) addrs
    then map (λ b. if ip_equal b.ip_net.ip a.ip_net.ip then a else b) addrs
    else addrs ++ a ∷ []

abbrev without_route : NlRoute → List NlRoute → List NlRoute
without_route r = select (λ x. not (bytes_eq x.dst.ip r.dst.ip))

-- Nothing answers to a ping, and every page is served.
abbrev pub toy : Host Machine
toy = record {
  new_handle = λ w. ok tt;
  link_by_name = λ name w. if bytes_eq name (codes "eth0") then ok eth0 else err (external 19);
  link_list = λ w. ok (loopback ∷ eth0 ∷ []);
  addr_list = λ link w. ok w.addrs;
  route_list = λ link family w. ok w.nl_routes;
  link_set_up = λ link. pure tt;
  link_set_down = λ link. pure tt;
  addr_add = λ link a w. (ok tt, record w { addrs = w.addrs ++ a ∷ [] });
  addr_replace = λ link a w. (ok tt, record w { addrs = replaced a w.addrs });
  addr_del = λ link a w.
      (ok tt, record w { addrs = select (λ b. not (ip_equal b.ip_net.ip a.ip_net.ip)) w.addrs });
  route_add = λ r w. (ok tt, record w { nl_routes = w.nl_routes ++ r ∷ [] });
  route_change = λ r w. (ok tt, record w { nl_routes = without_route r w.nl_routes ++ r ∷ [] });
  route_replace = λ r w. (ok tt, record w { nl_routes = without_route r w.nl_routes ++ r ∷ [] });
  route_del = λ r w. (ok tt, record w { nl_routes = without_route r w.nl_routes });
  new_pinger = λ dest w. ok tt;
  run_pinger = λ dest count timeout. pure 0;
  http_get = λ address timeout. pure 204;
}

-- What the configuration file and the panel were told
abbrev pub told : Machine → List IpNet × Ip × List Route × Bool × Ip
told w = (w.file_addresses, w.file_gateway4, w.file_routes, w.file_dhcp, w.main_ip)

pub toy-IsOutside : IsOutside told toy
toy-IsOutside = record {
  link_set_up = λ l. record { at = λ w. refl };
  link_set_down = λ l. record { at = λ w. refl };
  addr_add = λ l a. record { at = λ w. refl };
  addr_replace = λ l a. record { at = λ w. refl };
  addr_del = λ l a. record { at = λ w. refl };
  route_add = λ r. record { at = λ w. refl };
  route_change = λ r. record { at = λ w. refl };
  route_replace = λ r. record { at = λ w. refl };
  route_del = λ r. record { at = λ w. refl };
  run_pinger = λ dest count timeout. record { at = λ w. refl };
  http_get = λ address timeout. record { at = λ w. refl };
}

abbrev pub file_backend : IfaceBackend Machine
file_backend = record {
  name = codes "Networkd";
  set_iface_addresses = λ iface addrs gateway4 gateway6 w.
      (ok tt, record w { file_addresses = addrs; file_gateway4 = gateway4 });
  set_iface_routes = λ iface routes w. (ok tt, record w { file_routes = routes });
  set_iface_dns = λ iface servers domains. pure tt;
  set_iface_dhcp = λ iface dhcp4 dhcp6 w. (ok tt, record w { file_dhcp = dhcp4 });
  get_interfaces = none;
  renew_dhcp = none;
}

abbrev pub toy_panel : PanelBackend Machine
toy_panel = record {
  name = codes "cPanel";
  reload = pure tt;
  set_main_ip = λ ip w. (ok tt, record w { main_ip = ip });
  remove_ip = λ ip. pure tt;
}

abbrev pub options : ConfigOptions
options = record {
  test_address = test_success;
  skip_connectivity_check = false;
  connectivity_timeout = pos 1;
  ping_count = pos 1;
  ping_timeout = pos 1;
  backup_retention = pos 5;
  allow_primary_removal = false;
  skip_panels = false;
  allow_no_backends = false;
  service_ready_timeout = pos 1;
}

abbrev pub configurator : LinuxConfigurator Machine
configurator = record {
  iface_backends = file_backend ∷ [];
  panel_backends = toy_panel ∷ [];
  options = options;
}

-- 10.0.0.n/24
abbrev pub net10 : ℕ → IpNet
net10 n = record { ip = 10 ∷ 0 ∷ 0 ∷ n ∷ []; mask = 255 ∷ 255 ∷ 255 ∷ 0 ∷ [] }

abbrev pub addr10 : ℕ → Addr
addr10 n = record { ip_net = net10 n; attributes = 0 }

-- A route of eth0 by way of 10.0.0.1
abbrev pub route_to : IpNet → NlRoute
route_to dst = record {
  family = Family.v4;
  link_index = 2;
  dst = dst;
  gw = 10 ∷ 0 ∷ 0 ∷ 1 ∷ [];
  priority = 0;
  attributes = 0;
}

abbrev pub default4 : NlRoute
default4 = route_to (record { ip = 0 ∷ 0 ∷ 0 ∷ 0 ∷ []; mask = 0 ∷ 0 ∷ 0 ∷ 0 ∷ [] })

-- 192.168.7.0/24
abbrev pub far : IpNet
far = record { ip = 192 ∷ 168 ∷ 7 ∷ 0 ∷ []; mask = 255 ∷ 255 ∷ 255 ∷ 0 ∷ [] }

-- eth0 has 10.0.0.5 and 10.0.0.6, and a default route.
abbrev pub start : Machine
start = record {
  addrs = addr10 5 ∷ addr10 6 ∷ [];
  nl_routes = default4 ∷ route_to far ∷ [];
  file_addresses = [];
  file_gateway4 = [];
  file_routes = [];
  file_dhcp = false;
  main_ip = [];
}
