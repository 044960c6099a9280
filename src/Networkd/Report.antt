-- ===== src/Networkd/Report.antt =====
-- GetInterfaces of networkd.go.
use go_network_configurator.Prelude.{
  ℕ, false, List, [], ◌∷◌, ◌++◌, Option, none, some, if◌then◌else◌, Bytes, bytes_eq, map,
}
use go_network_configurator.Prelude.Exec.{ok, err}
use go_network_configurator.Net.{Ip, IpNet, is_nil, is_v4}
use go_network_configurator.Iface.{Interface, Route}
use go_network_configurator.InitState.{fields}
use go_network_configurator.NetTexts.{Texts}
use go_network_configurator.Networkd.{
  Key, Ini, NetworkdNetwork, Networkd, parse_networkd_dhcp, network, address, route, dhcp, dns,
  domains, gateway, destination, metric,
}

-- The keys of a section
abbrev pub Keys : Type 0
Keys = Bytes → Option Key

abbrev pub with_domains : Option Key → Interface → Interface
with_domains none i = i
with_domains (some key) i = record i { search_domains = i.search_domains ++ fields key.value }

abbrev pub with_dhcp : Option Key → Interface → Interface
with_dhcp none i = i
with_dhcp (some key) i =
    let (dhcp4, dhcp6) = parse_networkd_dhcp key.value in record i { dhcp4 = dhcp4; dhcp6 = dhcp6 }

abbrev pub parse_metric : (Key → Option ℕ) → Option Key → ℕ
parse_metric key_int none = 256
parse_metric key_int (some key) = elim (key_int key) [ none ↦ 256 | some m ↦ m ]

module _ (texts : Texts) where
  -- The loop over the addresses; an empty one clears the list.
  unfoldable pub take_addresses : List Bytes → List IpNet → List IpNet
  take_addresses [] addrs = addrs
  take_addresses (addr ∷ values) addrs = take_addresses values (
      if bytes_eq addr []
      then []
      else elim (texts.parse_cidr addr) [ ok n ↦ addrs ++ n ∷ [] | err e ↦ addrs ])

  -- The loop over the DNS servers
  unfoldable pub take_dns : List Bytes → List Ip → List Ip
  take_dns [] ips = ips
  take_dns (d ∷ values) ips =
      let ip = texts.parse_ip d in take_dns values (if is_nil ip then ips else ips ++ ip ∷ [])

  -- The loop over the gateways
  unfoldable pub take_gateways : List Bytes → Interface → Interface
  take_gateways [] i = i
  take_gateways (g ∷ values) i =
      let ip = texts.parse_ip g in
      take_gateways values (
        if is_nil ip
        then i
        else if is_v4 ip
        then record i { gateway4 = ip }
        else record i { gateway6 = ip })

  abbrev pub with_dns : Option Key → Interface → Interface
  with_dns none i = i
  with_dns (some key) i = record i { dns = take_dns key.values i.dns }

  abbrev pub with_gateways : Option Key → Interface → Interface
  with_gateways none i = i
  with_gateways (some key) i = take_gateways key.values i

  -- What the cases "Network" and "Address" share. Without addresses the section is left at once.
  unfoldable pub read_addressing : Keys → Interface → Interface
  unfolding take_addresses take_dns take_gateways
  read_addressing keys i = elim (keys address) [
    | none ↦ i
    | some key ↦ with_gateways (keys gateway) (
        with_domains (keys domains)
          (with_dns (keys dns) (record i { addresses = take_addresses key.values i.addresses })))
  ]

  abbrev pub parse_destination : Option Key → Option IpNet
  parse_destination none = none
  parse_destination (some key) = elim (texts.parse_cidr key.value) [ ok n ↦ some n | err e ↦ none ]

  abbrev pub parse_gateway : Option Key → Ip
  parse_gateway none = []
  parse_gateway (some key) = texts.parse_ip key.value

  module _ (key_int : Key → Option ℕ) where
    -- The case "Route"
    unfoldable pub read_route : Keys → List Route → List Route
    read_route keys routes = elim (parse_destination (keys destination)) [
      | none ↦ routes
      | some dst ↦
          let gw = parse_gateway (keys gateway) in
          if is_nil gw
          then routes
          else routes
            ++ record {
              destination = dst;
              gateway = gw;
              metric = parse_metric key_int (keys metric);
            }
              ∷ []
    ]

    -- One section, by its name and its keys
    unfoldable pub read_section : Bytes → Keys → Interface → Interface
    unfolding read_addressing read_route
    read_section name keys i =
        if bytes_eq name network
        then read_addressing keys (with_dhcp (keys dhcp) i)
        else if bytes_eq name address
        then read_addressing keys i
        else if bytes_eq name route
        then record i { routes = read_route keys i.routes }
        else i

abbrev pub new_interface : Bytes → Bytes → Interface
new_interface name mac = record {
  name = name;
  mac = mac;
  addresses = [];
  gateway4 = [];
  gateway6 = [];
  routes = [];
  dns = [];
  up = false;
  physical = false;
  dhcp4 = false;
  dhcp6 = false;
  search_domains = [];
}

module _ {F S : Type 0} (ini : Ini F S) (texts : Texts) where
  -- The loop over the sections
  unfoldable pub read_sections : F → List S → Interface → Interface
  read_sections f [] i = i
  read_sections f (sec ∷ secs) i =
      read_sections f secs
        (read_section texts ini.key_int (ini.section_name sec) (λ k. ini.get_key sec k f) i)

  unfoldable pub report : NetworkdNetwork F → Interface
  unfolding read_sections
  report n = read_sections n.config (ini.sections n.config) (new_interface n.name n.mac)

  -- GetInterfaces
  unfoldable pub get_interfaces : Networkd F → List Interface
  unfolding report
  get_interfaces nd = map report nd.networks
