-- ===== src/Networkd/Parts.antt =====
-- GetInterfaces reads three independent parts of a file: the DHCP setting, the routes, and the
-- addresses with all that stands beside them.
use go_network_configurator.Prelude.{
  ℕ, Bool, ◌||◌, List, [], ◌∷◌, ◌++◌, Option, none, some, if◌then◌else◌, Bytes, bytes_eq,
}
use go_network_configurator.Net.{Ip, IpNet, is_nil, is_v4}
use go_network_configurator.Iface.{Interface, Route}
use go_network_configurator.InitState.{fields}
use go_network_configurator.NetTexts.{Texts}
use go_network_configurator.Networkd.{
  Key, parse_networkd_dhcp, network, address, route, dhcp, dns, domains, gateway,
}
use go_network_configurator.Networkd.Report.{
  Keys, take_addresses, take_dns, read_route, new_interface,
}
use go_network_configurator.Networkd.Config.{Table}

-- The addresses of an interface and what stands beside them
pub record Addressing : Type 0 where
  pub addresses : List IpNet
  pub gateway4 : Ip
  pub gateway6 : Ip
  pub dns : List Ip
  pub search_domains : List Bytes

abbrev pub no_addressing : Addressing
no_addressing = record {
  addresses = [];
  gateway4 = [];
  gateway6 = [];
  dns = [];
  search_domains = [];
}

-- An interface of its parts
abbrev pub assemble : Bytes → Bytes → Bool × Bool → List Route → Addressing → Interface
assemble name mac d routes a = record (new_interface name mac) {
  dhcp4 = d.0;
  dhcp6 = d.1;
  routes = routes;
  addresses = a.addresses;
  gateway4 = a.gateway4;
  gateway6 = a.gateway6;
  dns = a.dns;
  search_domains = a.search_domains;
}

-- The DHCP setting of the sections, from one that was read before
unfoldable pub dhcp_key_part : Option Key → Bool × Bool → Bool × Bool
dhcp_key_part none d = d
dhcp_key_part (some key) d = parse_networkd_dhcp key.value

unfoldable pub dhcp_part : List Table → Bool × Bool → Bool × Bool
dhcp_part [] d = d
dhcp_part ((name, keys) ∷ ts) d =
    dhcp_part ts (if bytes_eq name network then dhcp_key_part (keys dhcp) d else d)

unfoldable pub domains_of : Option Key → List Bytes → List Bytes
domains_of none ds = ds
domains_of (some key) ds = ds ++ fields key.value

module _ (texts : Texts) where
  -- The routes of the sections
  unfoldable pub route_part : (Key → Option ℕ) → List Table → List Route → List Route
  route_part key_int [] routes = routes
  route_part key_int ((name, keys) ∷ ts) routes =
      route_part key_int ts
        (if bytes_eq name route then read_route texts key_int keys routes else routes)

  unfoldable pub gateway_part : List Bytes → Ip × Ip → Ip × Ip
  gateway_part [] gws = gws
  gateway_part (g ∷ values) (gw4, gw6) =
      let ip = texts.parse_ip g in
      gateway_part values
        (if is_nil ip then (gw4, gw6) else if is_v4 ip then (ip, gw6) else (gw4, ip))

  unfoldable pub gateways_of : Option Key → Ip × Ip → Ip × Ip
  gateways_of none gws = gws
  gateways_of (some key) gws = gateway_part key.values gws

  unfoldable pub dns_of : Option Key → List Ip → List Ip
  dns_of none ips = ips
  dns_of (some key) ips = take_dns texts key.values ips

  -- The addressing of one section
  unfoldable pub key_addressing : Option Key → Keys → Addressing → Addressing
  key_addressing none keys a = a
  key_addressing (some key) keys a = record {
    addresses = take_addresses texts key.values a.addresses;
    gateway4 = (gateways_of (keys gateway) (a.gateway4, a.gateway6)).0;
    gateway6 = (gateways_of (keys gateway) (a.gateway4, a.gateway6)).1;
    dns = dns_of (keys dns) a.dns;
    search_domains = domains_of (keys domains) a.search_domains;
  }

  -- The addressing of the sections
  unfoldable pub addressing_part : List Table → Addressing → Addressing
  addressing_part [] a = a
  addressing_part ((name, keys) ∷ ts) a = addressing_part ts (
      if bytes_eq name network || bytes_eq name address
      then key_addressing (keys address) keys a
      else a)
