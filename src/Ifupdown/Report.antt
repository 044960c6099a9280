-- ===== src/Ifupdown/Report.antt =====
-- GetInterfaces of ifupdown.go.
use go_network_configurator.Prelude.{
  false, List, [], ◌∷◌, ◌++◌, if◌then◌else◌, Bytes, bytes_eq, map,
}
use go_network_configurator.Prelude.Exec.{Result, ok, err}
use go_network_configurator.Net.{Ip, is_nil}
use go_network_configurator.Iface.{Interface}
use go_network_configurator.InitState.{fields}
use go_network_configurator.NetTexts.{Texts}
use go_network_configurator.Ifupdown.{IfInterface, IfUpDown, dhcp_state}
use go_network_configurator.Ifupdown.Write.{config_values}
use go_network_configurator.Ifupdown.Update.{dns_nameservers, dns_search}

-- The loop over the links, by name and address: the last one of the name counts.
unfoldable pub mac_of : Bytes → List (Bytes × Bytes) → Bytes → Bytes
mac_of name [] mac = mac
mac_of name ((link_name, link_mac) ∷ links) mac =
    mac_of name links (if bytes_eq link_name name then link_mac else mac)

-- The loop over the search domains
unfoldable pub all_fields : List Bytes → List Bytes
all_fields [] = []
all_fields (value ∷ values) = fields value ++ all_fields values

module _ (texts : Texts) where
  unfoldable pub parse_servers : List Bytes → List Ip
  parse_servers [] = []
  parse_servers (field ∷ fs) =
      let rest = parse_servers fs in
      let ip = texts.parse_ip field in if is_nil ip then rest else ip ∷ rest

  -- The loop over the DNS servers
  unfoldable pub all_servers : List Bytes → List Ip
  unfolding parse_servers
  all_servers [] = []
  all_servers (value ∷ values) = parse_servers (fields value) ++ all_servers values

  -- The body of the loop over the interfaces
  unfoldable pub report : List (Bytes × Bytes) → IfInterface → Interface
  unfolding mac_of all_fields all_servers dhcp_state config_values
  report links iface =
      let (dhcp4, dhcp6) = dhcp_state iface in
      record {
        name = iface.name;
        mac = mac_of iface.name links [];
        addresses = iface.addresses;
        gateway4 = iface.gateway4;
        gateway6 = iface.gateway6;
        routes = iface.routes;
        dns = all_servers (config_values dns_nameservers iface.config);
        up = false;
        physical = false;
        dhcp4 = dhcp4;
        dhcp6 = dhcp6;
        search_domains = all_fields (config_values dns_search iface.config);
      }

  -- GetInterfaces, on the links that the kernel lists
  unfoldable pub get_interfaces : Result (List (Bytes × Bytes)) → IfUpDown → Result (List Interface)
  unfolding report
  get_interfaces (err e) i = err e
  get_interfaces (ok links) i = ok (map (report links) i.interfaces)
