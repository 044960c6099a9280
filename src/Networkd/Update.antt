-- ===== src/Networkd/Update.antt =====
-- The methods of networkd.go that change the configuration of an interface. The state is the
-- networkd with the machine. A body that fails leaves its network as it has changed it.
use go_network_configurator.Prelude.{
  Bool, not, ◌||◌, List, [], ◌∷◌, ◌++◌, Option, none, some, if◌then◌else◌, Bytes, codes, bytes_eq,
}
use go_network_configurator.Prelude.Exec.{Exec, Result, ok, err, pure, attempt, finish, ◌>>=◌, ◌>>◌}
use go_network_configurator.Net.{Ip, IpNet, is_nil}
use go_network_configurator.Iface.{Route}
use go_network_configurator.InitState.{fields}
use go_network_configurator.Linux.Dns.{ip_strings, joined}
use go_network_configurator.NetTexts.{Texts}
use go_network_configurator.Networkd.{
  Key, Ini, NetworkdNetwork, Networkd, set_networkd_dhcp, network, address, route, dns, domains,
  gateway, destination, metric,
}
use go_network_configurator.Networkd.Save.{Disk, save}

-- The outcome of a loop over the networks: its error, the networks and the machine
abbrev pub Outcome : Type 0 → Type 0 → Type 0
Outcome W F = Result (Unit {0}) × List (NetworkdNetwork F) × W

module _ {W F : Type 0} where
  -- What a body does to the configuration of its network
  unfoldable pub on_config : Exec F (Unit {0}) → Exec (NetworkdNetwork F × W) (Unit {0})
  on_config m (n, w) = let (r, f) = m n.config in (r, (record n { config = f }, w))

  abbrev pub behind : NetworkdNetwork F → (W → Outcome W F) → W → Outcome W F
  behind n rest w = let (r, networks, w') = rest w in (r, n ∷ networks, w')

  -- After the body for a network: an error ends the loop.
  unfoldable pub after_body :
      Result (Unit {0})
      → NetworkdNetwork F
      → List (NetworkdNetwork F)
      → (W → Outcome W F)
      → W
      → Outcome W F
  after_body (ok u) n networks rest w = behind n rest w
  after_body (err e) n networks rest w = (err e, n ∷ networks, w)

  -- The loop `for _, n := range nd.Networks` with its test of the name
  unfoldable pub for_named :
      Exec (NetworkdNetwork F × W) (Unit {0}) → Bytes → List (NetworkdNetwork F) → W → Outcome W F
  unfolding after_body
  for_named body iface [] w = (ok tt, [], w)
  for_named body iface (n ∷ networks) w =
      let rest = for_named body iface networks in
      let (r, (n', w')) = body (n, w) in
      if not (bytes_eq n.name iface) then behind n rest w else after_body r n' networks rest w'

  -- A method whose body changes the configuration and then saves the network
  unfoldable pub update_named :
      Disk W F → (Exec F (Unit {0})) → Bytes → Exec (Networkd F × W) (Unit {0})
  unfolding for_named on_config
  update_named disk change iface (nd, w) =
      let (r, networks, w') =
        for_named (on_config change >> save disk nd.config_dir nd.backup_retention) iface
          nd.networks w in
      (r, (record nd { networks = networks }, w'))

-- `sec, err := GetSection(…)`, and what is done with the section
abbrev pub with_section : {F S : Type 0} → Result S → (S → Exec F (Unit {0})) → Exec F (Unit {0})
with_section (ok sec) body f = body sec f
with_section (err e) body f = (err e, f)

abbrev pub key_values : Option Key → List Bytes
key_values none = []
key_values (some key) = key.values

abbrev pub key_fields : Option Key → List Bytes
key_fields none = []
key_fields (some key) = fields key.value

abbrev pub is_addressing : Bytes → Bool
is_addressing name = bytes_eq name network || bytes_eq name address

abbrev pub net_strings : Texts → List IpNet → List Bytes
net_strings texts [] = []
net_strings texts (addr ∷ addrs) = texts.net_string addr ∷ net_strings texts addrs

module _ {F S : Type 0} (ini : Ini F S) where
  -- A key that is written whatever comes of it
  abbrev pub put_key : S → Bytes → Bytes → F → F
  put_key sec key value f = attempt (ini.new_key sec key value) f

  unfoldable pub put_keys : S → Bytes → List Bytes → F → F
  put_keys sec key [] f = f
  put_keys sec key (value ∷ values) f = put_keys sec key values (put_key sec key value f)

  -- The loops that collect the DNS servers and the domains
  unfoldable pub collect_dns : F → List S → List Bytes
  collect_dns f [] = []
  collect_dns f (sec ∷ secs) =
      let rest = collect_dns f secs in
      if is_addressing (ini.section_name sec)
      then key_values (ini.get_key sec dns f) ++ rest
      else rest

  unfoldable pub collect_domains : F → List S → List Bytes
  collect_domains f [] = []
  collect_domains f (sec ∷ secs) =
      let rest = collect_domains f secs in
      if is_addressing (ini.section_name sec)
      then key_fields (ini.get_key sec domains f) ++ rest
      else rest

  -- The body of SetIfaceDHCP
  unfoldable pub change_dhcp : Bool → Bool → Exec F (Unit {0})
  unfolding set_networkd_dhcp
  change_dhcp dhcp4 dhcp6 f =
      with_section (ini.get_section network f) (λ sec. set_networkd_dhcp ini sec dhcp4 dhcp6) f

  -- The loop that clears DNS and Domains
  unfoldable pub clear_dns : List S → F → F
  clear_dns [] f = f
  clear_dns (sec ∷ secs) f = clear_dns secs (
      if is_addressing (ini.section_name sec)
      then ini.delete_key sec domains (ini.delete_key sec dns f)
      else f)

  -- SetIfaceDHCP
  unfoldable pub set_iface_dhcp :
      {W : Type 0} → Disk W F → Bytes → Bool → Bool → Exec (Networkd F × W) (Unit {0})
  unfolding update_named change_dhcp
  set_iface_dhcp disk iface dhcp4 dhcp6 = update_named disk (change_dhcp dhcp4 dhcp6) iface

module _ {F S : Type 0} (ini : Ini F S) (texts : Texts) where
  -- `if gateway != nil`
  abbrev pub put_gateway : S → Ip → F → F
  put_gateway sec gw f = if is_nil gw then f else put_key ini sec gateway (texts.ip_string gw) f

  -- The existing fields that are deleted
  abbrev pub delete_fields : S → F → F
  delete_fields sec f =
      ini.delete_key sec domains
        (ini.delete_key sec dns (ini.delete_key sec gateway (ini.delete_key sec address f)))

  -- The keys that the section Network gets
  unfoldable pub rewrite_addresses : List IpNet → Ip → Ip → List Bytes → List Bytes → S → F → F
  unfolding put_keys
  rewrite_addresses addrs gateway4 gateway6 servers names sec f =
      let f1 = put_keys ini sec address (net_strings texts addrs) (delete_fields sec f) in
      let f2 = put_gateway sec gateway6 (put_gateway sec gateway4 f1) in
      put_key ini sec domains (joined names) (put_keys ini sec dns servers f2)

  -- The body of SetIfaceAddresses, up to the save
  unfoldable pub change_addresses : List IpNet → Ip → Ip → Exec F (Unit {0})
  unfolding collect_dns collect_domains rewrite_addresses
  change_addresses addrs gateway4 gateway6 f =
      let servers = collect_dns ini f (ini.sections f) in
      let names = collect_domains ini f (ini.sections f) in
      let f1 = ini.delete_section address f in
      with_section (ini.get_section network f1)
        (λ sec. finish (rewrite_addresses addrs gateway4 gateway6 servers names sec)) f1

  -- The keys of a new section Route
  abbrev pub fill_route : Route → S → F → F
  fill_route r sec f = put_key ini sec metric (texts.itoa r.metric) (
      put_key ini sec gateway (texts.ip_string r.gateway)
        (put_key ini sec destination (texts.net_string r.destination) f))

  -- The loop over the routes
  unfoldable pub add_routes : List Route → Exec F (Unit {0})
  add_routes [] = pure tt
  add_routes (r ∷ routes) = do
    sec ← ini.new_section route
    finish (fill_route r sec)
    add_routes routes

  -- The body of SetIfaceRoutes
  unfoldable pub change_routes : List Route → Exec F (Unit {0})
  unfolding add_routes
  change_routes routes f = add_routes routes (ini.delete_section route f)

  -- `if len(searchDomains) != 0`
  abbrev pub put_domains : List Bytes → S → F → F
  put_domains [] sec f = f
  put_domains (d ∷ ds) sec f = put_key ini sec domains (joined (d ∷ ds)) f

  -- The body of SetIfaceDNS
  unfoldable pub change_dns : List Ip → List Bytes → Exec F (Unit {0})
  unfolding clear_dns put_keys
  change_dns servers search_domains f =
      let f1 = clear_dns ini (ini.sections f) f in
      with_section (ini.get_section network f1)
        (λ sec. finish (λ f2.
          put_domains search_domains sec
            (put_keys ini sec dns (ip_strings texts.ip_string servers) f2)))
        f1

  module _ {W : Type 0} (disk : Disk W F) where
    -- SetIfaceAddresses
    unfoldable pub set_iface_addresses :
        Bytes → List IpNet → Ip → Ip → Exec (Networkd F × W) (Unit {0})
    unfolding update_named change_addresses
    set_iface_addresses iface addrs gateway4 gateway6 =
        update_named disk (change_addresses addrs gateway4 gateway6) iface

    -- SetIfaceRoutes
    unfoldable pub set_iface_routes : Bytes → List Route → Exec (Networkd F × W) (Unit {0})
    unfolding update_named change_routes
    set_iface_routes iface routes = update_named disk (change_routes routes) iface

    -- SetIfaceDNS
    unfoldable pub set_iface_dns : Bytes → List Ip → List Bytes → Exec (Networkd F × W) (Unit {0})
    unfolding update_named change_dns
    set_iface_dns iface servers search_domains =
        update_named disk (change_dns servers search_domains) iface

-- renewDHCP
unfoldable pub renew_dhcp :
    {W : Type 0} → (List Bytes → Exec W (Unit {0})) → Bytes → Exec W (Unit {0})
renew_dhcp run_command iface = do
  run_command (codes "networkctl" ∷ codes "reload" ∷ [])
  run_command (codes "networkctl" ∷ codes "reconfigure" ∷ iface ∷ [])
