-- ===== src/Ifupdown/Effects.antt =====
-- What the commands of the `up` and `down` lines of ifupdown.go do to the interface.
use go_network_configurator.Prelude.{
  Bool, true, false, not, ◌&&◌, ◌||◌, List, [], ◌∷◌, ◌++◌, Option, none, some, if◌then◌else◌,
}
use go_network_configurator.Net.{IpNet, is_nil, contains}
use go_network_configurator.Iface.{Route}
use go_network_configurator.Ifupdown.{IfInterface}
use go_network_configurator.Ifupdown.Scripts.{Command}

abbrev pub is_some : Option IpNet → Bool
is_some none = false
is_some (some n) = true

-- A route that a command adds, if it is complete
abbrev pub add_to_routes : Command → Option IpNet → IfInterface → Option IfInterface
add_to_routes c none iface = none
add_to_routes c (some dst) iface =
    if is_nil c.gateway
    then none
    else some (record iface {
      routes =
          iface.routes ++ record { destination = dst; gateway = c.gateway; metric = c.metric } ∷ [];
    })

abbrev pub add_to_addresses : Command → Option IpNet → IfInterface → Option IfInterface
add_to_addresses c none iface = none
add_to_addresses c (some address) iface =
    if c.this_dev then some (record iface { addresses = iface.addresses ++ address ∷ [] }) else none

-- What `up route …` does to the interface; `none` leaves the line to the configuration.
unfoldable pub apply_up_route : Command → IfInterface → Option IfInterface
apply_up_route c iface = if c.adds then add_to_routes c c.dst iface else none

-- The same for `up ip …`: a complete route comes before an address.
unfoldable pub apply_up_ip : Command → IfInterface → Option IfInterface
apply_up_ip c iface =
    if not c.adds
    then none
    else if c.on_route && is_some c.dst && not (is_nil c.gateway)
    then add_to_routes c c.dst iface
    else if c.on_address
    then add_to_addresses c c.address iface
    else none

-- `route.Destination.Contains(dst.IP)` for one of the routes
unfoldable pub has_route : IpNet → List Route → Bool
has_route dst [] = false
has_route dst (r ∷ routes) = contains r.destination dst.ip || has_route dst routes

-- Whether a `down route …` is passed over
unfoldable pub skips_down_route : Command → IfInterface → Bool
unfolding has_route
skips_down_route c iface = elim c.dst [
  | none ↦ false
  | some dst ↦ c.deletes && has_route dst iface.routes
]

-- Whether a `down ip …` is passed over
unfoldable pub skips_down_ip : Command → Bool
skips_down_ip c =
    c.deletes
    && ((c.on_route && is_some c.dst) || (c.on_address && is_some c.address && c.this_dev))
