-- ===== src/Linux/Plans.antt =====
-- Equations on what a method hands to the configuration files.
use go_network_configurator.Prelude.{◌≡◌, List, arith}
use go_network_configurator.Prelude.Exec.{ok, pure}
use go_network_configurator.Net.{Ip, IpNet}
use go_network_configurator.Linux.{family_of}
use go_network_configurator.Host.{NlRoute}
use go_network_configurator.Linux.RemoveAddress.{gw_of}
use go_network_configurator.Linux.Defaults.{no_defaults, capture_defaults, route-capture_defaults}
use go_network_configurator.Linux.AddAddress.DefaultRoutes.{present_gateway}
use go_network_configurator.Linux.AddAddress.{Plan}

-- What a block that ends in `pure p` returns.
pub plan_of : {W : Type 0} {p q : Plan} {w w' : W} → pure p w ≡ (ok q, w') → q ≡ p
plan_of h = cc

pub same_plan :
    (p : Plan) {addresses : List IpNet} {gateway4 gateway6 : Ip}
    → p.addresses ≡ addresses
    → p.gateway4 ≡ gateway4
    → p.gateway6 ≡ gateway6
    → p ≡ record { addresses = addresses; gateway4 = gateway4; gateway6 = gateway6 }
same_plan p a b c i = record { addresses = a i; gateway4 = b i; gateway6 = c i }

-- The gateway of the remembered route is the present one of the family.
pub gw_of_lem :
    (ip : Ip) (routes : List NlRoute)
    → gw_of (capture_defaults (family_of ip) routes no_defaults).family_route
      ≡ present_gateway (family_of ip) routes
unfolding present_gateway
gw_of_lem ip routes = rw route-capture_defaults (ground arith)
