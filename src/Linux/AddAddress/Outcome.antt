-- ===== src/Linux/AddAddress/Outcome.antt =====
-- How a successful AddAddress goes, on the running system and after it.
use go_network_configurator.Prelude.{
  false, not, ◌||◌, ◌≡◌, refl, ◌&&◌, List, map, select, any, Bytes, if◌then◌else◌,
}
use go_network_configurator.Prelude.Exec.{ok}
use go_network_configurator.Net.{contains, is_link_local, Ip, IpNet, is_v4}
use go_network_configurator.Host.{Host, Link, Addr, NlRoute, Family}
use go_network_configurator.Backend.Apply.{
  push, apply_iface_addresses-eq-push, reload_panels-eq-push,
}
use go_network_configurator.Linux.{LinuxConfigurator, family_of}
use go_network_configurator.Linux.AddAddress.{Plan, persist, apply_address}
use go_network_configurator.Linux.Online.{Tested}
use go_network_configurator.Linux.Performed.{Performed}
use go_network_configurator.Linux.AddAddress.AddressSet.{remasked, is_same, Added}
use go_network_configurator.Linux.AddAddress.Connected.{
  is_asked, is_missing, tested_gateway, GatewayAdded,
}
use go_network_configurator.Linux.AddAddress.Rerouted.{Rerouted}
use go_network_configurator.Linux.Defaults.{default_route_of}
use go_network_configurator.Linux.AddAddress.Addresses.{file_addresses}
use go_network_configurator.Linux.AddAddress.DefaultRoutes.{own, present_gateway}

-- All backends are asked in turn to write a plan, and then all panels to reload, if they are not
-- skipped.
abbrev pub told_all : {W : Type 0} → LinuxConfigurator W → Bytes → Plan → W → W
told_all c iface plan w =
    let written =
      push (λ b. b.set_iface_addresses iface plan.addresses plan.gateway4 plan.gateway6)
        c.iface_backends w in
    if c.options.skip_panels then written else push (λ p. p.reload) c.panel_backends written

pub persist-told_all :
    {W : Type 0} (host : Host W) (c : LinuxConfigurator W) (iface : Bytes) (plan : Plan) (w : W)
    → persist host c iface plan w ≡ told_all c iface plan w
persist-told_all host c iface plan w =
    rw (apply_iface_addresses-eq-push, reload_panels-eq-push) refl

-- How a successful AddAddress went: the interface it found, the addresses and routes that it
-- listed, and the state that it left to the configuration files.
pub record AddOutcome {W V : Type 0} (view : W → V) (host : Host W) (c : LinuxConfigurator W)
    (iface : Bytes) (addr : IpNet) (gateway : Ip) (w w' : W) : Type 0 where
  pub link : Link
  pub link_found : host.link_by_name iface w ≡ ok link
  pub in_reach :
      is_asked addr gateway && not (contains addr gateway || is_link_local gateway) ≡ false
  pub raised : W
  pub link_raised :
      if link.flag_up then (w ≡ raised) else (host.link_set_up link w ≡ (ok tt, raised))
  pub listed : List Addr
  pub addresses_listed : host.addr_list link raised ≡ ok listed
  pub replaced : W
  pub masks_set :
      Performed
        (host.addr_replace link)
        (map (remasked addr) (select (is_same addr) listed))
        raised
        replaced
  pub addressed : W
  pub address_set :
      if any (is_same addr) listed
      then (replaced ≡ addressed)
      else Added host c link addr replaced addressed
  pub routes : List NlRoute
  pub routes_listed : host.route_list link Family.all addressed ≡ ok routes
  pub rerouted : W
  pub default_changed :
      Rerouted host addr gateway (default_route_of (family_of addr.ip) routes) addressed rerouted
  pub routed : W
  pub default_added :
      GatewayAdded host link addr
        (is_asked addr gateway && is_missing (default_route_of (family_of addr.ip) routes))
        (tested_gateway addr gateway (present_gateway (family_of addr.ip) routes))
        rerouted
        routed
  pub tested :
      Tested host c
        (tested_gateway addr gateway (present_gateway (family_of addr.ip) routes))
        routed
        (apply_address host c iface addr gateway w).1
  pub untouched : view (apply_address host c iface addr gateway w).1 ≡ view w
  pub written :
      w'
      ≡ told_all c iface
          (record {
            addresses = file_addresses addr listed;
            gateway4 =
                if is_v4 addr.ip
                then own addr gateway (present_gateway Family.v4 routes)
                else present_gateway Family.v4 routes;
            gateway6 =
                if is_v4 addr.ip
                then present_gateway Family.v6 routes
                else own addr gateway (present_gateway Family.v6 routes);
          })
          (apply_address host c iface addr gateway w).1
