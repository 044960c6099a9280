-- ===== src/Linux/Dhcp.antt =====
-- SetDHCP of configurator_linux.go.
use go_network_configurator.Prelude.{◌≡◌, Bool, not, ◌&&◌, ◌||◌, if◌then◌else◌, Bytes, any, arith}
use go_network_configurator.Prelude.Exec.{Exec, ok, err, no_dhcp_backend}
use go_network_configurator.Backend.{apply_iface_dhcp, renew_dhcp_on_backends}
use go_network_configurator.Backend.Apply.{outcomes, push, apply_iface_dhcp-eq-push}
use go_network_configurator.Linux.{LinuxConfigurator}

-- SetDHCP
unfoldable pub set_dhcp :
    {W : Type 0} → LinuxConfigurator W → Bytes → Bool → Bool → Exec W (Unit {0})
set_dhcp c iface dhcp4 dhcp6 w =
    let (applied, w') = apply_iface_dhcp c.iface_backends iface dhcp4 dhcp6 w in
    if not applied
    then (err no_dhcp_backend, w')
    else (ok tt, if dhcp4 || dhcp6 then renew_dhcp_on_backends c.iface_backends iface w' else w')

-- SetDHCP fails exactly if no backend accepts the change in its turn; every backend is asked, in
-- order, whichever failed before. Only where one accepts and a family is turned on are the
-- backends asked to renew their leases after that.
pub set_dhcp_lem :
    {W : Type 0} (c : LinuxConfigurator W) (iface : Bytes) (dhcp4 dhcp6 : Bool) (w : W)
    → let accepted =
        any (λ o. o) (outcomes (λ b. b.set_iface_dhcp iface dhcp4 dhcp6) c.iface_backends w) in
      let asked = push (λ b. b.set_iface_dhcp iface dhcp4 dhcp6) c.iface_backends w in
      ((set_dhcp c iface dhcp4 dhcp6 w).0 ≡ (if accepted then ok tt else err no_dhcp_backend))
      × ((set_dhcp c iface dhcp4 dhcp6 w).1 ≡ (
          if accepted && (dhcp4 || dhcp6)
          then renew_dhcp_on_backends c.iface_backends iface asked
          else asked))
unfolding set_dhcp
set_dhcp_lem c iface dhcp4 dhcp6 w =
    rw (apply_iface_dhcp-eq-push iface dhcp4 dhcp6 c.iface_backends w) (ground arith)
