-- ===== src/Linux.antt =====
-- configurator_linux.go: the configurator, its link helpers, and what its methods share.
pub mod AddAddress
pub mod Defaults
mod Plans
pub mod Online
pub mod Performed
pub mod RemoveAddress
pub mod SetPrimary
pub mod StaticRoutes
pub mod Interfaces
pub mod Dhcp
pub mod Dns
pub mod NewConfigurator
use go_network_configurator.Prelude.{
  ℕ, Bool, true, false, not, ◌&&◌, List, [], ◌∷◌, if◌then◌else◌, Bytes, codes, bytes_eq, ◌==◌,
}
use go_network_configurator.Prelude.Exec.{
  Exec, Result, ok, err, Error, bring_up_failed, wrap_error, pure, raise, reads, ◌>>=◌, ◌>>◌,
}
use go_network_configurator.Net.{Ip, IpNet, is_v4, mask_ones, ipv4_zero, ipv6_zero, contains}
use go_network_configurator.Options.{ConfigOptions}
use go_network_configurator.Backend.{IfaceBackend, PanelBackend, reload_panels}
use go_network_configurator.Host.{Host, Family, Link, OperState, NlRoute, Addr}

pub record LinuxConfigurator (W : Type 0) : Type 0 where
  pub iface_backends : List (IfaceBackend W)
  pub panel_backends : List (PanelBackend W)
  pub options : ConfigOptions

-- linkIsUp
unfoldable pub link_is_up : Link → Bool
link_is_up link = elim link.oper_state [
  | OperState.unknown ↦ link.flag_up
  | OperState.up ↦ true
  | OperState.other ↦ false
]

-- linkIsPhysical
unfoldable pub link_is_physical : Link → Bool
link_is_physical link = link.is_device

-- The family of an address, and the zero address of it.
abbrev pub family_of : Ip → Family
family_of ip = if is_v4 ip then Family.v4 else Family.v6

abbrev pub zero_ip : Ip → Ip
zero_ip ip = if is_v4 ip then ipv4_zero else ipv6_zero

-- A default route, 0.0.0.0/0 or ::/0: `ones, _ := route.Dst.Mask.Size(); ones == 0`
unfoldable pub is_default : NlRoute → Bool
is_default route = mask_ones route.dst.mask == 0

-- `applied = true`, then `if !c.skipPanels`: what runs on the panels after a change
abbrev pub unless_skipped : {W : Type 0} → LinuxConfigurator W → (W → W) → W → W
unless_skipped c panels w = if c.options.skip_panels then w else panels w

module _ {W : Type 0} (host : Host W) where
  -- ensureLinkUp
  unfoldable pub ensure_link_up : Link → Exec W Bool
  ensure_link_up link =
      if link.flag_up
      then pure false
      else (wrap_error bring_up_failed (host.link_set_up link) >> pure true)
