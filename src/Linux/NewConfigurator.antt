-- ===== src/Linux/NewConfigurator.antt =====
-- NewConfigurator of configurator_linux.go: which backends are detected and registered.
pub mod Registered
use go_network_configurator.Prelude.{
  ℤ, Bool, true, false, not, ◌&&◌, ◌||◌, List, [], ◌∷◌, ◌++◌, Option, none, some, if◌then◌else◌,
  Bytes, codes,
}
use go_network_configurator.Prelude.Exec.{
  Exec, Result, ok, err, Error, detection_incomplete, no_backend, pure, raise, ◌>>=◌,
}
use go_network_configurator.Options.{ConfigOptions, ConfigOption, new_config_options}
use go_network_configurator.Backend.{IfaceBackend, PanelBackend}
use go_network_configurator.InitState.{
  Probes, InitState, new_init_state, detected, network_manager_running, init_system_discoverable,
}
use go_network_configurator.Linux.{LinuxConfigurator}

-- The constructors of the backends: nil, or an error that goes to the log, is `none`. `ctx_err` is
-- the error of a context that has ended.
pub record Builders (W : Type 0) : Type 0 where
  pub new_networkd : ℤ → Exec W (Option (IfaceBackend W))
  pub new_network_manager : ℤ → Exec W (Option (IfaceBackend W))
  pub new_network_scripts : ℤ → Exec W (Option (IfaceBackend W))
  pub new_if_up_down : ℤ → Exec W (Option (IfaceBackend W))
  pub new_netplan : ℤ → Exec W (Option (IfaceBackend W))
  pub new_cloud_init : ℤ → Exec W (Option (IfaceBackend W))
  pub cpanel : PanelBackend W
  pub plesk : PanelBackend W
  pub interworx : PanelBackend W
  pub ctx_err : W → Option Error

abbrev pub netplan_name : Bytes
netplan_name = codes "Netplan"

abbrev pub cloud_init_name : Bytes
cloud_init_name = codes "cloud-init"

abbrev pub network_manager_name : Bytes
network_manager_name = codes "NetworkManager"

abbrev pub networkd_name : Bytes
networkd_name = codes "Networkd"

abbrev pub network_scripts_name : Bytes
network_scripts_name = codes "NetworkScripts"

abbrev pub if_up_down_name : Bytes
if_up_down_name = codes "IfUpDown"

-- cpanelBin, pleskBin and nodeworxBin
abbrev pub cpanel_bin : Bytes
cpanel_bin = codes "/usr/local/cpanel/bin/whmapi1"

abbrev pub plesk_bin : Bytes
plesk_bin = codes "/usr/sbin/plesk"

abbrev pub nodeworx_bin : Bytes
nodeworx_bin = codes "/usr/bin/nodeworx"

-- ifUpDownConfig
abbrev pub if_up_down_config : Bytes
if_up_down_config = codes "/etc/network/interfaces"

abbrev pub built : {W : Type 0} → Result (Option (IfaceBackend W)) → Option (IfaceBackend W)
built (ok b) = b
built (err e) = none

module _ {W : Type 0} where
  -- A backend that is detected is built; its error is logged only.
  unfoldable pub try_build :
      Bool → Exec W (Option (IfaceBackend W)) → W → Option (IfaceBackend W) × W
  try_build found m w = if found then (let (r, w') = m w in (built r, w')) else (none, w)

  -- `if np != nil { c.ifaceBackends = append(…) }`
  unfoldable pub register :
      Bytes → Option (IfaceBackend W) → List (IfaceBackend W) → List (IfaceBackend W)
  register name none backends = backends
  register name (some b) backends = backends ++ record b { name = name } ∷ []

  -- Register the detected file backends in a stable apply order.
  unfoldable pub register_all :
      (np ci nm nd ns iud : Option (IfaceBackend W)) → List (IfaceBackend W)
  unfolding register
  register_all np ci nm nd ns iud = register if_up_down_name iud (
      register network_scripts_name ns (
        register networkd_name nd (
          register network_manager_name nm
            (register cloud_init_name ci (register netplan_name np [])))))

  unfoldable pub register_panel :
      Bool → Bytes → PanelBackend W → List (PanelBackend W) → List (PanelBackend W)
  register_panel found name panel panels =
      if found then panels ++ record panel { name = name } ∷ [] else panels

  abbrev pub is_empty : List (IfaceBackend W) → Bool
  is_empty [] = true
  is_empty (b ∷ backends) = false

module _ {W : Type 0} (probes : Probes W) (builders : Builders W) where
  -- ifUpDownDetected
  unfoldable pub if_up_down_detected : InitState → W → Bool
  unfolding detected init_system_discoverable
  if_up_down_detected s w =
      if not (probes.exists if_up_down_config w)
      then false
      else detected probes s (codes "networking") w || not (init_system_discoverable probes w)

  -- Detect each backend, and register those that are detected.
  unfoldable pub detect_backends : ConfigOptions → W → List (IfaceBackend W) × W
  unfolding try_build register_all new_init_state network_manager_running
  detect_backends options w =
      let s = new_init_state probes w in
      let keep = options.backup_retention in
      let (nd, w1) =
        try_build (detected probes s (codes "systemd-networkd") w) (builders.new_networkd keep) w in
      let (nm, w2) =
        try_build
          (detected probes s (codes "NetworkManager") w1 || network_manager_running probes w1)
          (builders.new_network_manager options.service_ready_timeout) w1 in
      let (ns, w3) =
        try_build (detected probes s (codes "network") w2) (builders.new_network_scripts keep) w2 in
      let (iud, w4) = try_build (if_up_down_detected s w3) (builders.new_if_up_down keep) w3 in
      let (np, w5) =
        try_build (probes.on_path (codes "netplan") w4) (builders.new_netplan keep) w4 in
      let (ci, w6) = try_build true (builders.new_cloud_init keep) w5 in
      (register_all np ci nm nd ns iud, w6)

  -- Register the detected control panels.
  unfoldable pub detect_panels : W → List (PanelBackend W)
  unfolding register_panel
  detect_panels w =
      register_panel (probes.exists nodeworx_bin w) (codes "Interworx") builders.interworx (
        register_panel (probes.exists plesk_bin w) (codes "Plesk") builders.plesk
          (register_panel (probes.exists cpanel_bin w) (codes "cPanel") builders.cpanel []))

  -- A host with no file backend, unless the options allow that, is an error.
  unfoldable pub conclude : LinuxConfigurator W → Exec W (LinuxConfigurator W)
  conclude c w =
      if is_empty c.iface_backends
      then (elim (builders.ctx_err w) [
        | some cerr ↦ (err (detection_incomplete cerr), w)
        | none ↦ if not c.options.allow_no_backends then (err no_backend, w) else (ok c, w)
      ])
      else (ok c, w)

  -- NewConfigurator
  unfoldable pub new_configurator : List (Option ConfigOption) → Exec W (LinuxConfigurator W)
  unfolding detect_backends detect_panels conclude
  new_configurator opts w =
      let options = new_config_options opts in
      let (backends, w') = detect_backends options w in
      conclude
        (record { iface_backends = backends; panel_backends = detect_panels w'; options = options })
        w'
