-- ===== src/Tests/Detection.antt =====
-- The detection of services and backends at concrete values.
use go_network_configurator.Prelude.{
  ◌≡◌, refl, false, ◌||◌, [], ◌∷◌, none, some, if◌then◌else◌, codes, bytes_eq,
}
use go_network_configurator.Prelude.Exec.{ok, err, external, pure, raise}
use go_network_configurator.Backend.{IfaceBackend, PanelBackend}
use go_network_configurator.InitState.{
  Probes, new_init_state, detected, dot_service, sysv_service_enabled, running, enabled, is_active,
  note_units, note_files, unit_files_of, unit_file_state, systemd_active, chkconfig_on,
  rc_symlinks_on, rc_runlevel_dirs, openrc_on, network_manager_running,
}
use go_network_configurator.InitState.Detection.{
  runs, last_type, reported_units, reported_files, detected-new_init_state,
}
use go_network_configurator.Linux.{LinuxConfigurator}
use go_network_configurator.Linux.NewConfigurator.{
  Builders, new_configurator, detect_backends, detect_panels, conclude, try_build, register,
  register_all, register_panel, if_up_down_detected,
}
use go_network_configurator.Linux.NewConfigurator.Registered.{
  IsRegistered, new_configurator-IsRegistered,
}
use go_network_configurator.Options.{new_config_options}

-- systemd runs networkd, and has a generated unit for network.
abbrev systemd : Probes (Unit {0})
systemd = record {
  exists = λ path w. bytes_eq path (codes "/run/systemd/system");
  on_path = λ name w. false;
  run = λ args w. err (external 1);
  globs = λ dir pattern w. bytes_eq dir (codes "/etc/rc3.d");
  connect = λ w. ok tt;
  list_units = λ w.
      ok (record { name = codes "systemd-networkd.service"; active_state = codes "active" } ∷ []);
  list_unit_files_by_patterns = λ patterns w. err (external 2);
  list_unit_files =
      λ w. ok (record { base = codes "network.service"; type_ = codes "generated" } ∷ []);
}

detected-new_init_state_example :
    detected systemd (new_init_state systemd tt) (codes "network") tt
    ≡ runs (dot_service (codes "network")) (reported_units systemd tt)
      || (elim (last_type (dot_service (codes "network")) (reported_files systemd tt)) [
        | none ↦ sysv_service_enabled systemd (codes "network") tt
        | some t ↦
            if bytes_eq t (codes "generated")
            then sysv_service_enabled systemd (codes "network") tt
            else bytes_eq t (codes "enabled") || bytes_eq t (codes "enabled-runtime")
      ])
detected-new_init_state_example = detected-new_init_state systemd (codes "network") tt

abbrev silent : IfaceBackend (Unit {0})
silent = record {
  name = [];
  set_iface_addresses = λ iface addrs gateway4 gateway6. pure tt;
  set_iface_routes = λ iface routes. pure tt;
  set_iface_dns = λ iface servers domains. pure tt;
  set_iface_dhcp = λ iface dhcp4 dhcp6. pure tt;
  get_interfaces = none;
  renew_dhcp = none;
}

abbrev panel : PanelBackend (Unit {0})
panel = record {
  name = [];
  reload = pure tt;
  set_main_ip = λ ip. pure tt;
  remove_ip = λ ip. pure tt;
}

abbrev builders : Builders (Unit {0})
builders = record {
  new_networkd = λ keep. pure (some silent);
  new_network_manager = λ timeout. pure none;
  new_network_scripts = λ keep. raise (external 2);
  new_if_up_down = λ keep. pure none;
  new_netplan = λ keep. pure (some silent);
  new_cloud_init = λ keep. pure (some silent);
  cpanel = panel;
  plesk = panel;
  interworx = panel;
  ctx_err = λ w. none;
}

-- cloud-init and networkd are found; netplan is not on the path.
abbrev made : LinuxConfigurator (Unit {0})
made = record {
  iface_backends =
      record silent { name = codes "cloud-init" } ∷ record silent { name = codes "Networkd" } ∷ [];
  panel_backends = [];
  options = new_config_options [];
}

made_lem : new_configurator systemd builders [] tt ≡ (ok made, tt)
unfolding new_configurator detect_backends detect_panels conclude try_build register register_all
    register_panel if_up_down_detected new_init_state detected running enabled is_active note_units
    note_files unit_files_of unit_file_state systemd_active sysv_service_enabled chkconfig_on
    rc_symlinks_on rc_runlevel_dirs openrc_on network_manager_running bytes_eq
made_lem = refl

new_configurator-IsRegistered_example : IsRegistered [] made
new_configurator-IsRegistered_example =
    new_configurator-IsRegistered systemd builders [] tt tt made made_lem
