-- ===== src/InitState.antt =====
-- services_linux.go: how a service is found to manage the network, by systemd or by the SysV
-- mechanisms. `W` is the state of the machine; nothing here changes it.
pub mod Chkconfig
pub mod Detection
use go_network_configurator.Prelude.{
  ℕ, Bool, true, false, not, ◌&&◌, ◌||◌, List, [], ◌∷◌, ◌++◌, Option, none, some, ◌==◌, leb,
  if◌then◌else◌, Bytes, codes, bytes_eq, any, map,
}
use go_network_configurator.Prelude.Exec.{Result, ok, err}

-- `dbus.UnitStatus` and `dbus.UnitFile`, as far as they are read; `base` is the base of the path.
pub record UnitStatus : Type 0 where
  pub name : Bytes
  pub active_state : Bytes

pub record UnitFile : Type 0 where
  pub base : Bytes
  pub type_ : Bytes

-- What the detection asks of the machine: packages os, os/exec, path/filepath and go-systemd.
pub record Probes (W : Type 0) : Type 0 where
  -- `os.Stat` and `os.Lstat` succeed
  pub exists : Bytes → W → Bool
  -- `exec.LookPath` succeeds
  pub on_path : Bytes → W → Bool
  -- the output of a command
  pub run : List Bytes → W → Result (List Bytes)
  -- `filepath.Glob` finds something in a directory
  pub globs : Bytes → Bytes → W → Bool
  -- a connection to systemd
  pub connect : W → Result (Unit {0})
  pub list_units : W → Result (List UnitStatus)
  pub list_unit_files_by_patterns : List Bytes → W → Result (List UnitFile)
  pub list_unit_files : W → Result (List UnitFile)

-- `unicode.IsSpace` on ASCII
abbrev pub is_space : ℕ → Bool
is_space c = (leb 9 c && leb c 13) || c == 32

abbrev pub push_field : Bytes → List Bytes → List Bytes
push_field [] fs = fs
push_field (c ∷ field) fs = (c ∷ field) ∷ fs

-- `strings.Fields`, with the field that is being read
unfoldable pub fields_from : Bytes → Bytes → List Bytes
fields_from [] field = push_field field []
fields_from (c ∷ s) field =
    if is_space c then push_field field (fields_from s []) else fields_from s (field ++ c ∷ [])

unfoldable pub fields : Bytes → List Bytes
unfolding fields_from
fields s = fields_from s []

-- `strings.Cut` at a colon: what follows it, if there is one
unfoldable pub after_colon : Bytes → Option Bytes
after_colon [] = none
after_colon (c ∷ s) = let rest = after_colon s in if c == b':' then some s else rest

-- A field of chkconfig that says on
abbrev pub says_on : Bytes → Bool
says_on f = elim (after_colon f) [ none ↦ false | some status ↦ bytes_eq status (codes "on") ]

-- One line of chkconfig's output
unfoldable pub line_on : Bytes → List Bytes → Bool
unfolding after_colon
line_on name [] = false
line_on name (f ∷ fs) = bytes_eq f name && any says_on fs

abbrev pub rc_runlevels : List Bytes
rc_runlevels = codes "2" ∷ codes "3" ∷ codes "4" ∷ codes "5" ∷ []

-- rcRunlevelDirs, at the root
unfoldable pub rc_runlevel_dirs : List Bytes → List Bytes
rc_runlevel_dirs [] = []
rc_runlevel_dirs (rl ∷ rls) =
    (codes "/etc/rc" ++ rl ++ codes ".d")
    ∷ (codes "/etc/rc.d/rc" ++ rl ++ codes ".d")
    ∷ rc_runlevel_dirs rls

module _ {W : Type 0} (probes : Probes W) where
  -- systemdActive
  unfoldable pub systemd_active : W → Bool
  systemd_active w = probes.exists (codes "/run/systemd/system") w

  -- chkconfigOn
  unfoldable pub chkconfig_on : Bytes → W → Bool
  unfolding line_on fields
  chkconfig_on name w =
      if not (probes.on_path (codes "chkconfig") w)
      then false
      else elim (probes.run (codes "chkconfig" ∷ codes "--list" ∷ name ∷ []) w) [
        | err e ↦ false
        | ok results ↦ any (λ line. line_on name (fields line)) results
      ]

  -- rcSymlinksOn
  unfoldable pub rc_symlinks_on : Bytes → W → Bool
  unfolding rc_runlevel_dirs
  rc_symlinks_on name w =
      any (λ dir. probes.globs dir (codes "S*" ++ name) w) (rc_runlevel_dirs rc_runlevels)

  -- openrcOn
  unfoldable pub openrc_on : Bytes → W → Bool
  openrc_on name w =
      any (λ rl. probes.exists (codes "/etc/runlevels/" ++ rl ++ codes "/" ++ name) w)
        (codes "default" ∷ codes "boot" ∷ [])

  -- sysvServiceEnabled
  unfoldable pub sysv_service_enabled : Bytes → W → Bool
  unfolding chkconfig_on rc_symlinks_on openrc_on
  sysv_service_enabled name w = chkconfig_on name w || rc_symlinks_on name w || openrc_on name w

  -- initSystemDiscoverable
  unfoldable pub init_system_discoverable : W → Bool
  unfolding systemd_active rc_runlevel_dirs
  init_system_discoverable w =
      if systemd_active w || probes.on_path (codes "chkconfig") w
      then true
      else if any (λ dir. probes.exists dir w) (rc_runlevel_dirs rc_runlevels)
      then true
      else probes.exists (codes "/etc/runlevels") w

-- initState. A write to a map goes in front, where a lookup finds it first.
pub record InitState : Type 0 where
  pub active : List Bytes
  pub unit_files : List (Bytes × Bytes)

abbrev pub empty_state : InitState
empty_state = record { active = []; unit_files = [] }

abbrev pub dot_service : Bytes → Bytes
dot_service name = name ++ codes ".service"

abbrev pub network_service_units : List Bytes
network_service_units =
    codes "systemd-networkd" ∷ codes "NetworkManager" ∷ codes "network" ∷ codes "networking" ∷ []

-- The loops over the units and over the unit files
unfoldable pub note_units : List UnitStatus → InitState → InitState
note_units [] s = s
note_units (unit ∷ units) s = note_units units (
    if bytes_eq unit.active_state (codes "active")
    then record s { active = unit.name ∷ s.active }
    else s)

unfoldable pub note_files : List UnitFile → InitState → InitState
note_files [] s = s
note_files (uf ∷ files) s =
    note_files files (record s { unit_files = (uf.base, uf.type_) ∷ s.unit_files })

-- A list of an error is empty.
abbrev pub units_of : Result (List UnitStatus) → List UnitStatus
units_of (ok units) = units
units_of (err e) = []

module _ {W : Type 0} (probes : Probes W) where
  -- The unit files by pattern, or all of them for an older systemd
  unfoldable pub unit_files_of : W → Result (List UnitFile)
  unit_files_of w =
      elim (probes.list_unit_files_by_patterns (map dot_service network_service_units) w) [
        | ok files ↦ ok files
        | err e ↦ probes.list_unit_files w
      ]

  -- newInitState
  unfoldable pub new_init_state : W → InitState
  unfolding systemd_active note_units note_files unit_files_of
  new_init_state w =
      if not (systemd_active probes w) then empty_state else elim (probes.connect w) [
        | err e ↦ empty_state
        | ok u ↦
            let s = note_units (units_of (probes.list_units w)) empty_state in
            elim (unit_files_of w) [ err e ↦ s | ok files ↦ note_files files s ]
      ]

-- `s.active[name]` and `s.unitFiles[name]`
unfoldable pub is_active : Bytes → List Bytes → Bool
is_active name active = any (λ n. bytes_eq n name) active

unfoldable pub unit_file_state : Bytes → List (Bytes × Bytes) → Option Bytes
unit_file_state name [] = none
unit_file_state name (f ∷ files) =
    let rest = unit_file_state name files in if bytes_eq f.0 name then some f.1 else rest

-- running
unfoldable pub running : InitState → Bytes → Bool
unfolding is_active
running s name = is_active (dot_service name) s.active

module _ {W : Type 0} (probes : Probes W) where
  -- enabled
  unfoldable pub enabled : InitState → Bytes → W → Bool
  unfolding unit_file_state sysv_service_enabled
  enabled s name w = elim (unit_file_state (dot_service name) s.unit_files) [
    | none ↦ sysv_service_enabled probes name w
    | some state ↦
        if not (bytes_eq state (codes "generated"))
        then bytes_eq state (codes "enabled") || bytes_eq state (codes "enabled-runtime")
        else sysv_service_enabled probes name w
  ]

  -- detected
  unfoldable pub detected : InitState → Bytes → W → Bool
  unfolding running enabled
  detected s name w = running s name || enabled s name w

  -- networkManagerRunning
  unfoldable pub network_manager_running : W → Bool
  network_manager_running w =
      any (λ pid_file. probes.exists pid_file w)
        (codes "/var/run/NetworkManager/NetworkManager.pid"
          ∷ codes "/run/NetworkManager/NetworkManager.pid"
          ∷ [])
