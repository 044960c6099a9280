-- ===== src/InitState/Detection.antt =====
-- What the snapshot of newInitState makes of a later question about a service.
use go_network_configurator.Prelude.{
  ◌≡◌, refl, Bool, ◌&&◌, ◌||◌, List, [], ◌∷◌, Option, none, some, if◌then◌else◌, Bytes, codes,
  bytes_eq, any, arith,
}
use go_network_configurator.Prelude.Exec.{ok, err}
use go_network_configurator.InitState.{
  UnitStatus, UnitFile, Probes, systemd_active, sysv_service_enabled, InitState, empty_state,
  dot_service, note_units, note_files, units_of, unit_files_of, new_init_state, is_active,
  unit_file_state, running, enabled, detected,
}

-- systemd runs the unit now.
abbrev pub runs : Bytes → List UnitStatus → Bool
runs name units = any (λ u. bytes_eq u.active_state (codes "active") && bytes_eq u.name name) units

-- The state of the last unit file of a name
pub last_type : Bytes → List UnitFile → Option Bytes
last_type name [] = none
last_type name (f ∷ files) = elim (last_type name files) [
  | none ↦ if bytes_eq f.base name then some f.type_ else none
  | some t ↦ some t
]

is_active-note_units :
    (name : Bytes) (units : List UnitStatus) (s : InitState)
    → is_active name (note_units units s).active ≡ is_active name s.active || runs name units
unfolding note_units is_active
is_active-note_units name [] s = ground arith
is_active-note_units name (u ∷ units) s = ground (
  arith,
  is_active-note_units name units s,
  is_active-note_units name units (record s { active = u.name ∷ s.active }),
)

unit_files-note_units :
    (units : List UnitStatus) (s : InitState) → (note_units units s).unit_files ≡ s.unit_files
unfolding note_units
unit_files-note_units [] s = refl
unit_files-note_units (u ∷ units) s = ground (
  arith,
  unit_files-note_units units s,
  unit_files-note_units units (record s { active = u.name ∷ s.active }),
)

active-note_files : (files : List UnitFile) (s : InitState) → (note_files files s).active ≡ s.active
unfolding note_files
active-note_files [] s = refl
active-note_files (f ∷ files) s =
    active-note_files files (record s { unit_files = (f.base, f.type_) ∷ s.unit_files })

unit_file_state-note_files :
    (name : Bytes) (files : List UnitFile) (s : InitState)
    → unit_file_state name (note_files files s).unit_files
      ≡ (elim (last_type name files) [ none ↦ unit_file_state name s.unit_files | some t ↦ some t ])
unfolding note_files unit_file_state last_type
unit_file_state-note_files name [] s = refl
unit_file_state-note_files name (f ∷ files) s = ground (
  arith,
  unit_file_state-note_files name files
      (record s { unit_files = (f.base, f.type_) ∷ s.unit_files }),
)

module _ {W : Type 0} (probes : Probes W) where
  -- The units and unit files that systemd reports: none where it cannot be asked.
  abbrev pub reported_units : W → List UnitStatus
  reported_units w =
      if systemd_active probes w
      then elim (probes.connect w) [ err e ↦ [] | ok u ↦ units_of (probes.list_units w) ]
      else []

  abbrev pub reported_files : W → List UnitFile
  reported_files w =
      if systemd_active probes w
      then elim (probes.connect w) [
        | err e ↦ []
        | ok u ↦ elim (unit_files_of probes w) [ err e ↦ [] | ok files ↦ files ]
      ]
      else []

  snapshot_lem :
      (name : Bytes) (w : W)
      → (is_active name (new_init_state probes w).active ≡ runs name (reported_units w))
        × (unit_file_state name (new_init_state probes w).unit_files
            ≡ last_type name (reported_files w))
  unfolding new_init_state is_active unit_file_state last_type
  snapshot_lem name w =
      let units = units_of (probes.list_units w) in
      let s = note_units units empty_state in
      let files : List UnitFile = elim (unit_files_of probes w) [ err e ↦ [] | ok files ↦ files ] in
      ground (
        arith,
        is_active-note_units name units empty_state,
        unit_files-note_units units empty_state,
        active-note_files files s,
        unit_file_state-note_files name files s,
      )

  -- On the snapshot that newInitState takes, a service counts as detected exactly if a unit that
  -- systemd reports runs it; or the last unit file of its name is enabled, for good or for this
  -- boot; or there is no such file, or it is a generated one, and a SysV mechanism starts it. A
  -- systemd that does not run or does not answer reports nothing.
  pub detected-new_init_state :
      (name : Bytes) (w : W)
      → detected probes (new_init_state probes w) name w
        ≡ runs (dot_service name) (reported_units w)
          || (elim (last_type (dot_service name) (reported_files w)) [
            | none ↦ sysv_service_enabled probes name w
            | some t ↦
                if bytes_eq t (codes "generated")
                then sysv_service_enabled probes name w
                else bytes_eq t (codes "enabled") || bytes_eq t (codes "enabled-runtime")
          ])
  unfolding detected running enabled
  detected-new_init_state name w =
      let (on_, file) = snapshot_lem (dot_service name) w in ground (arith, on_, file)
