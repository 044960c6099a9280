-- ===== src/Linux/NewConfigurator/Registered.antt =====
-- What a configurator that NewConfigurator returns holds.
use go_network_configurator.Prelude.{
  ◌≡◌, refl, ap, Bool, true, false, not, ◌||◌, List, [], ◌∷◌, ◌++◌, map, Option, none, some,
  if◌then◌else◌, Bytes,
}
use go_network_configurator.Prelude.Exec.{Result, ok, err, Error, detection_incomplete, no_backend}
use go_network_configurator.Options.{ConfigOption, new_config_options}
use go_network_configurator.Backend.{IfaceBackend}
use go_network_configurator.InitState.{Probes}
use go_network_configurator.Linux.{LinuxConfigurator}
use go_network_configurator.Linux.NewConfigurator.{
  Builders, netplan_name, cloud_init_name, network_manager_name, networkd_name,
  network_scripts_name, if_up_down_name, register, register_all, is_empty, conclude,
  detect_backends, new_configurator,
}

-- A list is another one with some elements left out.
pub data IsPartOf {A : Type 0} : List A → List A → Type 0 where
  nothing : IsPartOf [] []
  left_out : {x : A} {xs ys : List A} → IsPartOf xs ys → IsPartOf xs (x ∷ ys)
  taken : {x : A} {xs ys : List A} → IsPartOf xs ys → IsPartOf (x ∷ xs) (x ∷ ys)

abbrev pub backend_names : List Bytes
backend_names =
    netplan_name ∷ cloud_init_name ∷ network_manager_name ∷ networkd_name ∷ network_scripts_name
    ∷ if_up_down_name ∷ []

module _ {A : Type 0} where
  IsPartOf-append :
      {xs ys us vs : List A} → IsPartOf xs ys → IsPartOf us vs → IsPartOf (xs ++ us) (ys ++ vs)
  IsPartOf-append nothing q = q
  IsPartOf-append (left_out p) q = left_out (IsPartOf-append p q)
  IsPartOf-append (taken p) q = taken (IsPartOf-append p q)

  append_nothing : {xs ys us : List A} → IsPartOf xs ys → IsPartOf [] us → IsPartOf xs (ys ++ us)
  append_nothing nothing q = q
  append_nothing (left_out p) q = left_out (append_nothing p q)
  append_nothing (taken p) q = taken (append_nothing p q)

module _ {W : Type 0} where
  abbrev names : List (IfaceBackend W) → List Bytes
  names = map (λ b. b.name)

  names-append :
      (xs : List (IfaceBackend W)) (b : IfaceBackend W)
      → names (xs ++ b ∷ []) ≡ names xs ++ b.name ∷ []
  names-append [] b = refl
  names-append (x ∷ xs) b = ap (λ l. x.name ∷ l) (names-append xs b)

  register-IsPartOf :
      (name : Bytes) (b : Option (IfaceBackend W)) (backends : List (IfaceBackend W))
      {ns : List Bytes}
      → IsPartOf (names backends) ns
      → IsPartOf (names (register name b backends)) (ns ++ name ∷ [])
  unfolding register
  register-IsPartOf name none backends p = append_nothing p (left_out nothing)
  register-IsPartOf name (some b) backends p =
      rw (names-append backends (record b { name = name })) (IsPartOf-append p (taken nothing))

  register_all-IsPartOf :
      (np ci nm nd ns iud : Option (IfaceBackend W))
      → IsPartOf (names (register_all np ci nm nd ns iud)) backend_names
  unfolding register_all
  register_all-IsPartOf np ci nm nd ns iud =
      let l1 = register netplan_name np [] in
      let l2 = register cloud_init_name ci l1 in
      let l3 = register network_manager_name nm l2 in
      let l4 = register networkd_name nd l3 in
      let l5 = register network_scripts_name ns l4 in
      let p1 = register-IsPartOf netplan_name np [] nothing in
      let p2 = register-IsPartOf cloud_init_name ci l1 p1 in
      let p3 = register-IsPartOf network_manager_name nm l2 p2 in
      let p4 = register-IsPartOf networkd_name nd l3 p3 in
      let p5 = register-IsPartOf network_scripts_name ns l4 p4 in
      register-IsPartOf if_up_down_name iud l5 p5

-- What NewConfigurator promises of its configurator: the names of its backends are among the six
-- and in their order, each at most once; its options are those that were given; and it has a
-- backend, unless the options allow that it has none.
pub record IsRegistered {W : Type 0} (opts : List (Option ConfigOption)) (c : LinuxConfigurator W)
    : Type 0 where
  pub order : IsPartOf (map (λ b. b.name) c.iface_backends) backend_names
  pub options : c.options ≡ new_config_options opts
  pub some_backend : not (is_empty c.iface_backends) || c.options.allow_no_backends ≡ true

module _ {W : Type 0} (probes : Probes W) (builders : Builders W) where
  conclude-cases :
      (empty allowed : Bool) (o : Option Error) (made : LinuxConfigurator W) (w : W)
      {c : LinuxConfigurator W} {w' : W}
      → ◌≡◌ {A = Result (LinuxConfigurator W) × W}
          (if empty
            then (elim o [
              | some cerr ↦ (err (detection_incomplete cerr), w)
              | none ↦ if not allowed then (err no_backend, w) else (ok made, w)
            ])
            else (ok made, w))
          (ok c, w')
      → (c ≡ made) × (not empty || allowed ≡ true)
  conclude-cases false allowed o made w h = (cc, refl)
  conclude-cases true allowed (some e) made w h = cc
  conclude-cases true false none made w h = cc
  conclude-cases true true none made w h = (cc, refl)

  conclude-ok :
      (made : LinuxConfigurator W) (w : W) {c : LinuxConfigurator W} {w' : W}
      → conclude probes builders made w ≡ (ok c, w')
      → (c ≡ made) × (not (is_empty made.iface_backends) || made.options.allow_no_backends ≡ true)
  unfolding conclude
  conclude-ok made w h =
      conclude-cases (is_empty made.iface_backends) made.options.allow_no_backends
        (builders.ctx_err w) made w h

  -- Where NewConfigurator succeeds, its configurator has the options that were given, backends
  -- with names among the six, in their order and each at most once, and at least one of them
  -- unless the options allow none.
  pub new_configurator-IsRegistered :
      (opts : List (Option ConfigOption)) (w w' : W) (c : LinuxConfigurator W)
      → new_configurator probes builders opts w ≡ (ok c, w')
      → IsRegistered opts c
  unfolding new_configurator detect_backends
  new_configurator-IsRegistered opts w w' c h =
      let (e, has) = conclude-ok _ _ h in
      rw e (record { order = search register_all-IsPartOf; options = refl; some_backend = has })
