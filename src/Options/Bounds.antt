-- ===== src/Options/Bounds.antt =====
-- Whatever options a caller passes, the settings that bound a probe stay usable.
use go_network_configurator.Prelude.{
  ◌≡◌, ◌≢◌, Bool, true, List, [], ◌∷◌, Option, none, some, Bytes, ℤ, is_positive, arith,
  bytes_eq_iff,
}
use go_network_configurator.Options.{
  ConfigOptions, ConfigOption, default_config_options, apply_options, new_config_options,
  with_test_address, with_connectivity_check, with_skip_connectivity_check,
  with_connectivity_timeout, with_ping_count, with_ping_timeout, with_backup_retention,
  with_allow_primary_removal, with_skip_panels, with_allow_no_backends, with_service_ready_timeout,
}

-- The options that the package offers.
pub data Offered : ConfigOption → Type 0 where
  test_address : (addr : Bytes) → Offered (with_test_address addr)
  connectivity_check : (enabled : Bool) → Offered (with_connectivity_check enabled)
  skip_connectivity_check : Offered with_skip_connectivity_check
  connectivity_timeout : (d : ℤ) → Offered (with_connectivity_timeout d)
  ping_count : (n : ℤ) → Offered (with_ping_count n)
  ping_timeout : (d : ℤ) → Offered (with_ping_timeout d)
  backup_retention : (n : ℤ) → Offered (with_backup_retention n)
  allow_primary_removal : (allowed : Bool) → Offered (with_allow_primary_removal allowed)
  skip_panels : (skip : Bool) → Offered (with_skip_panels skip)
  allow_no_backends : (allowed : Bool) → Offered (with_allow_no_backends allowed)
  service_ready_timeout : (d : ℤ) → Offered (with_service_ready_timeout d)

-- Every option of a list is offered by the package, or nil.
abbrev pub AllOffered : List (Option ConfigOption) → Type 0
AllOffered [] = Unit
AllOffered (none ∷ opts) = AllOffered opts
AllOffered (some opt ∷ opts) = Offered opt × AllOffered opts

pub record IsUsable (o : ConfigOptions) : Type 0 where
  pub test_address : o.test_address ≢ []
  pub connectivity_timeout : is_positive o.connectivity_timeout ≡ true
  pub ping_count : is_positive o.ping_count ≡ true
  pub ping_timeout : is_positive o.ping_timeout ≡ true

Offered-IsUsable :
    {f : ConfigOption} → Offered f → (o : ConfigOptions) → IsUsable o → IsUsable (f o)
unfolding with_test_address with_connectivity_check with_skip_connectivity_check
    with_connectivity_timeout with_ping_count with_ping_timeout with_backup_retention
    with_allow_primary_removal with_skip_panels with_allow_no_backends with_service_ready_timeout
Offered-IsUsable (test_address addr) o u = ground (arith, bytes_eq_iff addr [])
Offered-IsUsable (connectivity_check enabled) o u = ground arith
Offered-IsUsable skip_connectivity_check o u = ground arith
Offered-IsUsable (connectivity_timeout d) o u = ground arith
Offered-IsUsable (ping_count n) o u = ground arith
Offered-IsUsable (ping_timeout d) o u = ground arith
Offered-IsUsable (backup_retention n) o u = ground arith
Offered-IsUsable (allow_primary_removal allowed) o u = ground arith
Offered-IsUsable (skip_panels skip) o u = ground arith
Offered-IsUsable (allow_no_backends allowed) o u = ground arith
Offered-IsUsable (service_ready_timeout d) o u = ground arith

apply_options-IsUsable :
    (opts : List (Option ConfigOption)) (o : ConfigOptions)
    → AllOffered opts
    → IsUsable o
    → IsUsable (apply_options opts o)
unfolding apply_options
apply_options-IsUsable [] o a u = u
apply_options-IsUsable (none ∷ opts) o a u = apply_options-IsUsable opts o a u
apply_options-IsUsable (some opt ∷ opts) o a u =
    apply_options-IsUsable opts (opt o) a.1 (Offered-IsUsable a.0 o u)

-- Whatever options of the package a caller passes, and nil ones among them, the test address is
-- not empty, and the ping count and the timeouts of the probes are positive.
pub new_config_options-IsUsable :
    (opts : List (Option ConfigOption)) → AllOffered opts → IsUsable (new_config_options opts)
unfolding new_config_options
new_config_options-IsUsable opts a =
    apply_options-IsUsable opts default_config_options a (ground arith)
