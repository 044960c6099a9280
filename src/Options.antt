-- ===== src/Options.antt =====
-- options.go: the settings of a configurator. A duration is in nanoseconds.
pub mod Bounds
use go_network_configurator.Prelude.{
  ℕ, Bool, true, false, not, List, [], ◌∷◌, Option, none, some, if◌then◌else◌, Bytes, codes,
  bytes_eq, ℤ, pos, is_positive,
}

abbrev pub default_internet_test_address : Bytes
default_internet_test_address = codes "http://clients3.google.com/generate_204"

abbrev pub default_connectivity_timeout : ℤ
default_connectivity_timeout = pos 10_000_000_000

abbrev pub default_ping_count : ℤ
default_ping_count = pos 5

abbrev pub default_ping_timeout : ℤ
default_ping_timeout = pos 20_000_000_000

abbrev pub default_backup_retention : ℤ
default_backup_retention = pos 5

abbrev pub default_service_ready_timeout : ℤ
default_service_ready_timeout = pos 60_000_000_000

pub record ConfigOptions : Type 0 where
  pub test_address : Bytes
  pub skip_connectivity_check : Bool
  pub connectivity_timeout : ℤ
  pub ping_count : ℤ
  pub ping_timeout : ℤ
  pub backup_retention : ℤ
  pub allow_primary_removal : Bool
  pub skip_panels : Bool
  pub allow_no_backends : Bool
  pub service_ready_timeout : ℤ

-- The function type Option
abbrev pub ConfigOption : Type 0
ConfigOption = ConfigOptions → ConfigOptions

unfoldable pub default_config_options : ConfigOptions
default_config_options = record {
  test_address = default_internet_test_address;
  skip_connectivity_check = false;
  connectivity_timeout = default_connectivity_timeout;
  ping_count = default_ping_count;
  ping_timeout = default_ping_timeout;
  backup_retention = default_backup_retention;
  allow_primary_removal = false;
  skip_panels = false;
  allow_no_backends = false;
  service_ready_timeout = default_service_ready_timeout;
}

-- The loop of newConfigOptions; `none` is a nil option.
unfoldable pub apply_options : List (Option ConfigOption) → ConfigOptions → ConfigOptions
apply_options [] o = o
apply_options (none ∷ opts) o = apply_options opts o
apply_options (some opt ∷ opts) o = apply_options opts (opt o)

unfoldable pub new_config_options : List (Option ConfigOption) → ConfigOptions
unfolding apply_options default_config_options
new_config_options opts = apply_options opts default_config_options

unfoldable pub with_test_address : Bytes → ConfigOption
with_test_address addr o = if not (bytes_eq addr []) then record o { test_address = addr } else o

unfoldable pub with_connectivity_check : Bool → ConfigOption
with_connectivity_check enabled o = record o { skip_connectivity_check = not enabled }

unfoldable pub with_skip_connectivity_check : ConfigOption
unfolding with_connectivity_check
with_skip_connectivity_check = with_connectivity_check false

unfoldable pub with_connectivity_timeout : ℤ → ConfigOption
with_connectivity_timeout d o = if is_positive d then record o { connectivity_timeout = d } else o

unfoldable pub with_ping_count : ℤ → ConfigOption
with_ping_count n o = if is_positive n then record o { ping_count = n } else o

unfoldable pub with_ping_timeout : ℤ → ConfigOption
with_ping_timeout d o = if is_positive d then record o { ping_timeout = d } else o

unfoldable pub with_backup_retention : ℤ → ConfigOption
with_backup_retention n o = record o { backup_retention = n }

unfoldable pub with_allow_primary_removal : Bool → ConfigOption
with_allow_primary_removal allowed o = record o { allow_primary_removal = allowed }

unfoldable pub with_skip_panels : Bool → ConfigOption
with_skip_panels skip o = record o { skip_panels = skip }

unfoldable pub with_allow_no_backends : Bool → ConfigOption
with_allow_no_backends allowed o = record o { allow_no_backends = allowed }

unfoldable pub with_service_ready_timeout : ℤ → ConfigOption
with_service_ready_timeout timeout o = record o { service_ready_timeout = timeout }
