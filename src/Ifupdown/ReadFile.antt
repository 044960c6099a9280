-- ===== src/Ifupdown/ReadFile.antt =====
-- The loop of ReadFile of ifupdown.go over the lines of a file, the files that it names, and
-- newIfUpDown.
use go_network_configurator.Prelude.{
  ℕ, zero, suc, ◌||◌, List, [], ◌∷◌, ◌++◌, if◌then◌else◌, Bytes, codes, bytes_eq, ℤ,
}
use go_network_configurator.Prelude.Exec.{Result, ok, err, bad_syntax, out_of_fuel}
use go_network_configurator.NetTexts.{Texts}
use go_network_configurator.InitState.{fields}
use go_network_configurator.Spaces.{trim_space}
use go_network_configurator.Backups.{DirEntry}
use go_network_configurator.Networkd.Read.{sort_entries}
use go_network_configurator.Linux.NewConfigurator.{if_up_down_config}
use go_network_configurator.Ifupdown.{IfInterface, IfUpDown}
use go_network_configurator.Ifupdown.Rewrite.{before_byte}
use go_network_configurator.Ifupdown.Read.{
  Parser, start_file, finish_address, read_stanza, read_address, read_netmask, read_gateway,
  read_other,
}

-- The files, as they are while they are read: the lines that a scanner gives of one, `os.ReadDir`,
-- and `strconv.Atoi` of a number that is not negative
pub record Sources : Type 0 where
  pub read_lines : Bytes → Result (List Bytes)
  pub read_dir : Bytes → Result (List DirEntry)
  pub atoi : Bytes → Result ℕ

-- Interfaces that another file has added to
abbrev pub with_interfaces : Parser → Result (List IfInterface) → Result Parser
with_interfaces p (err e) = err e
with_interfaces p (ok interfaces) = ok (record p { interfaces = interfaces })

abbrev pub or_else_stop : Result Parser → (Parser → Result Parser) → Result Parser
or_else_stop (err e) f = err e
or_else_stop (ok p) f = f p

module _ (texts : Texts) (sources : Sources) (base_config : Bytes) where
  module _ (read : Bytes → List IfInterface → Result (List IfInterface)) where
    abbrev pub next_entries :
        (List IfInterface → Result (List IfInterface))
        → Result (List IfInterface)
        → Result (List IfInterface)
    next_entries f (err e) = err e
    next_entries f (ok interfaces) = f interfaces

    -- The loop over the files of a directory; `path.Join` on one without a slash at its end
    unfoldable pub read_entries :
        Bytes → List DirEntry → List IfInterface → Result (List IfInterface)
    read_entries dir [] interfaces = ok interfaces
    read_entries dir (e ∷ entries) interfaces =
        if e.is_dir
        then read_entries dir entries interfaces
        else next_entries (read_entries dir entries) (read (dir ++ b'/' ∷ e.name) interfaces)

    unfoldable pub read_listed :
        Bytes → Result (List DirEntry) → List IfInterface → Result (List IfInterface)
    unfolding read_entries sort_entries
    read_listed dir (err e) interfaces = err e
    read_listed dir (ok entries) interfaces = read_entries dir (sort_entries entries) interfaces

    -- The cases source-directory and source
    unfoldable pub read_directory : List Bytes → Parser → Result Parser
    unfolding read_listed
    read_directory [] p = err bad_syntax
    read_directory (dir ∷ fs) p =
        with_interfaces p (read_listed dir (sources.read_dir dir) p.interfaces)

    unfoldable pub read_source : List Bytes → Parser → Result Parser
    read_source [] p = err bad_syntax
    read_source (file ∷ fs) p = with_interfaces p (read file p.interfaces)

    -- The switch over the first field
    unfoldable pub read_fields : Bytes → List Bytes → Parser → Result Parser
    unfolding read_directory read_source read_stanza read_address read_netmask read_gateway
        read_other
    read_fields file [] p = ok p
    read_fields file (key ∷ args) p =
        if bytes_eq key (codes "auto") || bytes_eq key (codes "allow-hotplug")
        then ok p
        else if bytes_eq key (codes "source-directory")
        then read_directory args p
        else if bytes_eq key (codes "source")
        then read_source args p
        else if bytes_eq key (codes "iface") || bytes_eq key (codes "interface")
        then read_stanza base_config file args p
        else if bytes_eq key (codes "address")
        then read_address texts sources.atoi args p.current p
        else if bytes_eq key (codes "netmask")
        then read_netmask texts sources.atoi args p.pending p
        else if bytes_eq key (codes "gateway")
        then read_gateway texts sources.atoi args p.current p
        else read_other texts sources.atoi key args p

    -- One line without its comment; a blank one has no fields.
    unfoldable pub read_line : Bytes → Bytes → Parser → Result Parser
    unfolding read_fields before_byte
    read_line file line p = read_fields file (fields (trim_space (before_byte b'#' line))) p

    -- The loop over the lines
    unfoldable pub read_each : Bytes → List Bytes → Parser → Result Parser
    unfolding read_line
    read_each file [] p = ok p
    read_each file (line ∷ lines) p = or_else_stop (read_line file line p) (read_each file lines)

    unfoldable pub finished : Result Parser → Result (List IfInterface)
    unfolding finish_address
    finished (err e) = err e
    finished (ok p) = ok (finish_address p).interfaces

    unfoldable pub read_opened :
        Bytes → Result (List Bytes) → List IfInterface → Result (List IfInterface)
    unfolding read_each finished
    read_opened file (err e) interfaces = err e
    read_opened file (ok lines) interfaces = finished (read_each file lines (start_file interfaces))

  -- ReadFile, where files name each other to a given depth
  unfoldable pub read_file : ℕ → Bytes → List IfInterface → Result (List IfInterface)
  unfolding read_opened
  read_file zero file interfaces = err out_of_fuel
  read_file (suc n) file interfaces =
      read_opened (read_file n) file (sources.read_lines file) interfaces

-- newIfUpDown: what is read with the constants of the package
abbrev pub to_if_up_down : Bytes → ℤ → Result (List IfInterface) → Result IfUpDown
to_if_up_down config retention (err e) = err e
to_if_up_down config retention (ok interfaces) = ok (record {
  interfaces = interfaces;
  base_config = config;
  backup_dir = config ++ codes ".backup";
  backup_retention = retention;
})

unfoldable pub new_if_up_down : Texts → Sources → ℕ → ℤ → Result IfUpDown
unfolding read_file
new_if_up_down texts sources depth retention =
    to_if_up_down if_up_down_config retention
      (read_file texts sources if_up_down_config depth if_up_down_config [])
