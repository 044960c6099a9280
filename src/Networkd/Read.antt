-- ===== src/Networkd/Read.antt =====
-- newNetworkd and readNetworkdConfigDirectory of networkd.go.
use go_network_configurator.Prelude.{
  Bool, true, false, not, ◌||◌, List, [], ◌∷◌, ◌++◌, Option, none, some, if◌then◌else◌, Bytes,
  codes, bytes_eq, ℤ, pos,
}
use go_network_configurator.Prelude.Exec.{
  Exec, Result, ok, err, pure, raise, reads, wrap_error, bad_mac_address, key_sections_missing,
  no_configuration, ◌>>=◌, ◌>>◌,
}
use go_network_configurator.Natural.{bytes_lt}
use go_network_configurator.Iface.{stable_sort}
use go_network_configurator.InitState.{fields}
use go_network_configurator.Backups.{DirEntry, has_suffix}
use go_network_configurator.Host.{Link, Host}
use go_network_configurator.Net.{is_nil}
use go_network_configurator.NetTexts.{Texts}
use go_network_configurator.Networkd.{Key, Ini, NetworkdNetwork, Networkd, network, match_}

-- The calls of package os, and `ini.LoadSources` with the options of the code on a file and the
-- files behind it. `is_dir` says whether `os.Stat` finds a directory; a path that is there and
-- cannot be looked at, on which the code panics, counts as absent.
pub record Directory (W F : Type 0) : Type 0 where
  pub read_dir : Bytes → W → Result (List DirEntry)
  pub is_dir : Bytes → W → Bool
  pub load_sources : Bytes → List Bytes → W → Result F

-- sortableDirEntries under `sort.Sort`; no two entries of a directory share a name.
unfoldable pub sort_entries : List DirEntry → List DirEntry
unfolding stable_sort
sort_entries entries = stable_sort (λ a b. bytes_lt a.name b.name) entries

-- The names of the files of a directory that end in a suffix
unfoldable pub file_names : Bytes → List DirEntry → List Bytes
file_names suffix [] = []
file_names suffix (e ∷ entries) =
    let rest = file_names suffix entries in
    if e.is_dir || not (has_suffix e.name suffix) then rest else e.name ∷ rest

-- `mac` and `name` of the search by MAC address
pub record Found : Type 0 where
  pub mac : Bytes
  pub name : Bytes

-- The loop over the links
unfoldable pub match_links : Bytes → List Link → Found → Found
match_links parsed [] found = found
match_links parsed (link ∷ links) found = match_links parsed links (
    if bytes_eq link.hardware_addr parsed then record { mac = parsed; name = link.name } else found)

-- The text of a key, empty for a nil key
abbrev pub text_of_key : Option Key → Bytes
text_of_key none = []
text_of_key (some key) = key.value

abbrev pub joined_paths : Bytes → List Bytes → List Bytes
joined_paths d [] = []
joined_paths d (name ∷ names) = (d ++ b'/' ∷ name) ∷ joined_paths d names

module _ {W F S : Type 0} (ini : Ini F S) (texts : Texts) where
  -- The loop over the MAC addresses
  unfoldable pub match_macs : List Link → List Bytes → Found → Exec W Found
  match_macs links [] found = pure found
  match_macs links (mac_addr ∷ mac_addrs) found = do
    parsed ← wrap_error bad_mac_address (reads (λ w. texts.parse_mac mac_addr))
    match_macs links mac_addrs (
        match_links parsed links
          (if is_nil found.mac then record found { mac = parsed } else found))

  -- The interface that a file configures; `none` is the `continue` of a file for no interface.
  unfoldable pub find_interface : List Link → F → S → Exec W (Option Found)
  unfolding match_macs
  find_interface links cfg sec =
      let name = text_of_key (ini.get_key sec (codes "Name") cfg) in
      if not (bytes_eq name [])
      then pure (some (record { mac = []; name = name }))
      else let mac_addrs = fields (text_of_key (ini.get_key sec (codes "MACAddress") cfg)) in
        elim mac_addrs [
          | [] ↦ pure none
          | m ∷ ms ↦ do
            found ← match_macs links (m ∷ ms) (record { mac = []; name = [] })
            pure (some found)
        ]

  module _ (host : Host W) (dir : Directory W F) where
    -- The files in the directory of a configuration file
    unfoldable pub sub_files_of : Bytes → Exec W (List Bytes)
    unfolding sort_entries file_names
    sub_files_of config_sub_path w =
        if dir.is_dir config_sub_path w
        then (do
          entries ← reads (dir.read_dir config_sub_path)
          pure (file_names (codes ".conf") (sort_entries entries)))
            w
        else (ok [], w)

    abbrev pub add_found :
        List (NetworkdNetwork F) → F → Bytes → List Bytes → Option Found → List (NetworkdNetwork F)
    add_found networks cfg file sub_files none = networks
    add_found networks cfg file sub_files (some found) =
        networks
        ++ (record {
          config = cfg;
          name = found.name;
          mac = found.mac;
          file = file;
          sub_files = sub_files;
        }
            ∷ [])

    abbrev pub has_section : Bytes → F → Bool
    has_section name cfg = elim (ini.get_section name cfg) [ ok sec ↦ true | err e ↦ false ]

    -- One round of the loop over the files
    unfoldable pub read_file :
        Bytes → List Link → Bytes → List (NetworkdNetwork F) → Exec W (List (NetworkdNetwork F))
    unfolding sub_files_of find_interface
    read_file dir_path links file networks = do
      let config_path = dir_path ++ b'/' ∷ file
      let config_sub_path = config_path ++ codes ".d"
      sub_files ← sub_files_of config_sub_path
      cfg ← reads (dir.load_sources config_path (joined_paths config_sub_path sub_files))
      let missing = not (has_section network cfg) || not (has_section match_ cfg)
      if missing then raise key_sections_missing else do
        sec ← reads (λ w. ini.get_section match_ cfg)
        found ← find_interface links cfg sec
        pure (add_found networks cfg file sub_files found)

    unfoldable pub read_files :
        Bytes
        → List Link
        → List Bytes
        → List (NetworkdNetwork F)
        → Exec W (List (NetworkdNetwork F))
    unfolding read_file
    read_files dir_path links [] networks = pure networks
    read_files dir_path links (file ∷ files) networks = do
      networks' ← read_file dir_path links file networks
      read_files dir_path links files networks'

    abbrev pub of_networks : Bytes → List (NetworkdNetwork F) → Exec W (Networkd F)
    of_networks dir_path [] = raise no_configuration
    of_networks dir_path (n ∷ ns) =
        pure (record { networks = n ∷ ns; config_dir = dir_path; backup_retention = pos 0 })

    -- readNetworkdConfigDirectory
    unfoldable pub read_networkd_config_directory : Bytes → Exec W (Networkd F)
    unfolding read_files sort_entries file_names
    read_networkd_config_directory dir_path = do
      entries ← reads (dir.read_dir dir_path)
      reads host.new_handle
      links ← reads host.link_list
      networks ← read_files dir_path links (file_names (codes ".network") (sort_entries entries)) []
      of_networks dir_path networks

    abbrev pub or_else : Exec W (Networkd F) → Exec W (Networkd F) → Exec W (Networkd F)
    or_else m n w = let (r, w') = m w in elim r [ ok nd ↦ (ok nd, w') | err e ↦ n w' ]

    -- newNetworkd
    unfoldable pub new_networkd : ℤ → Exec W (Networkd F)
    unfolding read_networkd_config_directory
    new_networkd retention = do
      nd ← or_else (read_networkd_config_directory (codes "/etc/systemd/network")) (
          or_else (read_networkd_config_directory (codes "/run/systemd/network"))
            (read_networkd_config_directory (codes "/lib/systemd/network")))
      pure (record nd { backup_retention = retention })
