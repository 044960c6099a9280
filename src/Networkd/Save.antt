-- ===== src/Networkd/Save.antt =====
-- Save of networkd.go: one merged file takes the place of the old one, which is kept.
use go_network_configurator.Prelude.{List, [], ◌∷◌, ◌++◌, Bytes, codes, ℤ}
use go_network_configurator.Prelude.Exec.{Exec, Result, ok, err, pure, ◌>>=◌, ◌>>◌}
use go_network_configurator.Files.{Os, file_move}
use go_network_configurator.Backups.{Files, prune_backups, suffix_backup_matcher}
use go_network_configurator.Networkd.{NetworkdNetwork}

-- The calls that Save takes: the text of `time.Now().UnixNano()`, a file opened and filled by
-- `Config.WriteTo`, and those of package os.
pub record Disk (W F : Type 0) : Type 0 where
  pub unix_nano : Exec W Bytes
  pub write_config : Bytes → F → Exec W (Unit {0})
  pub os : Os W
  pub files : Files W

module _ {W F : Type 0} (disk : Disk W F) (config_dir : Bytes) where
  -- `path.Join(configDir, name)`, of a directory without a slash at its end
  abbrev pub in_dir : Bytes → Bytes
  in_dir name = config_dir ++ b'/' ∷ name

  -- The loop over the sub files
  unfoldable pub back_up : Bytes → List Bytes → Exec W (Unit {0})
  back_up suffix [] = pure tt
  back_up suffix (file ∷ files) = do
    file_move disk.os (in_dir file) (in_dir (file ++ suffix))
    back_up suffix files

  -- The loop over `bases`
  unfoldable pub prune_all : ℤ → List Bytes → W → W
  prune_all retention [] w = w
  prune_all retention (base ∷ bases) w =
      prune_all retention bases
        (prune_backups disk.files config_dir (suffix_backup_matcher base) retention w)

  -- The old files become backups, and the new one moves in their place.
  unfoldable pub swap_files : List Bytes → Bytes → Bytes → Bytes → Exec W (Unit {0})
  unfolding back_up
  swap_files sub_files file tmp_path suffix = do
    back_up suffix sub_files
    file_move disk.os (in_dir file) (in_dir (file ++ suffix))
    file_move disk.os tmp_path (in_dir file)

  -- The files that Save writes and moves
  unfoldable pub replace_files : NetworkdNetwork F → Exec W (Unit {0})
  unfolding swap_files
  replace_files n = do
    tmp ← disk.unix_nano
    disk.write_config (in_dir (n.file ++ (codes ".tmp." ++ tmp))) n.config
    now ← disk.unix_nano
    swap_files n.sub_files n.file (in_dir (n.file ++ (codes ".tmp." ++ tmp))) (codes ".bak." ++ now)

  -- The end of Save: the network has one merged file only now.
  unfoldable pub finish_save :
      ℤ → NetworkdNetwork F → Result (Unit {0}) → W → Result (Unit {0}) × (NetworkdNetwork F × W)
  unfolding prune_all
  finish_save retention n (err e) w = (err e, (n, w))
  finish_save retention n (ok u) w =
      (ok tt, (record n { sub_files = [] }, prune_all retention (n.sub_files ++ n.file ∷ []) w))

  -- Save
  unfoldable pub save : ℤ → Exec (NetworkdNetwork F × W) (Unit {0})
  unfolding replace_files finish_save
  save retention (n, w) = let (r, w') = replace_files n w in finish_save retention n r w'
