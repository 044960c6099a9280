-- ===== src/Ifupdown/Save.antt =====
-- Save of ifupdown.go: every file of the interface is written anew, and the old one is kept.
use go_network_configurator.Prelude.{
  Bool, true, false, List, [], ◌∷◌, ◌++◌, ◌==◌, Bytes, codes, ℤ, if◌then◌else◌,
}
use go_network_configurator.Prelude.Exec.{Exec, Result, ok, err, pure, reads, finish, ◌>>=◌, ◌>>◌}
use go_network_configurator.Files.{Os, file_move}
use go_network_configurator.Backups.{Files, prune_backups, prefix_backup_matcher}
use go_network_configurator.NetTexts.{Texts}
use go_network_configurator.Ifupdown.{IfInterface}
use go_network_configurator.Ifupdown.Rewrite.{rewritten}
use go_network_configurator.Ifupdown.Write.{write_lines}

-- The calls that Save takes: the text of `time.Now().UnixNano()`, the test with `os.Stat` and
-- `os.IsNotExist`, a file opened for writing, the lines of a file as a scanner gives them, and
-- printing lines to an open file, whose error is not looked at.
pub record Disk (W : Type 0) : Type 0 where
  pub unix_nano : Exec W Bytes
  pub is_missing : Bytes → W → Bool
  pub mkdir : Bytes → Exec W (Unit {0})
  pub open_for_writing : Bytes → Exec W (Unit {0})
  pub read_lines : Bytes → W → Result (List Bytes)
  pub print_lines : Bytes → List Bytes → W → W
  pub os : Os W
  pub files : Files W

-- `path.Base` of a path that does not end in a slash, with the part that is being read
unfoldable pub base_from : Bytes → Bytes → Bytes
base_from [] part = part
base_from (c ∷ s) part = if c == b'/' then base_from s [] else base_from s (part ++ c ∷ [])

unfoldable pub base_name : Bytes → Bytes
unfolding base_from
base_name s = base_from s []

module _ {W : Type 0} (disk : Disk W) where
  -- `os.Stat` and `os.Mkdir` of the backup directory
  unfoldable pub ensure_dir : Bytes → Exec W (Unit {0})
  ensure_dir dir w = if disk.is_missing dir w then disk.mkdir dir w else (ok tt, w)

  -- The lines of the new file, for a file that is missing or that is there
  unfoldable pub new_lines :
      Bool → Bool → List Bytes → Bytes → Result (List Bytes) → Result (List Bytes)
  unfolding rewritten
  new_lines true first block name lines = ok (
      if first then (codes "auto " ++ name) ∷ (codes "allow-hotplug " ++ name) ∷ [] ∷ block else [])
  new_lines false first block name (ok lines) = ok (rewritten first block name lines)
  new_lines false first block name (err e) = err e

  -- The existing file becomes a backup.
  abbrev pub back_up : Bool → Bytes → Bytes → Exec W (Unit {0})
  back_up true file bak = pure tt
  back_up false file bak = file_move disk.os file bak

  module _ (backup_dir : Bytes) (retention : ℤ) (name : Bytes) (block : List Bytes) where
    -- `path.Join(backupDir, …)`, of a directory without a slash at its end
    abbrev pub in_backups : Bytes → Bytes → Bytes
    in_backups prefix file = backup_dir ++ b'/' ∷ prefix ++ base_name file

    -- One round of the loop
    unfoldable pub save_file : Bytes → Bytes → Bool → Bytes → Exec W (Unit {0})
    unfolding new_lines base_name
    save_file prefix_tmp prefix_bak first file = do
      disk.open_for_writing (in_backups prefix_tmp file)
      missing ← reads (λ w. ok (disk.is_missing file w))
      lines ← reads (λ w. new_lines missing first block name (disk.read_lines file w))
      finish (disk.print_lines (in_backups prefix_tmp file) lines)
      back_up missing file (in_backups prefix_bak file)
      file_move disk.os (in_backups prefix_tmp file) file
      finish
          (prune_backups disk.files backup_dir (prefix_backup_matcher (base_name file)) retention)

    -- The loop over the files; the flag is `i == 0`.
    unfoldable pub save_files : Bytes → Bytes → Bool → List Bytes → Exec W (Unit {0})
    unfolding save_file
    save_files prefix_tmp prefix_bak first [] = pure tt
    save_files prefix_tmp prefix_bak first (file ∷ files) = do
      save_file prefix_tmp prefix_bak first file
      save_files prefix_tmp prefix_bak false files

  -- Save
  unfoldable pub save : Texts → Bytes → ℤ → IfInterface → Exec W (Unit {0})
  unfolding ensure_dir save_files write_lines
  save texts backup_dir retention iface = do
    ensure_dir backup_dir
    tmp ← disk.unix_nano
    bak ← disk.unix_nano
    save_files backup_dir retention iface.name (write_lines texts iface)
        (codes ".tmp." ++ tmp ++ codes ".") (codes ".bak." ++ bak ++ codes ".") true iface.files
