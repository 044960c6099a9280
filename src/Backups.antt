-- ===== src/Backups.antt =====
-- pruneBackups and the matchers of backup names, of utils.go.
pub mod Newest
pub mod Untouched
use go_network_configurator.Prelude.{
  ℕ, ℤ, pos, negsuc, zero, suc, Bool, true, false, not, ◌&&◌, List, [], ◌∷◌, ◌++◌, Option, none,
  some, ltb, leb, ◌==◌, ◌-◌, if◌then◌else◌, Bytes, codes, bytes_eq, has_prefix, length, drop,
}
use go_network_configurator.Prelude.Exec.{Exec, Result, ok, err, attempt}
use go_network_configurator.Natural.{bytes_lt}
use go_network_configurator.Iface.{stable_sort}

-- `os.DirEntry`; its modification time is `none` where `Info` fails.
pub record DirEntry : Type 0 where
  pub name : Bytes
  pub is_dir : Bool
  pub mod_time : Option ℕ

-- The calls of package os: `os.ReadDir` and `os.Remove`
pub record Files (W : Type 0) : Type 0 where
  pub read_dir : Bytes → W → Result (List DirEntry)
  pub remove : Bytes → Exec W (Unit {0})

-- backup
pub record Backup : Type 0 where
  pub name : Bytes
  pub mtime : ℕ

-- The loop over the entries
unfoldable pub backups_among : (Bytes → Bool) → List DirEntry → List Backup
backups_among is_match [] = []
backups_among is_match (e ∷ entries) =
    let rest = backups_among is_match entries in
    if e.is_dir then rest else if not (is_match e.name) then rest else elim e.mod_time [
      | none ↦ rest
      | some mtime ↦ record { name = e.name; mtime = mtime } ∷ rest
    ]

-- The comparison of the sort: newer first, and the greater name first at equal times
unfoldable pub newer : Backup → Backup → Bool
newer a b = if not (a.mtime == b.mtime) then ltb b.mtime a.mtime else bytes_lt b.name a.name

-- `backups[keep:]` after the sort
unfoldable pub outdated : ℕ → List Backup → List Backup
outdated keep backups =
    if leb (length backups) keep then [] else drop keep (stable_sort newer backups)

module _ {W : Type 0} (files : Files W) where
  -- The loop that removes; `filepath.Join` on a directory without a slash at its end
  unfoldable pub remove_backups : Bytes → List Backup → W → W
  remove_backups dir [] w = w
  remove_backups dir (b ∷ backups) w =
      remove_backups dir backups (attempt (files.remove (dir ++ b'/' ∷ b.name)) w)

  -- pruneBackups
  unfoldable pub prune_backups : Bytes → (Bytes → Bool) → ℤ → W → W
  prune_backups dir is_match (pos zero) w = w
  prune_backups dir is_match (negsuc n) w = w
  prune_backups dir is_match (pos (suc n)) w = elim (files.read_dir dir w) [
    | ok entries ↦ remove_backups dir (outdated (suc n) (backups_among is_match entries)) w
    | err e ↦ w
  ]

-- `strings.HasSuffix`
unfoldable pub has_suffix : Bytes → Bytes → Bool
has_suffix s suffix =
    leb (length suffix) (length s) && bytes_eq (drop (length s - length suffix) s) suffix

-- suffixBackupMatcher
unfoldable pub suffix_backup_matcher : Bytes → Bytes → Bool
unfolding has_prefix
suffix_backup_matcher base name = has_prefix name (base ++ codes ".bak.")

-- prefixBackupMatcher
unfoldable pub prefix_backup_matcher : Bytes → Bytes → Bool
unfolding has_prefix has_suffix
prefix_backup_matcher base name =
    has_prefix name (codes ".bak.") && has_suffix name (codes "." ++ base)
