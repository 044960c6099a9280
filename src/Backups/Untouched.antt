-- ===== src/Backups/Untouched.antt =====
-- Files that pruneBackups leaves alone.
use go_network_configurator.Prelude.{
  ℕ, zero, suc, ℤ, pos, negsuc, ◌≡◌, refl, ◌∙◌, Bool, true, List, [], ◌∷◌, ◌++◌, leb, length, drop,
  Bytes, All, Bool-cases, inl, inr, Option, none, some,
}
use go_network_configurator.Prelude.Exec.{Result, ok, err, attempt}
use go_network_configurator.Iface.{stable_sort}
use go_network_configurator.Iface.Order.{All-insert}
use go_network_configurator.Backups.{
  DirEntry, Files, Backup, backups_among, newer, outdated, remove_backups, prune_backups,
}

module _ {ℓ κ} {A : Type ℓ} (P : A → Type κ) where
  All-drop : (n : ℕ) (xs : List A) → All P xs → All P (drop n xs)
  All-drop zero xs h = h
  All-drop (suc n) [] h = tt
  All-drop (suc n) (x ∷ xs) h = All-drop n xs h.1

  All-stable_sort : (less : A → A → Bool) (xs : List A) → All P xs → All P (stable_sort less xs)
  unfolding stable_sort
  All-stable_sort less [] h = tt
  All-stable_sort less (x ∷ xs) h =
      All-insert less P x (stable_sort less xs) h.0 (All-stable_sort less xs h.1)

module _ (is_match : Bytes → Bool) where
  abbrev Matches : Backup → Type 0
  Matches b = is_match b.name ≡ true

  among-entry :
      (e : DirEntry) (rest : List Backup) (o : Option ℕ)
      → is_match e.name ≡ true
      → All Matches rest
      → All Matches
          (elim o [ none ↦ rest | some mtime ↦ record { name = e.name; mtime = mtime } ∷ rest ])
  among-entry e rest none m h = h
  among-entry e rest (some mtime) m h = (m, h)

  backups_among-Matches : (entries : List DirEntry) → All Matches (backups_among is_match entries)
  unfolding backups_among
  backups_among-Matches [] = tt
  backups_among-Matches (e ∷ entries) =
      let rest = backups_among-Matches entries in
      elim (Bool-cases e.is_dir) [
        | inl d ↦ rw d rest
        | inr d ↦ elim (Bool-cases (is_match e.name)) [
          | inl m ↦ rw d (rw m (among-entry e (backups_among is_match entries) e.mod_time m rest))
          | inr m ↦ rw d (rw m rest)
        ]
      ]

  outdated-Matches :
      (keep : ℕ) (backups : List Backup) → All Matches backups → All Matches (outdated keep backups)
  unfolding outdated
  outdated-Matches keep backups h = elim (Bool-cases (leb (length backups) keep)) [
    | inl e ↦ rw e tt
    | inr e ↦ rw e (
        All-drop Matches keep (stable_sort newer backups) (All-stable_sort Matches newer backups h))
  ]

  module _ {W V : Type 0} (view : W → V) (files : Files W) (dir : Bytes)
      (kept : (name : Bytes) (w : W)
        → is_match name ≡ true
        → view (files.remove (dir ++ b'/' ∷ name) w).1 ≡ view w) where
    remove_backups-keeps :
        (backups : List Backup) (w : W)
        → All Matches backups
        → view (remove_backups files dir backups w) ≡ view w
    unfolding remove_backups
    remove_backups-keeps [] w h = refl
    remove_backups-keeps (b ∷ backups) w (h, hs) =
        remove_backups-keeps backups (attempt (files.remove (dir ++ b'/' ∷ b.name)) w) hs
        ∙ kept b.name w h

    prune-read :
        (keep : ℕ) (r : Result (List DirEntry)) (w : W)
        → view (elim r [
          | ok entries ↦ remove_backups files dir (outdated keep (backups_among is_match entries)) w
          | err e ↦ w
        ])
          ≡ view w
    prune-read keep (ok entries) w =
        remove_backups-keeps (outdated keep (backups_among is_match entries)) w
          (outdated-Matches keep (backups_among is_match entries) (backups_among-Matches entries))
    prune-read keep (err e) w = refl

    -- A view that the removal of matching files leaves alone
    pub prune_backups-keeps :
        (retention : ℤ) (w : W) → view (prune_backups files dir is_match retention w) ≡ view w
    unfolding prune_backups
    prune_backups-keeps (pos zero) w = refl
    prune_backups-keeps (negsuc n) w = refl
    prune_backups-keeps (pos (suc n)) w = prune-read (suc n) (files.read_dir dir w) w
