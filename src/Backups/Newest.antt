-- ===== src/Backups/Newest.antt =====
-- pruneBackups keeps the newest backups.
use mathlib.Core.List.{Perm}
use mathlib.Core.List.Perm
use Prim.Native.Nat.{min}
use go_network_configurator.Prelude.{
  ℕ, zero, suc, ℤ, pos, negsuc, ◌≡◌, refl, ◌∙◌, ap, Bool, false, List, [], ◌∷◌, ◌++◌, leb, arith,
  All, Bool-cases, inl, inr, length, take, drop, Bytes, append-nil, take-append-drop, length-take,
}
use go_network_configurator.Prelude.Exec.{Result, ok, err}
use go_network_configurator.Natural.Order.{
  IsStrictWeak, bytes_lt_irrefl, bytes_lt_trans, bytes_lt_total,
}
use go_network_configurator.Iface.{insert, stable_sort}
use go_network_configurator.Iface.Order.{IsSorted, stable_sort-perm, stable_sort-IsSorted}
use go_network_configurator.Backups.{
  Backup, DirEntry, Files, backups_among, newer, outdated, remove_backups, prune_backups,
}

newer-IsStrictWeak : IsStrictWeak newer
unfolding newer
newer-IsStrictWeak = record {
  irrefl = λ a. ground (arith, bytes_lt_irrefl a.name);
  trans = λ a b c. ground (arith, bytes_lt_trans c.name b.name a.name);
  tie_trans = λ a b c p q r s. ground (
    arith,
    bytes_lt_total a.name b.name,
    bytes_lt_total b.name c.name,
    bytes_lt_irrefl a.name,
    bytes_lt_irrefl c.name,
  );
}

-- What a choice of backups to remove has to be: with some others they make up all the backups;
-- the others are `keep`, or all of them where there are fewer; and none that is removed is newer
-- than one that is kept.
pub record IsOutdated (keep : ℕ) (backups removed : List Backup) : Type 0 where
  pub kept : List Backup
  pub all_of_them : Perm (kept ++ removed) backups
  pub as_many : length kept ≡ min keep (length backups)
  pub oldest : All (λ r. All (λ k. newer r k ≡ false) kept) removed

module _ {A : Type 0} where
  All-drop : (P : A → Type 0) (n : ℕ) (xs : List A) → All P xs → All P (drop n xs)
  All-drop P zero xs h = h
  All-drop P (suc n) [] h = tt
  All-drop P (suc n) (x ∷ xs) h = All-drop P n xs h.1

  All-both : (P Q : A → Type 0) (xs : List A) → All P xs → All Q xs → All (λ x. P x × Q x) xs
  All-both P Q [] h k = tt
  All-both P Q (x ∷ xs) h k = ((h.0, k.0), All-both P Q xs h.1 k.1)

  All-trivial : (xs : List A) → All (λ x. Unit {0}) xs
  All-trivial [] = tt
  All-trivial (x ∷ xs) = (tt, All-trivial xs)

  length-insert :
      (less : A → A → Bool) (x : A) (xs : List A) → length (insert less x xs) ≡ suc (length xs)
  unfolding insert
  length-insert less x [] = refl
  length-insert less x (y ∷ xs) = ground (arith, length-insert less x xs)

  length-stable_sort :
      (less : A → A → Bool) (xs : List A) → length (stable_sort less xs) ≡ length xs
  unfolding stable_sort
  length-stable_sort less [] = refl
  length-stable_sort less (x ∷ xs) =
      length-insert less x (stable_sort less xs) ∙ ap suc (length-stable_sort less xs)

  split-IsSorted :
      (less : A → A → Bool) (n : ℕ) (xs : List A)
      → IsSorted less xs
      → All (λ d. All (λ k. less d k ≡ false) (take n xs)) (drop n xs)
  split-IsSorted less zero xs h = All-trivial xs
  split-IsSorted less (suc n) [] h = tt
  split-IsSorted less (suc n) (x ∷ xs) h =
      All-both (λ d. less d x ≡ false) (λ d. All (λ k. less d k ≡ false) (take n xs)) (drop n xs)
        (All-drop (λ y. less y x ≡ false) n xs h.0) (split-IsSorted less n xs h.1)

-- Nothing is chosen without a limit or without a listing, and else all but the newest backups.
pub Chosen : Result (List DirEntry) → (Bytes → Bool) → ℤ → List Backup → Type 0
Chosen r is_match (pos zero) removed = removed ≡ []
Chosen r is_match (negsuc n) removed = removed ≡ []
Chosen (err e) is_match (pos (suc n)) removed = removed ≡ []
Chosen (ok entries) is_match (pos (suc n)) removed =
    IsOutdated (suc n) (backups_among is_match entries) removed

outdated-IsOutdated :
    (keep : ℕ) (backups : List Backup) → IsOutdated keep backups (outdated keep backups)
unfolding outdated
outdated-IsOutdated keep backups = elim (Bool-cases (leb (length backups) keep)) [
  | inl few ↦ rw few (record {
    kept = backups;
    all_of_them = rw (append-nil backups) (Perm.refl backups);
    as_many = ground arith;
    oldest = tt;
  })
  | inr many ↦
      let sorted = stable_sort newer backups in
      rw many (record {
        kept = take keep sorted;
        all_of_them = rw (take-append-drop keep sorted) (stable_sort-perm newer backups);
        as_many = length-take keep sorted ∙ ap (min keep) (length-stable_sort newer backups);
        oldest = split-IsSorted newer keep sorted (stable_sort-IsSorted newer-IsStrictWeak backups);
      })
]

removal-of :
    {W : Type 0} (files : Files W) (dir : Bytes) (is_match : Bytes → Bool) (n : ℕ) (w : W)
    (r : Result (List DirEntry))
    → (removed : List Backup) × ((elim r [
      | ok entries ↦ remove_backups files dir (outdated (suc n) (backups_among is_match entries)) w
      | err e ↦ w
    ])
        ≡ remove_backups files dir removed w)
      × Chosen r is_match (pos (suc n)) removed
unfolding remove_backups Chosen
removal-of files dir is_match n w (err e) = ([], refl, refl)
removal-of files dir is_match n w (ok entries) =
    let backups = backups_among is_match entries in
    (outdated (suc n) backups, refl, outdated-IsOutdated (suc n) backups)

-- pruneBackups removes nothing where `keep` is not positive or the directory cannot be read, and
-- else removes, of the files that match and whose time is known, all but the `keep` newest, one
-- after another; of two files with one time, the one with the greater name counts as newer.
pub prune_backups_lem :
    {W : Type 0} (files : Files W) (dir : Bytes) (is_match : Bytes → Bool) (keep : ℤ) (w : W)
    → (removed : List Backup) × (prune_backups files dir is_match keep w
        ≡ remove_backups files dir removed w)
      × Chosen (files.read_dir dir w) is_match keep removed
unfolding prune_backups remove_backups Chosen
prune_backups_lem files dir is_match (pos zero) w = ([], refl, refl)
prune_backups_lem files dir is_match (negsuc n) w = ([], refl, refl)
prune_backups_lem files dir is_match (pos (suc n)) w =
    removal-of files dir is_match n w (files.read_dir dir w)
