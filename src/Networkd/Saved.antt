-- ===== src/Networkd/Saved.antt =====
-- What Save of networkd.go leaves in the files of the directory.
use go_network_configurator.Prelude.{
  ℕ, ◌≡◌, ◌≢◌, refl, ◌∙◌, ap, sym, true, false, List, [], ◌∷◌, ◌++◌, Option, none, some,
  if◌then◌else◌, Bytes, codes, bytes_eq, bytes_eq_refl, eq_of_bytes_eq, Bool-cases, inl, inr,
  has_prefix, append_assoc, ℤ,
}
use go_network_configurator.Prelude.Exec.{Result, ok, err, Error, ◌>>=◌, >>=-eq-ok, pair}
use go_network_configurator.Files.{Os, is_exdev, after_rename, file_move}
use go_network_configurator.Backups.{suffix_backup_matcher}
use go_network_configurator.Backups.Untouched.{prune_backups-keeps}
use go_network_configurator.Networkd.{NetworkdNetwork}
use go_network_configurator.Networkd.Paths.{
  differ, longer_left, ne_of_prefix, has_prefix-behind, prefix_part,
}
use go_network_configurator.Networkd.Save.{
  Disk, in_dir, back_up, prune_all, swap_files, replace_files, finish_save, save,
}

-- What the files hold, by their paths: `view w q` is the configuration in the file at `q`.
-- A rename within a directory never ends with EXDEV.
pub record IsDisk {W F : Type 0} (disk : Disk W F) (view : W → Bytes → Option F) : Type 0 where
  pub time_keeps : (w : W) → view (disk.unix_nano w).1 ≡ view w
  pub written :
      (p : Bytes) (f : F) (w : W) (q : Bytes)
      → (disk.write_config p f w).0 ≡ ok tt
      → view (disk.write_config p f w).1 q ≡ (if bytes_eq q p then some f else view w q)
  pub renamed :
      (a b : Bytes) (w : W) (q : Bytes)
      → (disk.os.rename a b w).0 ≡ ok tt
      → view (disk.os.rename a b w).1 q
        ≡ (if bytes_eq q b then view w a else if bytes_eq q a then none else view w q)
  -- what is not there cannot be moved
  pub absent : (a b : Bytes) (w : W) → view w a ≡ none → (disk.os.rename a b w).0 ≢ ok tt
  pub same_device :
      (a b : Bytes) (w : W) (e : Error) → (disk.os.rename a b w).0 ≡ err e → is_exdev e ≡ false
  pub removed :
      (p : Bytes) (w : W) (q : Bytes)
      → bytes_eq q p ≡ false
      → view (disk.files.remove p w).1 q ≡ view w q

pub after_rename-ok :
    {W : Type 0} (os : Os W) (a b : Bytes) (r : Result (Unit {0})) (w : W)
    → ((e : Error) → r ≡ err e → is_exdev e ≡ false)
    → (after_rename os a b r w).0 ≡ ok tt
    → (r ≡ ok tt) × ((after_rename os a b r w).1 ≡ w)
unfolding after_rename
after_rename-ok os a b (ok u) w same h = (refl, refl)
after_rename-ok os a b (err e) w same h = cc (rw (same e refl) at h)

module _ {W F : Type 0} {disk : Disk W F} {view : W → Bytes → Option F}
    (laws : IsDisk disk view) where
  moved :
      (a b : Bytes) (w : W) (q : Bytes)
      → (file_move disk.os a b w).0 ≡ ok tt
      → view (file_move disk.os a b w).1 q
        ≡ (if bytes_eq q b then view w a else if bytes_eq q a then none else view w q)
  unfolding file_move
  moved a b w q h =
      let (done, shape) =
        after_rename-ok disk.os a b (disk.os.rename a b w).0 (disk.os.rename a b w).1
          (laws.same_device a b w) h in
      ap (λ x. view x q) shape ∙ laws.renamed a b w q done

  module _ (dir : Bytes) where
    -- The temporary file, the backup and the file itself have different paths.
    tmp-ne-bak :
        (file tmp now : Bytes)
        → bytes_eq
            (in_dir disk dir (file ++ (codes ".tmp." ++ tmp)))
            (in_dir disk dir (file ++ (codes ".bak." ++ now)))
          ≡ false
    unfolding bytes_eq
    tmp-ne-bak file tmp now =
        differ dir (b'/' ∷ (file ++ (codes ".tmp." ++ tmp)))
          (b'/' ∷ (file ++ (codes ".bak." ++ now)))
          (differ file (codes ".tmp." ++ tmp) (codes ".bak." ++ now) refl)

    pub longer-ne :
        (file : Bytes) (c : ℕ) (s : Bytes)
        → bytes_eq (in_dir disk dir (file ++ c ∷ s)) (in_dir disk dir file) ≡ false
    longer-ne file c s = differ dir _ _ (longer_left (b'/' ∷ file) c s)

    -- A path that does not go on from the file's with a dot is neither of the two.
    other_path :
        (q file s : Bytes)
        → has_prefix q (in_dir disk dir file ++ b'.' ∷ []) ≡ false
        → bytes_eq q (in_dir disk dir (file ++ b'.' ∷ s)) ≡ false
    other_path q file s h =
        ap (bytes_eq q) (
          sym (append_assoc dir (b'/' ∷ file) (b'.' ∷ s))
          ∙ sym (append_assoc (in_dir disk dir file) (b'.' ∷ []) s))
        ∙ ne_of_prefix q (in_dir disk dir file ++ b'.' ∷ []) s h

    -- The files after the swap, where there are no sub files
    swap_files-view :
        (sub_files : List Bytes) (file t suffix : Bytes) (w : W) (q : Bytes)
        → sub_files ≡ []
        → (let p = in_dir disk dir file in
            let b = in_dir disk dir (file ++ suffix) in
            let m = swap_files disk dir sub_files file t suffix in
            bytes_eq t b ≡ false
            → bytes_eq t p ≡ false
            → (m w).0 ≡ ok tt
            → (bytes_eq q p ≡ true → view (m w).1 q ≡ view w t)
              × (bytes_eq q p ≡ false
                  → bytes_eq q t ≡ false
                  → bytes_eq q b ≡ false
                  → view (m w).1 q ≡ view w q))
    unfolding swap_files back_up ◌>>=◌
    swap_files-view (x ∷ xs) file t suffix w q none_ tb tp h = cc
    swap_files-view [] file t suffix w q none_ tb tp h =
        let p = in_dir disk dir file in
        let b = in_dir disk dir (file ++ suffix) in
        let (u, first, last) =
          >>=-eq-ok (file_move disk.os p b) (λ v. file_move disk.os t p) w
            (pair (swap_files disk dir [] file t suffix) w h) in
        let w1 = (file_move disk.os p b w).1 in
        let done = ap (λ (x : Result (Unit {0}) × W). x.0) last in
        let there = moved p b w t first in
        let here = moved p b w q first in
        let end_ =
          ap (λ (x : Result (Unit {0}) × W). view x.1 q) (sym last) ∙ moved t p w1 q done in
        (
          λ qp. end_ ∙ rw qp (there ∙ rw tb (rw tp refl)),
          λ qp qt qb. end_ ∙ rw qp (rw qt (here ∙ rw qb (rw qp refl))),
        )

    -- The files after Save has moved the new one in place
    replace_files-view :
        (n : NetworkdNetwork F) (w : W) (q : Bytes)
        → n.sub_files ≡ []
        → (replace_files disk dir n w).0 ≡ ok tt
        → (let p = in_dir disk dir n.file in
            let w' = (replace_files disk dir n w).1 in
            (bytes_eq q p ≡ true → view w' q ≡ some n.config)
            × (bytes_eq q p ≡ false → has_prefix q (p ++ b'.' ∷ []) ≡ false → view w' q ≡ view w q))
    unfolding replace_files bytes_eq
    replace_files-view n w q none_ h =
        let (tmp, e1, r1) = >>=-eq-ok disk.unix_nano _ w (pair (replace_files disk dir n) w h) in
        let w1 = (disk.unix_nano w).1 in
        let p = in_dir disk dir n.file in
        let t = in_dir disk dir (n.file ++ (codes ".tmp." ++ tmp)) in
        let (u2, e2, r2) = >>=-eq-ok (disk.write_config t n.config) _ w1 r1 in
        let w2 = (disk.write_config t n.config w1).1 in
        let (now, e3, r3) = >>=-eq-ok disk.unix_nano _ w2 r2 in
        let w3 = (disk.unix_nano w2).1 in
        let suffix = codes ".bak." ++ now in
        let b = in_dir disk dir (n.file ++ suffix) in
        let tb = tmp-ne-bak n.file tmp now in
        let tp = longer-ne n.file b'.' (codes "tmp." ++ tmp) in
        let last = ap (λ (x : Result (Unit {0}) × W). view x.1 q) (sym r3) in
        let swapped =
          swap_files-view n.sub_files n.file t suffix w3 q none_ tb tp
            (ap (λ (x : Result (Unit {0}) × W). x.0) r3) in
        let same = laws.time_keeps in
        let at_t =
          ap (λ v. v t) (same w2)
          ∙ laws.written t n.config w1 t e2
          ∙ ap (λ c. if c then some n.config else view w1 t) (bytes_eq_refl t) in
        (
          λ qp. last ∙ swapped.0 qp ∙ at_t,
          λ qp qd.
              let qt = other_path q n.file (codes "tmp." ++ tmp) qd in
              let qb = other_path q n.file (codes "bak." ++ now) qd in
              last
              ∙ swapped.1 qp qt qb
              ∙ ap (λ v. v q) (same w2)
              ∙ laws.written t n.config w1 q e2
              ∙ ap (λ c. if c then some n.config else view w1 q) qt
              ∙ ap (λ v. v q) (same w),
        )

    -- One view of a file after the other
    replaced-view :
        (n : NetworkdNetwork F) (w : W) (q : Bytes)
        → n.sub_files ≡ []
        → (replace_files disk dir n w).0 ≡ ok tt
        → has_prefix q (in_dir disk dir n.file ++ b'.' ∷ []) ≡ false
        → view (replace_files disk dir n w).1 q
          ≡ (if bytes_eq q (in_dir disk dir n.file) then some n.config else view w q)
    replaced-view n w q none_ h other =
        let (here, there) = replace_files-view n w q none_ h in
        elim (Bool-cases (bytes_eq q (in_dir disk dir n.file))) [
          | inl e ↦ rw e (here e)
          | inr e ↦ rw e (there e other)
        ]

    -- A backup of the file is at no such path.
    backup-ne :
        (q file name : Bytes)
        → has_prefix q (in_dir disk dir file ++ b'.' ∷ []) ≡ false
        → suffix_backup_matcher file name ≡ true
        → bytes_eq q (in_dir disk dir name) ≡ false
    unfolding suffix_backup_matcher
    backup-ne q file name h m = elim (Bool-cases (bytes_eq q (in_dir disk dir name))) [
      | inr e ↦ e
      | inl e ↦ cc (
          ap (λ s. has_prefix s (in_dir disk dir file ++ b'.' ∷ []))
            (eq_of_bytes_eq q (in_dir disk dir name) e)
          ∙ ap (has_prefix (in_dir disk dir name)) (append_assoc dir (b'/' ∷ file) (b'.' ∷ []))
          ∙ has_prefix-behind dir (b'/' ∷ name) (b'/' ∷ (file ++ b'.' ∷ []))
              (prefix_part name file (codes "bak.") m))
    ]

    prune-view :
        (file q : Bytes) (retention : ℤ) (w : W)
        → has_prefix q (in_dir disk dir file ++ b'.' ∷ []) ≡ false
        → view (prune_all disk dir retention (file ∷ []) w) q ≡ view w q
    unfolding prune_all
    prune-view file q retention w h =
        prune_backups-keeps (suffix_backup_matcher file) (λ v. view v q) disk.files dir
          (λ name v m. laws.removed (in_dir disk dir name) v q (backup-ne q file name h m))
          retention w

    prune_all-view :
        (bases : List Bytes) (file q : Bytes) (retention : ℤ) (w : W)
        → bases ≡ []
        → has_prefix q (in_dir disk dir file ++ b'.' ∷ []) ≡ false
        → view (prune_all disk dir retention (bases ++ file ∷ []) w) q ≡ view w q
    prune_all-view [] file q retention w none_ h = prune-view file q retention w h
    prune_all-view (x ∷ xs) file q retention w none_ h = cc

    finish_save-view :
        (retention : ℤ) (n : NetworkdNetwork F) (r : Result (Unit {0})) (w : W) (q : Bytes)
        → n.sub_files ≡ []
        → (finish_save disk dir retention n r w).0 ≡ ok tt
        → has_prefix q (in_dir disk dir n.file ++ b'.' ∷ []) ≡ false
        → (r ≡ ok tt) × (view (finish_save disk dir retention n r w).1.1 q ≡ view w q)
    unfolding finish_save
    finish_save-view retention n (ok u) w q none_ h other =
        (refl, prune_all-view n.sub_files n.file q retention w none_ other)
    finish_save-view retention n (err e) w q none_ h other = cc

    -- Where Save succeeds for a network without sub files, its file holds its configuration, and
    -- the files at all other paths are as before, those aside whose path is that of the file with
    -- a dot and more behind it, such as the backups.
    pub save_succeeded :
        (retention : ℤ) (n : NetworkdNetwork F) (w : W) (q : Bytes)
        → n.sub_files ≡ []
        → (save disk dir retention (n, w)).0 ≡ ok tt
        → has_prefix q (in_dir disk dir n.file ++ b'.' ∷ []) ≡ false
        → view (save disk dir retention (n, w)).1.1 q
          ≡ (if bytes_eq q (in_dir disk dir n.file) then some n.config else view w q)
    unfolding save
    save_succeeded retention n w q none_ h other =
        let (done, kept) =
          finish_save-view retention n (replace_files disk dir n w).0 (replace_files disk dir n w).1
            q none_ h other in
        kept ∙ replaced-view n w q none_ done other
