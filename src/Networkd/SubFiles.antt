-- ===== src/Networkd/SubFiles.antt =====
-- Save of networkd.go for a network with sub files.
use go_network_configurator.Prelude.{
  ◌≡◌, ◌≢◌, refl, ◌∙◌, ap, sym, false, List, ◌∷◌, ◌++◌, Option, none, some, if◌then◌else◌, Bytes,
  codes, bytes_eq, ℤ,
}
use go_network_configurator.Prelude.Exec.{Result, ok, err, >>=-eq-ok, pair}
use go_network_configurator.Files.{file_move}
use go_network_configurator.Networkd.{NetworkdNetwork}
use go_network_configurator.Networkd.Save.{
  Disk, in_dir, back_up, swap_files, replace_files, finish_save, save,
}
use go_network_configurator.Networkd.Saved.{IsDisk, after_rename-ok}

module _ {W F : Type 0} {disk : Disk W F} {view : W → Bytes → Option F} (laws : IsDisk disk view)
    (dir : Bytes) where
  move-absent : (a b : Bytes) (w : W) → view w a ≡ none → (file_move disk.os a b w).0 ≢ ok tt
  unfolding file_move
  move-absent a b w gone h =
      let (done, shape) =
        after_rename-ok disk.os a b (disk.os.rename a b w).0 (disk.os.rename a b w).1
          (laws.same_device a b w) h in
      laws.absent a b w gone done

  back_up-absent :
      (suffix file : Bytes) (files : List Bytes) (w : W)
      → view w (in_dir disk dir file) ≡ none
      → (back_up disk dir suffix (file ∷ files) w).0 ≢ ok tt
  unfolding back_up
  back_up-absent suffix file files w gone h =
      let (u, e, r) =
        >>=-eq-ok (file_move disk.os (in_dir disk dir file) (in_dir disk dir (file ++ suffix))) _ w
          (pair (back_up disk dir suffix (file ∷ files)) w h) in
      move-absent (in_dir disk dir file) (in_dir disk dir (file ++ suffix)) w gone e

  swap_files-absent :
      (sub_files : List Bytes) (sub : Bytes) (subs : List Bytes) (file t suffix : Bytes) (w : W)
      → sub_files ≡ sub ∷ subs
      → view w (in_dir disk dir sub) ≡ none
      → (swap_files disk dir sub_files file t suffix w).0 ≢ ok tt
  unfolding swap_files
  swap_files-absent sub_files sub subs file t suffix w e gone h =
      let (u, first, r) =
        >>=-eq-ok (back_up disk dir suffix sub_files) _ w
          (pair (swap_files disk dir sub_files file t suffix) w h) in
      back_up-absent suffix sub subs w gone
        (ap (λ l. (back_up disk dir suffix l w).0) (sym e) ∙ first)

  replace_files-absent :
      (n : NetworkdNetwork F) (sub : Bytes) (subs : List Bytes) (w : W)
      → n.sub_files ≡ sub ∷ subs
      → view w (in_dir disk dir sub) ≡ none
      → ((tmp : Bytes)
          → bytes_eq (in_dir disk dir sub) (in_dir disk dir (n.file ++ (codes ".tmp." ++ tmp)))
            ≡ false)
      → (replace_files disk dir n w).0 ≢ ok tt
  unfolding replace_files
  replace_files-absent n sub subs w e gone other h =
      let (tmp, e1, r1) = >>=-eq-ok disk.unix_nano _ w (pair (replace_files disk dir n) w h) in
      let w1 = (disk.unix_nano w).1 in
      let p = in_dir disk dir sub in
      let t = in_dir disk dir (n.file ++ (codes ".tmp." ++ tmp)) in
      let (u2, e2, r2) = >>=-eq-ok (disk.write_config t n.config) _ w1 r1 in
      let w2 = (disk.write_config t n.config w1).1 in
      let (now, e3, r3) = >>=-eq-ok disk.unix_nano _ w2 r2 in
      let w3 = (disk.unix_nano w2).1 in
      let still =
        ap (λ v. v p) (laws.time_keeps w2)
        ∙ laws.written t n.config w1 p e2
        ∙ ap (λ c. if c then some n.config else view w1 p) (other tmp)
        ∙ ap (λ v. v p) (laws.time_keeps w)
        ∙ gone in
      swap_files-absent n.sub_files sub subs n.file t (codes ".bak." ++ now) w3 e still
        (ap (λ (x : Result (Unit {0}) × W). x.0) r3)

  finish_save-ok :
      (retention : ℤ) (n : NetworkdNetwork F) (r : Result (Unit {0})) (w : W)
      → (finish_save disk dir retention n r w).0 ≡ ok tt
      → r ≡ ok tt
  unfolding finish_save
  finish_save-ok retention n (ok u) w h = refl
  finish_save-ok retention n (err e) w h = cc

  -- Save does not succeed for a network whose first sub file is not, under its own name, in the
  -- directory of the network's file: sub files are read from the directory "<file>.d" and looked
  -- for beside it. The name is none that a temporary file of the network has.
  pub save_refused :
      (retention : ℤ) (n : NetworkdNetwork F) (sub : Bytes) (subs : List Bytes) (w : W)
      → n.sub_files ≡ sub ∷ subs
      → view w (in_dir disk dir sub) ≡ none
      → ((tmp : Bytes)
          → bytes_eq (in_dir disk dir sub) (in_dir disk dir (n.file ++ (codes ".tmp." ++ tmp)))
            ≡ false)
      → (save disk dir retention (n, w)).0 ≢ ok tt
  unfolding save
  save_refused retention n sub subs w e gone other h =
      replace_files-absent n sub subs w e gone other
        (finish_save-ok retention n (replace_files disk dir n w).0 (replace_files disk dir n w).1 h)
