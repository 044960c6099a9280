-- ===== src/Files/Safety.antt =====
-- A move that fails leaves its source as it was.
use go_network_configurator.Prelude.{◌≡◌, refl, ◌∙◌, ap, ℕ, Bytes, Bool-cases, inl, inr}
use go_network_configurator.Prelude.Exec.{
  Result, ok, err, Error, caught, continue, on_error, attempt, ◌>>=◌,
}
use go_network_configurator.Host.Keeps.{Keeps, Keeps-reads, Keeps-bind, Keeps-on_error}
use go_network_configurator.Files.{
  Os, is_exdev, fill_copy, file_copy, file_move_copy, after_rename, file_move,
}

-- What the calls on the destination, and a rename that fails, leave as it is.
pub record IsElsewhere {W V : Type 0} (view : W → V) (os : Os W) (source destination : Bytes)
    : Type 0 where
  pub rename_failed :
      (w : W) (e : Error)
      → (os.rename source destination w).0 ≡ err e
      → view (os.rename source destination w).1 ≡ view w
  pub create : Keeps view (os.create destination)
  pub copy : Keeps view (os.copy destination source)
  pub chmod : (mode : ℕ) → Keeps view (os.chmod destination mode)
  pub remove : Keeps view (os.remove destination)

module _ {W V : Type 0} {view : W → V} {os : Os W} {source destination : Bytes}
    (elsewhere : IsElsewhere view os source destination) where
  file_copy-Keeps : Keeps view (file_copy os source destination)
  unfolding file_copy fill_copy
  file_copy-Keeps = Keeps-bind _ _ (Keeps-reads (os.open_source source)) λ _.
      Keeps-bind _ _ elsewhere.create λ _.
        Keeps-on_error (attempt (os.remove destination)) (fill_copy os source destination)
          (λ w. elsewhere.remove.at w)
          (Keeps-bind _ _ elsewhere.copy
            λ _. Keeps-bind _ _ (Keeps-reads (os.mode source)) λ mode. elsewhere.chmod mode)

  -- The copy is all that can fail in fileMoveCopy.
  move_copy-result :
      (r : Result (Unit {0})) (w : W) {e : Error}
      → (continue r (λ u. caught (os.remove source) (λ x. tt)) w).0 ≡ err e
      → (continue r (λ u. caught (os.remove source) (λ x. tt)) w).1 ≡ w
  move_copy-result (ok u) w h = cc
  move_copy-result (err e) w h = refl

  file_move_copy-failed :
      (w : W) (e : Error)
      → (file_move_copy os source destination w).0 ≡ err e
      → view (file_move_copy os source destination w).1 ≡ view w
  unfolding file_move_copy ◌>>=◌
  file_move_copy-failed w e h =
      let m = on_error (attempt (os.remove destination)) (file_copy os source destination) in
      let kept =
        Keeps-on_error (attempt (os.remove destination)) (file_copy os source destination)
          (λ v. elsewhere.remove.at v) file_copy-Keeps in
      ap view (move_copy-result (m w).0 (m w).1 h) ∙ kept.at w

  move-result :
      (r : Result (Unit {0})) (w w' : W) (e : Error)
      → ((x : Error) → r ≡ err x → view w' ≡ view w)
      → (after_rename os source destination r w').0 ≡ err e
      → view (after_rename os source destination r w').1 ≡ view w
  unfolding after_rename
  move-result (ok u) w w' e f h = cc
  move-result (err x) w w' e f h = elim (Bool-cases (is_exdev x)) [
    | inl y ↦ rw y (file_move_copy-failed w' e (rw y at h) ∙ f x refl)
    | inr n ↦ rw n (f x refl)
  ]

  -- Where fileMove fails, what the calls on the destination do not touch, such as the source, is
  -- as it was: the source is removed only once the whole copy has succeeded.
  pub file_move_failed :
      (w : W) (e : Error)
      → (file_move os source destination w).0 ≡ err e
      → view (file_move os source destination w).1 ≡ view w
  unfolding file_move
  file_move_failed w e h =
      move-result (os.rename source destination w).0 w (os.rename source destination w).1 e
        (λ x q. elsewhere.rename_failed w x q) h
