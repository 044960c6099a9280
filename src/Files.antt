-- ===== src/Files.antt =====
-- fileMove, fileCopy and fileMoveCopy of utils.go.
pub mod Safety
use go_network_configurator.Prelude.{ℕ, Bool, true, false, ◌==◌, if◌then◌else◌, Bytes}
use go_network_configurator.Prelude.Exec.{
  Exec, Result, ok, err, Error, external, pure, reads, caught, on_error, attempt, ◌>>=◌, ◌>>◌,
}

-- The calls of packages os and io on files, by their paths
pub record Os (W : Type 0) : Type 0 where
  pub rename : Bytes → Bytes → Exec W (Unit {0})
  pub open_source : Bytes → W → Result (Unit {0})
  pub create : Bytes → Exec W (Unit {0})
  pub copy : Bytes → Bytes → Exec W (Unit {0})
  pub mode : Bytes → W → Result ℕ
  pub chmod : Bytes → ℕ → Exec W (Unit {0})
  pub remove : Bytes → Exec W (Unit {0})

-- `errors.Is(err, syscall.EXDEV)`
abbrev pub is_exdev : Error → Bool
is_exdev (external n) = n == 18
is_exdev e = false

module _ {W : Type 0} (os : Os W) where
  -- The contents and the mode of a copy
  unfoldable pub fill_copy : Bytes → Bytes → Exec W (Unit {0})
  fill_copy source destination = do
    os.copy destination source
    mode ← reads (os.mode source)
    os.chmod destination mode

  -- fileCopy
  unfoldable pub file_copy : Bytes → Bytes → Exec W (Unit {0})
  file_copy source destination = do
    reads (os.open_source source)
    os.create destination
    on_error (attempt (os.remove destination)) (fill_copy source destination)

  -- fileMoveCopy
  unfoldable pub file_move_copy : Bytes → Bytes → Exec W (Unit {0})
  file_move_copy source destination = do
    on_error (attempt (os.remove destination)) (file_copy source destination)
    caught (os.remove source) (λ r. tt)

  -- The rest of fileMove after the rename
  unfoldable pub after_rename : Bytes → Bytes → Result (Unit {0}) → Exec W (Unit {0})
  after_rename source destination (ok u) w = (ok tt, w)
  after_rename source destination (err e) w =
      if is_exdev e then file_move_copy source destination w else (err e, w)

  -- fileMove
  unfoldable pub file_move : Bytes → Bytes → Exec W (Unit {0})
  unfolding after_rename
  file_move source destination w =
      let (r, w') = os.rename source destination w in after_rename source destination r w'
