-- ===== src/Prelude/Exec.antt =====
-- Code that acts on the machine and may fail. What was done before an error stays done, so the
-- state comes back beside the error too. `Error` holds the `error` values that the package makes.
use Prim.Native.Nat.{ℕ}
use mathlib.Core.Path.{◌≡◌, refl, ap}

pub data Error : Type 0 where
  -- an error of the kernel, of a library or of a command, by its number
  external : ℕ → Error
  -- an error wrapped in a message
  bring_up_failed add_gateway_failed detection_incomplete not_ready timed_out : Error → Error
  gateway_unreachable ip_responds internet_lost address_not_found : Error
  primary_refused unreachable_after_removal removal_broke_internet : Error
  route_contains_address no_dhcp_backend no_backend not_ready_plain : Error
  -- networkd.go
  key_sections_missing no_configuration : Error
  -- ifupdown.go
  ppp_interface both_families other_family wrong_method dhcp_interface : Error
  bad_syntax no_interface bad_address out_of_fuel : Error
  bad_mac_address : Error → Error

pub data Result {ℓ} (A : Type ℓ) : Type ℓ where
  ok : A → Result A
  err : Error → Result A

abbrev pub Exec {ℓ} : Type ℓ → Type ℓ → Type ℓ
Exec W A = W → Result A × W

module _ {ℓ} {W A : Type ℓ} where
  abbrev pub pure : A → Exec W A
  pure a w = (ok a, w)

  abbrev pub raise : Error → Exec W A
  raise e w = (err e, w)

  -- A read of the machine's state.
  abbrev pub reads : (W → Result A) → Exec W A
  reads f w = (f w, w)

module _ {ℓ} {W A B : Type ℓ} where
  abbrev pub continue : Result A → (A → Exec W B) → Exec W B
  continue (ok a) f w = f a w
  continue (err e) f w = (err e, w)

  infixl 10 ◌>>=◌ ◌>>◌
  unfoldable pub ◌>>=◌ : Exec W A → (A → Exec W B) → Exec W B
  ◌>>=◌ m f w = let (r, w') = m w in continue r f w'

  abbrev pub ◌>>◌ : Exec W A → Exec W B → Exec W B
  m >> n = m >>= λ _. n

module _ {ℓ} {W A B : Type ℓ} where
  continue-eq-ok :
      (r : Result A) (f : A → Exec W B) (w : W) {b : B} {w' : W}
      → continue r f w ≡ (ok b, w')
      → (a : A) × (r ≡ ok a) × (f a w ≡ (ok b, w'))
  continue-eq-ok (ok a) f w h = (a, refl, h)
  continue-eq-ok (err e) f w h = cc

  -- Inversion of a block that succeeds.
  pub >>=-eq-ok :
      (m : Exec W A) (f : A → Exec W B) (w : W) {b : B} {w' : W}
      → (m >>= f) w ≡ (ok b, w')
      → (a : A) × ((m w).0 ≡ ok a) × (f a (m w).1 ≡ (ok b, w'))
  unfolding ◌>>=◌
  >>=-eq-ok m f w h = continue-eq-ok (m w).0 f (m w).1 h

pub ok-inj {ℓ} : {A : Type ℓ} {a b : A} → ok a ≡ ok b → a ≡ b
ok-inj h = cc

module _ {ℓ} {W A B : Type ℓ} where
  continue-ok :
      (r : Result A) (f : A → Exec W B) (w : W) {a : A} → r ≡ ok a → continue r f w ≡ f a w
  continue-ok (ok x) f w h = ap (λ y. f y w) (ok-inj h)
  continue-ok (err e) f w h = cc

  -- A block whose first part succeeds goes on with its result.
  pub >>=-ok :
      (m : Exec W A) (f : A → Exec W B) (w : W) {a : A} → (m w).0 ≡ ok a → (m >>= f) w ≡ f a (m w).1
  unfolding ◌>>=◌
  >>=-ok m f w h = continue-ok (m w).0 f (m w).1 h

-- A call's result with the state that it leaves.
pub pair : {W A : Type 0} (m : Exec W A) (w : W) {a : A} → (m w).0 ≡ ok a → m w ≡ (ok a, (m w).1)
pair m w e = ap (λ r. (r, (m w).1)) e

-- The end of a method, where nothing fails any more.
abbrev pub finish : {W : Type 0} → (W → W) → Exec W (Unit {0})
finish apply w = (ok tt, apply w)

module _ {W A : Type 0} where
  continue-finish :
      (r : Result A) (apply : A → W → W) (w : W) {e : Error}
      → (continue r (λ a. finish (apply a)) w).0 ≡ err e
      → (continue r (λ a. finish (apply a)) w).1 ≡ w
  continue-finish (ok a) apply w h = cc
  continue-finish (err e) apply w h = refl

  -- Where a method that ends so fails, it fails before its end.
  pub finish-err :
      (m : Exec W A) (apply : A → W → W) (w : W) {e : Error}
      → ((m >>= λ a. finish (apply a)) w).0 ≡ err e
      → ((m >>= λ a. finish (apply a)) w).1 ≡ (m w).1
  unfolding ◌>>=◌
  finish-err m apply w h = continue-finish (m w).0 apply (m w).1 h

-- `fmt.Errorf("…: %w", err)` around the error of a call
abbrev pub wrap_error {ℓ} : {W A : Type ℓ} → (Error → Error) → Exec W A → Exec W A
wrap_error wrap m w = let (r, w') = m w in (elim r [ ok a ↦ ok a | err e ↦ err (wrap e) ], w')

-- A deferred call that runs if the code fails.
abbrev pub on_error {ℓ} : {W A : Type ℓ} → (W → W) → Exec W A → Exec W A
on_error cleanup m w = let (r, w') = m w in (r, elim r [ ok a ↦ w' | err e ↦ cleanup w' ])

-- A call whose error only decides the answer.
abbrev pub caught {ℓ} : {W A B : Type ℓ} → Exec W A → (Result A → B) → Exec W B
caught m answer w = let (r, w') = m w in (ok (answer r), w')

-- `if err = m; err != nil { log }`
abbrev pub attempt {ℓ} : {W A : Type ℓ} → Exec W A → W → W
attempt m w = (m w).1
