-- ===== src/Linux/Performed.antt =====
-- Calls on the machine that were made one after the other, and succeeded.
use go_network_configurator.Prelude.{◌≡◌, List, [], ◌∷◌}
use go_network_configurator.Prelude.Exec.{Exec, ok}

-- The call was made for each entry in turn, and each one succeeded.
unfoldable pub Performed : {W A : Type 0} → (A → Exec W (Unit {0})) → List A → W → W → Type 0
Performed call [] w w' = w ≡ w'
Performed {W} call (x ∷ xs) w w' = (v : W) × (call x w ≡ (ok tt, v)) × Performed call xs v w'

-- The same calls from an equal state
pub Performed-from :
    {W A : Type 0} (call : A → Exec W (Unit {0})) (xs : List A) {v v' : W} (w : W)
    → v ≡ v'
    → Performed call xs v w
    → Performed call xs v' w
Performed-from call xs w e done = rw e at done
