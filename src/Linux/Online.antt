-- ===== src/Linux/Online.antt =====
-- A change that goes through was followed by a test that the host still reaches the internet.
use go_network_configurator.Prelude.{
  ◌≡◌, refl, ◌∙◌, ap, Bool, true, false, not, ◌&&◌, if◌then◌else◌, Bool-cases, inl, inr,
}
use go_network_configurator.Prelude.Exec.{
  Exec, ok, Error, pure, raise, ◌>>=◌, ◌>>◌, >>=-eq-ok, pair,
}
use go_network_configurator.Net.{Ip, non_nil}
use go_network_configurator.Host.{Host, ping_test, test_internet}
use go_network_configurator.Linux.{LinuxConfigurator}

-- A statement that is made in one case only
abbrev pub When : Bool → Type 0 → Type 0
When true P = P
When false P = Unit

pub given_When : (b : Bool) (P : Type 0) → (b ≡ true → P) → When b P
given_When true P f = f refl
given_When false P f = tt

-- Code that never succeeds
pub record Fails {W A : Type 0} (m : Exec W A) : Type 0 where
  pub at : (w w' : W) (a : A) → m w ≡ (ok a, w') → ⊥

module _ {W A : Type 0} where
  pub Fails-raise : (e : Error) → Fails (raise {W = W} {A = A} e)
  Fails-raise e = record { at = λ w w' a h. cc }

module _ {W A B : Type 0} (m : Exec W A) (f : A → Exec W B) where
  pub Fails-then : ((a : A) → Fails (f a)) → Fails (m >>= f)
  Fails-then k = record {
    at = λ w w' b h. let (a, d, h1) = >>=-eq-ok m f w h in (k a).at (m w).1 w' b h1;
  }

  pub Fails-first : Fails m → Fails (m >>= f)
  Fails-first k = record {
    at = λ w w' b h. let (a, d, h1) = >>=-eq-ok m f w h in k.at w (m w).1 a (pair m w d);
  }

module _ {W A : Type 0} (host : Host W) (c : LinuxConfigurator W) where
  -- A test of the internet after a call, with something that fails where it does not succeed
  pub tested_after :
      (call : Exec W Bool) (a : A) (otherwise : Exec W A) (w : W) {b : A} {w' : W}
      → Fails otherwise
      → (do
        call
        online ← test_internet host c.options.test_address c.options.connectivity_timeout
        if online then pure a else otherwise)
          w
        ≡ (ok b, w')
      → (answered : Bool) × (v : W) × (call w ≡ (ok answered, v))
        × (test_internet host c.options.test_address c.options.connectivity_timeout v
            ≡ (ok true, w'))
  tested_after call a otherwise w fails h =
      let test = test_internet host c.options.test_address c.options.connectivity_timeout in
      let (answered, d, h1) = >>=-eq-ok call _ w h in
      let (online, d2, h2) = >>=-eq-ok test _ _ h1 in
      elim (Bool-cases online) [
        | inl y ↦ (
          answered,
          (call w).1,
          pair call w d,
          pair test _ (d2 ∙ ap ok y) ∙ ap (λ v. (ok true, v)) (ap (λ r. r.1) (rw y at h2)),
        )
        | inr n ↦ absurd (fails.at _ _ _ (rw n at h2))
      ]

module _ {W : Type 0} (host : Host W) (c : LinuxConfigurator W) (gateway : Ip) where
  -- The gateway was pinged, and after that a test of the internet succeeded.
  abbrev pub TestedBy : W → W → Type 0
  TestedBy w w' =
      (answered : Bool) × (v : W) × (ping_test host gateway c.options.ping_count
          c.options.ping_timeout w
        ≡ (ok answered, v))
      × (test_internet host c.options.test_address c.options.connectivity_timeout v ≡ (ok true, w'))

  -- So it was, if there is a gateway and the check is not skipped.
  abbrev pub Tested : W → W → Type 0
  Tested w w' =
      if non_nil gateway && not c.options.skip_connectivity_check then TestedBy w w' else (w ≡ w')

  pub tested_by :
      {A : Type 0} (a : A) (otherwise : Exec W A) (w : W) {b : A} {w' : W}
      → Fails otherwise
      → (do
        ping_test host gateway c.options.ping_count c.options.ping_timeout
        online ← test_internet host c.options.test_address c.options.connectivity_timeout
        if online then pure a else otherwise)
          w
        ≡ (ok b, w')
      → TestedBy w w'
  tested_by a otherwise w fails h =
      tested_after host c (ping_test host gateway c.options.ping_count c.options.ping_timeout) a
        otherwise w fails h
