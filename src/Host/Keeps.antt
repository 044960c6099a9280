-- ===== src/Host/Keeps.antt =====
-- Code that leaves a view of the machine as it is, one rule for each way to build code.
use go_network_configurator.Prelude.{◌≡◌, refl, ◌∙◌, Bool, true, false, if◌then◌else◌, Bytes, ℤ}
use go_network_configurator.Prelude.Exec.{
  Exec, Result, ok, err, Error, pure, raise, reads, continue, caught, wrap_error, on_error, ◌>>=◌,
}
use go_network_configurator.Net.{Ip}
use go_network_configurator.Host.{Link, Addr, NlRoute, Host, ping_test, test_internet}

module _ {W V : Type 0} (view : W → V) where
  -- `m` leaves the view as it is, whether it succeeds or fails.
  pub record Keeps {A : Type 0} (m : Exec W A) : Type 0 where
    pub at : (w : W) → view (m w).1 ≡ view w

  -- The calls on the machine leave the view as it is.
  pub record IsOutside (host : Host W) : Type 0 where
    pub link_set_up : (l : Link) → Keeps (host.link_set_up l)
    pub link_set_down : (l : Link) → Keeps (host.link_set_down l)
    pub addr_add : (l : Link) (a : Addr) → Keeps (host.addr_add l a)
    pub addr_replace : (l : Link) (a : Addr) → Keeps (host.addr_replace l a)
    pub addr_del : (l : Link) (a : Addr) → Keeps (host.addr_del l a)
    pub route_add : (r : NlRoute) → Keeps (host.route_add r)
    pub route_change : (r : NlRoute) → Keeps (host.route_change r)
    pub route_replace : (r : NlRoute) → Keeps (host.route_replace r)
    pub route_del : (r : NlRoute) → Keeps (host.route_del r)
    pub run_pinger : (dest : Ip) (count timeout : ℤ) → Keeps (host.run_pinger dest count timeout)
    pub http_get : (address : Bytes) (timeout : ℤ) → Keeps (host.http_get address timeout)

module _ {W V : Type 0} {view : W → V} where
  pub Keeps-pure : {A : Type 0} (a : A) → Keeps view (pure a)
  Keeps-pure a = record { at = λ w. refl }

  pub Keeps-raise : {A : Type 0} (e : Error) → Keeps view (raise {A = A} e)
  Keeps-raise e = record { at = λ w. refl }

  pub Keeps-reads : {A : Type 0} (f : W → Result A) → Keeps view (reads f)
  Keeps-reads f = record { at = λ w. refl }

  pub Keeps-if :
      {A : Type 0} (b : Bool) (m n : Exec W A)
      → Keeps view m
      → Keeps view n
      → Keeps view (if b then m else n)
  Keeps-if true m n km kn = km
  Keeps-if false m n km kn = kn

  continue-Keeps :
      {A B : Type 0} (r : Result A) (f : A → Exec W B) (w : W)
      → ((a : A) → Keeps view (f a))
      → view (continue r f w).1 ≡ view w
  continue-Keeps (ok a) f w k = (k a).at w
  continue-Keeps (err e) f w k = refl

  pub Keeps-bind :
      {A B : Type 0} (m : Exec W A) (f : A → Exec W B)
      → Keeps view m
      → ((a : A) → Keeps view (f a))
      → Keeps view (m >>= f)
  unfolding ◌>>=◌
  Keeps-bind m f km kf = record {
    at = λ w. let (r, w') = m w in continue-Keeps r f w' kf ∙ km.at w;
  }

  pub Keeps-caught :
      {A B : Type 0} (m : Exec W A) (answer : Result A → B)
      → Keeps view m
      → Keeps view (caught m answer)
  Keeps-caught m answer k = record { at = λ w. k.at w }

  pub Keeps-wrap_error :
      {A : Type 0} (wrap : Error → Error) (m : Exec W A)
      → Keeps view m
      → Keeps view (wrap_error wrap m)
  Keeps-wrap_error wrap m k = record { at = λ w. k.at w }

  cleanup-keeps :
      {A : Type 0} (r : Result A) (cleanup : W → W) (w : W)
      → ((w : W) → view (cleanup w) ≡ view w)
      → view (elim r [ ok a ↦ w | err e ↦ cleanup w ]) ≡ view w
  cleanup-keeps (ok a) cleanup w k = refl
  cleanup-keeps (err e) cleanup w k = k w

  pub Keeps-on_error :
      {A : Type 0} (cleanup : W → W) (m : Exec W A)
      → ((w : W) → view (cleanup w) ≡ view w)
      → Keeps view m
      → Keeps view (on_error cleanup m)
  Keeps-on_error cleanup m kc k = record {
    at = λ w. let (r, w') = m w in cleanup-keeps r cleanup w' kc ∙ k.at w;
  }

ruleset shared_rules = (Keeps-pure, Keeps-raise, Keeps-reads, Keeps-if, Keeps-bind, Keeps-caught)

module _ {W V : Type 0} {view : W → V} {host : Host W} (outside : IsOutside view host) where
  pub ping_test-Keeps :
      (dest : Ip) (count timeout : ℤ) → Keeps view (ping_test host dest count timeout)
  unfolding ping_test
  ping_test-Keeps dest count timeout = search (shared_rules, outside.run_pinger)

  pub test_internet-Keeps :
      (address : Bytes) (timeout : ℤ) → Keeps view (test_internet host address timeout)
  unfolding test_internet
  test_internet-Keeps address timeout = search (shared_rules, outside.http_get)

pub ruleset keeps_rules = (
  Keeps-pure, Keeps-raise, Keeps-reads, Keeps-if, Keeps-bind, Keeps-caught, Keeps-wrap_error,
  ping_test-Keeps, test_internet-Keeps,
)
