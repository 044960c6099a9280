-- ===== src/Services/Ready.antt =====
-- When waitForServiceReady returns, and what.
use go_network_configurator.Prelude.{
  ℕ, zero, suc, ℤ, ◌≡◌, Bool, true, List, [], ◌∷◌, some, if◌then◌else◌, is_positive, arith,
}
use go_network_configurator.Prelude.Exec.{ok, err, Error}
use go_network_configurator.Services.{
  Wake, ReadyProbe, is_ready, why_timed_out, wait_loop, wait_for_service_ready,
}

-- A schedule of some ticks, and then the end of the context
abbrev pub ticks : ℕ → List Wake
ticks zero = Wake.done ∷ []
ticks (suc n) = Wake.tick ∷ ticks n

module _ {W : Type 0} (probe : ReadyProbe W) where
  -- The state before a probe, if those before it said no
  pub after : ℕ → W → W
  after zero w = w
  after (suc n) w = after n (probe w).1

  -- One of the probes up to a number says yes.
  pub ready_by : ℕ → W → Bool
  ready_by zero w = is_ready (probe w).0
  ready_by (suc n) w =
      let rest = ready_by n (probe w).1 in if is_ready (probe w).0 then true else rest

  wait_loop_lem :
      (ctx_err : Error) (n : ℕ) (w : W)
      → (wait_loop probe ctx_err (ticks n) w).0
        ≡ some (if ready_by n w then ok tt else err (why_timed_out ctx_err (probe (after n w)).0))
  unfolding wait_loop after ready_by
  wait_loop_lem ctx_err zero w = ground arith
  wait_loop_lem ctx_err (suc n) w = ground (arith, wait_loop_lem ctx_err n (probe w).1)

  -- Where the context ends after some ticks, waitForServiceReady with a timeout returns: without
  -- an error exactly if one of the probes up to then said that the service is ready, and else with
  -- the reason of the last of these probes.
  pub wait_for_service_ready_lem :
      (timeout : ℤ) (ctx_err : Error) (n : ℕ) (w : W)
      → is_positive timeout ≡ true
      → (wait_for_service_ready probe timeout ctx_err (ticks n) w).0
        ≡ some (if ready_by n w then ok tt else err (why_timed_out ctx_err (probe (after n w)).0))
  unfolding wait_for_service_ready
  wait_for_service_ready_lem timeout ctx_err n w h = rw h (wait_loop_lem ctx_err n w)
