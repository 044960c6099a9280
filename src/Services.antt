-- ===== src/Services.antt =====
-- waitForServiceReady of services.go. The `select` of the loop is a schedule: each wait ends with a
-- tick of the ticker or with the end of the context.
pub mod Ready
use go_network_configurator.Prelude.{
  ℤ, Bool, true, false, List, [], ◌∷◌, Option, none, some, if◌then◌else◌, is_positive,
}
use go_network_configurator.Prelude.Exec.{
  Exec, Result, ok, err, Error, not_ready, not_ready_plain, timed_out,
}

-- What the `select` wakes up for: `<-ticker.C` or `<-ctx.Done()`
pub data Wake : Type 0 where
  tick done : Wake

-- readyProbe answers `ok ready`, or an error that is not final.
abbrev pub ReadyProbe : Type 0 → Type 0
ReadyProbe W = Exec W Bool

abbrev pub is_ready : Result Bool → Bool
is_ready (ok ready) = ready
is_ready (err e) = false

-- Why a single probe said no
abbrev pub why_not_ready : Result Bool → Error
why_not_ready (ok ready) = not_ready_plain
why_not_ready (err e) = not_ready e

-- Why the wait ran out: the last probe's error, or `ctx.Err()`
abbrev pub why_timed_out : Error → Result Bool → Error
why_timed_out ctx_err (ok ready) = timed_out ctx_err
why_timed_out ctx_err (err e) = timed_out e

module _ {W : Type 0} (probe : ReadyProbe W) where
  -- The loop, over the schedule: `none` where it still waits at the schedule's end.
  unfoldable pub wait_loop : Error → List Wake → W → Option (Result (Unit {0})) × W
  wait_loop ctx_err [] w = let (r, w') = probe w in (if is_ready r then some (ok tt) else none, w')
  wait_loop ctx_err (wake ∷ wakes) w =
      let (r, w') = probe w in
      let rest = wait_loop ctx_err wakes w' in
      if is_ready r
      then (some (ok tt), w')
      else elim wake [ tick ↦ rest | done ↦ (some (err (why_timed_out ctx_err r)), w') ]

  -- waitForServiceReady
  unfoldable pub wait_for_service_ready : ℤ → Error → List Wake → W → Option (Result (Unit {0})) × W
  wait_for_service_ready timeout ctx_err wakes w =
      if is_positive timeout
      then wait_loop ctx_err wakes w
      else (let (r, w') = probe w in
          (some (if is_ready r then ok tt else err (why_not_ready r)), w'))
