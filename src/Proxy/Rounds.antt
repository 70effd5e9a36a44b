-- ===== src/Proxy/Rounds.antt =====
-- The retry loop, round by round.
use loxy_router.Base.{ℕ, zero, suc, ◌≡◌, ◌≢◌, refl, ap, ◌∙◌, Bool, List, [], ◌++◌, Str, str_Eq}
use loxy_router.Text.{Unicode}
use loxy_router.Float.{Float64}
use loxy_router.Backend.{Backend}
use loxy_router.Scheduler.{ClientRequest, ok, no_backend, near_vram_limit, plugin_error, Picked}
use loxy_router.Proxy.{
  Effect, Outcome, unavailable, Attempt, ends, again, Round, attempt_picked, attempt, loop,
}
use loxy_router.Proxy.Finished.{then_loop}
use loxy_router.Router.Traces.{Trace.ends}

then_loop_same :
    (a : Attempt) (r s : List (Str × Bool) → ℕ → List Effect × Outcome)
    → ((tried : List (Str × Bool)) (retries : ℕ) → r tried retries ≡ s tried retries)
    → then_loop a r ≡ then_loop a s
then_loop_same (ends es o) r s h = refl
then_loop_same (again es tried retries) r s h = ap (λ q. (es ++ q.0, q.1)) (h tried retries)

module _ (f : Float64) (u : Unicode) (req : ClientRequest) where
  abbrev pub after_first : Round f → (ℕ → Round f) → ℕ → Round f
  after_first r rounds zero = r
  after_first r rounds (suc i) = rounds i

  abbrev pub from : ℕ → (ℕ → Round f) → ℕ → List (Str × Bool) → ℕ → List Effect × Outcome
  from fuel rounds i tried retries = loop f fuel u rounds i req tried retries

  loop_step :
      (fuel : ℕ) (rounds : ℕ → Round f) (i : ℕ) (tried : List (Str × Bool)) (retries : ℕ)
      → from (suc fuel) rounds i tried retries
        ≡ then_loop (attempt f u (rounds i) req tried retries) (from fuel rounds (suc i))
  unfolding loop
  loop_step fuel rounds i tried retries = refl

  loop_shift :
      (fuel : ℕ) (rounds : ℕ → Round f) (i : ℕ) (tried : List (Str × Bool)) (retries : ℕ)
      → from fuel rounds (suc i) tried retries ≡ from fuel (λ j. rounds (suc j)) i tried retries
  unfolding loop
  loop_shift zero rounds i tried retries = refl
  loop_shift (suc fuel) rounds i tried retries =
      then_loop_same (attempt f u (rounds (suc i)) req tried retries) _ _
        (loop_shift fuel rounds (suc i))

  -- The loop in a round, and behind it as other rounds have it.
  pub loop_first :
      (fuel : ℕ) (r : Round f) (rounds : ℕ → Round f) (tried : List (Str × Bool)) (retries : ℕ)
      → from (suc fuel) (after_first r rounds) 0 tried retries
        ≡ then_loop (attempt f u r req tried retries) (from fuel rounds 0)
  loop_first fuel r rounds tried retries =
      loop_step fuel (after_first r rounds) 0 tried retries
      ∙ then_loop_same (attempt f u r req tried retries) _ _
          (loop_shift fuel (after_first r rounds) 0)

  pub none_picked :
      (r : Round f) (tried : List (Str × Bool)) (retries : ℕ) (p : Picked)
      → ((b : Backend) → p ≢ ok b)
      → attempt_picked f r req tried retries p ≡ ends [] (unavailable retries)
  unfolding attempt_picked
  none_picked r tried retries (ok b) h = absurd (h b refl)
  none_picked r tried retries (no_backend m) h = refl
  none_picked r tried retries near_vram_limit h = refl
  none_picked r tried retries (plugin_error e) h = refl
