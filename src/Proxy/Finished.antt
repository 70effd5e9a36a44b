-- ===== src/Proxy/Finished.antt =====
-- A run of the retry loop that did not run out of fuel.
use loxy_router.Base.{
  ℕ, zero, suc, ◌≢◌, refl, Bool, true, List, [], ◌∷◌, ◌++◌, map, Str, In, here, there, insert,
  str_Eq,
}
use loxy_router.Text.{Unicode}
use loxy_router.Float.{Float64}
use loxy_router.Backend.{Backend}
use loxy_router.Scheduler.{ClientRequest}
use loxy_router.Proxy.{Effect, Outcome, stuck, Attempt, ends, again, Round, attempt, loop}
use loxy_router.Proxy.Loop.{Facts, done, more, Run, Run-again, attempt-Facts}

-- An attempt, and the rest of the loop behind it.
abbrev pub then_loop :
    Attempt → (List (Str × Bool) → ℕ → List Effect × Outcome) → List Effect × Outcome
then_loop a rest = elim a [
  | ends es o ↦ (es, o)
  | again es tried retries ↦ let r = rest tried retries in (es ++ r.0, r.1)
]

In-name : (bs : List Backend) {b : Backend} → In b bs → In b.name (map (λ x. x.name) bs)
In-name [] m = elim m [ ]
In-name (b ∷ bs) here = here
In-name (b ∷ bs) (there m) = there (In-name bs m)

module _ (f : Float64) (u : Unicode) (req : ClientRequest) (rounds : ℕ → Round f) where
  -- What holds of a run with enough fuel holds of each that ended.
  pub unstuck-Run :
      (fuel i : ℕ) (tried : List (Str × Bool)) (retries : ℕ)
      → (loop f fuel u rounds i req tried retries).1 ≢ stuck
      → Run tried (loop f fuel u rounds i req tried retries)
  unfolding loop
  unstuck-Run zero i tried retries h = absurd (h refl)
  unstuck-Run (suc fuel) i tried retries h =
      let bs = (rounds i).sched.pool in
      go (attempt f u (rounds i) req tried retries)
        (attempt-Facts (map (λ b. b.name) bs) req tried retries f u (rounds i)
          (λ b m. In-name bs m))
        (unstuck-Run fuel (suc i)) h
    where
      go :
          (a : Attempt)
          → Facts (map (λ b. b.name) (rounds i).sched.pool) tried a
          → ((t : List (Str × Bool)) (k : ℕ)
              → (loop f fuel u rounds (suc i) req t k).1 ≢ stuck
              → Run t (loop f fuel u rounds (suc i) req t k))
          → (then_loop a (λ t k. loop f fuel u rounds (suc i) req t k)).1 ≢ stuck
          → Run tried (then_loop a (λ t k. loop f fuel u rounds (suc i) req t k))
      go a (done b e o c l) ih n = record {
        ended = e;
        balanced = b;
        once = o;
        counted = c;
        learned = l;
      }
      go a (more {n} {es} {r} m e b o c l) ih q =
          Run-again n es _ b o c l (ih (insert n true tried) r q)
