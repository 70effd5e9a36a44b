-- ===== src/Router/Remaining.antt =====
-- What is left of a run of the loop of Proxy, from each place where a request stands in the router.
use loxy_router.Base.{
  zero, ℕ, suc, ◌≡◌, ◌≢◌, refl, ap, sym, ◌∙◌, Bool, true, false, List, [], ◌∷◌, ◌++◌, Str, insert,
  str_Eq, if◌then◌else◌,
}
use loxy_router.Text.{Unicode}
use loxy_router.Float.{Float64}
use loxy_router.Backend.{Backend, try_reserve}
use loxy_router.Scheduler.{Scheduler, ClientRequest, ok, pick_excluding}
use loxy_router.Proxy.{
  Forward, fails, responds, Effect, tries, reserves, Outcome, unavailable, stuck, again,
  after_stream, attempt_reserved, Round, attempt_picked, attempt,
}
use loxy_router.Proxy.Finished.{then_loop}
use loxy_router.Router.{
  turned_away, Next, goes_on, ends_with, Work, picking, chosen, forwarding, doing, over, resume,
  after_forward,
}
use loxy_router.Router.Traces.{append_nil}
use loxy_router.Proxy.Rounds.{after_first, from, loop_first, none_picked}

-- The schedulers that the rounds may have seen are given by `Saw`.
module _ (f : Float64) (u : Unicode) (req : ClientRequest) (Saw : Scheduler f → Type 0) where
  abbrev Shown : (ℕ → Round f) → Type 0
  Shown rounds = (i : ℕ) → Saw (rounds i).sched

  abbrev Looped : List (Str × Bool) → ℕ → List Effect → Outcome → Type 0
  Looped tried retries es o =
      (fuel : ℕ) × (rounds : ℕ → Round f) × (from f u req fuel rounds 0 tried retries ≡ (es, o))
      × (o ≢ stuck)
      × Shown rounds

  abbrev Rest : Next → List Effect → Outcome → Type 0
  Rest (goes_on tried retries) es o = Looped tried retries es o
  Rest (ends_with p) es o = (es ≡ []) × (p ≡ o)

  -- What is left of a run of the loop, from where a request stands.
  abbrev pub Replayed : Work → List Effect → Outcome → Type 0
  Replayed (picking tried retries) es o = Looped tried retries es o
  Replayed (chosen b tried retries) es o =
      (fuel : ℕ) × (rounds : ℕ → Round f) × (c : Backend) × (end : Forward) × (then_loop
          (if (try_reserve c).1
            then attempt_reserved req b tried retries end
            else again (tries b.name ∷ []) tried retries)
          (from f u req fuel rounds 0)
        ≡ (tries b.name ∷ es, o))
      × (o ≢ stuck)
      × Shown rounds
  Replayed (forwarding b tried retries) es o =
      (fuel : ℕ) × (rounds : ℕ → Round f) × (end : Forward) × (then_loop
          (attempt_reserved req b tried retries end) (from f u req fuel rounds 0)
        ≡ (tries b.name ∷ reserves b.addr ∷ es, o))
      × (o ≢ stuck)
      × Shown rounds
  Replayed (doing ds n) es o = (fs : List Effect) × (es ≡ ds ++ fs) × Rest n fs o
  Replayed (over p) es o = (es ≡ []) × (p ≡ o)
  Replayed turned_away es o = Unit {0}

  pub resume-Rest :
      (n : Next) (es : List Effect) (o : Outcome) → Replayed (resume n) es o → Rest n es o
  resume-Rest (goes_on tried retries) es o h = h
  resume-Rest (ends_with p) es o h = h

  pub round_forwarded :
      (r : Round f) (b : Backend) (tried : List (Str × Bool)) (retries : ℕ) (end : Forward)
      {es : List Effect} {o : Outcome}
      → Saw r.sched
      → Replayed (after_forward req b tried retries end) es o
      → Replayed (forwarding b tried retries) es o
  unfolding after_forward attempt_reserved
  round_forwarded r b tried retries (fails true) v (fs, e, (z, q)) =
      (0, λ i. r, fails true, rw (e, z, sym q) refl, λ x. cc (q, x), λ i. v)
  round_forwarded r b tried retries (fails false) v (fs, e, (fuel, rounds, q, n, x)) =
      (fuel, rounds, fails false, rw (e, q) refl, n, x)
  round_forwarded r b tried retries (responds s m g) v (fs, e, (z, q)) = (
    0,
    λ i. r,
    responds s m g,
    rw (e, z, append_nil (after_stream req b s m g), sym q) refl,
    λ x. cc (q, x),
    λ i. v,
  )

  Shown-first :
      (r : Round f) (rounds : ℕ → Round f)
      → Saw r.sched
      → Shown rounds
      → Shown (after_first f u req r rounds)
  Shown-first r rounds v x zero = v
  Shown-first r rounds v x (suc i) = x i

  -- A round with a pick, whose backend stands at `c` when its slot is claimed.
  pub picked_round :
      (r : Round f) (b c : Backend) (tried : List (Str × Bool)) (retries : ℕ) (end : Forward)
      (es : List Effect) (o : Outcome) (fuel : ℕ) (rounds : ℕ → Round f)
      → pick_excluding f u r.sched r.now req tried ≡ ok b
      → then_loop
          (if (try_reserve c).1
            then attempt_reserved req b (insert b.name true tried) retries end
            else again (tries b.name ∷ []) (insert b.name true tried) retries)
          (from f u req fuel rounds 0)
        ≡ (tries b.name ∷ es, o)
      → o ≢ stuck
      → Saw r.sched
      → Shown rounds
      → Looped tried retries (tries b.name ∷ es) o
  unfolding attempt attempt_picked
  picked_round r b c tried retries end es o fuel rounds e h n v x =
      let s : Round f = record r { current = λ x. c; forward = λ x. end } in
      (
        suc fuel,
        after_first f u req s rounds,
        loop_first f u req fuel s rounds tried retries ∙ rw e h,
        n,
        Shown-first s rounds v x,
      )

  pub empty_round :
      (r : Round f) (tried : List (Str × Bool)) (retries : ℕ) (es : List Effect) (o : Outcome)
      → ((b : Backend) → pick_excluding f u r.sched r.now req tried ≢ ok b)
      → es ≡ []
      → unavailable retries ≡ o
      → Saw r.sched
      → Looped tried retries es o
  unfolding attempt
  empty_round r tried retries es o n z q v = (
    1,
    after_first f u req r (λ i. r),
    loop_first f u req 0 r (λ i. r) tried retries
        ∙ ap (λ a. then_loop a (from f u req 0 (λ i. r) 0))
            (none_picked f u req r tried retries (pick_excluding f u r.sched r.now req tried) n)
        ∙ rw (z, sym q) refl,
    λ x. cc (q, x),
    Shown-first r (λ i. r) v (λ i. v),
  )
