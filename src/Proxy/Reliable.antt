-- ===== src/Proxy/Reliable.antt =====
-- A request is served as long as one backend keeps working.
use loxy_router.Base.{
  ℕ, zero, suc, ◌<◌, ◌≡◌, ◌≢◌, refl, ap, ◌∙◌, inl, inr, Bool, true, false, List, [], ◌++◌, none,
  Str, ℤ, insert, lookup, str_Eq, str_eq, str_eq_iff, arith, In, length, Bool-cases,
}
use loxy_router.Text.{Unicode}
use loxy_router.Model.{normalize_model}
use loxy_router.Float.{Float64}
use loxy_router.Backend.{Backend, try_reserve, has_capacity}
use loxy_router.Backend.Limits.{try_reserve-has_capacity}
use loxy_router.Scheduler.{ClientRequest, ok, excluded, is_safe}
use loxy_router.Scheduler.Candidates.{Eligible}
use loxy_router.Scheduler.Choice.{pick_excluding-Eligible}
use loxy_router.Scheduler.Complete.{pick_excluding_some}
use loxy_router.Proxy.{
  Forward, fails, responds, Effect, Outcome, served, Attempt, ends, again, attempt_reserved, Round,
  attempt_picked, attempt, loop,
}
use loxy_router.Proxy.Loop.{untried, excluded-insert, untried-insert, untried-length}

-- Backends of a name that work in a round: the scheduler may choose one of them, has no plugin that
-- prevents it, and each has a slot and responds; and the client waits.
pub record Works (f : Float64) (u : Unicode) (req : ClientRequest) (name : Str) (r : Round f)
    : Type 0 where
  pub backend : Backend
  pub named : backend.name ≡ name
  pub eligible : Eligible r.sched.pool (normalize_model u req.model) [] backend
  pub safe : is_safe f r.sched.store backend ≡ true
  pub unplugged : r.sched.plugin ≡ none
  pub free : (b : Backend) → In b r.sched.pool → b.name ≡ name → has_capacity (r.current b) ≡ true
  pub answers :
      (b : Backend)
      → In b r.sched.pool
      → b.name ≡ name
      → (s : ℤ) × (t : ℤ) × (gone : Bool) × (r.forward b ≡ responds s t gone)
  pub waits : (b : Backend) → r.forward b ≢ fails true

-- A response was passed on.
abbrev pub IsServed : List Effect × Outcome → Type 0
IsServed r = (s : ℤ) × (k : ℕ) × (r.1 ≡ served s k)

-- A round serves the request, or tries another name and goes on.
data Step (name : Str) (names : List Str) (tried : List (Str × Bool)) (retries : ℕ)
    : Attempt → Type 0 where
  serves : {es : List Effect} (s : ℤ) → Step name names tried retries (ends es (served s retries))
  retries_on :
      {es : List Effect} (other : Str) (k : ℕ)
      → In other names
      → excluded tried other ≡ false
      → str_eq other name ≡ false
      → Step name names tried retries (again es (insert other true tried) k)

module _ (f : Float64) (u : Unicode) (names : List Str) (req : ClientRequest) (name : Str) where
  attempt_reserved-Step :
      (b : Backend) (w : Forward) (tried : List (Str × Bool)) (retries : ℕ)
      → In b.name names
      → excluded tried b.name ≡ false
      → str_eq b.name name ≡ false
      → w ≢ fails true
      → Step name names tried retries (attempt_reserved req b (insert b.name true tried) retries w)
  unfolding attempt_reserved
  attempt_reserved-Step b (fails true) tried retries m e n w = absurd (w refl)
  attempt_reserved-Step b (fails false) tried retries m e n w =
      retries_on b.name (suc retries) m e n
  attempt_reserved-Step b (responds s t g) tried retries m e n w = serves s

  -- The round's choice is one of the backends that work, or another one.
  attempt_picked-Step :
      (r : Round f) (b : Backend) (tried : List (Str × Bool)) (retries : ℕ)
      → Works f u req name r
      → In b r.sched.pool
      → In b.name names
      → excluded tried b.name ≡ false
      → Step name names tried retries (attempt_picked f r req tried retries (ok b))
  unfolding attempt_picked attempt_reserved
  attempt_picked-Step r b tried retries v m known e = elim (Bool-cases (str_eq b.name name)) [
    | inl q ↦
        let same = (str_eq_iff b.name name).0 q in
        let (s, t, g, a) = v.answers b m same in
        let held : (try_reserve (r.current b)).1 ≡ true =
          try_reserve-has_capacity (r.current b) ∙ v.free b m same in
        rw (held, a) (serves s)
    | inr n ↦ elim (Bool-cases (try_reserve (r.current b)).1) [
      | inl h ↦ rw h (attempt_reserved-Step b (r.forward b) tried retries known e n (v.waits b))
      | inr h ↦ rw h (retries_on b.name retries known e n)
    ]
  ]

  attempt-Step :
      (r : Round f) (tried : List (Str × Bool)) (retries : ℕ)
      → Works f u req name r
      → ((b : Backend) → In b r.sched.pool → In b.name names)
      → excluded tried name ≡ false
      → Step name names tried retries (attempt f u r req tried retries)
  unfolding attempt
  attempt-Step r tried retries v known e =
      let g = v.eligible in
      let still : Eligible r.sched.pool (normalize_model u req.model) tried v.backend = record {
        member = g.member;
        up = g.up;
        supports = g.supports;
        free = g.free;
        allowed = ap (excluded tried) v.named ∙ e;
      } in
      let (b, q) = pick_excluding_some f u r.sched r.now req tried v.unplugged still v.safe in
      let chosen = pick_excluding-Eligible f u r.sched r.now req tried q in
      rw q (
        attempt_picked-Step r b tried retries v chosen.member (known b chosen.member)
          chosen.allowed)

  none_tried : excluded [] name ≡ false
  unfolding excluded lookup
  none_tried = refl

  module _ (rounds : ℕ → Round f) where
    loop_from :
        ((i : ℕ) → Works f u req name (rounds i))
        → ((i : ℕ) (b : Backend) → In b (rounds i).sched.pool → In b.name names)
        → (fuel i : ℕ) (tried : List (Str × Bool)) (retries : ℕ) → untried tried names < fuel
        → excluded tried name ≡ false
        → IsServed (loop f fuel u rounds i req tried retries)
    unfolding loop
    loop_from works known zero i tried retries h e = absurd (omega arith)
    loop_from works known (suc fuel) i tried retries h e =
        go (attempt f u (rounds i) req tried retries)
          (attempt-Step (rounds i) tried retries (works i) (known i) e)
          (loop_from works known fuel (suc i))
      where
        go :
            (a : Attempt)
            → Step name names tried retries a
            → ((t : List (Str × Bool)) (k : ℕ)
                → untried t names < fuel
                → excluded t name ≡ false
                → IsServed (loop f fuel u rounds (suc i) req t k))
            → IsServed (elim a [
              | ends es o ↦ (es, o)
              | again es t k ↦
                  let rest = loop f fuel u rounds (suc i) req t k in (es ++ rest.0, rest.1)
            ])
        go a (serves s) ih = (s, retries, refl)
        go a (retries_on other k m x n) ih =
            ih (insert other true tried) k (omega (arith, untried-insert other tried names m x))
              (excluded-insert other name tried ∙ rw n e)

    -- A request is served as long as one backend keeps working: if in every round the scheduler, with
    -- no plugin, may choose a backend of some name that is below the VRAM limit, and the backends of
    -- that name have a slot and respond, then the loop ends by passing a response on, whatever the
    -- other backends do and however the pool changes between its rounds. No backend gets a new
    -- name, the fuel is one round more than there are names, and the client waits.
    pub loop-IsServed :
        ((i : ℕ) → Works f u req name (rounds i))
        → ((i : ℕ) (b : Backend) → In b (rounds i).sched.pool → In b.name names)
        → (fuel : ℕ) → length names < fuel
        → IsServed (loop f fuel u rounds 0 req [] 0)
    loop-IsServed works known fuel h =
        loop_from works known fuel 0 [] 0 (omega (arith, untried-length names)) none_tried
