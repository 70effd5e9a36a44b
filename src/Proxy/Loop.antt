-- ===== src/Proxy/Loop.antt =====
-- The end of the retry loop, the names that it tries, and the slots that it claims.
use loxy_router.Base.{
  ◌⊎◌, ℕ, zero, suc, ◌+◌, ◌≤◌, ◌<◌, ◌≡◌, ◌≢◌, refl, ap, ◌∙◌, inl, inr, Bool, true, false, List, [],
  ◌∷◌, ◌++◌, Str, if◌then◌else◌, insert, lookup-insert, str_Eq, str_eq, str_eq_iff, arith, In,
  In-cons, length, ◌==◌, Bool-cases, total, total-append,
}
use loxy_router.Text.{Unicode}
use loxy_router.Float.{Float64}
use loxy_router.Backend.{Backend, try_reserve}
use loxy_router.Scheduler.{
  ClientRequest, Picked, ok, no_backend, near_vram_limit, plugin_error, excluded,
}
use loxy_router.Scheduler.Choice.{pick_excluding-Eligible}
use loxy_router.Proxy.Lessons.{
  statuses, passed_on, statuses-append, lessons, Succeeds, attempt_learned, learned_later,
}
use loxy_router.Proxy.{
  Forward, fails, responds, Effect, tries, reserves, releases, learns, pins, counts, Outcome, stuck,
  Attempt, ends, again, attempt_reserved, Round, attempt_picked, attempt, loop,
}

-- How many of the names have not been tried.
abbrev pub untried : List (Str × Bool) → List Str → ℕ
untried tried [] = 0
untried tried (n ∷ ns) = (if excluded tried n then 0 else 1) + untried tried ns

pub excluded-insert :
    (n m : Str) (tried : List (Str × Bool))
    → excluded (insert n true tried) m ≡ (if str_eq n m then true else excluded tried m)
unfolding excluded
excluded-insert n m tried = ground (arith, lookup-insert n m true tried)

untried-le :
    (n : Str) (tried : List (Str × Bool)) (ns : List Str)
    → untried (insert n true tried) ns ≤ untried tried ns
untried-le n tried [] = omega arith
untried-le n tried (m ∷ ns) = ground (arith, excluded-insert n m tried, untried-le n tried ns)

-- Each name that is tried for the first time is one less.
pub untried-insert :
    (n : Str) (tried : List (Str × Bool)) (ns : List Str)
    → In n ns
    → excluded tried n ≡ false
    → untried (insert n true tried) ns < untried tried ns
untried-insert n tried [] m e = elim m [ ]
untried-insert n tried (k ∷ ns) m e = elim (In-cons m) [
  | inl q ↦ ground (
    arith,
    excluded-insert n k tried,
    (str_eq_iff n k).1 q,
    ap (excluded tried) q ∙ refl,
    untried-le n tried ns,
  )
  | inr i ↦ ground (arith, excluded-insert n k tried, untried-insert n tried ns i e)
]

-- Claims and returns of the slot of one backend.
abbrev pub claims : ℕ → Effect → ℕ
claims p (reserves q) = if q == p then 1 else 0
claims p _ = 0

abbrev pub returns : ℕ → Effect → ℕ
returns p (releases q) = if q == p then 1 else 0
returns p _ = 0

abbrev pub Balanced : List Effect → Type 0
Balanced es = (p : ℕ) → total (claims p) es ≡ total (returns p) es

Balanced-append : (es fs : List Effect) → Balanced es → Balanced fs → Balanced (es ++ fs)
Balanced-append es fs h k p =
    omega (arith, h p, k p, total-append (claims p) es fs, total-append (returns p) es fs)

-- Every name that is tried was not tried before.
abbrev pub TriedOnce : List (Str × Bool) → List Effect → Type 0
TriedOnce tried [] = Unit {0}
TriedOnce tried (tries n ∷ es) = (excluded tried n ≡ false) × TriedOnce (insert n true tried) es
TriedOnce tried (reserves p ∷ es) = TriedOnce tried es
TriedOnce tried (releases p ∷ es) = TriedOnce tried es
TriedOnce tried (learns p t ∷ es) = TriedOnce tried es
TriedOnce tried (pins c n ∷ es) = TriedOnce tried es
TriedOnce tried (counts n s ∷ es) = TriedOnce tried es

-- What a round does: it ends the loop, or marks one more name and goes on.
pub data Facts (names : List Str) (tried : List (Str × Bool)) : Attempt → Type 0 where
  done :
      {es : List Effect} {o : Outcome}
      → Balanced es
      → o ≢ stuck
      → TriedOnce tried es
      → statuses es ≡ passed_on o
      → (total lessons es ≡ 0) ⊎ Succeeds o
      → Facts names tried (ends es o)
  more :
      {n : Str} {es : List Effect} {r : ℕ}
      → In n names
      → excluded tried n ≡ false
      → Balanced es
      → ((rest : List Effect) → TriedOnce (insert n true tried) rest → TriedOnce tried (es ++ rest))
      → statuses es ≡ []
      → total lessons es ≡ 0
      → Facts names tried (again es (insert n true tried) r)

module _ (names : List Str) (req : ClientRequest) (tried : List (Str × Bool)) (retries : ℕ) where
  attempt_reserved-Facts :
      (b : Backend) (w : Forward)
      → In b.name names
      → excluded tried b.name ≡ false
      → Facts names tried (attempt_reserved req b (insert b.name true tried) retries w)
  unfolding attempt_reserved
  attempt_reserved-Facts b (fails true) m e =
      done (λ p. ground arith) (λ q. cc) (e, tt) refl (inl refl)
  attempt_reserved-Facts b (fails false) m e =
      more m e (λ p. ground arith) (λ rest h. (e, h)) refl refl
  attempt_reserved-Facts b (responds s t g) m e =
      done (λ p. ground arith) (λ q. cc) (ground (arith, e)) (ground arith)
        (attempt_learned req b s t g retries)

  module _ (f : Float64) where
    attempt_picked-Facts :
        (r : Round f) (k : Picked)
        → ((b : Backend) → k ≡ ok b → In b.name names × (excluded tried b.name ≡ false))
        → Facts names tried (attempt_picked f r req tried retries k)
    unfolding attempt_picked
    attempt_picked-Facts r (ok b) h = elim (Bool-cases (try_reserve (r.current b)).1) [
      | inl e ↦ rw e (attempt_reserved-Facts b (r.forward b) (h b refl).0 (h b refl).1)
      | inr e ↦ rw e (
          more (h b refl).0 (h b refl).1 (λ p. ground arith) (λ rest k. ((h b refl).1, k)) refl
            refl)
    ]
    attempt_picked-Facts r (no_backend m) h = done (λ p. refl) (λ q. cc) tt refl (inl refl)
    attempt_picked-Facts r near_vram_limit h = done (λ p. refl) (λ q. cc) tt refl (inl refl)
    attempt_picked-Facts r (plugin_error x) h = done (λ p. refl) (λ q. cc) tt refl (inl refl)

    pub attempt-Facts :
        (u : Unicode) (r : Round f)
        → ((b : Backend) → In b r.sched.pool → In b.name names)
        → Facts names tried (attempt f u r req tried retries)
    unfolding attempt
    attempt-Facts u r known = attempt_picked-Facts r _ λ b e.
        let v = pick_excluding-Eligible f u r.sched r.now req tried e in
        (known b v.member, v.allowed)

-- What is proved of a run of the loop.
pub record Run (tried : List (Str × Bool)) (r : List Effect × Outcome) : Type 0 where
  pub ended : r.1 ≢ stuck
  pub balanced : Balanced r.0
  pub once : TriedOnce tried r.0
  pub counted : statuses r.0 ≡ passed_on r.1
  pub learned : (total lessons r.0 ≡ 0) ⊎ Succeeds r.1

pub untried-length : (ns : List Str) → untried [] ns ≤ length ns
untried-length [] = omega arith
untried-length (n ∷ ns) = ground (arith, untried-length ns)

-- A failed attempt in front of a run.
pub Run-again :
    {tried : List (Str × Bool)} (n : Str) (es : List Effect) (rest : List Effect × Outcome)
    → Balanced es
    → ((fs : List Effect) → TriedOnce (insert n true tried) fs → TriedOnce tried (es ++ fs))
    → statuses es ≡ []
    → total lessons es ≡ 0
    → Run (insert n true tried) rest
    → Run tried (es ++ rest.0, rest.1)
Run-again n es rest b o c l run = record {
  ended = run.ended;
  balanced = Balanced-append es _ b run.balanced;
  once = o _ run.once;
  counted = statuses-append es _ ∙ ap (◌++ statuses rest.0) c ∙ run.counted;
  learned = learned_later es rest.0 l run.learned;
}

module _ (f : Float64) (u : Unicode) (rounds : ℕ → Round f) (names : List Str)
    (req : ClientRequest) where
  loop-Run :
      ((i : ℕ) (b : Backend) → In b (rounds i).sched.pool → In b.name names)
      → (fuel i : ℕ) (tried : List (Str × Bool)) (retries : ℕ) → untried tried names < fuel
      → Run tried (loop f fuel u rounds i req tried retries)
  unfolding loop
  loop-Run known zero i tried retries h = absurd (omega arith)
  loop-Run known (suc fuel) i tried retries h =
      go (attempt f u (rounds i) req tried retries)
        (attempt-Facts names req tried retries f u (rounds i) (known i))
        (loop-Run known fuel (suc i))
    where
      go :
          (a : Attempt)
          → Facts names tried a
          → ((t : List (Str × Bool)) (k : ℕ)
              → untried t names < fuel
              → Run t (loop f fuel u rounds (suc i) req t k))
          → Run tried (elim a [
            | ends es o ↦ (es, o)
            | again es t k ↦
                let rest = loop f fuel u rounds (suc i) req t k in (es ++ rest.0, rest.1)
          ])
      go a (done b e o c l) ih = record {
        ended = e;
        balanced = b;
        once = o;
        counted = c;
        learned = l;
      }
      go a (more {n} {es} {r} m e b o c l) ih =
          Run-again n es _ b o c l
            (ih (insert n true tried) r (omega (arith, untried-insert n tried names m e)))

  -- The retry loop ends: with one round more than there are backend names, it always comes to a
  -- response, to 503, or to a client that is gone, whatever other requests, the health checks, the
  -- scraper, the plugin and the backends do between its steps, as long as no backend gets a new
  -- name. On the way it tries no name twice; for each backend it returns just as many slots as it
  -- claimed, on every path; it counts the status of a response that it passes on, once, and no
  -- other status; and it learns a latency or pins a conversation only if that status is from 200 to
  -- 299.
  pub loop_ends :
      ((i : ℕ) (b : Backend) → In b (rounds i).sched.pool → In b.name names)
      → (fuel : ℕ) → length names < fuel
      → Run [] (loop f fuel u rounds 0 req [] 0)
  loop_ends known fuel h = loop-Run known fuel 0 [] 0 (omega (arith, untried-length names))
