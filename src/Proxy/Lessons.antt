-- ===== src/Proxy/Lessons.antt =====
-- What the retry loop counts and learns.
use loxy_router.Base.{
  ℕ, ◌≡◌, refl, ap, ◌⊎◌, inl, inr, Bool, not, ◌&&◌, List, [], ◌∷◌, ◌++◌, ℤ, pos, ◌≤ℤ◌, ◌<ℤ◌, leb_ℤ,
  ltb_ℤ, total, total-append, arith, Bool-cases,
}
use loxy_router.Backend.{Backend}
use loxy_router.Scheduler.{ClientRequest}
use loxy_router.Proxy.{
  Effect, tries, reserves, releases, learns, pins, counts, Outcome, served, unavailable,
  client_gone, stuck, after_stream,
}

-- The statuses that are counted, and those that the outcome calls for.
abbrev pub statuses : List Effect → List ℤ
statuses [] = []
statuses (counts n s ∷ es) = s ∷ statuses es
statuses (tries n ∷ es) = statuses es
statuses (reserves p ∷ es) = statuses es
statuses (releases p ∷ es) = statuses es
statuses (learns p t ∷ es) = statuses es
statuses (pins c n ∷ es) = statuses es

abbrev pub passed_on : Outcome → List ℤ
passed_on (served s k) = s ∷ []
passed_on (unavailable k) = []
passed_on client_gone = []
passed_on stuck = []

pub statuses-append : (es fs : List Effect) → statuses (es ++ fs) ≡ statuses es ++ statuses fs
statuses-append [] fs = refl
statuses-append (counts n s ∷ es) fs = ap (s ∷◌) (statuses-append es fs)
statuses-append (tries n ∷ es) fs = statuses-append es fs
statuses-append (reserves p ∷ es) fs = statuses-append es fs
statuses-append (releases p ∷ es) fs = statuses-append es fs
statuses-append (learns p t ∷ es) fs = statuses-append es fs
statuses-append (pins c n ∷ es) fs = statuses-append es fs

-- Whatever is learned from a response: a latency, or where a conversation is.
abbrev pub lessons : Effect → ℕ
lessons (learns p t) = 1
lessons (pins c n) = 1
lessons _ = 0

-- A response was passed on whose status says success.
abbrev pub Succeeds : Outcome → Type 0
Succeeds o = (s : ℤ) × (k : ℕ) × (o ≡ served s k) × (pos 200 ≤ℤ s) × (s <ℤ pos 300)

pub attempt_learned :
    (req : ClientRequest) (b : Backend) (status per_token_ms : ℤ) (gone : Bool) (k : ℕ)
    → (total lessons (tries b.name ∷ reserves b.addr ∷ after_stream req b status per_token_ms gone)
        ≡ 0)
      ⊎ Succeeds (served status k)
unfolding after_stream
attempt_learned req b status per_token_ms gone k =
    elim (Bool-cases (leb_ℤ (pos 200) status && ltb_ℤ status (pos 300) && not gone)) [
      | inl e ↦ inr (status, k, refl, ground (arith, e), ground (arith, e))
      | inr e ↦ inl (ground (arith, e))
    ]

pub learned_later :
    {o : Outcome} (es later : List Effect)
    → total lessons es ≡ 0
    → (total lessons later ≡ 0) ⊎ Succeeds o
    → (total lessons (es ++ later) ≡ 0) ⊎ Succeeds o
learned_later es later h (inl z) = inl (omega (arith, total-append lessons es later))
learned_later es later h (inr s) = inr s
