-- ===== src/Proxy.antt =====
-- proxy.go: the retry loop of ServeHTTP. What other goroutines, the backends and the client do
-- between its steps is the argument `rounds`: for each round of the loop the scheduler's view, the
-- state of the chosen backend when the slot is claimed, and the outcome of the forward. What the
-- loop does to shared state is the list of its effects, in order.
pub mod Lessons
pub mod Loop
pub mod Finished
pub mod Rounds
pub mod Reliable
pub mod Effects
pub mod Upstream
pub mod Stream
use loxy_router.Base.{
  ℕ, zero, suc, ◌+◌, ◌≡◌, Bool, true, false, not, ◌&&◌, List, [], ◌∷◌, ◌++◌, Option, none, some,
  Str, if◌then◌else◌, ℤ, pos, ltb_ℤ, leb_ℤ, insert, str_Eq,
}
use loxy_router.Text.{Unicode}
use loxy_router.Float.{Float64}
use loxy_router.Backend.{Backend, try_reserve}
use loxy_router.Scheduler.{
  ClientRequest, Scheduler, Picked, ok, no_backend, near_vram_limit, plugin_error, pick_excluding,
}

-- How p.forward and p.stream end: an error, with r.Context().Err() != nil behind it; or a response
-- with its status, the per-token latency that stream reports, and the same test behind the stream.
pub data Forward : Type 0 where
  fails : Bool → Forward
  responds : ℤ → ℤ → Bool → Forward

-- What the handler does to state that others share: tryReserve with success, decInflight,
-- RecordPerTokenMs, RecordConversation, IncRequest; `tries` is the mark in the local map `tried`.
pub data Effect : Type 0 where
  tries : Str → Effect
  reserves : ℕ → Effect
  releases : ℕ → Effect
  learns : ℕ → ℤ → Effect
  pins : Str → Str → Effect
  counts : Str → ℤ → Effect

-- How the loop ends: a response was passed on, 503 was written, the client is gone; or the fuel
-- ran out.
pub data Outcome : Type 0 where
  served : ℤ → ℕ → Outcome
  unavailable : ℕ → Outcome
  client_gone : Outcome
  stuck : Outcome

-- `retries++` happened, or not.
pub data Attempt : Type 0 where
  ends : List Effect → Outcome → Attempt
  again : List Effect → List (Str × Bool) → ℕ → Attempt

-- The statements behind p.stream.
unfoldable pub after_stream : ClientRequest → Backend → ℤ → ℤ → Bool → List Effect
after_stream req b status per_token_ms gone =
    let learning = if ltb_ℤ (pos 0) per_token_ms then learns b.addr per_token_ms ∷ [] else [] in
    releases b.addr
    ∷ ((if leb_ℤ (pos 200) status && ltb_ℤ status (pos 300) && not gone
          then learning ++ pins req.conversation_id b.name ∷ []
          else [])
        ++ counts b.name status ∷ [])

-- The forward of a reserved backend.
unfoldable pub attempt_reserved :
    ClientRequest → Backend → List (Str × Bool) → ℕ → Forward → Attempt
unfolding after_stream
attempt_reserved req b tried retries (fails true) =
    ends (tries b.name ∷ reserves b.addr ∷ releases b.addr ∷ []) client_gone
attempt_reserved req b tried retries (fails false) =
    again (tries b.name ∷ reserves b.addr ∷ releases b.addr ∷ []) tried (suc retries)
attempt_reserved req b tried retries (responds status per_token_ms gone) =
    ends (tries b.name ∷ reserves b.addr ∷ after_stream req b status per_token_ms gone)
      (served status retries)

module _ (f : Float64) where
  pub record Round : Type 0 where
    pub sched : Scheduler f
    pub now : ℕ
    pub current : Backend → Backend
    pub forward : Backend → Forward

  -- The choice of a round, and what follows from it.
  unfoldable pub attempt_picked : Round → ClientRequest → List (Str × Bool) → ℕ → Picked → Attempt
  attempt_picked r req tried retries (ok b) =
      if (try_reserve (r.current b)).1
      then attempt_reserved req b (insert b.name true tried) retries (r.forward b)
      else again (tries b.name ∷ []) (insert b.name true tried) retries
  attempt_picked r req tried retries (no_backend m) = ends [] (unavailable retries)
  attempt_picked r req tried retries near_vram_limit = ends [] (unavailable retries)
  attempt_picked r req tried retries (plugin_error e) = ends [] (unavailable retries)

  -- One round of the loop.
  unfoldable pub attempt : Unicode → Round → ClientRequest → List (Str × Bool) → ℕ → Attempt
  attempt u r req tried retries =
      attempt_picked r req tried retries (pick_excluding f u r.sched r.now req tried)

  -- The loop of ServeHTTP, on fuel; `i` numbers the rounds.
  unfoldable pub loop :
      ℕ → Unicode → (ℕ → Round) → ℕ → ClientRequest → List (Str × Bool) → ℕ → List Effect × Outcome
  loop zero u rounds i req tried retries = ([], stuck)
  loop (suc fuel) u rounds i req tried retries = elim (attempt u (rounds i) req tried retries) [
    | ends es o ↦ (es, o)
    | again es tried' retries' ↦
        let rest = loop fuel u rounds (suc i) req tried' retries' in (es ++ rest.0, rest.1)
  ]
