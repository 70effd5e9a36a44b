-- ===== src/Gate/System.antt =====
-- Requests that share a gate: every interleaving of the locked parts of Acquire and Release, of
-- wake-ups, and of clients that give up. The live limit is arbitrary at each step.
use loxy_router.Base.{
  ℕ, ◌+◌, ◌≡◌, ◌⊎◌, Bool, true, false, List, [], ◌∷◌, ◌++◌, ◌&&◌, ◌==◌, if◌then◌else◌, ℤ, pos, ◌<ℤ◌,
  arith,
}
use loxy_router.Model.{Priority, interactive, batch, background}
use loxy_router.Gate.{
  Gate, limit, acquire, release, cancel, admitted, rejected, waiting, is_closed, Queues, queue_of,
  set_queue,
}

-- Where a request stands. A serving request owes a Release, on its way out too.
pub data Request : Type 0 where
  arriving : Priority → Request
  queued : Priority → ℕ → Request
  serving finished : Request

pub data Move (g : Gate) : Request → Gate → Request → Type 0 where
  enters :
      {p : Priority} (live : ℤ)
      → (acquire g live p).1 ≡ admitted
      → Move g (arriving p) (acquire g live p).0 serving
  bounces :
      {p : Priority} (live : ℤ)
      → (acquire g live p).1 ≡ rejected
      → Move g (arriving p) (acquire g live p).0 finished
  waits :
      {p : Priority} {c : ℕ} (live : ℤ)
      → (acquire g live p).1 ≡ waiting c
      → Move g (arriving p) (acquire g live p).0 (queued p c)
  wakes : {p : Priority} {c : ℕ} → is_closed c g.closed ≡ true → Move g (queued p c) g serving
  gives_up :
      {p : Priority} {c : ℕ}
      → (cancel g p c).1 ≡ false
      → Move g (queued p c) (cancel g p c).0 finished
  gives_up_woken :
      {p : Priority} {c : ℕ}
      → (cancel g p c).1 ≡ true
      → Move g (queued p c) (cancel g p c).0 serving
  leaves : (live : ℤ) → Move g serving (release g live) finished

pub record System : Type 0 where
  pub gate : Gate
  pub requests : List Request

pub data Step (s : System) (t : System) : Type 0 where
  moves :
      (xs ys : List Request) (p q : Request)
      → s.requests ≡ xs ++ p ∷ ys
      → t.requests ≡ xs ++ q ∷ ys
      → Move s.gate p t.gate q
      → Step s t

pub data Reach (s : System) : System → Type 0 where
  here : Reach s s
  later : {t u : System} → Reach s t → Step t u → Reach s u

-- A gate that is in force: dynamic, or with a positive static limit.
abbrev pub InForce : Gate → Type 0
InForce g = (g.has_limit_fn ≡ true) ⊎ (pos 0 <ℤ g.max_inflight)

pub limit_pos : (g : Gate) (live : ℤ) → InForce g → pos 0 <ℤ limit g live
unfolding limit
limit_pos g live f = ground arith

abbrev pub same : Priority → Priority → Bool
same interactive interactive = true
same batch batch = true
same background background = true
same _ _ = false

pub queue_of-set_queue :
    (q : Queues) (p r : Priority) (l : List ℕ)
    → queue_of (set_queue q p l) r ≡ (if same p r then l else queue_of q r)
queue_of-set_queue q interactive r l = ground arith
queue_of-set_queue q batch r l = ground arith
queue_of-set_queue q background r l = ground arith

abbrev pub count : ℕ → List ℕ → ℕ
count c [] = 0
count c (d ∷ ds) = (if d == c then 1 else 0) + count c ds

-- Whether a request waits in a tier on a channel, and whether it has a slot.
abbrev pub waits_on : Priority → ℕ → Request → ℕ
waits_on p c (queued q d) = if same p q && d == c then 1 else 0
waits_on p c _ = 0

abbrev pub owns : List ℕ → Request → ℕ
owns closed serving = 1
owns closed (queued p c) = if is_closed c closed then 1 else 0
owns closed _ = 0
