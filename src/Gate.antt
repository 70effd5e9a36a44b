-- ===== src/Gate.antt =====
-- gate.go: admission control. A `chan struct{}` is a number, fresh for each `make`; `close` puts it
-- on the list of closed channels. What `limitFn` returns at a call is the argument `live`. The code
-- between `Lock` and `Unlock` is one function.
pub mod Order
pub mod Bounds
pub mod System
pub mod Accounting
pub mod Entries
pub mod Handover
pub mod Moves
pub mod Safety
pub mod Load
pub mod Progress
use loxy_router.Base.{
  ℕ, zero, suc, ◌+◌, ◌≡◌, Bool, true, false, ◌&&◌, ◌||◌, List, [], ◌∷◌, ◌++◌, length, ◌==◌,
  if◌then◌else◌, ℤ, pos, negsuc, ltb_ℤ, leb_ℤ, add64, Str,
}
use loxy_router.Model.{Priority, interactive, batch, background, priority_string}
use loxy_router.Config.{Limits}

-- The array of queues, a field for each tier.
pub record Queues : Type 0 where
  pub interactive : List ℕ
  pub batch : List ℕ
  pub background : List ℕ

pub record Gate : Type 0 where
  pub max_inflight : ℤ
  pub has_limit_fn : Bool
  pub limits : Limits
  pub inflight : ℤ
  pub queues : Queues
  pub next_chan : ℕ
  pub closed : List ℕ

-- NewGate
unfoldable pub new_gate : ℤ → Limits → Gate
new_gate max_inflight limits = record {
  max_inflight = max_inflight;
  has_limit_fn = false;
  limits = limits;
  inflight = pos 0;
  queues = record { interactive = []; batch = []; background = [] };
  next_chan = 0;
  closed = [];
}

-- SetLimitFunc
unfoldable pub set_limit_func : Gate → Gate
set_limit_func g = record g { has_limit_fn = true }

abbrev pub max_int32 : ℤ
max_int32 = pos 2_147_483_647

-- limit
unfoldable pub limit : Gate → ℤ → ℤ
limit g live =
    if g.has_limit_fn then (if ltb_ℤ (pos 0) live then live else max_int32) else g.max_inflight

-- g.queues[p], g.limits[p]
abbrev pub queue_of : Queues → Priority → List ℕ
queue_of q interactive = q.interactive
queue_of q batch = q.batch
queue_of q background = q.background

abbrev pub limit_of : Limits → Priority → ℤ
limit_of l interactive = l.interactive
limit_of l batch = l.batch
limit_of l background = l.background

-- g.queues[p] = q
abbrev pub set_queue : Queues → Priority → List ℕ → Queues
set_queue q interactive l = record q { interactive = l }
set_queue q batch l = record q { batch = l }
set_queue q background l = record q { background = l }

-- totalQueued
unfoldable pub total_queued : Gate → ℕ
total_queued g = length g.queues.interactive + length g.queues.batch + length g.queues.background

-- How the locked part of Acquire ends.
pub data Entry : Type 0 where
  admitted rejected : Entry
  waiting : ℕ → Entry

-- Acquire, up to the `select`.
unfoldable pub acquire : Gate → ℤ → Priority → Gate × Entry
unfolding limit total_queued
acquire g live p =
    let l = limit g live in
    let q = queue_of g.queues p in
    if leb_ℤ l (pos 0)
    then (g, admitted)
    else if ltb_ℤ g.inflight l && total_queued g == 0
    then (record g { inflight = add64 g.inflight (pos 1) }, admitted)
    else if ltb_ℤ (pos 0) (limit_of g.limits p) && leb_ℤ (limit_of g.limits p) (pos (length q))
    then (g, rejected)
    else (
      record g {
        queues = set_queue g.queues p (q ++ g.next_chan ∷ []);
        next_chan = suc g.next_chan;
      },
      waiting g.next_chan,
    )

-- The body of the loop in Release: the head of a queue is woken, and gets the slot.
unfoldable pub wake : Gate → Priority → ℕ → List ℕ → Gate
wake g p ready rest = record g {
  inflight = add64 g.inflight (pos 1);
  queues = set_queue g.queues p rest;
  closed = ready ∷ g.closed;
}

-- The loop over the tiers in Release.
unfoldable pub hand_over : Gate → Gate
unfolding wake
hand_over g = elim g.queues.interactive [
  | c ∷ rest ↦ wake g interactive c rest
  | [] ↦ elim g.queues.batch [
    | c ∷ rest ↦ wake g batch c rest
    | [] ↦ elim g.queues.background [ c ∷ rest ↦ wake g background c rest | [] ↦ g ]
  ]
]

-- Release
unfoldable pub release : Gate → ℤ → Gate
unfolding limit hand_over
release g live =
    if leb_ℤ (limit g live) (pos 0)
    then g
    else hand_over (record g { inflight = add64 g.inflight (negsuc 0) })

-- A receive from a channel succeeds once it is closed.
unfoldable pub is_closed : ℕ → List ℕ → Bool
is_closed c [] = false
is_closed c (d ∷ ds) = d == c || is_closed c ds

-- The loop that takes the first occurrence of a channel out of a queue.
unfoldable pub remove_chan : ℕ → List ℕ → List ℕ
remove_chan c [] = []
remove_chan c (d ∷ ds) = if d == c then ds else d ∷ remove_chan c ds

-- The second `select` of Acquire, when the context is done: `true` says that the request was woken
-- just then and owes a Release.
unfoldable pub cancel : Gate → Priority → ℕ → Gate × Bool
unfolding is_closed remove_chan
cancel g p ready = if is_closed ready g.closed then (g, true) else (
  record g { queues = set_queue g.queues p (remove_chan ready (queue_of g.queues p)) },
  false,
)

pub record GateStats : Type 0 where
  pub max_inflight : ℤ
  pub inflight : ℤ
  pub queued : List (Str × ℕ)

-- Stats
unfoldable pub stats : Gate → ℤ → GateStats
stats g live = record {
  max_inflight = if g.has_limit_fn then live else g.max_inflight;
  inflight = g.inflight;
  queued =
      (priority_string interactive, length g.queues.interactive)
      ∷ (priority_string batch, length g.queues.batch)
      ∷ (priority_string background, length g.queues.background)
      ∷ [];
}
