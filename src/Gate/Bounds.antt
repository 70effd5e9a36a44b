-- ===== src/Gate/Bounds.antt =====
-- The bounds of the gate: queue lengths, the counter under a fixed limit, and who gets in.
use loxy_router.Base.{ℕ, ◌≤◌, ◌⊎◌, List, [], ◌∷◌, arith, length, length-append, ℤ, pos, ◌≤ℤ◌}
use loxy_router.Config.{Limits}
use loxy_router.Model.{Priority, interactive, batch, background}
use loxy_router.Gate.{Gate, queue_of, limit_of, acquire, release, cancel, remove_chan, new_gate}

pub length-remove_chan : (c : ℕ) (ds : List ℕ) → length (remove_chan c ds) ≤ length ds
unfolding remove_chan
length-remove_chan c [] = omega arith
length-remove_chan c (d ∷ ds) = ground (arith, length-remove_chan c ds)

-- No queue is longer than the limit of its tier, where that limit is positive.
abbrev pub Bounded : Gate → Priority → Type 0
Bounded g p =
    (limit_of g.limits p ≤ℤ pos 0) ⊎ (pos (length (queue_of g.queues p)) ≤ℤ limit_of g.limits p)

abbrev pub AllBounded : Gate → Type 0
AllBounded g = Bounded g interactive × Bounded g batch × Bounded g background

pub acquire-AllBounded :
    (g : Gate) (live : ℤ) (p : Priority) → AllBounded g → AllBounded (acquire g live p).0
unfolding acquire
acquire-AllBounded g live interactive b =
    ground (arith, length-append g.queues.interactive (g.next_chan ∷ []))
acquire-AllBounded g live batch b = ground (arith, length-append g.queues.batch (g.next_chan ∷ []))
acquire-AllBounded g live background b =
    ground (arith, length-append g.queues.background (g.next_chan ∷ []))

pub release-AllBounded : (g : Gate) (live : ℤ) → AllBounded g → AllBounded (release g live)
unfolding release
release-AllBounded g live b = ground arith

pub cancel-AllBounded :
    (g : Gate) (p : Priority) (c : ℕ) → AllBounded g → AllBounded (cancel g p c).0
unfolding cancel
cancel-AllBounded g interactive c b = ground (arith, length-remove_chan c g.queues.interactive)
cancel-AllBounded g batch c b = ground (arith, length-remove_chan c g.queues.batch)
cancel-AllBounded g background c b = ground (arith, length-remove_chan c g.queues.background)

-- The calls that change a gate.
pub data Call : Type 0 where
  acquires : ℤ → Priority → Call
  releases : ℤ → Call
  cancels : Priority → ℕ → Call

unfoldable pub run_calls : Gate → List Call → Gate
run_calls g [] = g
run_calls g (acquires live p ∷ cs) = run_calls (acquire g live p).0 cs
run_calls g (releases live ∷ cs) = run_calls (release g live) cs
run_calls g (cancels p c ∷ cs) = run_calls (cancel g p c).0 cs

run_calls-AllBounded : (g : Gate) (cs : List Call) → AllBounded g → AllBounded (run_calls g cs)
unfolding run_calls
run_calls-AllBounded g [] b = b
run_calls-AllBounded g (acquires live p ∷ cs) b =
    run_calls-AllBounded (acquire g live p).0 cs (acquire-AllBounded g live p b)
run_calls-AllBounded g (releases live ∷ cs) b =
    run_calls-AllBounded (release g live) cs (release-AllBounded g live b)
run_calls-AllBounded g (cancels p c ∷ cs) b =
    run_calls-AllBounded (cancel g p c).0 cs (cancel-AllBounded g p c b)

new_gate-AllBounded : (m : ℤ) (l : Limits) → AllBounded (new_gate m l)
unfolding new_gate
new_gate-AllBounded m l = ground arith

-- Admission control: after any calls of Acquire, Release and cancellations on a new gate, with any
-- live limits, no queue is longer than the limit of its tier, unless that limit is not positive,
-- which means none.
pub queues_bounded :
    (m : ℤ) (l : Limits) (cs : List Call) → AllBounded (run_calls (new_gate m l) cs)
queues_bounded m l cs = run_calls-AllBounded (new_gate m l) cs (new_gate-AllBounded m l)
