-- ===== src/Gate/Load.antt =====
-- How many requests are behind the gate while someone waits.
use loxy_router.Base.{
  ℕ, zero, suc, ◌+◌, ◌-◌, ◌≤◌, ◌<◌, ◌^◌, ◌≡◌, refl, sym, ap, ◌∙◌, subst, false, List, [], ◌∷◌, ◌++◌,
  arith, length, ℤ, pos, negsuc, pos_part, ◌<ℤ◌, ◌≤ℤ◌, add64, add64_pos, add64_pred, total,
  length-append,
}
use loxy_router.Model.{Priority, interactive, batch, background}
use loxy_router.Gate.{Gate, queue_of, set_queue, limit, acquire, remove_chan, total_queued}
use loxy_router.Gate.System.{
  Request, arriving, queued, serving, finished, Move, enters, bounces, waits, wakes, gives_up,
  gives_up_woken, leaves, System, Step, moves, Reach, InForce, limit_pos, owns,
}
use loxy_router.Gate.System
use loxy_router.Gate.Accounting.{Inv, owns-le}
use loxy_router.Gate.Entries.{cancel_open, cancel_woken}
use loxy_router.Gate.Handover.{release-Released, quiet, woke}
use loxy_router.Gate.Safety.{Fits, Step-Inv, total-middle}
use loxy_router.Gate.Bounds.{length-remove_chan}

-- Someone in a queue means someone behind the gate; with a fixed limit it means a full gate.
pub record Load (g : Gate) : Type 0 where
  pub in_force : InForce g
  pub busy : 0 < total_queued g → pos 0 <ℤ g.inflight
  pub capped : g.has_limit_fn ≡ false → g.inflight ≤ℤ g.max_inflight
  pub full : g.has_limit_fn ≡ false → 0 < total_queued g → g.inflight ≡ g.max_inflight

-- The counter counts, and has room to spare.
abbrev pub Small : Gate → Type 0
Small g = (pos 0 ≤ℤ g.inflight) × (g.inflight <ℤ pos (2 ^ 63 - 1))

count_up : (z : ℤ) → pos 0 ≤ℤ z → z <ℤ pos (2 ^ 63 - 1) → add64 z (pos 1) ≡ pos (pos_part z + 1)
count_up (pos n) h k = add64_pos n 1 (omega arith)
count_up (negsuc n) h k = absurd (omega arith)

acquire-Load : (g : Gate) (live : ℤ) (p : Priority) → Small g → Load g → Load (acquire g live p).0
unfolding acquire limit
acquire-Load g live interactive s v =
    ground
      (arith, count_up g.inflight s.0 s.1, length-append g.queues.interactive (g.next_chan ∷ []))
acquire-Load g live batch s v =
    ground (arith, count_up g.inflight s.0 s.1, length-append g.queues.batch (g.next_chan ∷ []))
acquire-Load g live background s v =
    ground
      (arith, count_up g.inflight s.0 s.1, length-append g.queues.background (g.next_chan ∷ []))

count_same : (z : ℤ) → pos 0 <ℤ z → z <ℤ pos (2 ^ 63 - 1) → add64 (add64 z (negsuc 0)) (pos 1) ≡ z
count_same (pos zero) h k = absurd (omega arith)
count_same (pos (suc n)) h k = rw (add64_pred n (omega arith)) (ground (arith, add64_pos n 1))
count_same (negsuc n) h k = absurd (omega arith)

count_down : (z : ℤ) → pos 0 <ℤ z → z <ℤ pos (2 ^ 63 - 1) → add64 z (negsuc 0) ≤ℤ z
count_down (pos zero) h k = absurd (omega arith)
count_down (pos (suc n)) h k = rw (add64_pred n (omega arith)) (omega arith)
count_down (negsuc n) h k = absurd (omega arith)

queued-tiers : (g : Gate) → ((p : Priority) → queue_of g.queues p ≡ []) → total_queued g ≡ 0
unfolding total_queued
queued-tiers g n =
    omega (arith, ap length (n interactive), ap length (n batch), ap length (n background))

quiet-Load :
    (g : Gate)
    → Small g
    → pos 0 <ℤ g.inflight
    → ((p : Priority) → queue_of g.queues p ≡ [])
    → Load g
    → Load (record g { inflight = add64 g.inflight (negsuc 0) })
unfolding total_queued
quiet-Load g s o n v =
    let none : total_queued g ≡ 0 = queued-tiers g n in
    record {
      in_force = v.in_force;
      busy = λ h. absurd (omega arith);
      capped = λ e. omega (arith, v.capped e, count_down g.inflight o s.1);
      full = λ e h. absurd (omega arith);
    }

woke-Load :
    (g : Gate) (p : Priority) (c : ℕ) (rest : List ℕ)
    → Small g
    → queue_of g.queues p ≡ c ∷ rest
    → Load g
    → Load (record g {
      inflight = add64 (add64 g.inflight (negsuc 0)) (pos 1);
      queues = set_queue g.queues p rest;
      closed = c ∷ g.closed;
    })
unfolding total_queued
woke-Load g interactive c rest s q v = ground (arith, count_same g.inflight, ap length q)
woke-Load g batch c rest s q v = ground (arith, count_same g.inflight, ap length q)
woke-Load g background c rest s q v = ground (arith, count_same g.inflight, ap length q)

cancel-Load :
    (g : Gate) (p : Priority) (c : ℕ)
    → Load g
    → Load (record g { queues = set_queue g.queues p (remove_chan c (queue_of g.queues p)) })
unfolding total_queued
cancel-Load g interactive c v = ground (arith, length-remove_chan c g.queues.interactive)
cancel-Load g batch c v = ground (arith, length-remove_chan c g.queues.batch)
cancel-Load g background c v = ground (arith, length-remove_chan c g.queues.background)

Move-Load :
    (g : Gate) {g' : Gate} {p q : Request}
    → Small g
    → (p ≡ serving → pos 0 <ℤ g.inflight)
    → Move g p g' q
    → Load g
    → Load g'
Move-Load g s o (enters {p} live h) v = acquire-Load g live p s v
Move-Load g s o (bounces {p} live h) v = acquire-Load g live p s v
Move-Load g s o (waits {p} {c} live h) v = acquire-Load g live p s v
Move-Load g s o (wakes {p} {c} h) v = v
Move-Load g s o (gives_up {p} {c} h) v =
    subst Load (sym (cancel_open g p c h).1) (cancel-Load g p c v)
Move-Load g s o (gives_up_woken {p} {c} h) v = subst Load (sym (cancel_woken g p c h).1) v
Move-Load g s o (leaves live) v = elim (release-Released g live v.in_force) [
  | quiet n e ↦ subst Load (sym e) (quiet-Load g s (o refl) n v)
  | woke p c rest q e ↦ subst Load (sym e) (woke-Load g p c rest s q v)
]

-- Both invariants of a reachable state.
abbrev pub Sound : System → Type 0
Sound s = (Inv s.gate s.requests × Fits s) × Load s.gate

Inv-Small : (s : System) → Inv s.gate s.requests → Fits s → Small s.gate
Inv-Small s v w =
    let le : total (owns s.gate.closed) s.requests ≤ length s.requests = owns-le _ s.requests in
    ground (arith, v.counted)

serving-owns :
    (g : Gate) (rs xs ys : List Request) (p : Request)
    → Inv g rs
    → rs ≡ xs ++ p ∷ ys
    → p ≡ serving
    → pos 0 <ℤ g.inflight
serving-owns g rs xs ys p v e q =
    let all : total (owns g.closed) rs ≡ owns g.closed p + total (owns g.closed) (xs ++ ys) =
      ap (total (owns g.closed)) e ∙ total-middle xs ys p (owns g.closed) in
    let one : owns g.closed p ≡ 1 = ap (owns g.closed) q in ground (arith, v.counted, all, one)

pub Reach-Sound : {s t : System} → Sound s → Reach s t → Sound t
Reach-Sound v System.here = v
Reach-Sound {s} v (System.later {t} {u} r st) = step st (Reach-Sound v r)
  where
    step : {a b : System} → Step a b → Sound a → Sound b
    step {a} {b} (moves xs ys p q e f mv) ((i, w), l) = (
      Step-Inv (moves xs ys p q e f mv) (i, w),
      Move-Load a.gate (Inv-Small a i w) (serving-owns a.gate a.requests xs ys p i e) mv l,
    )

empty-total :
    (g : Gate)
    → g.queues ≡ record { interactive = []; batch = []; background = [] }
    → total_queued g ≡ 0
unfolding total_queued
empty-total g e = rw e (ground arith)

pub start-Load :
    (g : Gate)
    → InForce g
    → g.inflight ≡ pos 0
    → g.queues ≡ record { interactive = []; batch = []; background = [] }
    → (g.has_limit_fn ≡ false → pos 0 <ℤ g.max_inflight)
    → Load g
start-Load g f i q m =
    let none : total_queued g ≡ 0 = empty-total g q in
    record {
      in_force = f;
      busy = λ h. absurd (omega arith);
      capped = λ e. ground (arith, i, m e);
      full = λ e h. absurd (omega arith);
    }
