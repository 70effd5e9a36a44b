-- ===== src/Examples/Gates.antt =====
-- Two requests at a gate with one slot: the first is served, and the second waits.
use loxy_router.Base.{ℕ, ◌≡◌, refl, ◌⊎◌, true, [], ◌∷◌, arith, ℤ, pos, ◌≤ℤ◌, total, wrap64}
use loxy_router.Model.{interactive, batch}
use loxy_router.Config.{Limits}
use loxy_router.Gate.{Gate, acquire, release, new_gate, set_limit_func, total_queued, limit}
use loxy_router.Gate.System.{
  Request, arriving, queued, serving, enters, waits, System, moves, Reach, here, later, owns,
}
use loxy_router.Gate.Safety.{arrivals, main_gate, gate_accounting}
use loxy_router.Gate.Progress.{static_gate}
use loxy_router.Gate.Order.{line, release-line}
use loxy_router.Gate.Bounds.{AllBounded, acquires, releases, cancels, run_calls, queues_bounded}

abbrev tiers : Limits
tiers = record { interactive = pos 50; batch = pos 1; background = pos 100 }

abbrev one : ℤ
one = pos 1

abbrev state : Gate → Request → Request → System
state g a b = record { gate = g; requests = a ∷ b ∷ [] }

module _ (g : Gate) where
  abbrev first : Gate
  first = (acquire g one interactive).0

  abbrev second : Gate
  second = (acquire first one batch).0

abbrev crowded : Gate → System
crowded g = state (second g) serving (queued batch 0)

enter_and_wait :
    Reach
      (record { gate = main_gate tiers; requests = arrivals (interactive ∷ batch ∷ []) })
      (crowded (main_gate tiers))
unfolding acquire arrivals new_gate set_limit_func wrap64
enter_and_wait =
    later
      (later here
        (moves [] (arriving batch ∷ []) (arriving interactive) serving refl refl (enters one refl)))
      (moves (serving ∷ []) [] (arriving batch) (queued batch 0) refl refl (waits one refl))

enter_static :
    Reach
      (record { gate = new_gate one tiers; requests = arrivals (interactive ∷ batch ∷ []) })
      (crowded (new_gate one tiers))
unfolding acquire arrivals new_gate wrap64
enter_static =
    later
      (later here
        (moves [] (arriving batch ∷ []) (arriving interactive) serving refl refl (enters one refl)))
      (moves (serving ∷ []) [] (arriving batch) (queued batch 0) refl refl (waits one refl))

gate_accounting_example :
    (crowded (main_gate tiers)).gate.inflight
    ≡ pos (total (owns (second (main_gate tiers)).closed) (serving ∷ queued batch 0 ∷ []))
gate_accounting_example =
    gate_accounting tiers (interactive ∷ batch ∷ []) (omega arith) enter_and_wait

static_gate_example :
    ((second (new_gate one tiers)).inflight ≤ℤ one)
    × ((total_queued (second (new_gate one tiers)) ≡ 0)
        ⊎ ((second (new_gate one tiers)).inflight ≡ one))
static_gate_example =
    static_gate 1 tiers (interactive ∷ batch ∷ []) (omega arith) (omega arith) enter_static

-- One request is behind the gate; one waits.
abbrev busy : Gate
busy = record {
  max_inflight = pos 0;
  has_limit_fn = true;
  limits = tiers;
  inflight = pos 1;
  queues = record { interactive = []; batch = 7 ∷ []; background = [] };
  next_chan = 8;
  closed = [];
}

release-line_example :
    ((line busy.queues ≡ []) × (release busy one ≡ record busy { inflight = pos 0 }))
    ⊎ ((c : ℕ) × (line busy.queues ≡ c ∷ line (release busy one).queues)
        × ((release busy one).closed ≡ c ∷ busy.closed)
        × ((release busy one).inflight ≡ busy.inflight))
release-line_example = release-line busy one 0 (unfold limit in omega arith) (refl, omega arith)

queues_bounded_example : AllBounded (
    run_calls
      (new_gate one tiers)
      (acquires one interactive ∷ acquires one batch ∷ cancels batch 0 ∷ releases one ∷ []))
queues_bounded_example =
    queues_bounded one tiers
      (acquires one interactive ∷ acquires one batch ∷ cancels batch 0 ∷ releases one ∷ [])
