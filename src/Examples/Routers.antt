-- ===== src/Examples/Routers.antt =====
-- One request at a router with one backend, whose client leaves while it waits for the backend, or
-- that the backend answers.
use loxy_router.Base.{
  All, false, ◌+◌, length, ◌*◌, ℕ, ◌≤◌, ◌≡◌, refl, ◌⊎◌, true, List, [], ◌∷◌, some, codes, arith,
  pos, pos_part, ◌≤ℤ◌, insert, str_Eq, str_eq, lookup, In, here, wrap64,
}
use loxy_router.Text.{
  is_empty, lower_text, to_lower, trim_space, trim_left, trim_right, is_space, has_code,
}
use loxy_router.Config.{Config, queue_limits}
use loxy_router.Model.{Priority, normalize_model}
use loxy_router.Backend.{
  Backend, effective_concurrent, has_capacity, supports_model, contains_text, set_status, ping,
  try_reserve, dec_inflight,
}
use loxy_router.Pool.{
  new_backend, new_backends, new_backend_pool, modify, is_up, available, is_available,
}
use loxy_router.State
use loxy_router.Conversation.{new_conversation_store, get}
use loxy_router.Scheduler.{
  ClientRequest, new_scheduler, ok, is_safe, affinity_pick, candidates_of, pick_excluding,
  pick_among, pick_built_in, pick, best_score, best_from, apply_vram_guard,
}
use loxy_router.Gate.{Gate, acquire, release, new_gate, set_limit_func, limit, queue_of, is_closed}
use loxy_router.Gate.System.{Request, queued, serving, finished, enters}
use loxy_router.Gate.Safety.{AllFinished, main_gate}
use loxy_router.Proxy.{fails, responds, served, after_stream, client_gone}
use loxy_router.Proxy.Effects.{apply_effect}
use loxy_router.Router.{
  Router, Work, forwarding, over, after_forward, Client, new_client, deref, conversation_ttl, start,
}
use loxy_router.Router.Steps.{
  picks, reserves_slot, comes_back, does, resumes, at_gate, in_loop, leaves_gate, moves, pings,
  Reach, here, later,
}
use loxy_router.Router.Admission.{gates}
use loxy_router.Router.Books.{held}
use loxy_router.Router.Slots.{router_slots}
use loxy_router.Router.Load.{load, router_load}
use loxy_router.Router.Rest.{router_at_rest}
use loxy_router.Router.Progress.{CanMove, router_progress}
use loxy_router.Proxy.{Round, loop}
use loxy_router.Proxy.Loop.{Run}
use loxy_router.Router.Traces.{acts}
use loxy_router.Router.Replay.{SeenIn, router_loop}
use loxy_router.Metrics.{RequestKey, RequestTotals, total_of, inc_request}
use loxy_router.Gate.Safety.{Idle}
use loxy_router.Router.Responses.{owed, answers}
use loxy_router.Router.Counted.{router_counted}
use loxy_router.Router.Termination.{request_steps, router_terminates}
use loxy_router.Router.Process.{
  Phase, serves, exited, Process, boot, Lived, begins, steps_serving, stops, drained,
}
use loxy_router.Router.Shutdown.{exit_clean}
use loxy_router.Examples.Instances.{ascii, fixed, whole_text}
use loxy_router.Examples.Picks.{gpu, request}

abbrev small : Config
small = record {
  listen = codes ":8080";
  backends =
      record {
        name = codes "gpu";
        url = codes "http://gpu:8000";
        models = codes "phi3:latest" ∷ [];
        typ = codes "vllm";
        vram_total_mb = pos 16_000;
        max_concurrent = pos 2;
        api_key = [];
      }
      ∷ [];
  api_keys = [];
  backend_api_key = [];
  queue = record { interactive = pos 0; batch = pos 0; background = pos 0 };
  timeouts = record { response_header_secs = pos 0; shutdown_secs = pos 0 };
}

abbrev state : Gate → List Backend → Request → Work → Router fixed
state g pool r k = record {
  gate = g;
  shared = record {
    pool = pool;
    conv = some (new_conversation_store conversation_ttl);
    metrics = some [];
  };
  store = [];
  clients = record { req = request; gate = r; work = k } ∷ [];
}

abbrev open_gate : Gate
open_gate = main_gate (queue_limits small)

abbrev busy_gate : Gate
busy_gate = record open_gate { inflight = pos 1 }

abbrev busy : Backend
busy = record gpu { inflight = pos 1 }

abbrev at_backend : Router fixed
at_backend = state busy_gate (busy ∷ []) serving (forwarding gpu (insert gpu.name true []) 0)

abbrev at_rest : Router fixed
at_rest = state open_gate (gpu ∷ []) finished (over client_gone)

abbrev requests : List ClientRequest
requests = request ∷ []

found :
    pick_excluding fixed ascii
      (new_scheduler fixed (gpu ∷ []) [] (some (new_conversation_store conversation_ttl)) [])
      7
      request
      []
    ≡ ok gpu
unfolding pick_excluding pick_among pick_built_in pick affinity_pick candidates_of available
    is_available is_up has_capacity effective_concurrent best_score best_from apply_vram_guard
    is_safe supports_model contains_text normalize_model lower_text to_lower trim_space trim_left
    trim_right is_space has_code is_empty str_eq State.get lookup new_scheduler
    new_conversation_store get
found = refl

reach_backend : Reach whole_text ascii [] (start fixed ascii small requests) at_backend
unfolding start new_client new_backend_pool new_backends new_backend normalize_model lower_text
    to_lower trim_space trim_left trim_right is_space has_code is_empty str_eq modify set_status
    ping acquire limit new_gate set_limit_func wrap64 deref try_reserve effective_concurrent
reach_backend =
    later
      (later
        (later (later here (pings 0 (λ url. some (pos 200))))
          (moves [] [] _ _ refl (at_gate (λ e. cc e) (enters (pos 0) refl))))
        (moves [] [] _ _ refl (in_loop (picks 7 found))))
      (moves [] [] _ _ refl (in_loop (reserves_slot refl refl)))

reach_rest : Reach whole_text ascii [] (start fixed ascii small requests) at_rest
unfolding after_forward apply_effect modify dec_inflight release wrap64 set_limit_func new_gate
reach_rest =
    later
      (later
        (later (later reach_backend (moves [] [] _ _ refl (in_loop (comes_back (fails true)))))
          (moves [] [] _ _ refl (in_loop (does 9))))
        (moves [] [] _ _ refl (in_loop resumes)))
      (moves [] [] _ _ refl (leaves_gate (pos 0)))

router_slots_example :
    (busy.inflight ≡ pos (held busy.addr at_backend.clients))
    × ((busy.max_concurrent ≤ℤ pos 0)
        ⊎ (held busy.addr at_backend.clients ≤ pos_part busy.max_concurrent))
router_slots_example =
    router_slots whole_text ascii [] small requests (omega arith) reach_backend here

router_load_example : pos (load at_backend.shared.pool) ≤ℤ at_backend.gate.inflight
router_load_example = router_load whole_text ascii [] small requests (omega arith) reach_backend

router_at_rest_example :
    ((b : Backend) → In b at_rest.shared.pool → b.inflight ≡ pos 0)
    × (at_rest.gate.inflight ≡ pos 0)
    × ((p : Priority) → queue_of at_rest.gate.queues p ≡ [])
router_at_rest_example =
    router_at_rest whole_text ascii [] small requests (omega arith) reach_rest (tt, tt)

router_progress_example :
    AllFinished (gates at_backend.clients)
    ⊎ ((c : Client) × In c at_backend.clients
        × CanMove whole_text ascii [] at_backend c
        × ((p : Priority) (n : ℕ)
            → c.gate ≡ queued p n
            → is_closed n at_backend.gate.closed ≡ true))
router_progress_example =
    router_progress whole_text ascii [] small requests (omega arith) reach_backend

abbrev gone : Client
gone = record { req = request; gate = finished; work = over client_gone }

router_loop_example :
    Run [] (acts whole_text ascii [] reach_rest 0, client_gone)
    × (fuel : ℕ) × (rounds : ℕ → Round fixed) × (loop fixed fuel ascii rounds 0 request [] 0
        ≡ (acts whole_text ascii [] reach_rest 0, client_gone))
    × ((i : ℕ) → SeenIn whole_text ascii [] reach_rest (rounds i).sched)
router_loop_example =
    router_loop whole_text ascii [] small requests reach_rest [] [] gone client_gone refl refl

router_terminates_example :
    request_steps whole_text ascii [] reach_rest ≤ length requests * (8 * length small.backends + 6)
router_terminates_example = router_terminates whole_text ascii [] small requests reach_rest

-- The backend answers with the status 500 instead, and the request passes that on.
abbrev failed : RequestTotals
failed = (record { backend = codes "gpu"; status = pos 500 }, pos 1) ∷ []

abbrev served_500 : Work
served_500 = over (served (pos 500) 0)

abbrev at_failure : Router fixed
at_failure =
    let r = state open_gate (gpu ∷ []) finished served_500 in
    record r { shared = record r.shared { metrics = some failed } }

reach_failure : Reach whole_text ascii [] (start fixed ascii small requests) at_failure
unfolding after_forward after_stream apply_effect modify dec_inflight release wrap64 set_limit_func
    new_gate inc_request insert total_of lookup
reach_failure =
    later
      (later
        (later
          (later
            (later reach_backend
              (moves [] [] _ _ refl (in_loop (comes_back (responds (pos 500) (pos 20) false)))))
            (moves [] [] _ _ refl (in_loop (does 9))))
          (moves [] [] _ _ refl (in_loop (does 9))))
        (moves [] [] _ _ refl (in_loop resumes)))
      (moves [] [] _ _ refl (leaves_gate (pos 0)))

router_counted_example :
    (m : RequestTotals) × (at_failure.shared.metrics ≡ some m)
    × ((k : RequestKey)
        → (n : ℕ) × (total_of k m ≡ pos n)
          × (n + owed k at_failure.clients ≡ answers whole_text ascii [] k reach_failure))
    × (All Idle (gates at_failure.clients)
        → (k : RequestKey) → total_of k m ≡ pos (answers whole_text ascii [] k reach_failure))
router_counted_example =
    router_counted whole_text ascii [] small requests reach_failure (omega arith)

-- The process that serves this request, and is stopped then.
abbrev process : Phase → Router fixed → Process fixed
process phase r = record { phase = phase; router = r }

served_so_far :
    {r : Router fixed}
    → Reach whole_text ascii [] (start fixed ascii small requests) r
    → Lived whole_text ascii [] small (boot fixed ascii small requests) (process serves r)
unfolding boot
served_so_far here = begins
served_so_far (later h st) = Lived.goes_on (served_so_far h) (steps_serving refl st)

stopped :
    Lived whole_text ascii [] small (boot fixed ascii small requests) (process (exited 0) at_rest)
stopped =
    Lived.goes_on (Lived.goes_on (served_so_far reach_rest) (stops (pos 11) refl))
      (drained refl (tt, tt))

exit_clean_example :
    ((b : Backend) → In b at_rest.shared.pool → b.inflight ≡ pos 0)
    × (at_rest.gate.inflight ≡ pos 0)
    × ((q : Priority) → queue_of at_rest.gate.queues q ≡ [])
exit_clean_example = exit_clean whole_text ascii [] small requests (omega arith) stopped refl
