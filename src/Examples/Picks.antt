-- ===== src/Examples/Picks.antt =====
-- A pick and the retry loop over one backend.
use loxy_router.Base.{
  ℕ, ◌≡◌, ◌⊎◌, Option, refl, true, false, [], ◌∷◌, none, some, codes, arith, pos, In, here, lookup,
  str_Eq, inl, inr, In-cons, In-head, str_eq, ap,
}
use loxy_router.Text.{
  is_empty, lower_text, to_lower, trim_space, trim_left, trim_right, is_space, has_code,
}
use loxy_router.Model.{interactive, normalize_model}
use loxy_router.Backend.{
  Backend, up, effective_concurrent, has_capacity, supports_model, contains_text,
}
use loxy_router.Pool.{is_up, available, is_available}
use loxy_router.State
use loxy_router.Conversation.{ConversationStore, expired, get}
use loxy_router.Scheduler.{
  ClientRequest, Scheduler, SchedulerPlugin, ok, excluded, is_warm, is_safe, score, affinity_pick,
  candidates_of, pick_excluding, pick_among, pick_built_in, pick, best_score, best_from,
  apply_vram_guard,
}
use loxy_router.Scheduler.Candidates.{Eligible}
use loxy_router.Scheduler.Sound.{pick_excluding_sound}
use loxy_router.Scheduler.Complete.{pick_excluding_some, pick_excluding_sticky, pick_excluding_best}
use loxy_router.Proxy.{Round, fails, loop}
use loxy_router.Proxy.Loop.{Run, loop_ends}
use loxy_router.Examples.Instances.{ascii, fixed}

abbrev pub gpu : Backend
gpu = record {
  addr = 0;
  name = codes "gpu";
  url = codes "http://gpu:8000";
  models = codes "phi3:latest" ∷ [];
  typ = codes "vllm";
  vram_total_mb = pos 16_000;
  max_concurrent = pos 2;
  api_key = [];
  status = up;
  inflight = pos 0;
  per_token_ms = pos 0;
  auto_concurrent = pos 0;
}

abbrev pub sched : Scheduler fixed
sched = record { pool = gpu ∷ []; store = []; conv = none; plugin = none }

abbrev pub request : ClientRequest
request = record { model = codes "phi3"; conversation_id = codes "c"; priority = interactive }

abbrev memory : ConversationStore
memory = record {
  entries = (codes "c", record { backend = codes "gpu"; seen = 5 }) ∷ [];
  ttl = pos 100;
}

gpu_served : supports_model gpu (normalize_model ascii (codes "phi3")) ≡ true
unfolding supports_model contains_text normalize_model lower_text to_lower trim_space trim_left
    trim_right is_space has_code is_empty str_eq
gpu_served = refl

gpu-Eligible : Eligible (gpu ∷ []) (normalize_model ascii (codes "phi3")) [] gpu
unfolding is_up has_capacity effective_concurrent excluded lookup
gpu-Eligible = record {
  member = here;
  up = refl;
  supports = gpu_served;
  free = refl;
  allowed = refl;
}

gpu_safe : is_safe fixed [] gpu ≡ true
unfolding is_safe State.get lookup
gpu_safe = refl

gpu_warm : is_warm fixed [] gpu (normalize_model ascii (codes "phi3")) ≡ true
unfolding is_warm str_eq
gpu_warm = refl

pub gpu_found : pick_excluding fixed ascii sched 7 request [] ≡ ok gpu
unfolding pick_excluding pick_among pick_built_in pick affinity_pick candidates_of available
    is_available is_up has_capacity effective_concurrent best_score best_from apply_vram_guard
    is_safe supports_model contains_text normalize_model lower_text to_lower trim_space trim_left
    trim_right is_space has_code is_empty str_eq State.get lookup
gpu_found = refl

pick_excluding_sound_example :
    Eligible (gpu ∷ []) (normalize_model ascii (codes "phi3")) [] gpu
    × ((is_safe fixed [] gpu ≡ true)
        ⊎ ((p : SchedulerPlugin) × (◌≡◌ {A = Option SchedulerPlugin} none (some p))))
pick_excluding_sound_example = pick_excluding_sound fixed ascii sched 7 request [] gpu_found

pick_excluding_some_example : (r : Backend) × (pick_excluding fixed ascii sched 7 request [] ≡ ok r)
pick_excluding_some_example =
    pick_excluding_some fixed ascii sched 7 request [] refl gpu-Eligible gpu_safe

remembered : get memory 7 (codes "c") ≡ some (codes "gpu")
unfolding get expired is_empty lookup str_eq
remembered = refl

pick_excluding_sticky_example :
    (r : Backend) × (pick_excluding fixed ascii (record sched { conv = some memory }) 7 request []
      ≡ ok r)
    × (r.name ≡ codes "gpu")
    × (is_warm fixed [] r (normalize_model ascii (codes "phi3")) ≡ true)
pick_excluding_sticky_example =
    pick_excluding_sticky fixed ascii (record sched { conv = some memory }) 7 request [] memory refl
      refl (unfold is_empty in refl) remembered gpu-Eligible gpu_warm gpu_safe

pick_excluding_best_example :
    fixed.lt
      (score fixed [] gpu (normalize_model ascii (codes "phi3")))
      (score fixed [] gpu (normalize_model ascii (codes "phi3")))
    ≡ false
pick_excluding_best_example =
    pick_excluding_best fixed ascii sched 7 request [] refl (unfold affinity_pick in refl) gpu_found
      gpu-Eligible gpu_safe

abbrev busy : Backend
busy = record gpu { addr = 1; name = codes "busy"; inflight = pos 3 }

-- Each round, the forward to the only backend fails.
abbrev pub failing : ℕ → Round fixed
failing i = record { sched = sched; now = i; current = λ b. b; forward = λ b. fails false }

pub names_known : (i : ℕ) (b : Backend) → In b (failing i).sched.pool → In b.name (codes "gpu" ∷ [])
names_known i b m = elim (In-cons m) [ inl e ↦ In-head (ap (λ z. z.name) e) | inr n ↦ elim n [ ] ]

loop_ends_example : Run [] (loop fixed 2 ascii failing 0 request [] 0)
loop_ends_example =
    loop_ends fixed ascii failing (codes "gpu" ∷ []) request names_known 2 (omega arith)
