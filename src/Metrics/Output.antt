-- ===== src/Metrics/Output.antt =====
-- metrics.go: what /metrics prints, a line for each WriteString and Fprintf. Its values are those
-- that `%d` and `%.4f` print, and its labels those that `%q` does.
pub mod Order
pub mod Agreement
use loxy_router.Base.{
  ℕ, ◌≡◌, Bool, true, false, not, ◌&&◌, List, [], ◌∷◌, ◌++◌, Option, none, some, Str, codes, str_eq,
  map, ltb, ◌==◌, if◌then◌else◌, ℤ, pos, ltb_ℤ, lookup, str_Eq,
}
use loxy_router.Text.Decimal.{itoa}
use loxy_router.Model.{Priority, interactive, batch, background, priority_string}
use loxy_router.Float.{Float64}
use loxy_router.Backend.{Backend, BackendStatus, up, down}
use loxy_router.Pool.{is_up}
use loxy_router.State.{StateStore, BackendState, ModelStatus, warm, cold, get}
use loxy_router.Gate.{Gate, GateStats, stats}
use loxy_router.Metrics.{RequestKey, RequestTotals, total_of, key_Eq}

-- Go's order of strings.
unfoldable pub str_lt : Str → Str → Bool
str_lt s [] = false
str_lt [] (y ∷ t) = true
str_lt (x ∷ s) (y ∷ t) = if x == y then str_lt s t else ltb x y

-- The function that sort.Slice is given.
unfoldable pub key_lt : RequestKey → RequestKey → Bool
key_lt a b =
    if not (str_eq a.backend b.backend) then str_lt a.backend b.backend else ltb_ℤ a.status b.status

-- sort.Slice, by insertion
unfoldable pub insert_key : RequestKey → List RequestKey → List RequestKey
insert_key k [] = k ∷ []
insert_key k (j ∷ js) = let rest = insert_key k js in if key_lt j k then j ∷ rest else k ∷ j ∷ js

unfoldable pub sort_keys : List RequestKey → List RequestKey
sort_keys [] = []
sort_keys (k ∷ ks) = insert_key k (sort_keys ks)

module _ (f : Float64) where
  open f use {Carrier, of_int}

  -- %d and %.4f
  pub data Value : Type 0 where
    int : ℤ → Value
    fixed4 : Carrier → Value

  -- "# HELP name text", "# TYPE name kind", and "name{label=…} value"
  pub data Line : Type 0 where
    help kind : Str → Str → Line
    sample : Str → List (Str × Str) → Value → Line

  -- The two comments of a metric, and its samples.
  unfoldable pub family : Str → Str → Str → List Line → List Line
  family name text typ samples = help name text ∷ kind name typ ∷ samples

  -- A gauge with a sample for each backend.
  unfoldable pub backend_gauge : List Backend → Str → Str → (Backend → Value) → List Line
  unfolding family
  backend_gauge pool name text value =
      family name text (codes "gauge")
        (map (λ b. sample name ((codes "backend", b.name) ∷ []) (value b)) pool)

  unfoldable pub up_value : Backend → Value
  up_value b = int (if is_up b then pos 1 else pos 0)

  unfoldable pub warm_value : StateStore Carrier → Backend → Value
  warm_value store b = elim (get store b.name) [
    | none ↦ int (pos 0)
    | some st ↦ int (elim st.model_status [ warm ↦ pos 1 | cold ↦ pos 0 ])
  ]

  unfoldable pub vram_value : StateStore Carrier → Backend → Value
  vram_value store b = elim (get store b.name) [
    | none ↦ fixed4 (of_int (pos 0))
    | some st ↦ fixed4 st.vram_used_pct
  ]

  unfoldable pub queue_value : StateStore Carrier → Backend → Value
  queue_value store b = elim (get store b.name) [
    | none ↦ int (pos 0)
    | some st ↦ int st.queue_depth
  ]

  -- The sections on health and on the state of the models.
  unfoldable pub backend_lines : List Backend → StateStore Carrier → List Line
  unfolding backend_gauge
  backend_lines pool store =
      backend_gauge pool (codes "scheduler_backend_up") (codes "Backend health (1=up, 0=down)")
        up_value
      ++ backend_gauge pool (codes "scheduler_backend_inflight")
          (codes "In-flight requests per backend") (λ b. int b.inflight)
      ++ backend_gauge pool (codes "scheduler_backend_model_warm")
          (codes "1 if the backend has a model loaded in VRAM") (warm_value store)
      ++ backend_gauge pool (codes "scheduler_backend_vram_used_pct")
          (codes "Fraction of VRAM in use (0–1); 0 means unknown") (vram_value store)
      ++ backend_gauge pool (codes "scheduler_backend_queue_depth")
          (codes "Requests waiting to be served") (queue_value store)
      ++ backend_gauge pool (codes "scheduler_backend_per_token_ms")
          (codes "EWMA decode latency per generated token (ms); 0 if unmeasured")
          (λ b. int b.per_token_ms)

  -- gs.Queued[p.String()]
  unfoldable pub queued_of : GateStats → Priority → ℤ
  queued_of gs p = elim (lookup (priority_string p) gs.queued) [ none ↦ pos 0 | some n ↦ pos n ]

  unfoldable pub gate_lines : GateStats → List Line
  unfolding family queued_of
  gate_lines gs =
      family (codes "scheduler_gate_max_inflight")
        (codes "Global dispatch limit (live sum of backend caps); 0 = unlimited") (codes "gauge")
        (sample (codes "scheduler_gate_max_inflight") [] (int gs.max_inflight) ∷ [])
      ++ family (codes "scheduler_gate_inflight")
          (codes "Requests currently dispatched through the gate") (codes "gauge")
          (sample (codes "scheduler_gate_inflight") [] (int gs.inflight) ∷ [])
      ++ family (codes "scheduler_gate_queued")
          (codes "Requests waiting in the admission queue, by priority") (codes "gauge")
          (map
            (λ p.
              sample (codes "scheduler_gate_queued") ((codes "priority", priority_string p) ∷ [])
                (int (queued_of gs p)))
            (interactive ∷ batch ∷ background ∷ []))

  -- A line of the counters. The status is printed by %d between quotes.
  unfoldable pub total_line : RequestTotals → RequestKey → Line
  total_line snap k =
      sample (codes "scheduler_requests_total")
        ((codes "backend", k.backend) ∷ (codes "status", itoa k.status) ∷ [])
        (int (total_of k snap))

  -- The counters; `keys` is the order in which the loop over the snapshot visits them.
  unfoldable pub total_lines : RequestTotals → List RequestKey → List Line
  unfolding family total_line
  total_lines snap keys =
      family (codes "scheduler_requests_total")
        (codes "Forwarded requests by backend and HTTP status") (codes "counter")
        (map (total_line snap) (sort_keys keys))

  -- metricsHandler
  unfoldable pub metrics_handler :
      List Backend → StateStore Carrier → Gate → ℤ → RequestTotals → List RequestKey → List Line
  metrics_handler pool store gate live snap keys =
      backend_lines pool store ++ gate_lines (stats gate live) ++ total_lines snap keys
