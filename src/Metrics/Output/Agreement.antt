-- ===== src/Metrics/Output/Agreement.antt =====
-- /metrics and /status tell the same of the backends and of the gate.
use mathlib.Core.Path.{ap₂}
use loxy_router.Base.{
  ◌≡◌, refl, ap, sym, true, false, List, [], ◌∷◌, ◌++◌, Str, codes, str_eq, map, if◌then◌else◌, ℤ,
  pos, Option-cases, inl, inr, arith,
}
use loxy_router.Float.{Float64}
use loxy_router.Backend.{Backend, BackendStatus, up, down}
use loxy_router.Pool.{is_up}
use loxy_router.State.{StateStore, ModelStatus, warm, cold, get}
use loxy_router.Gate.{Gate, stats}
use loxy_router.Status.{
  is_model_warm, BackendEntry, status_text, with_state, entry_of, status_handler,
}
use loxy_router.Metrics.{RequestKey, RequestTotals}
use loxy_router.Metrics.Output.{
  Value, int, fixed4, Line, help, kind, sample, family, backend_gauge, up_value, warm_value,
  vram_value, queue_value, backend_lines, gate_lines, total_lines, metrics_handler,
}

module _ (f : Float64) where
  open f use {Carrier}

  up_told :
      (s : BackendStatus)
      → (if elim s [ up ↦ true | down ↦ false ] then pos 1 else pos 0)
        ≡ (if str_eq (status_text s) (codes "up") then pos 1 else pos 0)
  unfolding str_eq
  up_told up = refl
  up_told down = refl

  warm_told :
      (m : ModelStatus)
      → elim m [ warm ↦ pos 1 | cold ↦ pos 0 ] ≡ (if is_model_warm m then pos 1 else pos 0)
  warm_told warm = refl
  warm_told cold = refl

  -- A gauge with a sample for each entry of /status.
  unfoldable pub entry_gauge :
      List (BackendEntry f) → Str → Str → (BackendEntry f → Value f) → List (Line f)
  entry_gauge es name text value =
      family f name text (codes "gauge")
        (map (λ e. sample name ((codes "backend", e.name) ∷ []) (value e)) es)

  abbrev told_up : BackendEntry f → Value f
  told_up e = int (if str_eq e.status (codes "up") then pos 1 else pos 0)

  abbrev told_warm : BackendEntry f → Value f
  told_warm e = int (if e.warm then pos 1 else pos 0)

  -- The gauges of the backends in terms of the entries of /status.
  unfoldable pub told_backends : List (BackendEntry f) → List (Line f)
  told_backends es =
      entry_gauge es (codes "scheduler_backend_up") (codes "Backend health (1=up, 0=down)") told_up
      ++ entry_gauge es (codes "scheduler_backend_inflight")
          (codes "In-flight requests per backend") (λ e. int e.inflight)
      ++ entry_gauge es (codes "scheduler_backend_model_warm")
          (codes "1 if the backend has a model loaded in VRAM") told_warm
      ++ entry_gauge es (codes "scheduler_backend_vram_used_pct")
          (codes "Fraction of VRAM in use (0–1); 0 means unknown") (λ e. fixed4 e.vram_used_pct)
      ++ entry_gauge es (codes "scheduler_backend_queue_depth")
          (codes "Requests waiting to be served") (λ e. int e.queue_depth)
      ++ entry_gauge es (codes "scheduler_backend_per_token_ms")
          (codes "EWMA decode latency per generated token (ms); 0 if unmeasured")
          (λ e. int e.per_token_ms)

  module _ (store : StateStore Carrier) where
    -- The fields of an entry that do not depend on the store.
    entry_of-fixed :
        (b : Backend)
        → ((entry_of f store b).name ≡ b.name)
          × ((entry_of f store b).status ≡ status_text b.status)
          × ((entry_of f store b).inflight ≡ b.inflight)
          × ((entry_of f store b).per_token_ms ≡ b.per_token_ms)
    unfolding entry_of with_state
    entry_of-fixed b = elim (Option-cases (get store b.name)) [
      | inl e ↦ rw e (refl, refl, refl, refl)
      | inr (st, e) ↦ rw e (refl, refl, refl, refl)
    ]

    samples_agree :
        (name : Str) (value : Backend → Value f) (value' : BackendEntry f → Value f)
        → ((b : Backend) → value b ≡ value' (entry_of f store b))
        → (pool : List Backend)
        → map (λ b. sample name ((codes "backend", b.name) ∷ []) (value b)) pool
          ≡ map
              (λ e. sample name ((codes "backend", e.name) ∷ []) (value' e))
              (map (entry_of f store) pool)
    samples_agree name value value' h [] = refl
    samples_agree name value value' h (b ∷ bs) =
        ap₂ ◌∷◌
          (ap₂ (λ n v. sample name ((codes "backend", n) ∷ []) v) (sym (entry_of-fixed b).0) (h b))
          (samples_agree name value value' h bs)

    gauge_agrees :
        (pool : List Backend) (name text : Str) (value : Backend → Value f)
        (value' : BackendEntry f → Value f)
        → ((b : Backend) → value b ≡ value' (entry_of f store b))
        → backend_gauge f pool name text value
          ≡ entry_gauge (map (entry_of f store) pool) name text value'
    unfolding backend_gauge entry_gauge family
    gauge_agrees pool name text value value' h =
        ap (λ ls. help name text ∷ kind name (codes "gauge") ∷ ls)
          (samples_agree name value value' h pool)

    up_agrees :
        (b : Backend)
        → up_value f b
          ≡ int (if str_eq (entry_of f store b).status (codes "up") then pos 1 else pos 0)
    unfolding up_value is_up
    up_agrees b = rw (entry_of-fixed b).1 (ap int (up_told b.status))

    warm_agrees :
        (b : Backend)
        → warm_value f store b ≡ int (if (entry_of f store b).warm then pos 1 else pos 0)
    unfolding warm_value entry_of with_state
    warm_agrees b = elim (Option-cases (get store b.name)) [
      | inl e ↦ ground arith
      | inr (st, e) ↦ ground (arith, warm_told st.model_status)
    ]

    vram_agrees : (b : Backend) → vram_value f store b ≡ fixed4 (entry_of f store b).vram_used_pct
    unfolding vram_value entry_of with_state
    vram_agrees b = ground arith

    queue_agrees : (b : Backend) → queue_value f store b ≡ int (entry_of f store b).queue_depth
    unfolding queue_value entry_of with_state
    queue_agrees b = ground arith

    backend_lines-told :
        (pool : List Backend)
        → backend_lines f pool store ≡ told_backends (map (entry_of f store) pool)
    unfolding backend_lines told_backends
    backend_lines-told pool =
        ap₂ ◌++◌
          (ap₂ ◌++◌
            (ap₂ ◌++◌
              (ap₂ ◌++◌
                (ap₂ ◌++◌
                  (gauge_agrees pool (codes "scheduler_backend_up")
                    (codes "Backend health (1=up, 0=down)") (up_value f) told_up up_agrees)
                  (gauge_agrees pool (codes "scheduler_backend_inflight")
                    (codes "In-flight requests per backend") (λ b. int b.inflight)
                    (λ e. int e.inflight) (λ b. ap int (sym (entry_of-fixed b).2))))
                (gauge_agrees pool (codes "scheduler_backend_model_warm")
                  (codes "1 if the backend has a model loaded in VRAM") (warm_value f store)
                  told_warm warm_agrees))
              (gauge_agrees pool (codes "scheduler_backend_vram_used_pct")
                (codes "Fraction of VRAM in use (0–1); 0 means unknown") (vram_value f store)
                (λ e. fixed4 e.vram_used_pct) vram_agrees))
            (gauge_agrees pool (codes "scheduler_backend_queue_depth")
              (codes "Requests waiting to be served") (queue_value f store) (λ e. int e.queue_depth)
              queue_agrees))
          (gauge_agrees pool (codes "scheduler_backend_per_token_ms")
            (codes "EWMA decode latency per generated token (ms); 0 if unmeasured")
            (λ b. int b.per_token_ms) (λ e. int e.per_token_ms)
            (λ b. ap int (sym (entry_of-fixed b).3)))

  -- The gauges of /metrics are those that the entries and the gate of /status tell: for the same
  -- backends, store and gate, the output of the metrics handler is `told_backends` of the entries of
  -- the status handler's response, the lines of the gate's statistics in that response, and the
  -- counters.
  pub metrics_handler-status_handler :
      (pool : List Backend) (store : StateStore Carrier) (gate : Gate) (live : ℤ)
      (snap : RequestTotals) (keys : List RequestKey)
      → metrics_handler f pool store gate live snap keys
        ≡ told_backends (status_handler f pool store gate live).backends
          ++ gate_lines f (status_handler f pool store gate live).gate
          ++ total_lines f snap keys
  unfolding metrics_handler status_handler
  metrics_handler-status_handler pool store gate live snap keys =
      ap (λ ls. ls ++ gate_lines f (stats gate live) ++ total_lines f snap keys)
        (backend_lines-told store pool)
