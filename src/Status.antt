-- ===== src/Status.antt =====
-- status.go: the record that /status encodes as JSON.
use loxy_router.Base.{ℕ, Bool, true, false, List, [], Option, none, some, Str, codes, map, ℤ, pos}
use loxy_router.Float.{Float64}
use loxy_router.Backend.{Backend, BackendStatus, up, down, effective_concurrent}
use loxy_router.State.{StateStore, BackendState, ModelStatus, warm, cold, get}
use loxy_router.Gate.{Gate, GateStats, stats}

-- The constants StatusUp and StatusDown.
abbrev pub status_text : BackendStatus → Str
status_text up = codes "up"
status_text down = codes "down"

abbrev pub is_model_warm : ModelStatus → Bool
is_model_warm warm = true
is_model_warm cold = false

module _ (f : Float64) where
  open f use {Carrier, of_int}

  pub record BackendEntry : Type 0 where
    pub name : Str
    pub url : Str
    pub typ : Str
    pub status : Str
    pub warm : Bool
    pub loaded_models : List Str
    pub vram_used_pct : Carrier
    pub queue_depth : ℤ
    pub inflight : ℤ
    pub effective_concurrent : ℤ
    pub per_token_ms : ℤ
    pub last_scraped : ℕ

  pub record Response : Type 0 where
    pub gate : GateStats
    pub backends : List BackendEntry

  -- What the store adds to an entry.
  unfoldable pub with_state : BackendEntry → Option (BackendState Carrier) → BackendEntry
  with_state e none = e
  with_state e (some st) = record e {
    warm = is_model_warm st.model_status;
    loaded_models = st.loaded_models;
    vram_used_pct = st.vram_used_pct;
    queue_depth = st.queue_depth;
    last_scraped = st.last_scraped;
  }

  -- The body of the loop over the pool.
  unfoldable pub entry_of : StateStore Carrier → Backend → BackendEntry
  entry_of store b =
      with_state
        (record {
          name = b.name;
          url = b.url;
          typ = b.typ;
          status = status_text b.status;
          warm = false;
          loaded_models = [];
          vram_used_pct = of_int (pos 0);
          queue_depth = pos 0;
          inflight = b.inflight;
          effective_concurrent = effective_concurrent b;
          per_token_ms = b.per_token_ms;
          last_scraped = 0;
        })
        (get store b.name)

  -- statusHandler; `live` is what the gate's limit function returns.
  unfoldable pub status_handler : List Backend → StateStore Carrier → Gate → ℤ → Response
  status_handler pool store g live = record {
    gate = stats g live;
    backends = map (entry_of store) pool;
  }
