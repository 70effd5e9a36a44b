-- ===== src/Scheduler.antt =====
-- scheduler.go and plugin.go: the choice of a backend for a request. A pick reads the pool, the
-- state store and the conversation store at one moment.
pub mod Best
pub mod Candidates
pub mod Choice
pub mod Complete
pub mod Health
pub mod Sound
use loxy_router.Base.{
  ℕ, ◌≡◌, Bool, true, false, not, ◌&&◌, ◌||◌, List, [], ◌∷◌, Option, none, some, keep, Str, codes,
  str_eq, if◌then◌else◌, ℤ, pos, eqb_ℤ, ltb_ℤ, add64, lookup, str_Eq,
}
use loxy_router.Text.{Unicode, is_empty}
use loxy_router.Model.{Priority, normalize_model}
use loxy_router.Float.{Float64}
use loxy_router.Backend.{Backend, contains_text}
use loxy_router.Pool.{available}
use loxy_router.State.{BackendState, StateStore, ModelStatus, warm, cold, get}
use loxy_router.Conversation.{ConversationStore}
use loxy_router.Conversation

-- clientRequest (request.go)
pub record ClientRequest : Type 0 where
  pub model : Str
  pub conversation_id : Str
  pub priority : Priority

-- The answer of SchedulerPlugin.Pick: an error, or a name that may be empty.
pub data PluginAnswer : Type 0 where
  refuses : Str → PluginAnswer
  names : Str → PluginAnswer

abbrev pub SchedulerPlugin : Type 0
SchedulerPlugin = Str → List Backend → PluginAnswer

abbrev pub default_per_token_ms : ℤ
default_per_token_ms = pos 20

abbrev pub expected_tokens : ℤ
expected_tokens = pos 256

abbrev pub cold_load_ms : ℤ
cold_load_ms = pos 25_000

-- (*Backend, error): ErrNoBackend for the model, ErrNoBackend at the VRAM limit, a plugin's error.
pub data Picked : Type 0 where
  ok : Backend → Picked
  no_backend : Str → Picked
  near_vram_limit : Picked
  plugin_error : Str → Picked

-- exclude[name], for a map that may be nil.
unfoldable pub excluded : List (Str × Bool) → Str → Bool
excluded m name = elim (lookup name m) [ none ↦ false | some b ↦ b ]

-- The loop that looks for the plugin's backend.
unfoldable pub find_name : Str → List Backend → Option Backend
find_name name [] = none
find_name name (b ∷ bs) = if str_eq b.name name then some b else find_name name bs

module _ (f : Float64) where
  open f use {Carrier, of_int, nine_tenths, add, mul, div, lt, le}

  -- isWarm
  unfoldable pub is_warm : StateStore Carrier → Backend → Str → Bool
  is_warm store b model = if str_eq b.typ (codes "vllm") then true else elim (get store b.name) [
    | none ↦ false
    | some st ↦ elim st.model_status [ warm ↦ contains_text st.loaded_models model | cold ↦ false ]
  ]

  -- isSafe
  unfoldable pub is_safe : StateStore Carrier → Backend → Bool
  is_safe store b = elim (get store b.name) [
    | none ↦ true
    | some st ↦ not (lt (of_int (pos 0)) st.vram_used_pct && le nine_tenths st.vram_used_pct)
  ]

  -- The load that `score` counts: the larger of the reported queue and the own counter.
  unfoldable pub load_of : StateStore Carrier → Backend → ℤ
  load_of store b =
      let depth : ℤ = elim (get store b.name) [ none ↦ pos 0 | some st ↦ st.queue_depth ] in
      if ltb_ℤ depth b.inflight then b.inflight else depth

  -- The time of one full request on the backend.
  unfoldable pub req_ms : Backend → Carrier
  req_ms b =
      mul (of_int expected_tokens)
        (of_int (if eqb_ℤ b.per_token_ms (pos 0) then default_per_token_ms else b.per_token_ms))

  unfoldable pub vram_used_pct_of : StateStore Carrier → Backend → Carrier
  vram_used_pct_of store b = elim (get store b.name) [
    | none ↦ of_int (pos 0)
    | some st ↦ st.vram_used_pct
  ]

  unfoldable pub expected_ms : StateStore Carrier → Backend → Str → Carrier
  expected_ms store b model =
      let load = load_of store b in
      if is_warm store b model
      then mul (of_int (add64 load (pos 1))) (req_ms b)
      else add (mul (of_int cold_load_ms) (add (of_int (pos 1)) (vram_used_pct_of store b)))
          (mul (of_int load) (req_ms b))

  -- score
  unfoldable pub score : StateStore Carrier → Backend → Str → Carrier
  score store b model = div (of_int (pos 1)) (expected_ms store b model)

  -- The loop of bestScore, with the best backend so far and its score.
  unfoldable pub best_from : StateStore Carrier → Str → Backend → Carrier → List Backend → Backend
  best_from store model best best_score [] = best
  best_from store model best best_score (b ∷ bs) =
      let sc = score store b model in
      let better = best_from store model b sc bs in
      let same = best_from store model best best_score bs in
      if lt best_score sc then better else same

  -- bestScore
  unfoldable pub best_score : StateStore Carrier → Str → List Backend → Option Backend
  best_score store model [] = none
  best_score store model (b ∷ bs) = some (best_from store model b (score store b model) bs)

  -- applyVRAMGuard
  unfoldable pub apply_vram_guard : StateStore Carrier → List Backend → List Backend
  apply_vram_guard store = keep (is_safe store)

  -- pick
  unfoldable pub pick : StateStore Carrier → Str → List Backend → Picked
  pick store model candidates = elim (best_score store model (apply_vram_guard store candidates)) [
    | none ↦ near_vram_limit
    | some b ↦ ok b
  ]

  pub record Scheduler : Type 0 where
    pub pool : List Backend
    pub store : StateStore Carrier
    pub conv : Option ConversationStore
    pub plugin : Option SchedulerPlugin

  -- NewScheduler, whose plugins are optional.
  unfoldable pub new_scheduler :
      List Backend
      → StateStore Carrier
      → Option ConversationStore
      → List SchedulerPlugin
      → Scheduler
  new_scheduler pool store conv [] = record {
    pool = pool;
    store = store;
    conv = conv;
    plugin = none;
  }
  new_scheduler pool store conv (p ∷ ps) = record {
    pool = pool;
    store = store;
    conv = conv;
    plugin = some p;
  }

  -- The loop of affinityPick.
  unfoldable pub find_sticky : StateStore Carrier → Str → Str → List Backend → Option Backend
  find_sticky store name model [] = none
  find_sticky store name model (b ∷ bs) =
      if str_eq b.name name && is_warm store b model && is_safe store b
      then some b
      else find_sticky store name model bs

  -- affinityPick
  unfoldable pub affinity_pick : Scheduler → ℕ → ClientRequest → Str → List Backend → Option Backend
  affinity_pick s now req model candidates = elim s.conv [
    | none ↦ none
    | some c ↦
        if is_empty req.conversation_id
        then none
        else elim (Conversation.get c now req.conversation_id) [
          | none ↦ none
          | some name ↦ find_sticky s.store name model candidates
        ]
  ]

  -- PickExcluding behind the plugin.
  unfoldable pub pick_built_in : Scheduler → ℕ → ClientRequest → Str → List Backend → Picked
  pick_built_in s now req model candidates = elim (affinity_pick s now req model candidates) [
    | some b ↦ ok b
    | none ↦ pick s.store model candidates
  ]

  -- The plugin of PickExcluding.
  unfoldable pub pick_plugin :
      Scheduler → ℕ → ClientRequest → Str → List Backend → SchedulerPlugin → Picked
  pick_plugin s now req model candidates p = elim (p model candidates) [
    | refuses e ↦ plugin_error e
    | names name ↦
        if is_empty name
        then pick_built_in s now req model candidates
        else elim (find_name name candidates) [
          | some b ↦ ok b
          | none ↦ pick_built_in s now req model candidates
        ]
  ]

  -- The candidates of PickExcluding.
  unfoldable pub candidates_of : List Backend → Str → List (Str × Bool) → List Backend
  candidates_of pool model [] = available pool model
  candidates_of pool model (e ∷ es) =
      keep (λ b. not (excluded (e ∷ es) b.name)) (available pool model)

  unfoldable pub pick_among : Scheduler → ℕ → ClientRequest → Str → List Backend → Picked
  pick_among s now req model [] = no_backend model
  pick_among s now req model (b ∷ bs) = elim s.plugin [
    | none ↦ pick_built_in s now req model (b ∷ bs)
    | some p ↦ pick_plugin s now req model (b ∷ bs) p
  ]

  -- PickExcluding
  unfoldable pub pick_excluding :
      Unicode → Scheduler → ℕ → ClientRequest → List (Str × Bool) → Picked
  pick_excluding u s now req exclude =
      let model = normalize_model u req.model in
      pick_among s now req model (candidates_of s.pool model exclude)

  -- RecordConversation
  unfoldable pub record_conversation : Scheduler → ℕ → ClientRequest → Str → Scheduler
  record_conversation s now req backend = elim s.conv [
    | none ↦ s
    | some c ↦ record s { conv = some (Conversation.set c now req.conversation_id backend) }
  ]
