-- ===== src/State.antt =====
-- state.go: what the scraper knows of each backend, by name.
use loxy_router.Base.{
  ℕ, ◌≡◌, List, [], Option, some, Str, ℤ, lookup, insert, lookup-insert, str_eq, str_Eq,
  if◌then◌else◌,
}

pub data ModelStatus : Type 0 where
  warm cold : ModelStatus

pub record BackendState (F : Type 0) : Type 0 where
  pub model_status : ModelStatus
  pub loaded_models : List Str
  pub vram_used_bytes : ℤ
  pub vram_used_pct : F
  pub queue_depth : ℤ
  pub inflight : ℤ
  pub last_scraped : ℕ

abbrev pub StateStore : Type 0 → Type 0
StateStore F = List (Str × BackendState F)

-- NewStateStore
abbrev pub new_state_store : {F : Type 0} → StateStore F
new_state_store = []

-- StateStore.Set
unfoldable pub set : {F : Type 0} → StateStore F → Str → BackendState F → StateStore F
set s name state = insert name state s

-- StateStore.Get
unfoldable pub get : {F : Type 0} → StateStore F → Str → Option (BackendState F)
get s name = lookup name s

-- A name reads the state that was stored under it last.
pub get-set :
    {F : Type 0} (s : StateStore F) (name other : Str) (state : BackendState F)
    → get (set s name state) other ≡ (if str_eq name other then some state else get s other)
unfolding get set
get-set s name other state = lookup-insert name other state s
