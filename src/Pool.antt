-- ===== src/Pool.antt =====
-- backend.go: the pool of backends, its health checks and its live capacity. Backends are mutated
-- through their address; the pool is their list in the order of the configuration.
pub mod Capacity
pub mod Names
use loxy_router.Base.{
  ℕ, zero, suc, ◌+◌, ◌≡◌, Bool, true, false, ◌&&◌, List, [], ◌∷◌, map, keep, Option, Str, codes,
  str_eq, if◌then◌else◌, ℤ, pos, leb_ℤ, add64, ◌==◌,
}
use loxy_router.Text.{Unicode, is_empty}
use loxy_router.Model.{normalize_model}
use loxy_router.Config.{BackendConfig}
use loxy_router.Backend.{
  Backend, BackendStatus, up, down, effective_concurrent, has_capacity, supports_model, set_status,
  ping,
}

-- The backend that NewBackendPool makes of the entry at index `i`.
unfoldable pub new_backend : Unicode → Str → ℕ → BackendConfig → Backend
new_backend u default_api_key i c = record {
  addr = i;
  name = c.name;
  url = c.url;
  models = map (normalize_model u) c.models;
  typ = if is_empty c.typ then codes "ollama" else c.typ;
  vram_total_mb = c.vram_total_mb;
  max_concurrent = c.max_concurrent;
  api_key = if is_empty c.api_key then default_api_key else c.api_key;
  status = down;
  inflight = pos 0;
  per_token_ms = pos 0;
  auto_concurrent = pos 0;
}

unfoldable pub new_backends : Unicode → Str → ℕ → List BackendConfig → List Backend
unfolding new_backend
new_backends u key i [] = []
new_backends u key i (c ∷ cs) = new_backend u key i c ∷ new_backends u key (suc i) cs

-- NewBackendPool
unfoldable pub new_backend_pool : Unicode → List BackendConfig → Str → List Backend
unfolding new_backends
new_backend_pool u cfgs default_api_key = new_backends u default_api_key 0 cfgs

unfoldable pub is_up : Backend → Bool
is_up b = elim b.status [ up ↦ true | down ↦ false ]

-- One round of HealthLoop
unfoldable pub health_round : (Str → Option ℤ) → List Backend → List Backend
health_round get_status = map (λ b. set_status b (if ping get_status b then up else down))

-- A write through a `*Backend`.
unfoldable pub modify : ℕ → (Backend → Backend) → List Backend → List Backend
modify p f [] = []
modify p f (b ∷ bs) = (if b.addr == p then f b else b) ∷ modify p f bs

-- The test of Available.
unfoldable pub is_available : Str → Backend → Bool
is_available model b = is_up b && supports_model b model && has_capacity b

-- Available
unfoldable pub available : List Backend → Str → List Backend
available pool model = keep (is_available model) pool

-- The loop of TotalConcurrency.
unfoldable pub total_from : ℤ → List Backend → ℤ
total_from sum [] = sum
total_from sum (b ∷ bs) =
    let limit = effective_concurrent b in
    let skipped = total_from sum bs in
    let counted = total_from (add64 sum limit) bs in
    if is_up b then (if leb_ℤ limit (pos 0) then pos 0 else counted) else skipped

-- TotalConcurrency
unfoldable pub total_concurrency : List Backend → ℤ
total_concurrency pool = total_from (pos 0) pool
