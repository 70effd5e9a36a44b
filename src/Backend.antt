-- ===== src/Backend.antt =====
-- backend.go: one backend, its concurrency limit, its in-flight counter and its latency average.
-- A `*Backend` is the record with its address; the atomics are fields that each operation reads
-- and writes in one step (`Backend/Reserve.antt` has the loads and swaps of `tryReserve`).
pub mod Limits
pub mod Latency
pub mod Reserve
pub mod Solo
use loxy_router.Base.{
  ℕ, ◌≡◌, Bool, true, false, ◌||◌, List, [], ◌∷◌, ◌++◌, Option, none, some, Str, codes, str_eq,
  if◌then◌else◌, ℤ, pos, negsuc, ltb_ℤ, leb_ℤ, eqb_ℤ, add64, sub64, mul64, quot64,
}

pub data BackendStatus : Type 0 where
  up down : BackendStatus

pub record Backend : Type 0 where
  pub addr : ℕ  -- the address of the struct, its place in the pool
  pub name : Str
  pub url : Str
  pub models : List Str
  pub typ : Str
  pub vram_total_mb : ℤ
  pub max_concurrent : ℤ
  pub api_key : Str
  pub status : BackendStatus
  pub inflight : ℤ
  pub per_token_ms : ℤ
  pub auto_concurrent : ℤ

-- setStatus
unfoldable pub set_status : Backend → BackendStatus → Backend
set_status b s = record b { status = s }

-- incInflight and decInflight
unfoldable pub inc_inflight : Backend → Backend
inc_inflight b = record b { inflight = add64 b.inflight (pos 1) }

unfoldable pub dec_inflight : Backend → Backend
dec_inflight b = record b { inflight = add64 b.inflight (negsuc 0) }

-- effectiveConcurrent
unfoldable pub effective_concurrent : Backend → ℤ
effective_concurrent b =
    if ltb_ℤ (pos 0) b.max_concurrent
    then b.max_concurrent
    else if ltb_ℤ (pos 0) b.auto_concurrent
    then b.auto_concurrent
    else pos 0

-- hasCapacity
unfoldable pub has_capacity : Backend → Bool
has_capacity b =
    let limit = effective_concurrent b in
    if leb_ℤ limit (pos 0) then true else ltb_ℤ b.inflight limit

-- tryReserve, its compare-and-swap taken to succeed at once
unfoldable pub try_reserve : Backend → Backend × Bool
try_reserve b =
    let limit = effective_concurrent b in
    if leb_ℤ limit (pos 0)
    then (record b { inflight = add64 b.inflight (pos 1) }, true)
    else if leb_ℤ limit b.inflight
    then (b, false)
    else (record b { inflight = add64 b.inflight (pos 1) }, true)

-- SetAutoConcurrent
unfoldable pub set_auto_concurrent : Backend → ℤ → Backend
set_auto_concurrent b n = record b { auto_concurrent = n }

-- The value that RecordPerTokenMs stores: 0.8 × old + 0.2 × sample, in integers.
unfoldable pub next_per_token_ms : ℤ → ℤ → ℤ
next_per_token_ms old ms =
    if eqb_ℤ old (pos 0) then ms else quot64 (add64 (mul64 old (pos 4)) ms) (pos 5)

-- RecordPerTokenMs
unfoldable pub record_per_token_ms : Backend → ℤ → Backend
record_per_token_ms b ms = record b { per_token_ms = next_per_token_ms b.per_token_ms ms }

-- slices.Contains
unfoldable pub contains_text : List Str → Str → Bool
contains_text [] s = false
contains_text (t ∷ ts) s = str_eq t s || contains_text ts s

-- supportsModel
unfoldable pub supports_model : Backend → Str → Bool
supports_model b model = elim b.models [ [] ↦ true | _ ∷ _ ↦ contains_text b.models model ]

-- healthEndpoint
unfoldable pub health_endpoint : Backend → Str
health_endpoint b = if str_eq b.typ (codes "vllm") then codes "/health" else codes "/api/version"

-- The answer to a GET request: the status 200, and no error.
abbrev pub is_ok : Option ℤ → Bool
is_ok none = false
is_ok (some status) = eqb_ℤ status (pos 200)

-- ping; `get_status` is the client's Get, which gives the status of the answer.
unfoldable pub ping : (Str → Option ℤ) → Backend → Bool
ping get_status b = is_ok (get_status (b.url ++ health_endpoint b))
