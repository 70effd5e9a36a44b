-- ===== src/Scraper.antt =====
-- scraper.go: what a poll of a backend writes into the state store, and the concurrency that it
-- computes for a backend with no configured cap. The answer of the backend, parsed, is an argument;
-- `none` stands for each of the errors of the request, the read and the JSON.
pub mod Tuning
pub mod Prom
pub mod Poll
use loxy_router.Base.{
  ℕ, ◌≡◌, Bool, true, false, ◌&&◌, ◌||◌, List, [], ◌∷◌, Option, none, some, map, Str, codes,
  if◌then◌else◌, ℤ, pos, ltb_ℤ, leb_ℤ, eqb_ℤ, add64, sub64, mul64, quot64,
}
use loxy_router.Text.{Unicode}
use loxy_router.Model.{normalize_model}
use loxy_router.Float.{Float64}
use loxy_router.Backend.{Backend, set_auto_concurrent}
use loxy_router.State.{BackendState, ModelStatus, warm, cold}

-- An entry of ollamaPSResponse.
pub record PsModel : Type 0 where
  pub name : Str
  pub size : ℤ
  pub size_vram : ℤ

abbrev pub default_cold_concurrent : ℤ
default_cold_concurrent = pos 4

-- 256 << 20
abbrev pub kv_floor : ℤ
kv_floor = pos 268_435_456

-- n clamped to [1, 32], and halved on a CPU, but not below 1.
unfoldable pub clamp_concurrent : ℤ → Bool → ℤ
clamp_concurrent n is_cpu =
    let low = if ltb_ℤ n (pos 1) then pos 1 else n in
    let high = if ltb_ℤ (pos 32) low then pos 32 else low in
    let half = quot64 high (pos 2) in
    if is_cpu then (if ltb_ℤ half (pos 1) then pos 1 else half) else high

-- autoConcurrent
unfoldable pub auto_concurrent_of : ℤ → ℤ → ℤ → Bool → ℤ
auto_concurrent_of vram_total_mb used_bytes model_bytes is_cpu =
    let total_bytes = mul64 (mul64 vram_total_mb (pos 1024)) (pos 1024) in
    let free_bytes = sub64 total_bytes used_bytes in
    let tenth = quot64 model_bytes (pos 10) in
    let kv_per_request = if eqb_ℤ tenth (pos 0) then kv_floor else tenth in
    if leb_ℤ vram_total_mb (pos 0) || leb_ℤ model_bytes (pos 0)
    then (if is_cpu then pos 2 else pos 4)
    else if leb_ℤ free_bytes (pos 0)
    then pos 1
    else clamp_concurrent (quot64 free_bytes kv_per_request) is_cpu

-- The running sums of the loop over ps.Models.
pub record Footprint : Type 0 where
  pub sum_vram : ℤ
  pub sum_size : ℤ
  pub largest : ℤ

unfoldable pub footprint_from : Footprint → List PsModel → Footprint
footprint_from acc [] = acc
footprint_from acc (m ∷ ms) =
    let footprint = if eqb_ℤ m.size_vram (pos 0) then m.size else m.size_vram in
    footprint_from
      (record {
        sum_vram = add64 acc.sum_vram m.size_vram;
        sum_size = add64 acc.sum_size m.size;
        largest = if ltb_ℤ acc.largest footprint then footprint else acc.largest;
      })
      ms

unfoldable pub footprint_of : List PsModel → Footprint
unfolding footprint_from
footprint_of = footprint_from (record { sum_vram = pos 0; sum_size = pos 0; largest = pos 0 })

-- size_vram is 0 on CPU-only systems.
unfoldable pub used_bytes_of : Footprint → ℤ
used_bytes_of p = if eqb_ℤ p.sum_vram (pos 0) then p.sum_size else p.sum_vram

module _ (f : Float64) (u : Unicode) where
  open f use {Carrier, of_int, div}

  -- The state of a backend with nothing loaded.
  unfoldable pub cold_state : Backend → ℕ → BackendState Carrier
  cold_state b now = record {
    model_status = cold;
    loaded_models = [];
    vram_used_bytes = pos 0;
    vram_used_pct = of_int (pos 0);
    queue_depth = pos 0;
    inflight = b.inflight;
    last_scraped = now;
  }

  -- The state of a backend with models resident.
  unfoldable pub warm_state : Backend → ℕ → List PsModel → BackendState Carrier
  warm_state b now ms =
      let used = used_bytes_of (footprint_of ms) in
      let total_bytes = mul64 (mul64 b.vram_total_mb (pos 1024)) (pos 1024) in
      record {
        model_status = warm;
        loaded_models = map (λ m. normalize_model u m.name) ms;
        vram_used_bytes = used;
        vram_used_pct =
            if ltb_ℤ (pos 0) b.vram_total_mb
            then div (of_int used) (of_int total_bytes)
            else of_int (pos 0);
        queue_depth = pos 0;
        inflight = b.inflight;
        last_scraped = now;
      }

  -- The estimate that a poll stores on a backend with no configured cap.
  unfoldable pub tuned : Backend → List PsModel → Backend
  tuned b [] =
      if eqb_ℤ b.max_concurrent (pos 0) && eqb_ℤ b.auto_concurrent (pos 0)
      then set_auto_concurrent b default_cold_concurrent
      else b
  tuned b (m ∷ ms) =
      let p = footprint_of (m ∷ ms) in
      if eqb_ℤ b.max_concurrent (pos 0)
      then set_auto_concurrent b (
          auto_concurrent_of b.vram_total_mb (used_bytes_of p) p.largest (eqb_ℤ p.sum_vram (pos 0)))
      else b

  -- scrapeOllama, and the time that `scrape` adds.
  unfoldable pub scrape_ollama :
      Backend → ℕ → Option (List PsModel) → Backend × Option (BackendState Carrier)
  scrape_ollama b now none = (b, none)
  scrape_ollama b now (some []) = (tuned b [], some (cold_state b now))
  scrape_ollama b now (some (m ∷ ms)) = (tuned b (m ∷ ms), some (warm_state b now (m ∷ ms)))
