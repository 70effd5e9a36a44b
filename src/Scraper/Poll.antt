-- ===== src/Scraper/Poll.antt =====
-- scraper.go: the poll of a vLLM engine, the choice by the type of the backend, and a round over the
-- pool. The goroutines of a round share the state store only; each writes its own backend.
pub mod Limits
pub mod Store
use loxy_router.Base.{
  ℕ, ◌≡◌, Bool, List, [], ◌∷◌, Option, none, some, Str, codes, str_eq, if◌then◌else◌, ℤ, pos, eqb_ℤ,
}
use loxy_router.Text.{Unicode, is_empty}
use loxy_router.Model.{normalize_model}
use loxy_router.Float.{Float64, FloatText}
use loxy_router.Backend.{Backend, set_auto_concurrent}
use loxy_router.State.{BackendState, StateStore, warm, set}
use loxy_router.Scraper.{PsModel, scrape_ollama}
use loxy_router.Scraper.Prom.{scrape_vllm_metrics}

-- vllmLoadedModel, of the ids that /v1/models lists; `none` for each of its errors
unfoldable pub vllm_loaded_model : Option (List Str) → Option Str
vllm_loaded_model none = none
vllm_loaded_model (some []) = some []
vllm_loaded_model (some (id ∷ ids)) = some id

-- How the endpoints of a backend answer one poll: /api/ps, /metrics and /v1/models.
pub record Answers : Type 0 where
  pub ps : Option (List PsModel)
  pub metrics : Option Str
  pub models : Option (List Str)

module _ {f : Float64} (t : FloatText f) (u : Unicode) where
  open f use {Carrier, of_int}

  -- The model that the engine names, or else the first one that is configured.
  unfoldable pub vllm_models : Backend → Option (List Str) → List Str
  vllm_models b answer =
      let configured : List Str = elim b.models [ [] ↦ [] | m ∷ ms ↦ normalize_model u m ∷ [] ] in
      elim (vllm_loaded_model answer) [
        | none ↦ configured
        | some model ↦ if is_empty model then configured else normalize_model u model ∷ []
      ]

  unfoldable pub vllm_start : BackendState Carrier
  vllm_start = record {
    model_status = warm;
    loaded_models = [];
    vram_used_bytes = pos 0;
    vram_used_pct = of_int (pos 0);
    queue_depth = pos 0;
    inflight = pos 0;
    last_scraped = 0;
  }

  unfoldable pub vllm_tuned : Backend → Backend
  vllm_tuned b = if eqb_ℤ b.max_concurrent (pos 0) then set_auto_concurrent b (pos 20) else b

  -- scrapeVLLM, and the time that `scrape` adds; it has no error
  unfoldable pub scrape_vllm : Backend → ℕ → Answers → Backend × Option (BackendState Carrier)
  scrape_vllm b now a =
      let st = scrape_vllm_metrics t vllm_start a.metrics in
      (
        vllm_tuned b,
        some (record st { loaded_models = vllm_models b a.models; last_scraped = now }),
      )

  -- The `switch` of `scrape`.
  unfoldable pub scrape_typ : Backend → ℕ → Answers → Backend × Option (BackendState Carrier)
  scrape_typ b now a =
      if str_eq b.typ (codes "vllm") then scrape_vllm b now a else scrape_ollama f u b now a.ps

  unfoldable pub stored :
      StateStore Carrier → Str → Option (BackendState Carrier) → StateStore Carrier
  stored store name none = store
  stored store name (some st) = set store name st

  -- scrape
  unfoldable pub scrape : Backend → ℕ → Answers → StateStore Carrier → Backend × StateStore Carrier
  scrape b now a store = let r = scrape_typ b now a in (r.0, stored store b.name r.1)

  -- A round of Run: each backend of the pool is polled once.
  unfoldable pub poll_round :
      (Backend → Answers)
      → ℕ
      → List Backend
      → StateStore Carrier
      → List Backend × StateStore Carrier
  poll_round answers now [] store = ([], store)
  poll_round answers now (b ∷ bs) store =
      let r = scrape b now (answers b) store in
      let rest = poll_round answers now bs r.1 in (r.0 ∷ rest.0, rest.1)
