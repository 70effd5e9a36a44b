-- ===== src/Scraper/Prom.antt =====
-- scraper.go: a line of the Prometheus text format, and what the lines of a vLLM engine's /metrics
-- change in its state.
pub mod Line
use loxy_router.Base.{
  ℕ, ◌≡◌, Bool, true, false, ◌||◌, List, [], ◌∷◌, Option, none, some, Str, codes, ◌==◌,
  if◌then◌else◌,
}
use loxy_router.Text.{is_empty}
use loxy_router.Text.Split.{split, fields, has_prefix}
use loxy_router.Float.{Float64, FloatText}
use loxy_router.State.{BackendState}

-- parts[len(parts)-1], for the parts behind the first
abbrev pub last_part : Str → List Str → Str
last_part p [] = p
last_part p (q ∷ qs) = last_part q qs

-- parts[len(parts)-2]
abbrev pub part_before : Str → Str → List Str → Str
part_before p q [] = p
part_before p q (r ∷ rs) = part_before q r rs

-- The text before the first "{".
unfoldable pub strip_labels : Str → Str
strip_labels [] = []
strip_labels (c ∷ s) = let rest = strip_labels s in if c == b'{' then [] else c ∷ rest

module _ {f : Float64} (t : FloatText f) where
  open f use {Carrier}

  -- parsePromLine behind strings.Fields
  unfoldable pub parse_parts : List Str → Option (Str × Carrier)
  parse_parts [] = none
  parse_parts (p ∷ []) = none
  parse_parts (p ∷ q ∷ qs) = elim (t.parse (last_part q qs)) [
    | some v ↦ some (strip_labels p, v)
    | none ↦ elim qs [
      | [] ↦ none
      | r ∷ rs ↦ elim (t.parse (part_before q r rs)) [
        | none ↦ none
        | some v ↦ some (strip_labels p, v)
      ]
    ]
  ]

  -- parsePromLine
  unfoldable pub parse_prom_line : Str → Option (Str × Carrier)
  parse_prom_line line = parse_parts (fields line)

  -- The `switch` of scrapeVLLMMetrics.
  unfoldable pub apply_metric : BackendState Carrier → Str → Carrier → BackendState Carrier
  apply_metric st name v =
      if has_prefix (codes "vllm:kv_cache_usage_perc") name
        || has_prefix (codes "vllm:gpu_cache_usage_perc") name
      then record st { vram_used_pct = v }
      else if has_prefix (codes "vllm:num_requests_running") name
      then record st { inflight = t.to_int v }
      else if has_prefix (codes "vllm:num_requests_waiting") name
      then record st { queue_depth = t.to_int v }
      else st

  -- The body of its loop.
  unfoldable pub apply_line : BackendState Carrier → Str → BackendState Carrier
  apply_line st line =
      if has_prefix (codes "#") line || is_empty line
      then st
      else elim (parse_prom_line line) [ none ↦ st | some (name, v) ↦ apply_metric st name v ]

  unfoldable pub apply_lines : BackendState Carrier → List Str → BackendState Carrier
  apply_lines st [] = st
  apply_lines st (line ∷ lines) = apply_lines (apply_line st line) lines

  -- scrapeVLLMMetrics; `none` is an error of the request or of the read.
  unfoldable pub scrape_vllm_metrics : BackendState Carrier → Option Str → BackendState Carrier
  scrape_vllm_metrics st none = st
  scrape_vllm_metrics st (some body) = apply_lines st (split 10 body)
