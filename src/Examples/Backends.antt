-- ===== src/Examples/Backends.antt =====
-- Backends: reservations, latency, capacity, tuning, deadlines.
use loxy_router.Base.{
  ◌≤◌, ◌<◌, ◌^◌, ◌≡◌, refl, true, List, [], ◌∷◌, some, arith, pos, negsuc, ◌<ℤ◌, total, In, here,
  codes, wrap64,
}
use loxy_router.Backend.{Backend, up, down, effective_concurrent, has_capacity, set_auto_concurrent}
use loxy_router.Backend.Latency.{Averages, record_all, record_all_between}
use loxy_router.Backend.Reserve.{
  outside, limited, loaded, holding, read_limit, load, swap, moves, retune, Reach, here, later,
  holds, outsiders, try_reserve_hard_cap,
}
use loxy_router.Pool.{is_up, total_concurrency, total_from}
use loxy_router.Pool.Capacity.{up_limit, up_load, total_concurrency-has_capacity}
use loxy_router.Scraper.{PsModel, scrape_ollama}
use loxy_router.Scraper.Tuning.{scrape_ollama_negative_cap}
use loxy_router.Examples.Instances.{ascii, fixed}

abbrev gpu : Backend
gpu = record {
  addr = 0;
  name = codes "gpu";
  url = codes "http://gpu:11434";
  models = [];
  typ = codes "ollama";
  vram_total_mb = pos 16_000;
  max_concurrent = pos 2;
  api_key = [];
  status = up;
  inflight = pos 0;
  per_token_ms = pos 0;
  auto_concurrent = pos 0;
}

record_all_between_example : Averages (record_all gpu (40 ∷ 10 ∷ 25 ∷ [])) 10 40
record_all_between_example =
    record_all_between gpu 10 40 40 (10 ∷ 25 ∷ []) refl (omega arith) (omega arith) (omega arith)

-- One goroutine reads the limit and the counter, and swaps; the scraper writes in between.
reserved :
    Reach
      (record { backend = gpu; threads = outsiders 2 })
      (record {
        backend = record gpu { auto_concurrent = pos 9; inflight = pos 1 };
        threads = holding ∷ outside ∷ [];
      })
unfolding outsiders effective_concurrent wrap64 set_auto_concurrent
reserved =
    later
      (later
        (later (later here (moves [] (outside ∷ []) outside (limited (pos 2)) refl refl read_limit))
          (moves [] (outside ∷ []) (limited (pos 2)) (loaded (pos 2) (pos 0)) refl refl
            (load (omega arith))))
        (retune (pos 9) refl))
      (moves [] (outside ∷ []) (loaded (pos 2) (pos 0)) holding refl refl (swap (omega arith) refl))

try_reserve_hard_cap_example :
    (pos 1 ≡ pos (total holds (holding ∷ outside ∷ [])))
    × (total holds (holding ∷ outside ∷ []) ≤ 2)
try_reserve_hard_cap_example =
    try_reserve_hard_cap gpu 2 2 (omega arith) (omega arith) refl refl reserved

abbrev pool : List Backend
pool = gpu ∷ record gpu { addr = 1; name = codes "old"; status = down } ∷ []

limits_fit : total up_limit pool < 2 ^ 63
unfolding up_limit is_up effective_concurrent
limits_fit = omega arith

spare : pos (total up_load pool) <ℤ total_concurrency pool
unfolding total_concurrency up_load is_up effective_concurrent wrap64 total_from
spare = omega arith

total_concurrency-has_capacity_example :
    (b : Backend) × In b pool × (is_up b ≡ true) × (has_capacity b ≡ true)
total_concurrency-has_capacity_example = total_concurrency-has_capacity pool limits_fit spare

abbrev llama : PsModel
llama = record { name = codes "Llama3.2"; size = pos 2_000_000_000; size_vram = pos 2_000_000_000 }

scrape_ollama_negative_cap_example :
    effective_concurrent
      (scrape_ollama fixed ascii (record gpu { max_concurrent = negsuc 0 }) 5 (some (llama ∷ []))).0
    ≡ pos 0
scrape_ollama_negative_cap_example =
    scrape_ollama_negative_cap fixed ascii (record gpu { max_concurrent = negsuc 0 }) 5
      (some (llama ∷ [])) (omega arith) refl
