-- ===== src/Examples/Outputs.antt =====
-- What the clients and the operators read.
use mathlib.Core.List.{Perm}
use mathlib.Core.List.Perm
use loxy_router.Base.{List, ◌≡◌, ◌⊎◌, true, [], ◌∷◌, ◌++◌, pos, codes, Str}
use loxy_router.Gate.{Gate, new_gate}
use loxy_router.Tokens.{new_counter, last_bytes, token_tail_max, count_newlines}
use loxy_router.Tokens.Counting.{body, observe_all}
use loxy_router.Proxy.Stream.{Reads, last, next, streamed}
use loxy_router.Proxy.Stream.Chunks.{chunks, texts, Whole, Broken, whole}
use loxy_router.Proxy.Stream.Passes.{first_time, streamed_lem}
use loxy_router.Status.{status_handler}
use loxy_router.Metrics.{RequestKey, RequestTotals}
use loxy_router.Metrics.Output.{gate_lines, total_lines, sort_keys, metrics_handler}
use loxy_router.Metrics.Output.Agreement.{told_backends, metrics_handler-status_handler}
use loxy_router.Metrics.Output.Order.{IsAscending, metrics_handler_deterministic}
use loxy_router.Examples.Instances.{fixed}
use loxy_router.Examples.Picks.{gpu}

abbrev reads : Reads
reads =
    next (record { bytes = codes "data: a"; time = 3; written = true })
      (next (record { bytes = []; time = 4; written = true })
        (last (record { bytes = 10 ∷ []; time = 5; written = true })))

streamed_lem_example :
    (body (texts (chunks reads)) ≡ whole reads)
    × ((streamed reads).first_byte_at ≡ first_time reads)
    × (seen : List Str) × ((streamed reads).counter ≡ observe_all new_counter seen)
    × (Broken (chunks reads) (streamed reads).sent seen
        ⊎ (Whole (chunks reads) (streamed reads).sent seen
            × (body (streamed reads).sent ≡ whole reads)
            × ((streamed reads).counter.tail ≡ last_bytes token_tail_max (whole reads))
            × ((streamed reads).counter.newlines ≡ count_newlines (whole reads))))
streamed_lem_example = streamed_lem reads

abbrev gate : Gate
gate = new_gate (pos 4) (record { interactive = pos 50; batch = pos 200; background = pos 100 })

abbrev key_a : RequestKey
key_a = record { backend = codes "a"; status = pos 200 }

abbrev key_b : RequestKey
key_b = record { backend = codes "b"; status = pos 502 }

abbrev totals : RequestTotals
totals = (key_a, pos 3) ∷ (key_b, pos 1) ∷ []

metrics_handler-status_handler_example :
    metrics_handler fixed (gpu ∷ []) [] gate (pos 0) totals (key_b ∷ key_a ∷ [])
    ≡ told_backends fixed (status_handler fixed (gpu ∷ []) [] gate (pos 0)).backends
      ++ gate_lines fixed (status_handler fixed (gpu ∷ []) [] gate (pos 0)).gate
      ++ total_lines fixed totals (key_b ∷ key_a ∷ [])
metrics_handler-status_handler_example =
    metrics_handler-status_handler fixed (gpu ∷ []) [] gate (pos 0) totals (key_b ∷ key_a ∷ [])

metrics_handler_deterministic_example :
    (metrics_handler fixed (gpu ∷ []) [] gate (pos 0) totals (key_b ∷ key_a ∷ [])
      ≡ metrics_handler fixed (gpu ∷ []) [] gate (pos 0) totals (key_a ∷ key_b ∷ []))
    × (IsAscending (sort_keys (key_b ∷ key_a ∷ []))
        × Perm (sort_keys (key_b ∷ key_a ∷ [])) (key_b ∷ key_a ∷ []))
metrics_handler_deterministic_example =
    metrics_handler_deterministic fixed (gpu ∷ []) [] gate (pos 0) totals (key_b ∷ key_a ∷ [])
      (key_a ∷ key_b ∷ []) (Perm.swap key_a key_b [])
