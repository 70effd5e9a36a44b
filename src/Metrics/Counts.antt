-- ===== src/Metrics/Counts.antt =====
-- The counters against the calls that were made.
use loxy_router.Base.{
  ℕ, ◌+◌, ◌≤◌, ◌<◌, ◌^◌, ◌≡◌, refl, ap, ◌∙◌, inl, inr, List, [], ◌∷◌, Option, some, if◌then◌else◌,
  ℤ, pos, add64, add64_pos, lookup, insert, lookup-insert, arith, length, Bool-cases,
}
use loxy_router.Metrics.{
  RequestKey, same_key, same_key_iff, key_Eq, RequestTotals, total_of, inc_request,
}

-- The collector after some calls of IncRequest, the newest first.
unfoldable pub recorded : List RequestKey → Option RequestTotals
recorded [] = some []
recorded (k ∷ ks) = inc_request k.backend k.status (recorded ks)

-- How often a key was counted.
unfoldable pub times : RequestKey → List RequestKey → ℕ
times k [] = 0
times k (j ∷ js) = (if same_key j k then 1 else 0) + times k js

times-le : (k : RequestKey) (js : List RequestKey) → times k js ≤ length js
unfolding times
times-le k [] = omega arith
times-le k (j ∷ js) = ground (arith, times-le k js)

total_of-insert :
    (k j : RequestKey) (n : ℤ) (m : RequestTotals)
    → total_of j (insert k n m) ≡ (if same_key k j then n else total_of j m)
unfolding total_of
total_of-insert k j n m = ground (arith, lookup-insert k j n m)

total_of-nil : (k : RequestKey) → total_of k [] ≡ pos 0
unfolding total_of lookup
total_of-nil k = refl

recorded_next :
    (j k : RequestKey) (ks : List RequestKey) (m : RequestTotals)
    → length ks + 1 < 2 ^ 63
    → ((i : RequestKey) → total_of i m ≡ pos (times i ks))
    → total_of k (insert j (add64 (total_of j m) (pos 1)) m) ≡ pos (times k (j ∷ ks))
unfolding times
recorded_next j k ks m h count =
    total_of-insert j k (add64 (total_of j m) (pos 1)) m ∙ elim (Bool-cases (same_key j k)) [
      | inl e ↦
          let q : j ≡ k = (same_key_iff j k).0 e in
          rw (e, count j)
            (add64_pos (times j ks) 1 (omega (arith, times-le j ks))
              ∙ ap (λ z. pos (times z ks + 1)) q
              ∙ ap pos (omega arith))
      | inr e ↦ rw e (count k ∙ ap pos (omega arith))
    ]

-- The collector counts: after fewer than 2 ^ 63 calls of IncRequest on a new collector, the entry of
-- each backend and status is the number of calls for just that backend and status.
pub recorded-times :
    (ks : List RequestKey)
    → length ks < 2 ^ 63
    → (m : RequestTotals) × (recorded ks ≡ some m)
      × ((k : RequestKey) → total_of k m ≡ pos (times k ks))
unfolding recorded times inc_request
recorded-times [] h = ([], refl, total_of-nil)
recorded-times (j ∷ ks) h =
    let (m, e, count) = recorded-times ks (omega arith) in
    (
      insert j (add64 (total_of j m) (pos 1)) m,
      rw (e, inc_request) refl,
      λ k. recorded_next j k ks m (omega arith) count,
    )
