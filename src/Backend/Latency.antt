-- ===== src/Backend/Latency.antt =====
-- The latency average.
use loxy_router.Base.{
  All, List, [], ◌∷◌, ℕ, ◌+◌, ◌*◌, ◌/◌, ◌≤◌, ◌<◌, ◌^◌, ◌≡◌, arith, pos, wrap64_id,
}
use loxy_router.Backend.{Backend, next_per_token_ms, record_per_token_ms}

next_per_token_ms_lem :
    (old ms : ℕ)
    → 0 < old
    → old * 4 + ms < 2 ^ 63
    → next_per_token_ms (pos old) (pos ms) ≡ pos ((old * 4 + ms) / 5)
unfolding next_per_token_ms
next_per_token_ms_lem old ms h k = ground (
  arith,
  wrap64_id (pos (old * 4)),
  wrap64_id (pos (old * 4 + ms)),
  wrap64_id (pos ((old * 4 + ms) / 5)),
)

-- The average of a backend is a value between two bounds.
abbrev pub Averages : Backend → ℕ → ℕ → Type 0
Averages b lo hi = (r : ℕ) × (b.per_token_ms ≡ pos r) × (lo ≤ r) × (r ≤ hi)

first_sample :
    (b : Backend) (ms : ℕ)
    → b.per_token_ms ≡ pos 0
    → (record_per_token_ms b (pos ms)).per_token_ms ≡ pos ms
unfolding record_per_token_ms next_per_token_ms
first_sample b ms e = rw e

next_sample :
    (b : Backend) (lo hi old ms : ℕ)
    → 0 < lo
    → hi * 5 < 2 ^ 63
    → b.per_token_ms ≡ pos old
    → (lo ≤ old) × (old ≤ hi)
    → (lo ≤ ms) × (ms ≤ hi)
    → Averages (record_per_token_ms b (pos ms)) lo hi
unfolding record_per_token_ms
next_sample b lo hi old ms p k e o m = (
  (old * 4 + ms) / 5,
  rw e (next_per_token_ms_lem old ms (omega arith) (omega arith)),
  omega arith,
  omega arith,
)

-- RecordPerTokenMs for a sequence of samples.
unfoldable pub record_all : Backend → List ℕ → Backend
record_all b [] = b
record_all b (m ∷ ms) = record_all (record_per_token_ms b (pos m)) ms

record_all_kept :
    (b : Backend) (lo hi : ℕ) (ms : List ℕ)
    → 0 < lo
    → hi * 5 < 2 ^ 63
    → Averages b lo hi
    → All (λ m. (lo ≤ m) × (m ≤ hi)) ms
    → Averages (record_all b ms) lo hi
unfolding record_all
record_all_kept b lo hi [] p k a h = a
record_all_kept b lo hi (m ∷ ms) p k (old, e, l, u) h =
    record_all_kept (record_per_token_ms b (pos m)) lo hi ms p k
      (next_sample b lo hi old m p k e (l, u) h.0) h.1

-- However many samples between two positive bounds a fresh backend has recorded, its average is a
-- number between the same bounds: it is neither lost to an overflow nor back at 0, which means
-- that nothing was measured. The upper bound times 5 fits an `int64`.
pub record_all_between :
    (b : Backend) (lo hi m : ℕ) (ms : List ℕ)
    → b.per_token_ms ≡ pos 0
    → 0 < lo
    → hi * 5 < 2 ^ 63
    → All (λ x. (lo ≤ x) × (x ≤ hi)) (m ∷ ms)
    → Averages (record_all b (m ∷ ms)) lo hi
unfolding record_all
record_all_between b lo hi m ms e p k h =
    record_all_kept (record_per_token_ms b (pos m)) lo hi ms p k
      (m, first_sample b m e, h.0.0, h.0.1) h.1
