-- ===== src/Backend/Limits.antt =====
-- The concurrency limit is a hard cap on the in-flight counter.
use loxy_router.Base.{
  ◌-◌, ◌+◌, ◌^◌, ◌≡◌, ◌⊎◌, true, false, arith, ℤ, pos, negsuc, pos_part, ◌<ℤ◌, ◌≤ℤ◌, add64,
  add64_pos, add64_pred,
}
use loxy_router.Backend.{Backend, effective_concurrent, has_capacity, try_reserve, dec_inflight}

-- The in-flight counter is a count, and far from the end of `int64`.
abbrev pub Counts : Backend → Type 0
Counts b = (pos 0 ≤ℤ b.inflight) × (b.inflight <ℤ pos (2 ^ 63 - 1))

add64_count : (z : ℤ) → pos 0 ≤ℤ z → z <ℤ pos (2 ^ 63 - 1) → add64 z (pos 1) ≡ pos (pos_part z + 1)
add64_count (pos n) h k = add64_pos n 1 (omega arith)
add64_count (negsuc n) h k = absurd (omega arith)

add64_back :
    (z : ℤ) → pos 0 ≤ℤ z → z <ℤ pos (2 ^ 63 - 1) → add64 (pos (pos_part z + 1)) (negsuc 0) ≡ z
add64_back (pos n) h k = ground (arith, add64_pred n)
add64_back (negsuc n) h k = absurd (omega arith)

pub effective_concurrent_nonneg : (b : Backend) → pos 0 ≤ℤ effective_concurrent b
unfolding effective_concurrent
effective_concurrent_nonneg b = ground arith

no_limit : (b : Backend) → (effective_concurrent b ≡ pos 0) ⊎ (pos 0 <ℤ effective_concurrent b)
unfolding effective_concurrent
no_limit b = ground arith

-- The atomic reservation succeeds exactly where the scheduler's check finds capacity.
pub try_reserve-has_capacity : (b : Backend) → (try_reserve b).1 ≡ has_capacity b
unfolding try_reserve has_capacity
try_reserve-has_capacity b = ground arith

-- What a reservation does to a backend whose counter is a count below 2 ^ 63 - 1: it fails and
-- changes nothing, at a counter that has reached a positive limit; or it adds one to the counter,
-- which was below the limit, if there is one.
pub try_reserve_lem :
    (b : Backend)
    → Counts b
    → ((try_reserve b ≡ (b, false))
        × (pos 0 <ℤ effective_concurrent b)
        × (effective_concurrent b ≤ℤ b.inflight))
      ⊎ ((try_reserve b ≡ (record b { inflight = pos (pos_part b.inflight + 1) }, true))
          × ((effective_concurrent b ≡ pos 0) ⊎ (b.inflight <ℤ effective_concurrent b)))
unfolding try_reserve
try_reserve_lem b c =
    ground (arith, add64_count b.inflight c.0 c.1, effective_concurrent_nonneg b, no_limit b)

-- Giving a reserved slot back restores the backend.
pub dec_inflight-try_reserve :
    (b : Backend) → Counts b → (try_reserve b).1 ≡ true → dec_inflight (try_reserve b).0 ≡ b
unfolding try_reserve dec_inflight
dec_inflight-try_reserve b c h =
    ground (arith, add64_count b.inflight c.0 c.1, add64_back b.inflight c.0 c.1)
