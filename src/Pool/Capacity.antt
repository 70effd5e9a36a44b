-- ===== src/Pool/Capacity.antt =====
-- What the sum of the limits says about the pool.
use loxy_router.Base.{
  subst, ap, ◌&&◌, ℕ, zero, suc, ◌+◌, ◌<◌, ◌^◌, ◌≡◌, ◌⊎◌, inl, inr, refl, sym, true, false, List,
  [], ◌∷◌, arith, ℤ, pos, negsuc, pos_part, ◌≤ℤ◌, ◌<ℤ◌, All, In, here, there, add64_pos, total,
  if◌then◌else◌, Bool-cases, ◌∙◌,
}
use loxy_router.Backend.{Backend, effective_concurrent, has_capacity}
use loxy_router.Backend.Limits.{effective_concurrent_nonneg}
use loxy_router.Pool.{is_up, total_from, total_concurrency}

-- The limit that a backend adds to the total, and the load that it carries, if it is up.
unfoldable pub up_limit : Backend → ℕ
up_limit b = if is_up b then pos_part (effective_concurrent b) else 0

unfoldable pub up_load : Backend → ℕ
up_load b = if is_up b then pos_part b.inflight else 0

-- An up backend with no limit.
abbrev pub Unlimited : Backend → Type 0
Unlimited b = (is_up b ≡ true) × (effective_concurrent b ≡ pos 0)

abbrev pub Limited : Backend → Type 0
Limited b = (is_up b ≡ false) ⊎ (pos 0 <ℤ effective_concurrent b)

-- The total is 0 for an up backend without a limit, and the sum of the limits otherwise.
abbrev Totals : List Backend → ℕ → ℤ → Type 0
Totals bs sum r =
    (All Limited bs × (r ≡ pos (sum + total up_limit bs)))
    ⊎ (((b : Backend) × In b bs × Unlimited b) × (r ≡ pos 0))

limit_cases :
    (b : Backend)
    → (effective_concurrent b ≡ pos 0) ⊎ ((l : ℕ) × (effective_concurrent b ≡ pos (suc l)))
limit_cases b = go (effective_concurrent b) (effective_concurrent_nonneg b)
  where
    go : (z : ℤ) → pos 0 ≤ℤ z → (z ≡ pos 0) ⊎ ((l : ℕ) × (z ≡ pos (suc l)))
    go (pos zero) h = inl refl
    go (pos (suc l)) h = inr (l, refl)
    go (negsuc n) h = absurd (omega arith)

Totals-skip :
    (b : Backend) (bs : List Backend) (sum : ℕ) (r : ℤ)
    → is_up b ≡ false
    → Totals bs sum r
    → Totals (b ∷ bs) sum r
unfolding up_limit
Totals-skip b bs sum r e (inl (l, t)) = inl ((inl e, l), rw e (t ∙ ap pos (omega arith)))
Totals-skip b bs sum r e (inr ((c, m, u), t)) = inr ((c, there m, u), t)

Totals-count :
    (b : Backend) (bs : List Backend) (sum l : ℕ) (r : ℤ)
    → is_up b ≡ true
    → effective_concurrent b ≡ pos (suc l)
    → Totals bs (sum + suc l) r
    → Totals (b ∷ bs) sum r
unfolding up_limit
Totals-count b bs sum l r e f (inl (k, t)) =
    inl ((inr (ground (arith, f)), k), rw (e, f) (t ∙ ap pos (omega arith)))
Totals-count b bs sum l r e f (inr ((c, m, u), t)) = inr ((c, there m, u), t)

total_from_nil : (z : ℤ) → total_from z [] ≡ z
unfolding total_from
total_from_nil z = refl

total_from_down :
    (b : Backend) (bs : List Backend) (z : ℤ)
    → is_up b ≡ false
    → total_from z (b ∷ bs) ≡ total_from z bs
unfolding total_from
total_from_down b bs z e = rw e

total_from-Unlimited :
    (b : Backend) (bs : List Backend) (z : ℤ) → Unlimited b → total_from z (b ∷ bs) ≡ pos 0
unfolding total_from
total_from-Unlimited b bs z (e, f) = rw (e, f)

total_from_limited :
    (b : Backend) (bs : List Backend) (sum l : ℕ)
    → is_up b ≡ true
    → effective_concurrent b ≡ pos (suc l)
    → sum + suc l < 2 ^ 63
    → total_from (pos sum) (b ∷ bs) ≡ total_from (pos (sum + suc l)) bs
unfolding total_from
total_from_limited b bs sum l e f h = rw (e, f, add64_pos sum (suc l) h) (ground arith)

total_from-Totals :
    (sum : ℕ) (bs : List Backend)
    → sum + total up_limit bs < 2 ^ 63
    → Totals bs sum (total_from (pos sum) bs)
unfolding up_limit
total_from-Totals sum [] h = inl (tt, total_from_nil (pos sum) ∙ ap pos (omega arith))
total_from-Totals sum (b ∷ bs) h = elim (Bool-cases (is_up b)) [
  | inl e ↦ elim (limit_cases b) [
    | inl f ↦ inr ((b, here, (e, f)), total_from-Unlimited b bs (pos sum) (e, f))
    | inr (l, f) ↦
        let room : sum + suc l + total up_limit bs < 2 ^ 63 = ground (arith, e, f, h) in
        subst (Totals (b ∷ bs) sum) (sym (total_from_limited b bs sum l e f (omega arith)))
          (Totals-count b bs sum l _ e f (total_from-Totals (sum + suc l) bs room))
  ]
  | inr e ↦
      let room : sum + total up_limit bs < 2 ^ 63 = ground (arith, e, h) in
      subst (Totals (b ∷ bs) sum) (sym (total_from_down b bs (pos sum) e))
        (Totals-skip b bs sum _ e (total_from-Totals sum bs room))
]

-- TotalConcurrency is the sum of the limits of the backends that are up, each of them positive;
-- or it is 0, and some backend that is up has no limit. The sum of the limits fits an `int`.
pub total_concurrency_lem :
    (pool : List Backend)
    → total up_limit pool < 2 ^ 63
    → (All Limited pool × (total_concurrency pool ≡ pos (total up_limit pool)))
      ⊎ (((b : Backend) × In b pool × Unlimited b) × (total_concurrency pool ≡ pos 0))
unfolding total_concurrency
total_concurrency_lem pool h = elim (total_from-Totals 0 pool (omega arith)) [
  | inl (l, t) ↦ inl (l, t ∙ ap pos (omega arith))
  | inr (b, t) ↦ inr (b, t)
]

spare_backend :
    (pool : List Backend)
    → All Limited pool
    → total up_load pool < total up_limit pool
    → (b : Backend) × In b pool × (is_up b ≡ true) × (has_capacity b ≡ true)
unfolding up_load up_limit has_capacity
spare_backend [] l h = absurd (omega arith)
spare_backend (b ∷ bs) l h = elim (Bool-cases (is_up b && has_capacity b)) [
  | inl e ↦ (b, here, ground (arith, e), ground (arith, e))
  | inr e ↦
      let (c, m, u, k) = spare_backend bs l.1 (ground (arith, e, l.0, h)) in (c, there m, u, k)
]

-- As long as fewer requests are in flight on the backends that are up than TotalConcurrency
-- counts, one of those backends has capacity. The sum of the limits fits an `int`.
pub total_concurrency-has_capacity :
    (pool : List Backend)
    → total up_limit pool < 2 ^ 63
    → pos (total up_load pool) <ℤ total_concurrency pool
    → (b : Backend) × In b pool × (is_up b ≡ true) × (has_capacity b ≡ true)
total_concurrency-has_capacity pool h k = elim (total_concurrency_lem pool h) [
  | inl (l, t) ↦ spare_backend pool l (ground (arith, t, k))
  | inr (_, t) ↦ absurd (ground (arith, t, k))
]
