-- ===== src/Gate/Accounting.antt =====
-- The counter of the gate is the number of requests that own a slot, after any interleaving.
use loxy_router.Base.{
  ℕ, ◌+◌, ◌-◌, ◌≤◌, ◌≡◌, true, false, List, [], ◌∷◌, ◌++◌, arith, length, ◌==◌, if◌then◌else◌, pos,
  total,
}
use loxy_router.Model.{Priority, interactive, batch, background}
use loxy_router.Gate.{Gate, queue_of, is_closed, remove_chan}
use loxy_router.Gate.System.{
  Request, arriving, queued, serving, finished, InForce, count, waits_on, owns,
}

pub record Inv (g : Gate) (rs : List Request) : Type 0 where
  pub in_force : InForce g
  pub counted : g.inflight ≡ pos (total (owns g.closed) rs)
  pub linked :
      (p : Priority) (c : ℕ)
      → is_closed c g.closed ≡ false
      → total (waits_on p c) rs ≡ count c (queue_of g.queues p)
  pub shut :
      (p : Priority) (c : ℕ) → is_closed c g.closed ≡ true → count c (queue_of g.queues p) ≡ 0
  pub unique :
      (c : ℕ)
      → total (waits_on interactive c) rs
          + total (waits_on batch c) rs
          + total (waits_on background c) rs
        ≤ 1
  pub fresh :
      (p : Priority) (c : ℕ)
      → g.next_chan ≤ c
      → (total (waits_on p c) rs ≡ 0) × (is_closed c g.closed ≡ false)

pub count-append : (c : ℕ) (xs ys : List ℕ) → count c (xs ++ ys) ≡ count c xs + count c ys
count-append c [] ys = omega arith
count-append c (x ∷ xs) ys = omega (arith, count-append c xs ys)

pub count-remove_chan :
    (c d : ℕ) (xs : List ℕ) → count d (remove_chan c xs) ≡ count d xs - (if c == d then 1 else 0)
unfolding remove_chan
count-remove_chan c d [] = omega arith
count-remove_chan c d (x ∷ xs) = ground (arith, count-remove_chan c d xs)

pub owns-le : (closed : List ℕ) (rs : List Request) → total (owns closed) rs ≤ length rs
owns-le closed [] = omega arith
owns-le closed (arriving p ∷ rs) = omega (arith, owns-le closed rs)
owns-le closed (queued p c ∷ rs) = ground (arith, owns-le closed rs)
owns-le closed (serving ∷ rs) = omega (arith, owns-le closed rs)
owns-le closed (finished ∷ rs) = omega (arith, owns-le closed rs)

-- Closing a channel makes owners of those who wait on it.
pub owns_close :
    (c : ℕ) (closed : List ℕ) (rs : List Request)
    → is_closed c closed ≡ false
    → total (owns (c ∷ closed)) rs
      ≡ total (owns closed) rs
        + total (waits_on interactive c) rs
        + total (waits_on batch c) rs
        + total (waits_on background c) rs
unfolding is_closed
owns_close c closed [] h = omega arith
owns_close c closed (arriving p ∷ rs) h = omega (arith, owns_close c closed rs h)
owns_close c closed (queued interactive d ∷ rs) h = ground (arith, owns_close c closed rs h)
owns_close c closed (queued batch d ∷ rs) h = ground (arith, owns_close c closed rs h)
owns_close c closed (queued background d ∷ rs) h = ground (arith, owns_close c closed rs h)
owns_close c closed (serving ∷ rs) h = omega (arith, owns_close c closed rs h)
owns_close c closed (finished ∷ rs) h = omega (arith, owns_close c closed rs h)
