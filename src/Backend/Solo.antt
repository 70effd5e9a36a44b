-- ===== src/Backend/Solo.antt =====
-- `tryReserve` as one step, against its loads and swaps.
use loxy_router.Base.{
  ◌≡◌, refl, inl, inr, true, false, List, ◌∷◌, ◌++◌, arith, pos, ◌<ℤ◌, ◌≤ℤ◌, ◌⊎◌, if◌then◌else◌,
}
use loxy_router.Backend.{Backend, effective_concurrent, try_reserve, inc_inflight}
use loxy_router.Backend.Reserve.{
  Pc, outside, limited, loaded, holding, Move, read_limit, add, load, refuse, swap, System, moves,
  Reach, here, later,
}

-- Which way `tryReserve` goes.
reserve_cases :
    (b : Backend)
    → ((effective_concurrent b ≤ℤ pos 0) × (try_reserve b ≡ (inc_inflight b, true)))
      ⊎ ((pos 0 <ℤ effective_concurrent b)
          × (((effective_concurrent b ≤ℤ b.inflight) × (try_reserve b ≡ (b, false)))
              ⊎ ((b.inflight <ℤ effective_concurrent b)
                  × (try_reserve b ≡ (inc_inflight b, true)))))
unfolding try_reserve inc_inflight
reserve_cases b = ground arith

module _ (xs ys : List Pc) where
  -- One goroutine among others moves.
  onward :
      {s : System} {b c : Backend} (p q : Pc)
      → Reach s (record { backend = b; threads = xs ++ p ∷ ys })
      → Move b p c q
      → Reach s (record { backend = c; threads = xs ++ q ∷ ys })
  onward p q r m = later r (moves xs ys p q refl refl m)

  -- A goroutine that nobody disturbs reaches, by its loads and its swap, what `tryReserve` does in
  -- one step: the same backend, and a slot exactly where the answer is true. The other goroutines
  -- stand where they stood.
  pub try_reserve-Reach :
      (b : Backend)
      → Reach
          (record { backend = b; threads = xs ++ outside ∷ ys })
          (record {
            backend = (try_reserve b).0;
            threads = xs ++ (if (try_reserve b).1 then holding else outside) ∷ ys;
          })
  unfolding inc_inflight
  try_reserve-Reach b =
      let l = effective_concurrent b in
      let read = onward outside (limited l) here read_limit in
      let counter = b.inflight in
      elim (reserve_cases b) [
        | inl (h, e) ↦ rw e (onward (limited l) holding read (add h))
        | inr (h, inl (k, e)) ↦ rw e (
            onward (loaded l counter) outside (onward (limited l) (loaded l counter) read (load h))
              (refuse k))
        | inr (h, inr (k, e)) ↦ rw e (
            onward (loaded l counter) holding (onward (limited l) (loaded l counter) read (load h))
              (swap k refl))
      ]
