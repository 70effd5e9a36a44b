-- ===== src/Gate/Handover.antt =====
-- Release keeps the accounts of the gate. The request that leaves stands first.
use loxy_router.Base.{
  ℕ, suc, ◌+◌, ◌≤◌, ◌<◌, ◌^◌, ◌≡◌, refl, sym, ◌∙◌, subst, inl, inr, false, List, [], ◌∷◌, arith,
  length, ℤ, pos, negsuc, add64, add64_pos, add64_pred, total, Bool-cases,
}
use loxy_router.Model.{Priority, interactive, batch, background}
use loxy_router.Gate.{Gate, Queues, queue_of, set_queue, hand_over, release, is_closed}
use loxy_router.Gate.System.{
  Request, serving, finished, InForce, limit_pos, same, queue_of-set_queue, count, waits_on, owns,
}
use loxy_router.Gate.Accounting.{Inv, owns-le, owns_close}

-- The two ways out of Release: nobody waits, or the head of the first tier with a queue is woken.
pub data Released (g : Gate) (g' : Gate) : Type 0 where
  quiet :
      ((p : Priority) → queue_of g.queues p ≡ [])
      → g' ≡ record g { inflight = add64 g.inflight (negsuc 0) }
      → Released g g'
  woke :
      (p : Priority) (c : ℕ) (rest : List ℕ)
      → queue_of g.queues p ≡ c ∷ rest
      → g' ≡ record g {
        inflight = add64 (add64 g.inflight (negsuc 0)) (pos 1);
        queues = set_queue g.queues p rest;
        closed = c ∷ g.closed;
      }
      → Released g g'

none_waits :
    (q : Queues)
    → q.interactive ≡ []
    → q.batch ≡ []
    → q.background ≡ []
    → (p : Priority) → queue_of q p ≡ []
none_waits q i b k interactive = i
none_waits q i b k batch = b
none_waits q i b k background = k

hand_over-Released :
    (g h : Gate) (i b k : List ℕ)
    → g.queues.interactive ≡ i
    → g.queues.batch ≡ b
    → g.queues.background ≡ k
    → h ≡ record g { inflight = add64 g.inflight (negsuc 0) }
    → Released g (hand_over h)
unfolding hand_over
hand_over-Released g h (c ∷ i) b k ei eb ek e = woke interactive c i ei (rw e (ground (arith, ei)))
hand_over-Released g h [] (c ∷ b) k ei eb ek e = woke batch c b eb (rw e (ground (arith, ei, eb)))
hand_over-Released g h [] [] (c ∷ k) ei eb ek e =
    woke background c k ek (rw e (ground (arith, ei, eb, ek)))
hand_over-Released g h [] [] [] ei eb ek e =
    quiet (none_waits g.queues ei eb ek) (rw e (ground (arith, ei, eb, ek)))

pub release-Released : (g : Gate) (live : ℤ) → InForce g → Released g (release g live)
unfolding release
release-Released g live f =
    let in_force : release g live
        ≡ hand_over (record g { inflight = add64 g.inflight (negsuc 0) }) =
      ground (arith, limit_pos g live f) in
    subst (Released g) (sym in_force) (hand_over-Released g _ _ _ _ refl refl refl refl)

count-head : (c : ℕ) (q rest : List ℕ) → q ≡ c ∷ rest → count c q ≡ suc (count c rest)
count-head c q rest e = rw e (ground arith)

module _ (g : Gate) (rs : List Request) where
  pub quiet-Inv :
      length rs < 2 ^ 62
      → Inv g (serving ∷ rs)
      → Inv (record g { inflight = add64 g.inflight (negsuc 0) }) (finished ∷ rs)
  quiet-Inv w v = record {
    in_force = v.in_force;
    counted = ground (arith, v.counted, add64_pred (total (owns g.closed) rs), owns-le g.closed rs);
    linked = v.linked;
    shut = v.shut;
    unique = v.unique;
    fresh = v.fresh;
  }

  head_open :
      (p : Priority) (c : ℕ) (rest : List ℕ)
      → queue_of g.queues p ≡ c ∷ rest
      → Inv g (serving ∷ rs)
      → is_closed c g.closed ≡ false
  head_open p c rest q v = elim (Bool-cases (is_closed c g.closed)) [
    | inl e ↦ absurd (omega (arith, v.shut p c e, count-head c (queue_of g.queues p) rest q))
    | inr e ↦ e
  ]

  all_waits : ℕ → ℕ
  all_waits c =
      total (waits_on interactive c) rs
      + total (waits_on batch c) rs
      + total (waits_on background c) rs

  tier-le : (p : Priority) (c : ℕ) → total (waits_on p c) rs ≤ all_waits c
  unfolding all_waits
  tier-le interactive c = omega arith
  tier-le batch c = omega arith
  tier-le background c = omega arith

  -- The channel at the head is open, and exactly one of the other requests waits on it.
  woken_waiter :
      (p : Priority) (c : ℕ) (rest : List ℕ)
      → queue_of g.queues p ≡ c ∷ rest
      → Inv g (serving ∷ rs)
      → (count c rest ≡ 0) × (total (waits_on p c) rs ≡ 1) × (all_waits c ≡ 1)
  unfolding all_waits
  woken_waiter p c rest q v =
      let linked : total (waits_on p c) (serving ∷ rs) ≡ suc (count c rest) =
        v.linked p c (head_open p c rest q v) ∙ count-head c (queue_of g.queues p) rest q in
      let le : total (waits_on p c) rs ≤ all_waits c = tier-le p c in
      (omega (arith, v.unique c), omega (arith, v.unique c), omega (arith, v.unique c))

  -- Another tier holds nobody who waits on that channel.
  other_tier :
      (p r : Priority) (c : ℕ)
      → same p r ≡ false
      → total (waits_on p c) rs ≡ 1
      → all_waits c ≡ 1
      → total (waits_on r c) rs ≡ 0
  unfolding all_waits
  other_tier interactive r c e h k = ground arith
  other_tier batch r c e h k = ground arith
  other_tier background r c e h k = ground arith

  pub woke-Inv :
      (p : Priority) (c : ℕ) (rest : List ℕ)
      → length rs < 2 ^ 62
      → queue_of g.queues p ≡ c ∷ rest
      → Inv g (serving ∷ rs)
      → Inv
          (record g {
            inflight = add64 (add64 g.inflight (negsuc 0)) (pos 1);
            queues = set_queue g.queues p rest;
            closed = c ∷ g.closed;
          })
          (finished ∷ rs)
  unfolding is_closed all_waits
  woke-Inv p c rest w q v =
      let (last, one, all) = woken_waiter p c rest q v in
      let opened = head_open p c rest q v in
      record {
        in_force = v.in_force;
        counted = ground (
          arith,
          v.counted,
          add64_pred (total (owns g.closed) rs),
          add64_pos (total (owns g.closed) rs) 1,
          owns-le g.closed rs,
          owns_close c g.closed rs,
        );
        linked = λ r d o.
            ground (arith, v.linked r d, v.linked p d, q, queue_of-set_queue g.queues p r rest);
        shut = λ r d o. ground (
          arith,
          v.shut r d,
          v.shut p d,
          v.linked r d,
          q,
          other_tier p r c,
          queue_of-set_queue g.queues p r rest,
        );
        unique = v.unique;
        fresh = λ r d l. ground (arith, v.fresh r d, v.fresh p d, one);
      }
