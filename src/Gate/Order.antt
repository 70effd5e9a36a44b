-- ===== src/Gate/Order.antt =====
-- The three queues as one: who is served next, and how long they grow.
use mathlib.Core.List.{append_assoc, append-nil}
use loxy_router.Base.{
  ℕ, suc, ◌-◌, ◌<◌, ◌^◌, ◌≡◌, refl, sym, ap, ◌∙◌, ◌⊎◌, inl, inr, List, [], ◌∷◌, ◌++◌, arith, ℤ, pos,
  negsuc, ◌<ℤ◌, add64, add64_pos, add64_pred,
}
use loxy_router.Model.{Priority, interactive, batch, background}
use loxy_router.Gate.{
  Gate, Queues, queue_of, set_queue, limit, acquire, waiting, hand_over, release,
}

-- The order of service: by tier, and within a tier by arrival.
abbrev pub line : Queues → List ℕ
line q = q.interactive ++ (q.batch ++ q.background)

-- A gate whose counter is the number of requests behind it.
abbrev pub Holds : Gate → ℕ → Type 0
Holds g n = (g.inflight ≡ pos n) × (n < 2 ^ 63 - 1)

hand_over-line :
    (g : Gate) (n : ℕ) (i b k : List ℕ)
    → g.inflight ≡ pos n
    → n < 2 ^ 63 - 1
    → g.queues ≡ record { interactive = i; batch = b; background = k }
    → ((line g.queues ≡ []) × (hand_over g ≡ g))
      ⊎ ((c : ℕ) × (line g.queues ≡ c ∷ line (hand_over g).queues)
          × ((hand_over g).closed ≡ c ∷ g.closed)
          × ((hand_over g).inflight ≡ pos (suc n)))
unfolding hand_over
hand_over-line g n (c ∷ i) b k e h q = inr (c, rw q, rw q, ground (arith, q, e, add64_pos n 1))
hand_over-line g n [] (c ∷ b) k e h q = inr (c, rw q, rw q, ground (arith, q, e, add64_pos n 1))
hand_over-line g n [] [] (c ∷ k) e h q = inr (c, rw q, rw q, ground (arith, q, e, add64_pos n 1))
hand_over-line g n [] [] [] e h q = inl (rw q, rw q)

-- Release, on a gate that is in force and has requests behind it: with nobody in the queues the
-- counter falls by one and nothing else changes; otherwise the first in the order of service is
-- woken and leaves its queue, the rest keep their order, and the counter stays, whatever the
-- current limit is.
pub release-line :
    (g : Gate) (live : ℤ) (n : ℕ)
    → pos 0 <ℤ limit g live
    → Holds g (suc n)
    → ((line g.queues ≡ []) × (release g live ≡ record g { inflight = pos n }))
      ⊎ ((c : ℕ) × (line g.queues ≡ c ∷ line (release g live).queues)
          × ((release g live).closed ≡ c ∷ g.closed)
          × ((release g live).inflight ≡ g.inflight))
unfolding release
release-line g live n l h =
    let g' : Gate = record g { inflight = add64 g.inflight (negsuc 0) } in
    let e : g'.inflight ≡ pos n = rw h.0 (add64_pred n (omega arith)) in
    let keeps : release g live ≡ hand_over g' = ground arith in
    rw keeps (elim (hand_over-line g' n _ _ _ e (omega arith) refl) [
      | inl (q, r) ↦ inl (q, r ∙ ap (λ z. record g { inflight = z }) e)
      | inr (c, q, k, i) ↦ inr (c, q, k, i ∙ sym h.0)
    ])

-- Who is served before, and who after, a request that now joins tier `p`.
abbrev pub ahead : Queues → Priority → List ℕ
ahead q interactive = q.interactive
ahead q batch = q.interactive ++ q.batch
ahead q background = q.interactive ++ (q.batch ++ q.background)

abbrev pub behind : Queues → Priority → List ℕ
behind q interactive = q.batch ++ q.background
behind q batch = q.background
behind q background = []

line-set_queue :
    (q : Queues) (p : Priority) (c : ℕ)
    → (line q ≡ ahead q p ++ behind q p)
      × (line (set_queue q p (queue_of q p ++ c ∷ [])) ≡ ahead q p ++ c ∷ behind q p)
line-set_queue q interactive c = (refl, simp append_assoc)
line-set_queue q batch c = (simp append_assoc, simp append_assoc)
line-set_queue q background c = (simp append-nil, simp append_assoc)

-- A request that has to wait comes behind all that wait in its own and in more urgent tiers, and
-- before all that wait in less urgent ones; nobody else moves.
pub acquire-line :
    (g : Gate) (live : ℤ) (p : Priority) (c : ℕ)
    → (acquire g live p).1 ≡ waiting c
    → (c ≡ g.next_chan)
      × (line g.queues ≡ ahead g.queues p ++ behind g.queues p)
      × (line (acquire g live p).0.queues ≡ ahead g.queues p ++ c ∷ behind g.queues p)
unfolding acquire
acquire-line g live p c h =
    let (a, b) = line-set_queue g.queues p c in (ground arith, a, ground (arith, b))
