-- ===== src/Router/Load.antt =====
-- The slots of all backends together against the slots of the gate.
use loxy_router.Base.{
  ℕ, suc, ◌+◌, ◌≤◌, ◌<◌, ◌^◌, ◌≡◌, refl, ap, sym, subst, inl, inr, List, [], ◌∷◌, map, length, ◌==◌,
  ==_comm, ==_iff, if◌then◌else◌, pos, pos_part, ◌≤ℤ◌, arith, All, total, Bool-cases, false,
}
use loxy_router.Text.{Unicode}
use loxy_router.Config.{Config, queue_limits}
use loxy_router.Float.{Float64, FloatText}
use loxy_router.Backend.{Backend}
use loxy_router.Scheduler.{ClientRequest, SchedulerPlugin}
use loxy_router.Gate.System.{owns}
use loxy_router.Gate.Safety.{gate_accounting}
use loxy_router.Router.{Client, Router, start}
use loxy_router.Router.Steps.{Reach}
use loxy_router.Router.Pointers.{Distinct, addrs}
use loxy_router.Router.Accounts.{Account}
use loxy_router.Router.Holding.{holds}
use loxy_router.Router.Books.{held, Tidy}
use loxy_router.Router.Slots.{router-Books}
use loxy_router.Router.Admission.{gates, router-gate}

-- The slots of a pool that the counters say are taken.
abbrev pub load : List Backend → ℕ
load bs = total (λ b. pos_part b.inflight) bs

-- The slots of a pool that one request holds.
abbrev share : List Backend → Client → ℕ
share bs c = total (λ b. holds b.addr c.work) bs

load-held :
    (cs : List Client) (bs : List Backend)
    → All (λ b. Account (held b.addr cs) b) bs
    → load bs ≡ total (λ b. held b.addr cs) bs
load-held cs [] h = refl
load-held cs (b ∷ bs) h = omega (arith, ap pos_part h.0.counted, load-held cs bs h.1)

no_clients : (bs : List Backend) → total (λ b. 0) bs ≡ 0
no_clients [] = refl
no_clients (b ∷ bs) = omega (arith, no_clients bs)

add_client :
    (c : Client) (cs : List Client) (bs : List Backend)
    → total (λ b. held b.addr (c ∷ cs)) bs ≡ share bs c + total (λ b. held b.addr cs) bs
add_client c cs [] = omega arith
add_client c cs (b ∷ bs) = omega (arith, add_client c cs bs)

-- The sum over the backends of the sums over the requests, the other way round.
held-share :
    (cs : List Client) (bs : List Backend) → total (λ b. held b.addr cs) bs ≡ total (share bs) cs
held-share [] bs = no_clients bs
held-share (c ∷ cs) bs = omega (arith, add_client c cs bs, held-share cs bs)

slot_elsewhere :
    (p : ℕ) (bs : List Backend)
    → All (λ q. q == p ≡ false) (addrs bs)
    → total (λ b. if p == b.addr then 1 else 0) bs ≡ 0
slot_elsewhere p [] h = refl
slot_elsewhere p (b ∷ bs) h = ground (arith, ==_comm p b.addr, h.0, slot_elsewhere p bs h.1)

one_slot :
    (p : ℕ) (bs : List Backend)
    → Distinct (addrs bs)
    → total (λ b. if p == b.addr then 1 else 0) bs ≤ 1
one_slot p [] d = omega arith
one_slot p (b ∷ bs) d = elim (Bool-cases (p == b.addr)) [
  | inl e ↦
      let q = (==_iff p b.addr).0 e in
      let far =
        slot_elsewhere p bs (subst (λ z. All (λ r. r == z ≡ false) (addrs bs)) (sym q) d.0) in
      rw e (omega (arith, far))
  | inr e ↦ rw e (omega (arith, one_slot p bs d.1))
]

total_mono :
    (v w : Backend → ℕ) (bs : List Backend) → ((b : Backend) → v b ≤ w b) → total v bs ≤ total w bs
total_mono v w [] h = omega arith
total_mono v w (b ∷ bs) h = omega (arith, h b, total_mono v w bs h)

nothing_held : (c : Client) (bs : List Backend) → ((p : ℕ) → holds p c.work ≡ 0) → share bs c ≡ 0
nothing_held c [] h = refl
nothing_held c (b ∷ bs) h = omega (arith, h b.addr, nothing_held c bs h)

-- A request that holds a slot of a backend owns one of the gate.
share_owned :
    (closed : List ℕ) (bs : List Backend) (c : Client)
    → Distinct (addrs bs)
    → Tidy c
    → share bs c ≤ owns closed c.gate
share_owned closed bs c d i = elim i.idle [
  | inl e ↦
      let slot = i.sound.slot in
      omega (
        arith,
        ap (owns closed) e,
        one_slot slot bs d,
        total_mono (λ b. holds b.addr c.work) (λ b. if slot == b.addr then 1 else 0) bs
            (λ b. i.sound.single b.addr),
      )
  | inr z ↦ omega (arith, nothing_held c bs z)
]

shares_owned :
    (closed : List ℕ) (bs : List Backend) (cs : List Client)
    → Distinct (addrs bs)
    → All Tidy cs
    → total (share bs) cs ≤ total (owns closed) (gates cs)
shares_owned closed bs [] d h = omega arith
shares_owned closed bs (c ∷ cs) d h =
    omega (arith, share_owned closed bs c d h.0, shares_owned closed bs cs d h.1)

pub length-priorities :
    (reqs : List ClientRequest) → length (map (λ q. q.priority) reqs) ≡ length reqs
length-priorities [] = refl
length-priorities (q ∷ reqs) = ap suc (length-priorities reqs)

module _ {f : Float64} (t : FloatText f) (u : Unicode) (plugins : List SchedulerPlugin) where
  -- The gate covers the backends. In every state that the router reaches from its start, with fewer
  -- than 2 ^ 62 requests, the slots that the backends count as taken are together no more than the
  -- gate counts as taken: nobody reaches a backend past the gate.
  pub router_load :
      (cfg : Config) (reqs : List ClientRequest) {r : Router f}
      → length reqs < 2 ^ 62
      → Reach t u plugins (start f u cfg reqs) r
      → pos (load r.shared.pool) ≤ℤ r.gate.inflight
  router_load cfg reqs {r} h s =
      let v = router-Books t u plugins cfg reqs h s in
      let counted =
        gate_accounting (queue_limits cfg) (map (λ q. q.priority) reqs)
          (omega (arith, length-priorities reqs)) (router-gate t u plugins cfg reqs s) in
      rw counted (
        omega (
          arith,
          load-held r.clients r.shared.pool v.accounts,
          held-share r.clients r.shared.pool,
          shares_owned r.gate.closed r.shared.pool r.clients v.distinct v.tidy,
        ))
