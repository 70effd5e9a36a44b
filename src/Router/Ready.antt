-- ===== src/Router/Ready.antt =====
-- Which requests can go on, and who stands in the way of the others.
use loxy_router.Base.{
  ℕ, ◌≤◌, ◌<◌, ◌≡◌, refl, ◌⊎◌, inl, inr, true, false, Bool-cases, List, [], ◌∷◌, length, arith, In,
  here, there, total,
}
use loxy_router.Scheduler.{ClientRequest}
use loxy_router.Model.{Priority, interactive, batch, background}
use loxy_router.Gate.{Gate, is_closed, total_queued, queue_of}
use loxy_router.Gate.System.{
  Request, arriving, queued, serving, finished, same, waits_on, owns, count,
}
use loxy_router.Gate.Safety.{AllFinished}
use loxy_router.Router.{Work, Client}
use loxy_router.Router.Admission.{gates}

-- Where a request can go on by itself: a waiter once its channel is closed.
pub data Ready (closed : List ℕ) : Request → Type 0 where
  arrives : {p : Priority} → Ready closed (arriving p)
  serves : Ready closed serving
  woken : {p : Priority} {c : ℕ} → is_closed c closed ≡ true → Ready closed (queued p c)

-- A waiter that nobody has woken.
abbrev pub Blocked : List ℕ → List Client → Type 0
Blocked closed cs =
    (p : Priority) × (c : ℕ) × In (queued p c) (gates cs) × (is_closed c closed ≡ false)

abbrev pub SomeReady : List ℕ → List Client → Type 0
SomeReady closed cs = (d : Client) × In d cs × Ready closed d.gate

pub sort_out :
    (closed : List ℕ) (cs : List Client)
    → AllFinished (gates cs) ⊎ (SomeReady closed cs ⊎ Blocked closed cs)
sort_out closed [] = inl tt
sort_out closed (c ∷ cs) = look c.req c.gate c.work (sort_out closed cs)
  where
    look :
        (req : ClientRequest) (g : Request) (k : Work)
        → AllFinished (gates cs) ⊎ (SomeReady closed cs ⊎ Blocked closed cs)
        → (let d : Client = record { req = req; gate = g; work = k } in
            AllFinished (gates (d ∷ cs)) ⊎ (SomeReady closed (d ∷ cs) ⊎ Blocked closed (d ∷ cs)))
    look req (arriving p) k rest = inr (inl (_, here, arrives))
    look req serving k rest = inr (inl (_, here, serves))
    look req (queued p n) k rest = elim (Bool-cases (is_closed n closed)) [
      | inl e ↦ inr (inl (_, here, woken e))
      | inr e ↦ inr (inr (p, n, here, e))
    ]
    look req finished k rest = elim rest [
      | inl a ↦ inl (refl, a)
      | inr (inl (d, m, r)) ↦ inr (inl (d, there m, r))
      | inr (inr (p, n, m, e)) ↦ inr (inr (p, n, there m, e))
    ]

pub total_ge : (w : Request → ℕ) (rs : List Request) {r : Request} → In r rs → w r ≤ total w rs
total_ge w [] m = elim m [ ]
total_ge w (r ∷ rs) here = omega arith
total_ge w (r ∷ rs) (there m) = omega (arith, total_ge w rs m)

count_some : (c : ℕ) (q : List ℕ) → 0 < count c q → 0 < length q
count_some c [] h = absurd (omega arith)
count_some c (d ∷ q) h = omega arith

pub queue_total :
    (g : Gate) (p : Priority) (c : ℕ) → 0 < count c (queue_of g.queues p) → 0 < total_queued g
unfolding total_queued
queue_total g interactive c h = omega (arith, count_some c g.queues.interactive h)
queue_total g batch c h = omega (arith, count_some c g.queues.batch h)
queue_total g background c h = omega (arith, count_some c g.queues.background h)

same_refl : (p : Priority) → same p p ≡ true
same_refl interactive = refl
same_refl batch = refl
same_refl background = refl

pub waits_on_own : (p : Priority) (c : ℕ) → waits_on p c (queued p c) ≡ 1
waits_on_own p c = ground (arith, same_refl p)

-- The owner of a slot can go on.
pub owner_Ready : (closed : List ℕ) (r : Request) → owns closed r ≡ 1 → Ready closed r
owner_Ready closed (arriving p) h = absurd (omega arith)
owner_Ready closed serving h = serves
owner_Ready closed finished h = absurd (omega arith)
owner_Ready closed (queued p c) h = elim (Bool-cases (is_closed c closed)) [
  | inl e ↦ woken e
  | inr e ↦ absurd (omega (arith, rw e at h))
]

pub gate_In :
    (cs : List Client) {r : Request} → In r (gates cs) → (c : Client) × In c cs × (c.gate ≡ r)
gate_In [] m = elim m [ ]
gate_In (c ∷ cs) here = (c, here, refl)
gate_In (c ∷ cs) (there m) = let (d, i, e) = gate_In cs m in (d, there i, e)
