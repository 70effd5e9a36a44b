-- ===== src/Gate/Progress.antt =====
-- Nobody waits at a gate that is not busy, and a fixed limit is never passed.
use loxy_router.Base.{
  ℕ, zero, suc, ◌≤◌, ◌<◌, ◌^◌, ◌≡◌, refl, ◌∙◌, subst, ◌⊎◌, inl, inr, List, [], ◌∷◌, arith, length,
  pos, ◌≤ℤ◌, In, here, there, total, Bool-cases,
}
use loxy_router.Config.{Limits}
use loxy_router.Model.{Priority}
use loxy_router.Gate.{
  Gate, acquire, release, cancel, is_closed, total_queued, new_gate, set_limit_func,
}
use loxy_router.Gate.System.{
  Request, arriving, queued, serving, finished, Move, enters, bounces, waits, wakes, gives_up,
  gives_up_woken, leaves, System, Step, moves, Reach, InForce, limit_pos, owns,
}
use loxy_router.Gate.System
use loxy_router.Gate.Safety.{arrivals, length-arrivals, main_gate, start-Inv}
use loxy_router.Gate.Load.{Reach-Sound, start-Load}

owner_of :
    (closed : List ℕ) (rs : List Request)
    → 0 < total (owns closed) rs
    → (r : Request) × In r rs × (owns closed r ≡ 1)
owner_of closed [] h = absurd (omega arith)
owner_of closed (serving ∷ rs) h = (serving, here, refl)
owner_of closed (arriving p ∷ rs) h =
    let (r, m, o) = owner_of closed rs (omega arith) in (r, there m, o)
owner_of closed (finished ∷ rs) h =
    let (r, m, o) = owner_of closed rs (omega arith) in (r, there m, o)
owner_of closed (queued p c ∷ rs) h = elim (Bool-cases (is_closed c closed)) [
  | inl e ↦ (queued p c, here, rw e refl)
  | inr e ↦ let (r, m, o) = owner_of closed rs (ground (arith, e, h)) in (r, there m, o)
]

-- Nobody is stranded. Whenever a request waits in a queue of the dynamic gate, in any state that
-- up to 2 ^ 62 requests reach, some request owns a slot.
pub queued_has_owner :
    (l : Limits) (ps : List Priority) {t : System}
    → length ps ≤ 2 ^ 62
    → Reach (record { gate = main_gate l; requests = arrivals ps }) t
    → 0 < total_queued t.gate
    → (r : Request) × In r t.requests × (owns t.gate.closed r ≡ 1)
unfolding new_gate set_limit_func
queued_has_owner l ps {t} h r w =
    let g : Gate = main_gate l in
    let ((i, _), o) =
      Reach-Sound
        (
          (start-Inv g ps (inl refl) refl refl refl, omega (arith, length-arrivals ps)),
          start-Load g (inl refl) refl refl (λ e. cc),
        )
        r in
    owner_of t.gate.closed t.requests (ground (arith, i.counted, o.busy w))

-- No operation touches what the gate was configured with.
abbrev Configured : Gate → Gate → Type 0
Configured g h = (h.has_limit_fn ≡ g.has_limit_fn) × (h.max_inflight ≡ g.max_inflight)

Move-Configured : (g : Gate) {h : Gate} {p q : Request} → Move g p h q → Configured g h
unfolding acquire release cancel
Move-Configured g (enters {p} live e) = ground arith
Move-Configured g (bounces {p} live e) = ground arith
Move-Configured g (waits {p} {c} live e) = ground arith
Move-Configured g (wakes e) = (refl, refl)
Move-Configured g (gives_up {p} {c} e) = ground arith
Move-Configured g (gives_up_woken {p} {c} e) = ground arith
Move-Configured g (leaves live) = ground arith

Reach-Configured : {s t : System} → Reach s t → Configured s.gate t.gate
Reach-Configured System.here = (refl, refl)
Reach-Configured {s} (System.later {t} {u} r st) = step st (Reach-Configured r)
  where
    step : {a b : System} → Step a b → Configured s.gate a.gate → Configured s.gate b.gate
    step {a} (moves xs ys p q e f mv) c =
        let d = Move-Configured a.gate mv in (d.0 ∙ c.0, d.1 ∙ c.1)

none_or : {P : Type 0} (n : ℕ) → (0 < n → P) → (n ≡ 0) ⊎ P
none_or zero f = inl refl
none_or (suc n) f = inr (f (omega arith))

-- A gate with a positive static limit, as long as no limit function is set, never has more
-- requests behind it than the limit, and while a request waits in a queue it has just as many: a
-- free slot is never kept from a waiter. This holds in any state that up to 2 ^ 62 requests reach.
pub static_gate :
    (m : ℕ) (l : Limits) (ps : List Priority) {t : System}
    → 0 < m
    → length ps ≤ 2 ^ 62
    → Reach (record { gate = new_gate (pos m) l; requests = arrivals ps }) t
    → (t.gate.inflight ≤ℤ pos m) × ((total_queued t.gate ≡ 0) ⊎ (t.gate.inflight ≡ pos m))
unfolding new_gate
static_gate m l ps {t} k h r =
    let g : Gate = new_gate (pos m) l in
    let (_, o) =
      Reach-Sound
        (
          (start-Inv g ps (inr (omega arith)) refl refl refl, omega (arith, length-arrivals ps)),
          start-Load g (inr (omega arith)) refl refl (λ e. omega arith),
        )
        r in
    let (f, e) = Reach-Configured r in
    let full : 0 < total_queued t.gate → t.gate.inflight ≡ t.gate.max_inflight = o.full f in
    (
      subst (λ z. t.gate.inflight ≤ℤ z) e (o.capped f),
      none_or (total_queued t.gate) (λ w. full w ∙ e),
    )
