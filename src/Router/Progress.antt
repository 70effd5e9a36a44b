-- ===== src/Router/Progress.antt =====
-- The router is never stuck.
use loxy_router.Base.{
  ℕ, ◌≤◌, ◌<◌, ◌^◌, ◌≡◌, ◌≢◌, refl, sym, subst, ◌⊎◌, inl, inr, true, Bool-cases, List, [], ◌∷◌, map,
  length, pos, arith, All-In, In,
}
use loxy_router.Text.{Unicode}
use loxy_router.Config.{Config, queue_limits}
use loxy_router.Float.{Float64, FloatText}
use loxy_router.Backend.{Backend, try_reserve}
use loxy_router.Scheduler.{
  ClientRequest, SchedulerPlugin, Picked, ok, no_backend, near_vram_limit, plugin_error,
  new_scheduler, pick_excluding,
}
use loxy_router.Model.{Priority}
use loxy_router.Gate.{
  Gate, Entry, admitted, rejected, waiting, acquire, is_closed, queue_of, new_gate, set_limit_func,
}
use loxy_router.Gate.System.{
  Request, arriving, queued, serving, finished, enters, bounces, waits, wakes, waits_on, count,
}
use loxy_router.Gate.Safety.{AllFinished, start-Inv, Reach-Inv, length-arrivals, main_gate}
use loxy_router.Gate.Progress.{queued_has_owner}
use loxy_router.Proxy.{fails}
use loxy_router.Proxy.Effects.{Shared}
use loxy_router.Router.{
  turned_away, Work, picking, chosen, forwarding, doing, over, Client, Router, start,
}
use loxy_router.Router.Steps.{
  picks, finds_none, reserves_slot, loses_race, comes_back, does, resumes, ClientMoves, at_gate,
  in_loop, leaves_gate, turns_back, Reach,
}
use loxy_router.Router.Pointers.{addrs}
use loxy_router.Router.Located.{Located, deref-some, router-Located}
use loxy_router.Router.Load.{length-priorities}
use loxy_router.Router.Admission.{gates, router-gate}
use loxy_router.Router.Ready.{
  Ready, arrives, serves, woken, Blocked, SomeReady, sort_out, total_ge, queue_total, waits_on_own,
  owner_Ready, gate_In,
}

pick_or_none : (p : Picked) → ((b : Backend) × (p ≡ ok b)) ⊎ ((b : Backend) → p ≢ ok b)
pick_or_none (ok b) = inl (b, refl)
pick_or_none (no_backend m) = inr (λ b e. cc e)
pick_or_none near_vram_limit = inr (λ b e. cc e)
pick_or_none (plugin_error x) = inr (λ b e. cc e)

module _ {f : Float64} (t : FloatText f) (u : Unicode) (plugins : List SchedulerPlugin) where
  -- A step of a request.
  abbrev pub CanMove : Router f → Client → Type 0
  CanMove s c =
      (g : Gate) × (w : Shared) × (d : Client) × ClientMoves t u plugins s.gate s.store s.shared c g
        w d

  enters_or_waits :
      (s : Router f) (req : ClientRequest) (p : Priority) (k : Work) (e : Entry)
      → (acquire s.gate (pos 0) p).1 ≡ e
      → CanMove s (record { req = req; gate = arriving p; work = k })
  enters_or_waits s req p k admitted h = (_, _, _, at_gate (λ q. cc q) (enters (pos 0) h))
  enters_or_waits s req p k rejected h = (_, _, _, at_gate (λ q. cc q) (bounces (pos 0) h))
  enters_or_waits s req p k (waiting c) h = (_, _, _, at_gate (λ q. cc q) (waits (pos 0) h))

  works_on :
      (s : Router f) (req : ClientRequest) (k : Work)
      → Located (addrs s.shared.pool) k
      → CanMove s (record { req = req; gate = serving; work = k })
  works_on s req (picking tried retries) l =
      elim (pick_or_none (
        pick_excluding f u (new_scheduler f s.shared.pool s.store s.shared.conv plugins) 0 req
          tried)) [
            | inl (b, e) ↦ (_, _, _, in_loop (picks 0 e))
            | inr n ↦ (_, _, _, in_loop (finds_none 0 n))
          ]
  works_on s req (chosen b tried retries) l =
      let (c, e) = deref-some b.addr s.shared.pool l in
      elim (Bool-cases (try_reserve c).1) [
        | inl h ↦ (_, _, _, in_loop (reserves_slot e h))
        | inr h ↦ (_, _, _, in_loop (loses_race e h))
      ]
  works_on s req (forwarding b tried retries) l = (_, _, _, in_loop (comes_back (fails true)))
  works_on s req (doing [] n) l = (_, _, _, in_loop resumes)
  works_on s req (doing (e ∷ es) n) l = (_, _, _, in_loop (does 0))
  works_on s req (over o) l = (_, _, _, leaves_gate (pos 0))
  works_on s req turned_away l = (_, _, _, turns_back (pos 0))

  Ready-moves :
      (s : Router f) (req : ClientRequest) (g : Request) (k : Work)
      → Ready s.gate.closed g
      → Located (addrs s.shared.pool) k
      → CanMove s (record { req = req; gate = g; work = k })
  Ready-moves s req (arriving p) k arrives l = enters_or_waits s req p k _ refl
  Ready-moves s req serving k serves l = works_on s req k l
  Ready-moves s req finished k z l = elim z [ ]
  Ready-moves s req (queued p c) k (woken e) l = (_, _, _, at_gate (λ q. cc q) (wakes e))

  -- Behind a waiter that nobody has woken stands a request that can go on.
  Blocked-Ready :
      (cfg : Config) (reqs : List ClientRequest) {r : Router f}
      → length reqs < 2 ^ 62
      → Reach t u plugins (start f u cfg reqs) r
      → Blocked r.gate.closed r.clients
      → SomeReady r.gate.closed r.clients
  unfolding new_gate set_limit_func
  Blocked-Ready cfg reqs {r} h s (p, c, m, o) =
      let l = queue_limits cfg in
      let ps = map (λ q. q.priority) reqs in
      let few : length ps ≤ 2 ^ 62 = omega (arith, length-priorities reqs) in
      let run = router-gate t u plugins cfg reqs s in
      let (i, _) =
        Reach-Inv
          (
            start-Inv (main_gate l) ps (inl refl) refl refl refl,
            omega (arith, length-arrivals ps, few),
          )
          run in
      let queued_there : 0 < count c (queue_of r.gate.queues p) =
        omega
          (arith, i.linked p c o, waits_on_own p c, total_ge (waits_on p c) (gates r.clients) m) in
      let (q, n, k) = queued_has_owner l ps few run (queue_total r.gate p c queued_there) in
      let (d, j, e) = gate_In r.clients n in
      (d, j, subst (Ready r.gate.closed) (sym e) (owner_Ready r.gate.closed q k))

  -- The router is never stuck. In every state that it reaches from its start, with fewer than 2 ^ 62
  -- requests, either all requests are finished, or one of them can take its next step without
  -- giving up: one that arrives, one in the loop of ServeHTTP or at its end, or one in a queue that
  -- has been woken.
  pub router_progress :
      (cfg : Config) (reqs : List ClientRequest) {r : Router f}
      → length reqs < 2 ^ 62
      → Reach t u plugins (start f u cfg reqs) r
      → AllFinished (gates r.clients)
        ⊎ ((c : Client) × In c r.clients
            × CanMove r c
            × ((p : Priority) (n : ℕ) → c.gate ≡ queued p n → is_closed n r.gate.closed ≡ true))
  router_progress cfg reqs {r} h s = elim (sort_out r.gate.closed r.clients) [
    | inl a ↦ inl a
    | inr (inl d) ↦ inr (go d)
    | inr (inr b) ↦ inr (go (Blocked-Ready cfg reqs h s b))
  ]
    where
      unqueued :
          {closed : List ℕ} {g : Request}
          → Ready closed g
          → (p : Priority) (n : ℕ) → g ≡ queued p n
          → is_closed n closed ≡ true
      unqueued arrives p n e = cc e
      unqueued serves p n e = cc e
      unqueued {closed} (woken {p} {c} k) q n e = cc (k, e)

      go :
          SomeReady r.gate.closed r.clients
          → (c : Client) × In c r.clients
            × CanMove r c
            × ((p : Priority) (n : ℕ) → c.gate ≡ queued p n → is_closed n r.gate.closed ≡ true)
      go (c, m, k) = (
        c,
        m,
        Ready-moves r c.req c.gate c.work k
            (All-In _ r.clients (router-Located t u plugins cfg reqs s) m),
        unqueued k,
      )
