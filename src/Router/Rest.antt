-- ===== src/Router/Rest.antt =====
-- The router when all requests are through.
use loxy_router.Base.{
  subst, ℕ, ◌<◌, ◌^◌, ◌≡◌, ◌≢◌, refl, ap, ◌∙◌, inl, inr, List, [], ◌∷◌, map, length, pos, arith,
  All, In,
}
use loxy_router.Text.{Unicode}
use loxy_router.Config.{Config, queue_limits}
use loxy_router.Float.{Float64, FloatText}
use loxy_router.Backend.{Backend}
use loxy_router.Scheduler.{ClientRequest, SchedulerPlugin}
use loxy_router.Model.{Priority}
use loxy_router.Gate.{queue_of}
use loxy_router.Gate.System.{Request, serving}
use loxy_router.Gate.Safety.{gate_at_rest, Idle}
use loxy_router.Router.{Client, Router, start}
use loxy_router.Router.Steps.{Reach}
use loxy_router.Router.Books.{held, Tidy}
use loxy_router.Router.Slots.{router-Books, router_slots}
use loxy_router.Router.Load.{length-priorities}
use loxy_router.Router.Admission.{gates, router-gate}

Idle-unserved : (g : Request) → Idle g → g ≢ serving
Idle-unserved g a e = subst Idle e a

none_held : (p : ℕ) (cs : List Client) → All Tidy cs → All Idle (gates cs) → held p cs ≡ 0
none_held p [] v a = refl
none_held p (c ∷ cs) v a = elim v.0.idle [
  | inl e ↦ absurd (Idle-unserved c.gate a.0 e)
  | inr z ↦ omega (arith, z p, none_held p cs v.1 a.1)
]

module _ {f : Float64} (t : FloatText f) (u : Unicode) (plugins : List SchedulerPlugin) where
  -- Nothing leaks. Once each request of such a run has not come yet or is finished, however it ended
  -- and whatever the backends did, `inflight` of every backend is 0 again, `inflight` of the gate is
  -- 0, and every queue of the gate is empty.
  pub router_at_rest :
      (cfg : Config) (reqs : List ClientRequest) {r : Router f}
      → length reqs < 2 ^ 62
      → Reach t u plugins (start f u cfg reqs) r
      → All Idle (gates r.clients)
      → ((b : Backend) → In b r.shared.pool → b.inflight ≡ pos 0)
        × (r.gate.inflight ≡ pos 0)
        × ((p : Priority) → queue_of r.gate.queues p ≡ [])
  router_at_rest cfg reqs {r} h s a =
      let v = router-Books t u plugins cfg reqs h s in
      let (idle, empty) =
        gate_at_rest (queue_limits cfg) (map (λ q. q.priority) reqs)
          (omega (arith, length-priorities reqs)) (router-gate t u plugins cfg reqs s) a in
      (
        λ b m.
            (router_slots t u plugins cfg reqs h s m).0
            ∙ ap pos (none_held b.addr r.clients v.tidy a),
        idle,
        empty,
      )
