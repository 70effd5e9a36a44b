-- ===== src/Router/Shutdown.antt =====
-- How the process ends.
use loxy_router.Base.{ℕ, ◌<◌, ◌^◌, ◌≡◌, ◌≢◌, sym, ◌∙◌, List, [], length, pos, In, All}
use loxy_router.Text.{Unicode}
use loxy_router.Config.{Config}
use loxy_router.Float.{Float64, FloatText}
use loxy_router.Backend.{Backend}
use loxy_router.Model.{Priority}
use loxy_router.Scheduler.{ClientRequest, SchedulerPlugin}
use loxy_router.Gate.{queue_of}
use loxy_router.Gate.Safety.{Idle}
use loxy_router.Router.{Router}
use loxy_router.Router.Steps.{Reach, here, later}
use loxy_router.Router.Admission.{gates}
use loxy_router.Router.Process.{
  serves, drains, exited, Process, boot, Lives, steps_serving, steps_draining, fails_serving, stops,
  drained, runs_out, is_killed, Lived, begins, goes_on,
}
use loxy_router.Router.Rest.{router_at_rest}

unserved : (n : ℕ) → serves ≢ exited n
unserved n e = cc e

undrained : (d : _) (n : ℕ) → drains d ≢ exited n
undrained d n e = cc e

module _ {f : Float64} (t : FloatText f) (u : Unicode) (plugins : List SchedulerPlugin) where
  -- What is known of a process on its way from a router.
  record Tracked (s : Router f) (p : Process f) : Type 0 where
    pub run : Reach t u plugins s p.router
    pub clean : p.phase ≡ exited 0 → All Idle (gates p.router.clients)

  Lives-Tracked :
      {s : Router f} {cfg : Config} {p q : Process f}
      → Lives t u plugins cfg p q
      → Tracked s p
      → Tracked s q
  Lives-Tracked (steps_serving e st) v = record {
    run = later v.run st;
    clean = λ z. absurd (unserved 0 (sym e ∙ z));
  }
  Lives-Tracked (steps_draining {d} e st) v = record {
    run = later v.run st;
    clean = λ z. absurd (undrained d 0 (sym e ∙ z));
  }
  Lives-Tracked (fails_serving e) v = record { run = v.run; clean = λ z. cc z }
  Lives-Tracked (stops now e) v = record { run = v.run; clean = λ z. cc z }
  Lives-Tracked (drained e i) v = record { run = v.run; clean = λ z. i }
  Lives-Tracked (runs_out now e k) v = record { run = v.run; clean = λ z. cc z }
  Lives-Tracked (is_killed e) v = record { run = v.run; clean = λ z. cc z }

  Lived-Tracked :
      {s : Router f} {cfg : Config} {p q : Process f}
      → Lived t u plugins cfg p q
      → Tracked s p
      → Tracked s q
  Lived-Tracked begins v = v
  Lived-Tracked (goes_on h l) v = Lives-Tracked l (Lived-Tracked h v)

  -- A clean exit leaves nothing behind. In whatever way the process that `main` starts came to the exit
  -- code 0, with fewer than 2 ^ 62 requests, `inflight` of every backend is 0, `inflight` of the gate
  -- is 0, and the queues of the gate are empty.
  pub exit_clean :
      (cfg : Config) (reqs : List ClientRequest) {p : Process f}
      → length reqs < 2 ^ 62
      → Lived t u plugins cfg (boot f u cfg reqs) p
      → p.phase ≡ exited 0
      → ((b : Backend) → In b p.router.shared.pool → b.inflight ≡ pos 0)
        × (p.router.gate.inflight ≡ pos 0)
        × ((q : Priority) → queue_of p.router.gate.queues q ≡ [])
  unfolding boot
  exit_clean cfg reqs h l e =
      let v = Lived-Tracked l (record { run = here; clean = λ z. absurd (unserved 0 z) }) in
      router_at_rest t u plugins cfg reqs h v.run (v.clean e)
