-- ===== src/Router/Process.antt =====
-- main.go: the life of the process around the router: it serves until a signal comes, then drains
-- the requests in flight until the deadline of the configuration, and exits.
use loxy_router.Base.{ℕ, List, ℤ, ◌≤ℤ◌, ◌≡◌, add64, All}
use loxy_router.Text.{Unicode}
use loxy_router.Config.{Config, shutdown_timeout}
use loxy_router.Float.{Float64, FloatText}
use loxy_router.Scheduler.{ClientRequest, SchedulerPlugin}
use loxy_router.Gate.Safety.{Idle}
use loxy_router.Router.{Router, start}
use loxy_router.Router.Steps.{Step}
use loxy_router.Router.Admission.{gates}

-- Serving; draining, with the deadline of server.Shutdown; gone with an exit code; or ended by a
-- second signal, for which stop() has restored the default.
pub data Phase : Type 0 where
  serves : Phase
  drains : ℤ → Phase
  exited : ℕ → Phase
  killed : Phase

module _ (f : Float64) where
  pub record Process : Type 0 where
    pub phase : Phase
    pub router : Router f

  -- main, with the configuration that loadConfig returned, when the server listens.
  unfoldable pub boot : Unicode → Config → List ClientRequest → Process
  boot u cfg reqs = record { phase = serves; router = start f u cfg reqs }

module _ {f : Float64} (t : FloatText f) (u : Unicode) (plugins : List SchedulerPlugin)
    (cfg : Config) where
  -- How the process goes on. The router takes its steps in both phases. ListenAndServe returns with an error other than ErrServerClosed; a
  -- signal comes at a time `now`; Shutdown returns nil, which it does once no request is in flight,
  -- or the error of its context, whose deadline has passed; or a second signal comes.
  pub data Lives (p : Process f) : Process f → Type 0 where
    steps_serving :
        {r : Router f}
        → p.phase ≡ serves
        → Step t u plugins p.router r
        → Lives p (record p { router = r })
    steps_draining :
        {d : ℤ} {r : Router f}
        → p.phase ≡ drains d
        → Step t u plugins p.router r
        → Lives p (record p { router = r })
    fails_serving : p.phase ≡ serves → Lives p (record p { phase = exited 1 })
    stops :
        (now : ℤ)
        → p.phase ≡ serves
        → Lives p (record p { phase = drains (add64 now (shutdown_timeout cfg)) })
    drained :
        {d : ℤ}
        → p.phase ≡ drains d
        → All Idle (gates p.router.clients)
        → Lives p (record p { phase = exited 0 })
    runs_out :
        {d : ℤ} (now : ℤ) → p.phase ≡ drains d → d ≤ℤ now → Lives p (record p { phase = exited 1 })
    is_killed : {d : ℤ} → p.phase ≡ drains d → Lives p (record p { phase = killed })

  pub data Lived (p : Process f) : Process f → Type 0 where
    begins : Lived p p
    goes_on : {q r : Process f} → Lived p q → Lives q r → Lived p r
