-- ===== src/Scheduler/Sound.antt =====
-- What is known of a backend that a pick returns.
use loxy_router.Base.{◌≡◌, ◌⊎◌, inl, inr, Option-cases, Bool, true, List, some, ℕ, Str}
use loxy_router.Text.{Unicode}
use loxy_router.Model.{normalize_model}
use loxy_router.Float.{Float64}
use loxy_router.Backend.{Backend}
use loxy_router.Scheduler.{Scheduler, SchedulerPlugin, ClientRequest, ok, is_safe, pick_excluding}
use loxy_router.Scheduler.Candidates.{Eligible}
use loxy_router.Scheduler.Choice.{pick_excluding-Eligible, pick_excluding-is_safe}

module _ (f : Float64) where
  -- A pick is sound: the backend returned is one of the pool, it is up, it serves the normalised
  -- model, it has capacity, and it is not excluded, whatever a plugin answers; and unless there is a
  -- plugin, it is below the VRAM limit, as far as the last scrape of it says.
  pub pick_excluding_sound :
      (u : Unicode) (s : Scheduler f) (now : ℕ) (req : ClientRequest) (exclude : List (Str × Bool))
      {r : Backend}
      → pick_excluding f u s now req exclude ≡ ok r
      → Eligible s.pool (normalize_model u req.model) exclude r
        × ((is_safe f s.store r ≡ true) ⊎ ((p : SchedulerPlugin) × (s.plugin ≡ some p)))
  pick_excluding_sound u s now req exclude e = (
    pick_excluding-Eligible f u s now req exclude e,
    elim (Option-cases s.plugin) [
      | inl n ↦ inl (pick_excluding-is_safe f u s now req exclude n e)
      | inr found ↦ inr found
    ],
  )
