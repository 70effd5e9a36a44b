-- ===== src/Scheduler/Health.antt =====
-- The health checks and the scheduler together.
use loxy_router.Base.{
  ◌≡◌, refl, ap, sym, subst, ◌∙◌, ℕ, Bool, In-cons, true, false, List, [], ◌∷◌, Option, Str, In,
  here, there, ℤ, inl, inr, if◌then◌else◌,
}
use loxy_router.Text.{Unicode}
use loxy_router.Float.{Float64}
use loxy_router.Backend.{Backend, up, down, set_status, ping}
use loxy_router.Pool.{is_up, health_round}
use loxy_router.State.{StateStore}
use loxy_router.Conversation.{ConversationStore}
use loxy_router.Scheduler.{SchedulerPlugin, new_scheduler, ClientRequest, ok, pick_excluding}
use loxy_router.Scheduler.Choice.{pick_excluding-Eligible}

-- A backend that was up after a round of health checks: it answered, and the round marked it.
pub record Pinged (get_status : Str → Option ℤ) (pool : List Backend) (r : Backend) : Type 0 where
  pub before : Backend
  pub member : In before pool
  pub answered : ping get_status before ≡ true
  pub marked : r ≡ set_status before up

marked_up :
    (answers : Bool) (b : Backend) → is_up (set_status b (if answers then up else down)) ≡ answers
unfolding is_up set_status
marked_up true b = refl
marked_up false b = refl

health_round-Pinged :
    (get_status : Str → Option ℤ) (pool : List Backend) {r : Backend}
    → In r (health_round get_status pool)
    → is_up r ≡ true
    → Pinged get_status pool r
unfolding health_round
health_round-Pinged get_status [] m h = elim m [ ]
health_round-Pinged get_status (b ∷ bs) {r} m h = elim (In-cons m) [
  | inl e ↦
      let answered : ping get_status b ≡ true =
        sym (marked_up (ping get_status b) b) ∙ ap is_up (sym e) ∙ h in
      record {
        before = b;
        member = here;
        answered = answered;
        marked = e ∙ ap (λ z. set_status b (if z then up else down)) answered;
      }
  | inr i ↦
      let p = health_round-Pinged get_status bs i h in
      record {
        before = p.before;
        member = there p.member;
        answered = p.answered;
        marked = p.marked;
      }
]

pub new_scheduler-pool :
    (f : Float64) (pool : List Backend) (store : StateStore f.Carrier)
    (conv : Option ConversationStore) (plugins : List SchedulerPlugin)
    → (new_scheduler f pool store conv plugins).pool ≡ pool
unfolding new_scheduler
new_scheduler-pool f pool store conv [] = refl
new_scheduler-pool f pool store conv (p ∷ ps) = refl

-- After a round of health checks a request only goes to a backend of the pool that has just answered
-- with 200 at its health endpoint: whatever the plugins, the conversations and the exclusions are,
-- the backend that PickExcluding returns is one that answered, with its status set to up.
pub pick_excluding-ping :
    (f : Float64) (u : Unicode) (get_status : Str → Option ℤ) (pool : List Backend)
    (store : StateStore f.Carrier) (conv : Option ConversationStore)
    (plugins : List SchedulerPlugin) (now : ℕ) (req : ClientRequest) (exclude : List (Str × Bool))
    {r : Backend}
    → pick_excluding f u
        (new_scheduler f (health_round get_status pool) store conv plugins)
        now
        req
        exclude
      ≡ ok r
    → Pinged get_status pool r
pick_excluding-ping f u get_status pool store conv plugins now req exclude {r} e =
    let h = pick_excluding-Eligible f u _ now req exclude e in
    health_round-Pinged get_status pool
      (subst (In r) (new_scheduler-pool f (health_round get_status pool) store conv plugins)
        h.member)
      h.up
