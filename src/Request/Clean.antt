-- ===== src/Request/Clean.antt =====
-- What classify hands to the scheduler.
use loxy_router.Base.{◌≡◌, Str, [], ◌⊎◌}
use loxy_router.Text.{Unicode, trim_space}
use loxy_router.Model.{parse_priority, normalize_model}
use loxy_router.Scheduler.{ClientRequest}
use loxy_router.Request.{absent, bytes, Incoming}

-- A request in the form that the rest of the router expects, with the body to send.
pub record Clean (u : Unicode) (r : Incoming) (q : ClientRequest) (body : Str) : Type 0 where
  pub model : normalize_model u q.model ≡ q.model
  pub conversation : trim_space q.conversation_id ≡ q.conversation_id
  pub priority : q.priority ≡ parse_priority u r.priority_header
  pub whole : (r.body ≡ bytes body) ⊎ ((r.body ≡ absent) × (body ≡ []))
