-- ===== src/Request.antt =====
-- request.go: the attributes of a request that steer its way. Texts are code points.
pub mod Clean
use loxy_router.Base.{◌≡◌, Option, none, some, Str, List, []}
use loxy_router.Text.{Unicode, trim_space}
use loxy_router.Model.{parse_priority, normalize_model}
use loxy_router.Scheduler.{ClientRequest}

-- What `r` holds for classify: the two headers, and how its body reads: there is none, it cannot be
-- read fully (io.ReadAll fails, also at the cap of MaxBytesReader), or its bytes.
pub data Body : Type 0 where
  absent unreadable : Body
  bytes : Str → Body

pub record Incoming : Type 0 where
  pub priority_header : Str
  pub conversation_header : Str
  pub body : Body

-- classify; `json_model` is the field `model` that json.Unmarshal finds in a body, "" where there
-- is none.
unfoldable pub request_of : Unicode → (Str → Str) → Incoming → Str → ClientRequest
request_of u json_model r body = record {
  model = normalize_model u (json_model body);
  conversation_id = trim_space r.conversation_header;
  priority = parse_priority u r.priority_header;
}

unfoldable pub classify : Unicode → (Str → Str) → Incoming → Option (ClientRequest × Str)
unfolding request_of
classify u json_model r = elim r.body [
  | absent ↦ some (request_of u json_model r [], [])
  | unreadable ↦ none
  | bytes body ↦ some (request_of u json_model r body, body)
]
