-- ===== src/Examples/Requests.antt =====
-- What comes in, what goes on to a backend, and what comes of it.
use loxy_router.Base.{◌≡◌, not, ◌&&◌, [], ◌∷◌, ◌++◌, codes, str_eq, if◌then◌else◌}
use loxy_router.Text.{is_empty}
use loxy_router.Request.{Incoming, bytes}
use loxy_router.Request.Clean.{Clean}
use loxy_router.Proxy.Upstream.{Header, values, forward_headers, authorization}
use loxy_router.Proxy.Upstream.Headers.{sent, values-forward_headers}

abbrev incoming : Incoming
incoming = record {
  priority_header = codes "Batch";
  conversation_header = codes " c ";
  body = bytes (codes "phi3");
}

abbrev client : Header
client =
    (codes "authorization", codes "Bearer mine" ∷ [])
    ∷ (codes "accept", codes "a" ∷ codes "b" ∷ [])
    ∷ []

values-forward_headers_example : values authorization (forward_headers (codes "secret") client) ≡ (
    if not (is_empty (codes "secret")) && str_eq authorization authorization
    then (codes "Bearer " ++ codes "secret") ∷ []
    else sent authorization client)
values-forward_headers_example = values-forward_headers (codes "secret") authorization client
