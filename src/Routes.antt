-- ===== src/Routes.antt =====
-- main.go: the routing table of the server. How net/http's ServeMux cleans a path, of `.`, `..` and
-- empty segments, is the argument `clean`: it looks for a route of the cleaned path, and redirects a
-- request whose path is not clean. Requests with the method CONNECT, which it does not clean, are not
-- meant.
pub mod Guarded
use loxy_router.Base.{
  ℕ, ◌≡◌, Bool, true, false, List, [], ◌∷◌, ◌++◌, Option, none, some, Str, codes, str_eq, ◌==◌,
  if◌then◌else◌,
}
use loxy_router.Text.Split.{has_prefix}
use loxy_router.Auth.{Verdict, unauthorized, passes, auth_middleware}

-- The handlers: the proxy, statusHandler, metricsHandler, and the one that answers {"status":"ok"}.
pub data Handler : Type 0 where
  proxy status metrics health : Handler

pub record Route : Type 0 where
  pub pattern : Str
  pub is_authed : Bool
  pub handler : Handler

-- The calls of mux.Handle and mux.HandleFunc.
unfoldable pub routes : List Route
routes =
    record { pattern = codes "/v1/"; is_authed = true; handler = proxy }
    ∷ record { pattern = codes "/api/"; is_authed = true; handler = proxy }
    ∷ record { pattern = codes "/status"; is_authed = true; handler = status }
    ∷ record { pattern = codes "/metrics"; is_authed = false; handler = metrics }
    ∷ record { pattern = codes "/health"; is_authed = false; handler = health }
    ∷ []

abbrev pub ends_in_slash : Str → Bool
ends_in_slash [] = false
ends_in_slash (x ∷ []) = x == b'/'
ends_in_slash (x ∷ y ∷ s) = ends_in_slash (y ∷ s)

-- A pattern that ends in a slash stands for all paths below it, another for itself.
abbrev pub is_match : Str → Str → Bool
is_match pattern path =
    if ends_in_slash pattern then has_prefix pattern path else str_eq path pattern

-- No path matches two of the patterns, so the first match is ServeMux's.
unfoldable pub find_route : List Route → Str → Option Route
find_route [] path = none
find_route (r ∷ rs) path =
    let rest = find_route rs path in if is_match r.pattern path then some r else rest

-- What the server does with a request: a call of a handler, 401, 404, or a redirect to a path.
pub data Answer : Type 0 where
  handled : Handler → Answer
  refused not_found : Answer
  redirected : Str → Answer

-- The closure `authed`.
unfoldable pub authed : List Str → Str → Handler → Answer
authed keys authorization h = elim (auth_middleware keys authorization) [
  | unauthorized ↦ refused
  | passes ↦ handled h
]

-- ServeMux, from the path of a request and its Authorization header
unfoldable pub route_request : (Str → Str) → List Str → Str → Str → Answer
unfolding find_route authed
route_request clean keys authorization path =
    let p = clean path in
    elim (find_route routes p) [
      | none ↦ elim (find_route routes (p ++ b'/' ∷ [])) [
        | none ↦ if str_eq p path then not_found else redirected p
        | some r ↦ redirected (p ++ b'/' ∷ [])
      ]
      | some r ↦
          if str_eq p path
          then (if r.is_authed then authed keys authorization r.handler else handled r.handler)
          else redirected p
    ]
