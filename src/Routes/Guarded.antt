-- ===== src/Routes/Guarded.antt =====
-- Which requests reach which handler.
use loxy_router.Base.{
  ◌≡◌, ◌≢◌, subst, refl, sym, ◌↔◌, ◌⊎◌, inl, inr, Bool, true, false, List, [], ◌∷◌, ◌++◌, Option,
  none, some, Str, codes, str_eq, str_eq_iff, if◌then◌else◌, Bool-cases, Option-cases,
}
use loxy_router.Text.Split.{has_prefix}
use loxy_router.Auth.{Verdict, unauthorized, passes, auth_middleware}
use loxy_router.Auth.Access.{Carries, auth_middleware_iff}
use loxy_router.Routes.{
  Handler, proxy, status, metrics, health, Route, routes, find_route, Answer, handled, authed,
  route_request,
}

-- The paths of a handler.
abbrev pub Leads : Str → Handler → Type 0
Leads path proxy =
    (has_prefix (codes "/v1/") path ≡ true) ⊎ (has_prefix (codes "/api/") path ≡ true)
Leads path status = path ≡ codes "/status"
Leads path metrics = path ≡ codes "/metrics"
Leads path health = path ≡ codes "/health"

-- The requests that a handler is open to.
abbrev pub Open : List Str → Str → Handler → Type 0
Open keys authorization proxy = (keys ≡ []) ⊎ Carries authorization keys
Open keys authorization status = (keys ≡ []) ⊎ Carries authorization keys
Open keys authorization metrics = Unit
Open keys authorization health = Unit

abbrev needs_key : Handler → Bool
needs_key proxy = true
needs_key status = true
needs_key metrics = false
needs_key health = false

-- What the table answers for a path.
data Found (path : Str) : Option Route → Type 0 where
  found :
      (pattern : Str) (h : Handler)
      → Leads path h
      → Found path (some (record { pattern = pattern; is_authed = needs_key h; handler = h }))
  lost : Found path none

text_of : (s t : Str) → str_eq s t ≡ true → s ≡ t
text_of s t = (str_eq_iff s t).0

find_route-Found : (path : Str) → Found path (find_route routes path)
unfolding find_route routes
find_route-Found path = elim (Bool-cases (has_prefix (codes "/v1/") path)) [
  | inl e ↦ rw e (found _ proxy (inl e))
  | inr v ↦ elim (Bool-cases (has_prefix (codes "/api/") path)) [
    | inl e ↦ rw (v, e) (found _ proxy (inr e))
    | inr a ↦ elim (Bool-cases (str_eq path (codes "/status"))) [
      | inl e ↦ rw (v, a, e) (found _ status (text_of _ _ e))
      | inr t ↦ elim (Bool-cases (str_eq path (codes "/metrics"))) [
        | inl e ↦ rw (v, a, t, e) (found _ metrics (text_of _ _ e))
        | inr m ↦ elim (Bool-cases (str_eq path (codes "/health"))) [
          | inl e ↦ rw (v, a, t, m, e) (found _ health (text_of _ _ e))
          | inr n ↦ rw (v, a, t, m, n) lost
        ]
      ]
    ]
  ]
]

-- The route of a handler's paths.
abbrev RouteOf : Str → Handler → Type 0
RouteOf path h =
    (pattern : Str) × (find_route routes path
      ≡ some (record { pattern = pattern; is_authed = needs_key h; handler = h }))

Leads-RouteOf : (path : Str) (h : Handler) → Leads path h → RouteOf path h
unfolding find_route routes str_eq has_prefix
Leads-RouteOf path proxy (inl e) = (codes "/v1/", rw e refl)
Leads-RouteOf path proxy (inr e) = elim (Bool-cases (has_prefix (codes "/v1/") path)) [
  | inl v ↦ (codes "/v1/", rw v refl)
  | inr v ↦ (codes "/api/", rw (v, e) refl)
]
Leads-RouteOf path status e = (codes "/status", rw e refl)
Leads-RouteOf path metrics e = (codes "/metrics", rw e refl)
Leads-RouteOf path health e = (codes "/health", rw e refl)

handled_inj : {g h : Handler} → handled g ≡ handled h → g ≡ h
handled_inj e = cc

verdict_cases : (v : Verdict) → (v ≡ unauthorized) ⊎ (v ≡ passes)
verdict_cases unauthorized = inl refl
verdict_cases passes = inr refl

module _ (keys : List Str) (authorization : Str) where
  -- What the server does with a request for a handler's path.
  abbrev reply_of : Handler → Answer
  reply_of h = if needs_key h then authed keys authorization h else handled h

  authed-handled :
      (g h : Handler)
      → authed keys authorization g ≡ handled h
      → (g ≡ h) × (auth_middleware keys authorization ≡ passes)
  unfolding authed
  authed-handled g h e = elim (verdict_cases (auth_middleware keys authorization)) [
    | inl u ↦ absurd (cc (rw (authed, u) at e))
    | inr q ↦ (handled_inj (rw (authed, q) at e), q)
  ]

  reply_of-handled : (g h : Handler) → reply_of g ≡ handled h → (g ≡ h) × Open keys authorization g
  reply_of-handled proxy h e =
      let (q, a) = authed-handled proxy h e in (q, (auth_middleware_iff keys authorization).0 a)
  reply_of-handled status h e =
      let (q, a) = authed-handled status h e in (q, (auth_middleware_iff keys authorization).0 a)
  reply_of-handled metrics h e = (handled_inj e, tt)
  reply_of-handled health h e = (handled_inj e, tt)

  Open-reply_of : (h : Handler) → Open keys authorization h → reply_of h ≡ handled h
  unfolding authed
  Open-reply_of proxy o = rw (authed, (auth_middleware_iff keys authorization).1 o) refl
  Open-reply_of status o = rw (authed, (auth_middleware_iff keys authorization).1 o) refl
  Open-reply_of metrics o = refl
  Open-reply_of health o = refl

module _ (clean : Str → Str) (keys : List Str) (authorization path : Str) where
  routed :
      (pattern : Str) (g h : Handler)
      → find_route routes (clean path)
        ≡ some (record { pattern = pattern; is_authed = needs_key g; handler = g })
      → route_request clean keys authorization path ≡ handled h
      → (clean path ≡ path) × (reply_of keys authorization g ≡ handled h)
  unfolding route_request
  routed pattern g h q e = elim (Bool-cases (str_eq (clean path) path)) [
    | inl s ↦ (text_of _ _ s, rw (route_request, q, s) at e)
    | inr s ↦ absurd (cc (rw (route_request, q, s) at e))
  ]

  unrouted :
      (h : Handler)
      → find_route routes (clean path) ≡ none
      → route_request clean keys authorization path ≢ handled h
  unfolding route_request
  unrouted h q e = elim (Option-cases (find_route routes (clean path ++ b'/' ∷ []))) [
    | inl k ↦ elim (Bool-cases (str_eq (clean path) path)) [
      | inl s ↦ cc (rw (route_request, q, k, s) at e)
      | inr s ↦ cc (rw (route_request, q, k, s) at e)
    ]
    | inr (r, k) ↦ cc (rw (route_request, q, k) at e)
  ]

  Found-handled :
      (h : Handler) (o : Option Route)
      → Found (clean path) o
      → find_route routes (clean path) ≡ o
      → route_request clean keys authorization path ≡ handled h
      → (clean path ≡ path) × Leads path h × Open keys authorization h
  Found-handled h o (found pattern g l) q e =
      let (c, a) = routed pattern g h q e in
      let (r, b) = reply_of-handled keys authorization g h a in
      (
        c,
        subst (λ p. Leads p h) c (subst (Leads (clean path)) r l),
        subst (Open keys authorization) r b,
      )
  Found-handled h o lost q e = absurd (unrouted h q e)

  -- A request reaches the proxy exactly when its path is one that ServeMux leaves as it is, is below
  -- /v1/ or /api/, and the guard passes it; the status handler exactly when its path is /status,
  -- ServeMux leaves that as it is, and the guard passes it; and the handlers of /metrics and /health
  -- exactly when its path is theirs and is left as it is, whatever keys are configured.
  pub route_request_iff :
      (h : Handler)
      → (route_request clean keys authorization path ≡ handled h)
        ↔ ((clean path ≡ path) × Leads path h × Open keys authorization h)
  unfolding route_request
  route_request_iff h = (
    Found-handled h (find_route routes (clean path)) (find_route-Found (clean path)) refl,
    λ (c, l, o).
        let (p, q) = Leads-RouteOf (clean path) h (subst (λ z. Leads z h) (sym c) l) in
        rw (route_request, q, (str_eq_iff (clean path) path).1 c)
          (Open-reply_of keys authorization h o),
  )
