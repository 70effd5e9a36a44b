-- ===== src/Proxy/Upstream/Headers.antt =====
-- The headers that a backend sees, key by key.
use mathlib.Core.List.{append_assoc, append-nil}
use loxy_router.Base.{
  ◌≡◌, refl, sym, ap, ◌∙◌, inl, inr, Bool, true, false, not, ◌&&◌, List, [], ◌∷◌, ◌++◌, Str, codes,
  str_eq, str_eq_iff, str_eq_comm, if◌then◌else◌, lookup, insert, lookup-insert, str_Eq, arith,
  Bool-cases,
}
use loxy_router.Text.{is_empty}
use loxy_router.Proxy.Upstream.{
  canonical_header_key, Header, values, header_add, add_values, authorization, copy_headers,
  forward_headers,
}

-- The specification: all values that the client sent under keys with a canonical form.
unfoldable pub sent : Str → Header → List Str
sent n [] = []
sent n ((key, vals) ∷ rest) =
    (if str_eq (canonical_header_key key) n then vals else []) ++ sent n rest

values-insert :
    (n k : Str) (vs : List Str) (h : Header)
    → values n (insert k vs h) ≡ (if str_eq k n then vs else values n h)
unfolding values
values-insert n k vs h = ground (arith, lookup-insert k n vs h)

values-header_add :
    (n key v : Str) (h : Header)
    → values n (header_add key v h)
      ≡ values n h ++ (if str_eq (canonical_header_key key) n then v ∷ [] else [])
unfolding header_add
values-header_add n key v h =
    let k = canonical_header_key key in
    elim (Bool-cases (str_eq k n)) [
      | inl e ↦
          let q : k ≡ n = (str_eq_iff k n).0 e in
          rw (values-insert n k (values k h ++ v ∷ []) h, e) (ap (λ z. values z h ++ v ∷ []) q)
      | inr e ↦ rw (values-insert n k (values k h ++ v ∷ []) h, e) (sym (append-nil (values n h)))
    ]

values-add_values :
    (n key : Str) (vs : List Str) (h : Header)
    → values n (add_values key vs h)
      ≡ values n h ++ (if str_eq (canonical_header_key key) n then vs else [])
unfolding add_values
values-add_values n key [] h = elim (Bool-cases (str_eq (canonical_header_key key) n)) [
  | inl e ↦ rw e (sym (append-nil (values n h)))
  | inr e ↦ rw e (sym (append-nil (values n h)))
]
values-add_values n key (v ∷ vs) h =
    values-add_values n key vs (header_add key v h)
    ∙ elim (Bool-cases (str_eq (canonical_header_key key) n)) [
      | inl e ↦ rw (values-header_add n key v h, e) (append_assoc (values n h) (v ∷ []) vs)
      | inr e ↦ rw (values-header_add n key v h, e) (append-nil (values n h ++ []))
    ]

-- A key whose values the loop drops.
abbrev dropped : Str → Str → Bool
dropped api_key n = not (is_empty api_key) && str_eq n authorization

-- What the loop adds for a key.
abbrev kept : Str → Str → Header → List Str
kept api_key n client = if dropped api_key n then [] else sent n client

kept_cons :
    (api_key n key : Str) (vals : List Str) (rest : Header)
    → dropped api_key (canonical_header_key key) ≡ false
    → (if str_eq (canonical_header_key key) n then vals else []) ++ kept api_key n rest
      ≡ kept api_key n ((key, vals) ∷ rest)
unfolding sent
kept_cons api_key n key vals rest h = elim (Bool-cases (str_eq (canonical_header_key key) n)) [
  | inl e ↦
      let q : canonical_header_key key ≡ n = (str_eq_iff _ n).0 e in
      let k : dropped api_key n ≡ false = sym (ap (dropped api_key) q) ∙ h in rw (e, k) refl
  | inr e ↦ rw e (elim (Bool-cases (dropped api_key n)) [ inl k ↦ rw k refl | inr k ↦ rw k refl ])
]

kept_skip :
    (api_key n key : Str) (vals : List Str) (rest : Header)
    → dropped api_key (canonical_header_key key) ≡ true
    → kept api_key n rest ≡ kept api_key n ((key, vals) ∷ rest)
unfolding sent
kept_skip api_key n key vals rest h = elim (Bool-cases (str_eq (canonical_header_key key) n)) [
  | inl e ↦
      let q : canonical_header_key key ≡ n = (str_eq_iff _ n).0 e in
      let k : dropped api_key n ≡ true = sym (ap (dropped api_key) q) ∙ h in rw (e, k) refl
  | inr e ↦ rw e refl
]

values-copy_headers :
    (api_key n : Str) (client h : Header)
    → values n (copy_headers api_key client h) ≡ values n h ++ kept api_key n client
unfolding copy_headers sent
values-copy_headers api_key n [] h = elim (Bool-cases (dropped api_key n)) [
  | inl e ↦ rw e (sym (append-nil (values n h)))
  | inr e ↦ rw e (sym (append-nil (values n h)))
]
values-copy_headers api_key n ((key, vals) ∷ rest) h =
    elim (Bool-cases (dropped api_key (canonical_header_key key))) [
      | inl e ↦
          rw e (values-copy_headers api_key n rest h)
          ∙ ap (values n h ++◌) (kept_skip api_key n key vals rest e)
      | inr e ↦
          rw e (values-copy_headers api_key n rest (add_values key vals h))
          ∙ ap (◌++ kept api_key n rest) (values-add_values n key vals h)
          ∙ append_assoc (values n h) _ (kept api_key n rest)
          ∙ ap (values n h ++◌) (kept_cons api_key n key vals rest e)
    ]

values-copied :
    (api_key n : Str) (client : Header)
    → values n (copy_headers api_key client []) ≡ kept api_key n client
unfolding values lookup
values-copied api_key n client = values-copy_headers api_key n client []

replaced :
    (api_key n : Str) (client : Header)
    → is_empty api_key ≡ false
    → values n
        (insert authorization ((codes "Bearer " ++ api_key) ∷ []) (copy_headers api_key client []))
      ≡ (if str_eq n authorization then (codes "Bearer " ++ api_key) ∷ [] else sent n client)
replaced api_key n client h =
    values-insert n authorization _ _
    ∙ rw (str_eq_comm authorization n, values-copied api_key n client, h)
        (elim (Bool-cases (str_eq n authorization)) [ inl e ↦ rw e refl | inr e ↦ rw e refl ])

-- A backend sees, under each key, exactly the values that the client sent under it in any spelling, in
-- their order; but where the backend has its own credential, "Authorization" has that one value,
-- and nothing that the client sent under that key.
pub values-forward_headers :
    (api_key n : Str) (client : Header)
    → values n (forward_headers api_key client) ≡ (
        if not (is_empty api_key) && str_eq n authorization
        then (codes "Bearer " ++ api_key) ∷ []
        else sent n client)
unfolding forward_headers
values-forward_headers api_key n client = elim (Bool-cases (is_empty api_key)) [
  | inl e ↦ rw e (values-copied api_key n client ∙ rw e refl)
  | inr e ↦ rw e (replaced api_key n client e)
]
