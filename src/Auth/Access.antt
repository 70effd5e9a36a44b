-- ===== src/Auth/Access.antt =====
-- Who gets past the guard.
use loxy_router.Base.{
  ℕ, zero, suc, ◌<◌, ◌≡◌, ◌↔◌, refl, sym, ap, ◌∙◌, ◌⊎◌, inl, inr, Bool, true, false, ◌&&◌, List, [],
  ◌∷◌, ◌++◌, Str, arith, length, ltb, str_eq, str_eq_iff, In, there, In-cons, In-head, Bool-cases,
  &&-eq-true, length-append, lt→ltb,
}
use loxy_router.Text.{is_empty}
use loxy_router.Auth.{
  take, drop, equal_fold, prefix, bearer_token, valid_from, valid_key, passes, auth_middleware,
}

valid_from-true : (ks : List Str) (t : Str) → valid_from ks t true ≡ true
unfolding valid_from
valid_from-true [] t = refl
valid_from-true (k ∷ ks) t = ground (arith, valid_from-true ks t)

valid_from-In : (ks : List Str) (t : Str) → valid_from ks t false ≡ true → In t ks
unfolding valid_from
valid_from-In [] t e = cc
valid_from-In (k ∷ ks) t e = elim (Bool-cases (str_eq k t)) [
  | inl q ↦ In-head (sym ((str_eq_iff k t).0 q))
  | inr q ↦ there (valid_from-In ks t (rw q at e))
]

In-valid_from : (ks : List Str) (t : Str) (ok : Bool) → In t ks → valid_from ks t ok ≡ true
unfolding valid_from
In-valid_from [] t ok m = elim m [ ]
In-valid_from (k ∷ ks) t ok m = elim (In-cons m) [
  | inl q ↦ rw ((str_eq_iff k t).1 (sym q)) (valid_from-true ks t)
  | inr i ↦ In-valid_from ks t _ i
]

take-append-drop : (n : ℕ) (s : Str) → s ≡ take n s ++ drop n s
take-append-drop zero s = refl
take-append-drop (suc n) [] = refl
take-append-drop (suc n) (x ∷ s) = ap (λ r. x ∷ r) (take-append-drop n s)

take-append : (s t : Str) → take (length s) (s ++ t) ≡ s
take-append [] t = refl
take-append (x ∷ s) t = ap (λ r. x ∷ r) (take-append s t)

drop-append : (s t : Str) → drop (length s) (s ++ t) ≡ t
drop-append [] t = refl
drop-append (x ∷ s) t = drop-append s t

-- A header that is the scheme, in any case, and a key behind it.
pub record Carries (authorization : Str) (keys : List Str) : Type 0 where
  pub scheme : Str
  pub token : Str
  pub whole : authorization ≡ scheme ++ token
  pub bearer : equal_fold scheme prefix ≡ true
  pub length_scheme : length scheme ≡ length prefix
  pub filled : is_empty token ≡ false
  pub known : In token keys

valid_key-In : (ks : List Str) (t : Str) → valid_key ks t ≡ true → In t ks × (is_empty t ≡ false)
unfolding valid_key
valid_key-In ks t e = elim (Bool-cases (is_empty t)) [
  | inl q ↦ absurd (cc (rw q at e))
  | inr q ↦ (valid_from-In ks t (rw q at e), q)
]

no_empty : ¬ (is_empty [] ≡ false)
unfolding is_empty
no_empty e = cc e

length-take : (n : ℕ) (s : Str) → n < length s → length (take n s) ≡ n
length-take zero s h = refl
length-take (suc n) [] h = absurd (omega arith)
length-take (suc n) (x ∷ s) h = ap suc (length-take n s (omega arith))

bearer_token-Carries :
    (keys : List Str) (h : Str) → valid_key keys (bearer_token h) ≡ true → Carries h keys
unfolding bearer_token
bearer_token-Carries keys h e =
    elim (Bool-cases
      (ltb (length prefix) (length h) && equal_fold (take (length prefix) h) prefix)) [
        | inl q ↦
            let (l, b) =
              &&-eq-true (ltb (length prefix) (length h))
                (equal_fold (take (length prefix) h) prefix) q in
            let (m, n) = valid_key-In keys (drop (length prefix) h) (rw q at e) in
            record {
              scheme = take (length prefix) h;
              token = drop (length prefix) h;
              whole = take-append-drop (length prefix) h;
              bearer = b;
              length_scheme = length-take (length prefix) h (ground (arith, l));
              filled = n;
              known = m;
            }
        | inr q ↦ let (_, n) = valid_key-In keys [] (rw q at e) in absurd (no_empty n)
      ]

filled_length : (t : Str) → is_empty t ≡ false → 0 < length t
unfolding is_empty
filled_length [] e = absurd (cc e)
filled_length (x ∷ t) e = omega arith

token_of :
    (scheme token : Str)
    → equal_fold scheme prefix ≡ true
    → length scheme ≡ length prefix
    → is_empty token ≡ false
    → bearer_token (scheme ++ token) ≡ token
unfolding bearer_token
token_of scheme token b l n =
    let front : take (length prefix) (scheme ++ token) ≡ scheme =
      ap (λ k. take k (scheme ++ token)) (sym l) ∙ take-append scheme token in
    let rest : drop (length prefix) (scheme ++ token) ≡ token =
      ap (λ k. drop k (scheme ++ token)) (sym l) ∙ drop-append scheme token in
    let longer : ltb (length prefix) (length (scheme ++ token)) ≡ true =
      lt→ltb _ _ (omega (arith, length-append scheme token, filled_length token n)) in
    rw (longer, front, b) rest

Carries-valid_key :
    (keys : List Str) (h : Str) → Carries h keys → valid_key keys (bearer_token h) ≡ true
unfolding valid_key
Carries-valid_key keys h c =
    rw (c.whole, token_of c.scheme c.token c.bearer c.length_scheme c.filled, c.filled)
      (In-valid_from keys c.token false c.known)

-- The guard lets a request pass exactly when no keys are configured, or its Authorization header is
-- "Bearer " in any case of the letters, with one of the keys behind it, byte by byte; and an empty
-- key is never one of them.
pub auth_middleware_iff :
    (keys : List Str) (authorization : Str)
    → (auth_middleware keys authorization ≡ passes) ↔ ((keys ≡ []) ⊎ Carries authorization keys)
unfolding auth_middleware
auth_middleware_iff [] h = (λ e. inl refl, λ c. refl)
auth_middleware_iff (k ∷ ks) h = (passed, let_in)
  where
    passed : auth_middleware (k ∷ ks) h ≡ passes → ((k ∷ ks) ≡ []) ⊎ Carries h (k ∷ ks)
    passed e = elim (Bool-cases (valid_key (k ∷ ks) (bearer_token h))) [
      | inl v ↦ inr (bearer_token-Carries (k ∷ ks) h v)
      | inr v ↦ absurd (cc (rw v at e))
    ]

    let_in : ((k ∷ ks) ≡ []) ⊎ Carries h (k ∷ ks) → auth_middleware (k ∷ ks) h ≡ passes
    let_in (inl e) = cc
    let_in (inr c) = rw (Carries-valid_key (k ∷ ks) h c) refl
