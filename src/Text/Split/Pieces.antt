-- ===== src/Text/Split/Pieces.antt =====
-- What Split and Fields find in a text that is put together from pieces.
use loxy_router.Base.{
  ℕ, ◌≡◌, refl, ap, ◌∙◌, Bool, true, false, not, List, [], ◌∷◌, ◌++◌, Str, All, arith, keep,
  Bool-cases, inl, inr,
}
use loxy_router.Text.{is_space, is_empty}
use loxy_router.Text.Split.{split_where, fields}

-- No character of the text passes the test.
abbrev pub Free : (ℕ → Bool) → Str → Type 0
Free p = All (λ x. p x ≡ false)

pub split_where-append :
    (p : ℕ → Bool) (t s : Str) (x : ℕ)
    → Free p t
    → p x ≡ true
    → split_where p (t ++ x ∷ s) ≡ t ∷ split_where p s
unfolding split_where
split_where-append p [] s x h e = rw e
split_where-append p (y ∷ t) s x h e = rw (h.0, split_where-append p t s x h.1 e) refl

pub split_where-whole : (p : ℕ → Bool) (t : Str) → Free p t → split_where p t ≡ t ∷ []
unfolding split_where
split_where-whole p [] h = refl
split_where-whole p (x ∷ t) h = rw (h.0, split_where-whole p t h.1) refl

-- A text is a non-empty list of pieces.
pub split_where_cons :
    (p : ℕ → Bool) (s : Str) → (w : Str) × (ws : List Str) × (split_where p s ≡ w ∷ ws)
unfolding split_where
split_where_cons p [] = ([], [], refl)
split_where_cons p (x ∷ s) =
    let (w, ws, e) = split_where_cons p s in
    elim (Bool-cases (p x)) [
      | inl t ↦ ([], split_where p s, rw t refl)
      | inr t ↦ (x ∷ w, ws, rw (t, e) refl)
    ]

-- Free text goes to the first piece.
pub split_where-Free :
    (p : ℕ → Bool) (t s : Str) {w : Str} {ws : List Str}
    → Free p t
    → split_where p s ≡ w ∷ ws
    → split_where p (t ++ s) ≡ (t ++ w) ∷ ws
unfolding split_where
split_where-Free p [] s h e = e
split_where-Free p (x ∷ t) s h e = rw (h.0, split_where-Free p t s h.1 e) refl

-- A last word behind a separator.
pub split_where_last :
    (p : ℕ → Bool) (s t : Str) (x : ℕ)
    → p x ≡ true
    → Free p t
    → split_where p (s ++ x ∷ t) ≡ split_where p s ++ t ∷ []
unfolding split_where
split_where_last p [] t x e h = rw e (ap ([] ∷◌) (split_where-whole p t h))
split_where_last p (y ∷ s) t x e h =
    let (w, ws, q) = split_where_cons p s in
    rw (split_where_last p s t x e h)
      (elim (Bool-cases (p y)) [ inl k ↦ rw k refl | inr k ↦ rw (k, q) refl ])

filled : Str → Bool
filled t = not (is_empty t)

keep-append : (ws vs : List Str) → keep filled (ws ++ vs) ≡ keep filled ws ++ keep filled vs
keep-append [] vs = refl
keep-append (w ∷ ws) vs = ground (arith, keep-append ws vs)

-- The last word of a text is its last field.
pub fields-last :
    (s t : Str) (x : ℕ)
    → is_space x ≡ true
    → Free is_space t
    → is_empty t ≡ false
    → fields (s ++ x ∷ t) ≡ fields s ++ t ∷ []
unfolding fields filled
fields-last s t x e h n =
    ap (keep filled) (split_where_last is_space s t x e h)
    ∙ keep-append (split_where is_space s) (t ∷ [])
    ∙ rw n refl

filled-append : (t w : Str) → is_empty t ≡ false → filled (t ++ w) ≡ true
unfolding filled is_empty
filled-append [] w n = cc
filled-append (x ∷ t) w n = refl

-- The first word of a text, with what hangs on to it, is its first field.
pub fields_first :
    (t s : Str)
    → Free is_space t
    → is_empty t ≡ false
    → (w : Str) × (ws vs : List Str) × (split_where is_space s ≡ w ∷ vs)
      × (fields (t ++ s) ≡ (t ++ w) ∷ ws)
unfolding fields filled
fields_first t s h n =
    let (w, vs, e) = split_where_cons is_space s in
    (
      w,
      keep filled vs,
      vs,
      e,
      ap (keep filled) (split_where-Free is_space t s h e) ∙ rw (filled-append t w n) refl,
    )
