-- ===== src/Discover/Fields.antt =====
-- splitTrim reads back what is joined by separators.
use loxy_router.Base.{
  ℕ, ◌≡◌, refl, ap, ◌∙◌, false, List, [], ◌∷◌, ◌++◌, Str, All, arith, ◌==◌, ==_iff,
}
use loxy_router.Text.{is_empty, trim_space, trim_left, trim_right, has_code}
use loxy_router.Text.Split.{split, split_where}
use loxy_router.Text.Split.Pieces.{Free, split_where-append, split_where-whole}
use loxy_router.Discover.{trimmed, split_trim}

-- The texts with a separator between them.
unfoldable pub join : ℕ → List Str → Str
join sep [] = []
join sep (t ∷ []) = t
join sep (t ∷ u ∷ ts) = t ++ sep ∷ join sep (u ∷ ts)

-- A field that is not blank, has no space around it, and no separator in it.
pub record Field (sep : ℕ) (t : Str) : Type 0 where
  pub filled : is_empty t ≡ false
  pub firm : trim_space t ≡ t
  pub whole : has_code sep t ≡ false

has_code-Free : (sep : ℕ) (t : Str) → has_code sep t ≡ false → Free (λ x. x == sep) t
unfolding has_code
has_code-Free sep [] h = tt
has_code-Free sep (x ∷ t) h = ground (arith, has_code-Free sep t)

split-append :
    (sep : ℕ) (t s : Str) → has_code sep t ≡ false → split sep (t ++ sep ∷ s) ≡ t ∷ split sep s
unfolding split
split-append sep t s h =
    split_where-append (λ x. x == sep) t s sep (has_code-Free sep t h) ((==_iff sep sep).1 refl)

split-whole : (sep : ℕ) (t : Str) → has_code sep t ≡ false → split sep t ≡ t ∷ []
unfolding split
split-whole sep t h = split_where-whole (λ x. x == sep) t (has_code-Free sep t h)

trimmed-cons : (sep : ℕ) (t : Str) (ts : List Str) → Field sep t → trimmed (t ∷ ts) ≡ t ∷ trimmed ts
unfolding trimmed
trimmed-cons sep t ts v = rw (v.firm, v.filled) refl

trimmed-nil : trimmed [] ≡ []
unfolding trimmed
trimmed-nil = refl

trimmed_blank : (sep : ℕ) → trimmed (split sep []) ≡ []
unfolding trimmed split split_where trim_space trim_left trim_right is_empty
trimmed_blank sep = refl

trimmed-split :
    (sep : ℕ) (ts : List Str) → All (Field sep) ts → trimmed (split sep (join sep ts)) ≡ ts
unfolding join
trimmed-split sep [] h = trimmed_blank sep
trimmed-split sep (t ∷ []) h =
    ap trimmed (split-whole sep t h.0.whole) ∙ trimmed-cons sep t [] h.0 ∙ ap (t ∷◌) trimmed-nil
trimmed-split sep (t ∷ u ∷ ts) h =
    ap trimmed (split-append sep t (join sep (u ∷ ts)) h.0.whole)
    ∙ trimmed-cons sep t (split sep (join sep (u ∷ ts))) h.0
    ∙ ap (t ∷◌) (trimmed-split sep (u ∷ ts) h.1)

-- A list of backends is read back: fields that are not blank, have no space around them and no
-- separator in them, joined by the separator, are just what splitTrim finds.
pub split_trim-join :
    (sep : ℕ) (ts : List Str) → All (Field sep) ts → split_trim (join sep ts) sep ≡ ts
unfolding split_trim
split_trim-join sep ts h = trimmed-split sep ts h
