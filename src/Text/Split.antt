-- ===== src/Text/Split.antt =====
-- strings.Split, strings.Fields and strings.HasPrefix (main.go, scraper.go, proxy.go).
pub mod Pieces
use loxy_router.Base.{
  ℕ, ◌≡◌, Bool, true, false, not, ◌&&◌, List, [], ◌∷◌, Str, keep, ◌==◌, if◌then◌else◌,
}
use loxy_router.Text.{is_space, is_empty}

-- A character in front of the first piece.
abbrev pub in_front : ℕ → List Str → List Str
in_front x [] = (x ∷ []) ∷ []
in_front x (w ∷ ws) = (x ∷ w) ∷ ws

-- The pieces between the characters that pass a test.
unfoldable pub split_where : (ℕ → Bool) → Str → List Str
split_where p [] = [] ∷ []
split_where p (x ∷ s) = let rest = split_where p s in if p x then [] ∷ rest else in_front x rest

-- strings.Split, for a separator of one character
unfoldable pub split : ℕ → Str → List Str
split sep = split_where (λ x. x == sep)

-- strings.Fields
unfoldable pub fields : Str → List Str
fields s = keep (λ t. not (is_empty t)) (split_where is_space s)

-- strings.HasPrefix, bytes.HasPrefix
unfoldable pub has_prefix : Str → Str → Bool
has_prefix [] s = true
has_prefix (c ∷ p) [] = false
has_prefix (c ∷ p) (x ∷ s) = c == x && has_prefix p s
