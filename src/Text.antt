-- ===== src/Text.antt =====
-- The functions of Go's `strings` and `unicode` that the router calls, on texts as lists of code
-- points (scheduler.go, gate.go, request.go, main.go).
pub mod Trim
pub mod Split
pub mod Decimal
use loxy_router.Base.{
  ℕ, ◌+◌, ◌≤◌, ◌≡◌, Bool, true, false, ◌&&◌, ◌||◌, List, [], ◌∷◌, Str, leb, ltb, ◌==◌,
  if◌then◌else◌, map,
}

-- unicode.IsSpace
unfoldable pub is_space : ℕ → Bool
is_space c =
    leb 9 c && leb c 13
    || c == 32
    || c == 0x85
    || c == 0xa0
    || c == 0x1680
    || leb 0x2000 c && leb c 0x200a
    || c == 0x2028
    || c == 0x2029
    || c == 0x202f
    || c == 0x205f
    || c == 0x3000

-- unicode.ToLower, its table beyond ASCII a parameter.
unfoldable pub to_lower : (ℕ → ℕ) → ℕ → ℕ
to_lower beyond c = if leb 65 c && leb c 90 then c + 32 else if ltb c 128 then c else beyond c

-- The table, with the facts about it that the router relies on: a lower-case letter has itself
-- for its lower case, and the case of a letter does not make it a space.
pub record Unicode : Type 0 where
  pub beyond : ℕ → ℕ
  pub idem : (c : ℕ) → 128 ≤ c → to_lower beyond (beyond c) ≡ beyond c
  pub space : (c : ℕ) → 128 ≤ c → is_space (beyond c) ≡ is_space c

unfoldable pub lower_text : Unicode → Str → Str
lower_text u = map (to_lower u.beyond)

unfoldable pub is_empty : Str → Bool
is_empty [] = true
is_empty (x ∷ xs) = false

unfoldable pub trim_left : Str → Str
trim_left [] = []
trim_left (x ∷ xs) = if is_space x then trim_left xs else x ∷ xs

unfoldable pub trim_right : Str → Str
unfolding is_empty
trim_right [] = []
trim_right (x ∷ xs) =
    let rest = trim_right xs in if is_space x && is_empty rest then [] else x ∷ rest

-- strings.TrimSpace
unfoldable pub trim_space : Str → Str
trim_space s = trim_right (trim_left s)

-- strings.Contains for a text of one character.
unfoldable pub has_code : ℕ → Str → Bool
has_code c [] = false
has_code c (x ∷ xs) = x == c || has_code c xs
