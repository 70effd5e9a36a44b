-- ===== src/Text/Trim.antt =====
-- Laws of trimming and lower case.
use loxy_router.Base.{ℕ, ◌≡◌, refl, ap, ◌∙◌, true, false, [], ◌∷◌, ◌++◌, Str, arith}
use loxy_router.Text.{
  is_space, to_lower, Unicode, lower_text, is_empty, trim_left, trim_right, trim_space, has_code,
}

-- A text that does not start with a space.
abbrev pub StartsFirm : Str → Type 0
StartsFirm [] = Unit
StartsFirm (x ∷ xs) = is_space x ≡ false

trim_left-StartsFirm : (s : Str) → StartsFirm (trim_left s)
unfolding trim_left
trim_left-StartsFirm [] = tt
trim_left-StartsFirm (x ∷ xs) = ground (arith, trim_left-StartsFirm xs)

trim_left_of_StartsFirm : (s : Str) → StartsFirm s → trim_left s ≡ s
unfolding trim_left
trim_left_of_StartsFirm [] h = refl
trim_left_of_StartsFirm (x ∷ xs) h = rw h

trim_right-StartsFirm : (s : Str) → StartsFirm s → StartsFirm (trim_right s)
unfolding trim_right
trim_right-StartsFirm [] h = tt
trim_right-StartsFirm (x ∷ xs) h = rw h h

trim_right_idem : (s : Str) → trim_right (trim_right s) ≡ trim_right s
unfolding trim_right
trim_right_idem [] = refl
trim_right_idem (x ∷ xs) = ground (arith, trim_right_idem xs)

pub trim_space-StartsFirm : (s : Str) → StartsFirm (trim_space s)
unfolding trim_space
trim_space-StartsFirm s = trim_right-StartsFirm (trim_left s) (trim_left-StartsFirm s)

pub trim_space_idem : (s : Str) → trim_space (trim_space s) ≡ trim_space s
unfolding trim_space
trim_space_idem s =
    ap trim_right (trim_left_of_StartsFirm _ (trim_right-StartsFirm _ (trim_left-StartsFirm s)))
    ∙ trim_right_idem (trim_left s)

-- Text that ends firmly keeps what stands before it.
trim_right-append :
    (s t : Str) → trim_right t ≡ t → is_empty t ≡ false → trim_right (s ++ t) ≡ s ++ t
unfolding trim_right
trim_right-append [] t h n = h
trim_right-append (x ∷ s) t h n = rw (trim_right-append s t h n) (ground (arith, append_firm s))
  where
    append_firm : (r : Str) → is_empty (r ++ t) ≡ false
    append_firm [] = n
    append_firm (y ∷ r) = refl

StartsFirm-append : (s t : Str) → StartsFirm s → is_empty s ≡ false → StartsFirm (s ++ t)
unfolding is_empty
StartsFirm-append [] t h n = cc
StartsFirm-append (x ∷ s) t h n = h

pub trim_space-append :
    (s t : Str)
    → StartsFirm s
    → is_empty s ≡ false
    → trim_right t ≡ t
    → is_empty t ≡ false
    → trim_space (s ++ t) ≡ s ++ t
unfolding trim_space
trim_space-append s t h n f m =
    ap trim_right (trim_left_of_StartsFirm (s ++ t) (StartsFirm-append s t h n))
    ∙ trim_right-append s t f m

pub has_code-append : (c : ℕ) (s t : Str) → has_code c t ≡ true → has_code c (s ++ t) ≡ true
unfolding has_code
has_code-append c [] t h = h
has_code-append c (x ∷ s) t h = ground (arith, has_code-append c s t h)

module _ (u : Unicode) where
  pub to_lower_idem : (c : ℕ) → to_lower u.beyond (to_lower u.beyond c) ≡ to_lower u.beyond c
  unfolding to_lower
  to_lower_idem c = ground (arith, u.idem c)

  is_space-to_lower : (c : ℕ) → is_space (to_lower u.beyond c) ≡ is_space c
  unfolding to_lower is_space
  is_space-to_lower c = ground (arith, u.space c)

  pub lower_text_idem : (s : Str) → lower_text u (lower_text u s) ≡ lower_text u s
  unfolding lower_text
  lower_text_idem [] = refl
  lower_text_idem (c ∷ s) = cc (to_lower_idem c, lower_text_idem s)

  trim_left-lower : (s : Str) → trim_left (lower_text u s) ≡ lower_text u (trim_left s)
  unfolding trim_left lower_text
  trim_left-lower [] = refl
  trim_left-lower (c ∷ s) = rw (is_space-to_lower c) (ground (arith, trim_left-lower s))

  is_empty-lower : (s : Str) → is_empty (lower_text u s) ≡ is_empty s
  unfolding is_empty lower_text
  is_empty-lower [] = refl
  is_empty-lower (c ∷ s) = refl

  trim_right-lower : (s : Str) → trim_right (lower_text u s) ≡ lower_text u (trim_right s)
  unfolding trim_right lower_text
  trim_right-lower [] = refl
  trim_right-lower (c ∷ s) =
      rw (is_space-to_lower c, trim_right-lower s, is_empty-lower (trim_right s)) (ground arith)

  pub trim_space-lower : (s : Str) → trim_space (lower_text u s) ≡ lower_text u (trim_space s)
  unfolding trim_space
  trim_space-lower s = rw (trim_left-lower s) (trim_right-lower (trim_left s))
