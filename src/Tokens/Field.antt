-- ===== src/Tokens/Field.antt =====
-- What jsonIntField finds.
use loxy_router.Base.{
  ℕ, ◌≡◌, refl, ap, true, ◌||◌, [], ◌∷◌, ◌++◌, none, some, Str, arith, length, All, ◌==◌,
}
use loxy_router.Text.{is_empty}
use loxy_router.Text.Split.{has_prefix}
use loxy_router.Tokens.{
  drop, after_last, skip_separators, is_digit, take_digits, atoi, needle, json_int_field,
}

after_last-append :
    (p xs ys : Str) {r : Str} → after_last p ys ≡ some r → after_last p (xs ++ ys) ≡ some r
unfolding after_last
after_last-append p [] ys e = e
after_last-append p (x ∷ xs) ys e = rw (after_last-append p xs ys e) refl

has_prefix-append : (p t : Str) → has_prefix p (p ++ t) ≡ true
unfolding has_prefix
has_prefix-append [] t = refl
has_prefix-append (c ∷ p) t = ground (arith, has_prefix-append p t)

drop-length-append : (p t : Str) → drop (length p) (p ++ t) ≡ t
drop-length-append [] t = refl
drop-length-append (c ∷ p) t = drop-length-append p t

-- A text at the front is found, if it does not stand further behind too.
after_last_front :
    (c : ℕ) (p t : Str)
    → after_last (c ∷ p) (p ++ t) ≡ none
    → after_last (c ∷ p) (c ∷ p ++ t) ≡ some t
unfolding after_last
after_last_front c p t e =
    rw (e, has_prefix-append (c ∷ p) t) (ap some (drop-length-append (c ∷ p) t))

-- Spaces and colons, and digits.
abbrev pub IsSeparator : ℕ → Type 0
IsSeparator c = (c == 32 || c == b':') ≡ true

abbrev pub IsDigit : ℕ → Type 0
IsDigit c = is_digit c ≡ true

skip_separators-append :
    (sep t : Str) → All IsSeparator sep → skip_separators (sep ++ t) ≡ skip_separators t
unfolding skip_separators
skip_separators-append [] t h = refl
skip_separators-append (c ∷ sep) t h = rw h.0 (skip_separators-append sep t h.1)

skip_separators-digit : (d : ℕ) (t : Str) → IsDigit d → skip_separators (d ∷ t) ≡ d ∷ t
unfolding skip_separators
skip_separators-digit d t h = ground arith

take_digits-append : (ds s : Str) → All IsDigit ds → take_digits s ≡ [] → take_digits (ds ++ s) ≡ ds
unfolding take_digits
take_digits-append [] s h e = e
take_digits-append (d ∷ ds) s h e = rw h.0 (ap (λ r. d ∷ r) (take_digits-append ds s h.1 e))

field_of_rest :
    (b key rest : Str) (d : ℕ) (ds : Str)
    → after_last (needle key) b ≡ some rest
    → take_digits (skip_separators rest) ≡ d ∷ ds
    → json_int_field b key ≡ atoi (d ∷ ds)
unfolding json_int_field is_empty
field_of_rest b key rest d ds e g = rw (e, json_int_field) (rw g refl)

-- The field is read from anywhere in the text: behind any text at all, the quoted key, then spaces
-- and colons, then the digits of a number up to something that is no digit, gives the value of the
-- digits, or nothing if it is out of the range of an `int`. The key stands nowhere further behind.
pub json_int_field_lem :
    (before key sep : Str) (d : ℕ) (ds after : Str)
    → All IsSeparator sep
    → All IsDigit (d ∷ ds)
    → take_digits after ≡ []
    → after_last (needle key) ((key ++ b'"' ∷ []) ++ (sep ++ (d ∷ ds ++ after))) ≡ none
    → json_int_field (before ++ (needle key ++ (sep ++ (d ∷ ds ++ after)))) key ≡ atoi (d ∷ ds)
unfolding needle
json_int_field_lem before key sep d ds after hs hd ha h =
    field_of_rest _ key (sep ++ (d ∷ ds ++ after)) d ds
      (after_last-append (needle key) before _ (after_last_front b'"' (key ++ b'"' ∷ []) _ h))
      (rw
        (
          skip_separators-append sep (d ∷ ds ++ after) hs,
          skip_separators-digit d (ds ++ after) hd.0,
        )
        (take_digits-append (d ∷ ds) after hd ha))
