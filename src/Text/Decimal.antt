-- ===== src/Text/Decimal.antt =====
-- strconv.Itoa, which is also what `%d` prints, and the value of a text of digits.
use loxy_router.Base.{
  ℕ, zero, suc, ◌+◌, ◌-◌, ◌*◌, ◌/◌, ◌%◌, ◌<◌, ◌≡◌, sym, ap, ◌∙◌, [], ◌∷◌, Str, ℤ, pos, negsuc, ltb,
  if◌then◌else◌, arith, Bool-cases, inl, inr,
}

-- The digits of a number before some others; a number has fewer digits than its value plus 1.
unfoldable pub digits : ℕ → ℕ → Str → Str
digits zero n after = after
digits (suc fuel) n after =
    let rest = digits fuel (n / 10) ((b'0' + n % 10) ∷ after) in
    if ltb n 10 then (b'0' + n) ∷ after else rest

unfoldable pub itoa : ℤ → Str
unfolding digits
itoa (pos n) = digits (suc n) n []
itoa (negsuc n) = b'-' ∷ digits (suc (suc n)) (suc n) []

-- The value of a text of digits.
unfoldable pub value_from : ℕ → Str → ℕ
value_from acc [] = acc
value_from acc (d ∷ ds) = value_from (acc * 10 + (d - b'0')) ds

value_from-digits :
    (fuel n : ℕ) (after : Str) → n < fuel → value_from 0 (digits fuel n after) ≡ value_from n after
unfolding digits value_from
value_from-digits zero n after h = absurd (omega arith)
value_from-digits (suc fuel) n after h = elim (Bool-cases (ltb n 10)) [
  | inl e ↦ rw e (ap (λ z. value_from z after) (omega arith))
  | inr e ↦ rw e (
      value_from-digits fuel (n / 10) ((b'0' + n % 10) ∷ after) (ground (arith, e))
      ∙ ap (λ z. value_from z after) (omega arith))
]

-- A number is read back from its digits.
pub value_from-itoa : (n : ℕ) → value_from 0 (itoa (pos n)) ≡ n
unfolding itoa value_from
value_from-itoa n = value_from-digits (suc n) n [] (omega arith)

-- Different numbers have different digits.
pub itoa_inj : (m n : ℕ) → itoa (pos m) ≡ itoa (pos n) → m ≡ n
itoa_inj m n e = sym (value_from-itoa m) ∙ ap (value_from 0) e ∙ value_from-itoa n
