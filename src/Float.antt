-- ===== src/Float.antt =====
-- Go's float64 as the router uses it: a type with the operations of IEEE 754 that scheduler.go and
-- scraper.go call, and the facts about rounded arithmetic that the proofs rest on. Each fact holds
-- for NaN and the infinities too: a comparison with NaN is false.
use loxy_router.Base.{◌≡◌, Bool, true, false, Option, Str, ℤ, pos, ◌≤ℤ◌}

pub record Float64 : Type 1 where
  pub Carrier : Type 0
  pub of_int : ℤ → Carrier
  pub nine_tenths : Carrier
  pub add : Carrier → Carrier → Carrier
  pub mul : Carrier → Carrier → Carrier
  pub div : Carrier → Carrier → Carrier
  pub lt : Carrier → Carrier → Bool
  pub le : Carrier → Carrier → Bool
  pub lt_trans : (x y z : Carrier) → lt x y ≡ true → lt y z ≡ true → lt x z ≡ true
  -- Conversion and rounded operations are monotone.
  pub of_int_mono : (a b : ℤ) → a ≤ℤ b → lt (of_int b) (of_int a) ≡ false
  pub of_int_ge_one : (a : ℤ) → pos 1 ≤ℤ a → le (of_int (pos 1)) (of_int a) ≡ true
  pub mul_mono :
      (x y z : Carrier)
      → lt y x ≡ false
      → lt z (of_int (pos 0)) ≡ false
      → lt (mul y z) (mul x z) ≡ false
  pub mul_ge_one :
      (x y : Carrier)
      → le (of_int (pos 1)) x ≡ true
      → le (of_int (pos 1)) y ≡ true
      → le (of_int (pos 1)) (mul x y) ≡ true
  pub pos_of_ge_one : (x : Carrier) → le (of_int (pos 1)) x ≡ true → lt (of_int (pos 0)) x ≡ true
  pub lt_asymm : (x y : Carrier) → lt x y ≡ true → lt y x ≡ false
  pub recip_anti :
      (x y : Carrier)
      → lt (of_int (pos 0)) x ≡ true
      → lt y x ≡ false
      → lt (div (of_int (pos 1)) x) (div (of_int (pos 1)) y) ≡ false

-- A float64 as text and as an integer: strconv.ParseFloat with 64 bits, `none` for its errors, and
-- the conversions `int64(x)` and `int(x)`, which agree on a 64-bit machine.
pub record FloatText (f : Float64) : Type 0 where
  pub parse : Str → Option f.Carrier
  pub to_int : f.Carrier → ℤ
