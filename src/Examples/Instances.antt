-- ===== src/Examples/Instances.antt =====
-- Instances: case tables that stop at ASCII, and fixed-point numbers for float64.
use native.Mathlib.Nat.{le-div_iff_mul-le, le_refl}
use loxy_router.Base.{
  ℕ, ◌+◌, ◌*◌, ◌/◌, ◌≤◌, ◌<◌, leb→le, ◌≡◌, refl, true, false, arith, ltb, leb, ℤ, pos, negsuc, ◌≤ℤ◌,
  pos_part, Bool, [], ◌∷◌, Option, none, some, Str, ◌&&◌, if◌then◌else◌,
}
use loxy_router.Text.{Unicode, to_lower}
use loxy_router.Text.Decimal.{value_from}
use loxy_router.Float.{Float64, FloatText}

ascii_idem : (c : ℕ) → 128 ≤ c → to_lower (λ x. x) c ≡ c
unfolding to_lower
ascii_idem c h = ground arith

pub ascii : Unicode
ascii = record { beyond = λ c. c; idem = ascii_idem; space = λ c h. refl }

-- Multiples of 10 ^ -9; a negative integer becomes 0.
abbrev scale : ℕ
scale = 1_000_000_000

fixed_of_int_mono : (a b : ℤ) → a ≤ℤ b → ltb (pos_part b * scale) (pos_part a * scale) ≡ false
fixed_of_int_mono (pos a) (pos b) h = ground arith
fixed_of_int_mono (pos a) (negsuc b) h = ground arith
fixed_of_int_mono (negsuc a) (pos b) h = ground arith
fixed_of_int_mono (negsuc a) (negsuc b) h = ground arith

fixed_ge_one : (a : ℤ) → pos 1 ≤ℤ a → leb (1 * scale) (pos_part a * scale) ≡ true
fixed_ge_one (pos a) h = ground arith
fixed_ge_one (negsuc a) h = ground arith

le→leb : (a b : ℕ) → a ≤ b → leb a b ≡ true
le→leb a b h = ground arith

ge→not-ltb : (a b : ℕ) → b ≤ a → ltb a b ≡ false
ge→not-ltb a b h = ground arith

not-ltb→ge : (a b : ℕ) → ltb a b ≡ false → b ≤ a
not-ltb→ge a b h = ground arith

div_mono : (a b : ℕ) → a ≤ b → a / scale ≤ b / scale
div_mono a b h = omega arith

mul_mono : (x y z : ℕ) → x ≤ y → x * z ≤ y * z
mul_mono x y z h = grind arith

fixed_mul_mono : (x y z : ℕ) → ltb y x ≡ false → ltb (y * z / scale) (x * z / scale) ≡ false
fixed_mul_mono x y z h =
    ge→not-ltb _ _ (div_mono (x * z) (y * z) (mul_mono x y z (not-ltb→ge y x h)))

recip_mono : (x y : ℕ) → 0 < x → x ≤ y → scale * scale / y ≤ scale * scale / x
recip_mono x y h k =
    let q : ℕ = scale * scale / y in
    let positive : 0 < y = omega arith in
    let below : q * y ≤ scale * scale = (le-div_iff_mul-le positive).0 (le_refl q) in
    let less : x * q ≤ y * q = mul_mono x y q k in (le-div_iff_mul-le h).1 (omega arith)

fixed_recip_anti :
    (x y : ℕ)
    → ltb (0 * scale) x ≡ true
    → ltb y x ≡ false
    → ltb (1 * scale * scale / x) (1 * scale * scale / y) ≡ false
fixed_recip_anti x y h k = ge→not-ltb _ _ (recip_mono x y (ground (arith, h)) (not-ltb→ge y x k))

fixed_mul_ge_one :
    (x y : ℕ)
    → leb (1 * scale) x ≡ true
    → leb (1 * scale) y ≡ true
    → leb (1 * scale) (x * y / scale) ≡ true
fixed_mul_ge_one x y h k =
    let low : scale * scale ≤ x * y =
      grind (arith, leb→le (1 * scale) x h, leb→le (1 * scale) y k) in
    le→leb _ _ (omega arith)

pub fixed : Float64
fixed = record {
  Carrier = ℕ;
  of_int = λ a. pos_part a * scale;
  nine_tenths = 900_000_000;
  add = ◌+◌;
  mul = λ x y. x * y / scale;
  div = λ x y. x * scale / y;
  lt = ltb;
  le = leb;
  lt_trans = λ x y z h k. ltb_trans x y z h k;
  of_int_mono = fixed_of_int_mono;
  of_int_ge_one = fixed_ge_one;
  mul_mono = λ x y z h k. fixed_mul_mono x y z h;
  mul_ge_one = fixed_mul_ge_one;
  pos_of_ge_one = λ x h. one_pos x h;
  lt_asymm = λ x y h. ltb_asymm x y h;
  recip_anti = fixed_recip_anti;
}
  where
    ltb_trans : (x y z : ℕ) → ltb x y ≡ true → ltb y z ≡ true → ltb x z ≡ true
    ltb_trans x y z h k = ground arith

    ltb_asymm : (x y : ℕ) → ltb x y ≡ true → ltb y x ≡ false
    ltb_asymm x y h = ground arith

    one_pos : (x : ℕ) → leb (1 * scale) x ≡ true → ltb (0 * scale) x ≡ true
    one_pos x h = ground arith

-- The integer part.
pub to_integer : fixed.Carrier → ℤ
unfolding fixed
to_integer x = pos (x / scale)

abbrev has_only_digits : Str → Bool
has_only_digits [] = true
has_only_digits (c ∷ s) = leb b'0' c && leb c b'9' && has_only_digits s

-- Whole numbers.
unfoldable pub parse_whole : Str → Option fixed.Carrier
parse_whole [] = none
parse_whole (c ∷ s) =
    if has_only_digits (c ∷ s) then some (fixed.of_int (pos (value_from 0 (c ∷ s)))) else none

abbrev pub whole_text : FloatText fixed
whole_text = record { parse = parse_whole; to_int = to_integer }
