-- ===== src/Decimal.antt =====
-- Python's `decimal.Decimal` under the default context: 28 significant digits, ties to even.
-- A value is an integer number of units of 10^-60; `-0` is 0, and there is no NaN or infinity.
-- A result below 28 digits of such a unit rounds at the unit, which the program's prices,
-- quantities and fractions do not reach.
pub mod Digits
pub mod Order
pub mod Sign
use candlepilot.Prelude.{
  ℕ, zero, suc, ◌+◌, ◌-◌, ◌*◌, ◌/◌, ◌%◌, ◌^◌, Bool, true, false, ℤ, pos, negsuc, pos_part, neg_part,
  sub_ℕ, ◌+ℤ◌, ◌-ℤ◌, ltb, ltb_ℤ, ◌==◌, if◌then◌else◌,
}

abbrev pub Decimal : Type 0
Decimal = ℤ

abbrev pub places : ℕ
places = 60

-- The number of units in 1.
abbrev pub one_units : ℕ
one_units = 10 ^ places

-- `dec m e` is the literal m * 10^-e.
abbrev pub dec : ℕ → ℕ → Decimal
dec m e = pos (m * 10 ^ (places - e))

abbrev pub of_int : ℕ → Decimal
of_int n = pos (n * one_units)

-- n / k to the nearest integer, a tie to the even one.
unfoldable pub half_even : ℕ → ℕ → ℕ
half_even n k =
    let q = n / k in
    let r = n % k in if ltb (2 * r) k then q else if ltb k (2 * r) then q + 1 else q + q % 2

-- The unit in the last of 28 digits of a number that is about q.
unfoldable pub ulp : ℕ → ℕ → ℕ
ulp zero q = 1
ulp (suc fuel) q = let rest = 10 * ulp fuel (q / 10) in if ltb q (10 ^ 28) then 1 else rest

-- n / d in 28 significant digits; q has fewer digits than q, so that much fuel is enough.
unfoldable pub round_ratio : ℕ → ℕ → ℕ
round_ratio n d = let q = n / d in let u = ulp q q in half_even n (u * d) * u

abbrev pub signed : Bool → ℕ → Decimal
signed true n = sub_ℕ 0 n
signed false n = pos n

abbrev pub is_negative : Decimal → Bool
is_negative (pos n) = false
is_negative (negsuc n) = true

-- Whether two signs differ, which makes a product negative.
abbrev pub differ : Bool → Bool → Bool
differ true true = false
differ false false = false
differ _ _ = true

abbrev pub magnitude : Decimal → ℕ
magnitude (pos n) = n
magnitude (negsuc n) = suc n

unfoldable pub round : Decimal → Decimal
round (pos n) = pos (round_ratio n 1)
round (negsuc n) = sub_ℕ 0 (round_ratio (suc n) 1)

unfoldable pub add : Decimal → Decimal → Decimal
add a b = round (a +ℤ b)

unfoldable pub sub : Decimal → Decimal → Decimal
sub a b = round (a -ℤ b)

unfoldable pub mul : Decimal → Decimal → Decimal
mul a b =
    signed (differ (is_negative a) (is_negative b))
      (round_ratio (magnitude a * magnitude b) one_units)

-- The quotient for a divisor that is not 0; `Flow.div` raises where it is.
unfoldable pub quotient : Decimal → Decimal → Decimal
quotient a b =
    signed (differ (is_negative a) (is_negative b))
      (round_ratio (magnitude a * one_units) (magnitude b))

-- `abs(a)`, which rounds too.
unfoldable pub abs : Decimal → Decimal
abs a = pos (round_ratio (magnitude a) 1)

-- `max(a, b)` and `min(a, b)` of two values.
abbrev pub max : Decimal → Decimal → Decimal
max a b = if ltb_ℤ a b then b else a

abbrev pub min : Decimal → Decimal → Decimal
min a b = if ltb_ℤ b a then b else a

pub data Rounding : Type 0 where
  down up : Rounding

unfoldable pub integral : Rounding → ℕ → ℕ
integral down n = n / one_units * one_units
integral up n = (n + one_units - 1) / one_units * one_units

-- `a.to_integral_value(rounding=…)`, with ROUND_DOWN towards 0 and ROUND_UP away from it.
unfoldable pub to_integral_value : Rounding → Decimal → Decimal
to_integral_value r a = signed (is_negative a) (integral r (magnitude a))

-- `a or b`, where 0 is false.
abbrev pub is_zero : Decimal → Bool
is_zero a = magnitude a == 0
