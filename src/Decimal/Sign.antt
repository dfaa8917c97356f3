-- ===== src/Decimal/Sign.antt =====
-- The sign of a product with 1 or -1.
use candlepilot.Prelude.{zero, suc, ◌*◌, ◌≡◌, true, pos, negsuc, ◌<ℤ◌, arith}
use candlepilot.Decimal.{Decimal, mul, of_int, one_units, signed, round_ratio}
use candlepilot.Decimal.Digits.{round_ratio-zero}

-- A product is not positive if its first factor is 0.
zero_units : round_ratio (0 * one_units) one_units ≡ 0
zero_units = round_ratio-zero one_units (omega arith)

pub mul_one_pos : (a : Decimal) → pos 0 <ℤ mul a (of_int 1) → pos 0 <ℤ a
unfolding mul
mul_one_pos (pos zero) h = absurd (ground (arith, zero_units))
mul_one_pos (pos (suc n)) h = omega arith
mul_one_pos (negsuc n) h = absurd (ground arith)

pub mul_minus_one_pos : (a : Decimal) → pos 0 <ℤ mul a (signed true one_units) → a <ℤ pos 0
unfolding mul
mul_minus_one_pos (pos n) h = absurd (ground arith)
mul_minus_one_pos (negsuc n) h = omega arith
