-- ===== src/Decimal/Order.antt =====
-- The comparisons of rounded differences.
use candlepilot.Prelude.{zero, suc, pos, negsuc, ◌-ℤ◌, -ℤ_parts, ◌<ℤ◌, ◌≤ℤ◌, arith}
use candlepilot.Decimal.{Decimal, round, sub}
use candlepilot.Decimal.Digits.{round_ratio-zero, round_ratio_pos}

-- Rounding keeps the sign.
pub round_pos : (a : Decimal) → pos 0 <ℤ a → pos 0 <ℤ round a
unfolding round
round_pos (pos n) h = ground (arith, round_ratio_pos n 1)
round_pos (negsuc n) h = absurd (omega arith)

pub round_nonneg : (a : Decimal) → pos 0 ≤ℤ a → pos 0 ≤ℤ round a
unfolding round
round_nonneg (pos n) h = omega arith
round_nonneg (negsuc n) h = absurd (omega arith)

pub round_nonpos : (a : Decimal) → a ≤ℤ pos 0 → round a ≤ℤ pos 0
unfolding round
round_nonpos (pos zero) h = rw (round_ratio-zero 1 (omega arith)) (omega arith)
round_nonpos (pos (suc n)) h = absurd (omega arith)
round_nonpos (negsuc n) h = ground arith

pub round_neg : (a : Decimal) → a <ℤ pos 0 → round a <ℤ pos 0
unfolding round
round_neg (pos n) h = absurd (omega arith)
round_neg (negsuc n) h = ground (arith, round_ratio_pos (suc n) 1)

-- A rounded difference has the sign of the exact one.
pub lt-sub_pos : (a b : Decimal) → a <ℤ b → pos 0 <ℤ sub b a
unfolding sub
lt-sub_pos a b h = round_pos (b -ℤ a) (omega (arith, -ℤ_parts b a))

pub sub_pos-lt : (a b : Decimal) → pos 0 <ℤ sub b a → a <ℤ b
unfolding sub
sub_pos-lt a b h = grind (arith, -ℤ_parts b a, round_nonpos (b -ℤ a))

pub sub_neg-lt : (a b : Decimal) → sub b a <ℤ pos 0 → b <ℤ a
unfolding sub
sub_neg-lt a b h = grind (arith, -ℤ_parts b a, round_nonneg (b -ℤ a))

pub lt-sub_neg : (a b : Decimal) → b <ℤ a → sub b a <ℤ pos 0
unfolding sub
lt-sub_neg a b h = round_neg (b -ℤ a) (omega (arith, -ℤ_parts b a))
