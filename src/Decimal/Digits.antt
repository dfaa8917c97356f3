-- ===== src/Decimal/Digits.antt =====
-- What rounding to 28 digits keeps: zero, and being positive.
use candlepilot.Prelude.{ℕ, zero, suc, ◌*◌, ◌/◌, ◌≤◌, ◌<◌, ◌≡◌, arith}
use candlepilot.Decimal.{half_even, ulp, round_ratio}

pub ulp_pos : (fuel q : ℕ) → 0 < ulp fuel q
unfolding ulp
ulp_pos zero q = omega arith
ulp_pos (suc fuel) q = ground (arith, ulp_pos fuel (q / 10))

-- The last digit's unit does not exceed the number.
pub ulp-le : (fuel q : ℕ) → 0 < q → ulp fuel q ≤ q
unfolding ulp
ulp-le zero q h = h
ulp-le (suc fuel) q h = ground (arith, ulp-le fuel (q / 10))

pub half_even-zero : (k : ℕ) → 0 < k → half_even 0 k ≡ 0
unfolding half_even
half_even-zero k h = ground arith

pub half_even_pos : (n k : ℕ) → 0 < k → k ≤ n → 0 < half_even n k
unfolding half_even
half_even_pos n k h le = let q_pos : 0 < n / k = grind arith in ground arith

-- The divisor that rounding uses is positive.
ulp-mul_pos : (fuel q d : ℕ) → 0 < d → 0 < ulp fuel q * d
ulp-mul_pos fuel q d h = grind (arith, ulp_pos fuel q)

ulp-mul-le : (n d : ℕ) → 0 < d → d ≤ n → ulp (n / d) (n / d) * d ≤ n
ulp-mul-le n d h le =
    let q_pos : 0 < n / d = grind arith in let u_le = ulp-le (n / d) (n / d) q_pos in grind arith

pub round_ratio-zero : (d : ℕ) → 0 < d → round_ratio 0 d ≡ 0
unfolding round_ratio
round_ratio-zero d h =
    rw (half_even-zero (ulp (0 / d) (0 / d) * d) (ulp-mul_pos (0 / d) (0 / d) d h)) (omega arith)

-- A ratio of at least one unit does not round to 0.
pub round_ratio_pos : (n d : ℕ) → 0 < d → d ≤ n → 0 < round_ratio n d
unfolding round_ratio
round_ratio_pos n d h le = grind (
  arith,
  ulp_pos (n / d) (n / d),
  half_even_pos n (ulp (n / d) (n / d) * d) (ulp-mul_pos (n / d) (n / d) d h) (ulp-mul-le n d h le),
)
