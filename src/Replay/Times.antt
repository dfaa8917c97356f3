-- ===== src/Replay/Times.antt =====
-- Which times `decision_times` lists.
use native.Mathlib.Nat.{
  add-mul, div-lt_iff_lt-mul, suc-mul, suc-mul, le-div_iff_mul-le, lt-div-mul-add,
}
use candlepilot.Prelude.{
  pos_part, ◌∙◌, ap, ◌-◌, ℕ, zero, suc, ◌+◌, ◌*◌, ◌/◌, ◌≤◌, ◌<◌, true, List, ◌∷◌, ◌≡◌, refl, All,
  pos, arith, if_branches,
}
use candlepilot.Time.{Datetime, before, not_after}
use candlepilot.Domain.{Cadence, m5, m15, m30, h1, h4}
use candlepilot.Replay.{BacktestSpec}
use candlepilot.Replay.Spec.{
  times_from, decision_times, at_milliseconds, interval_milliseconds, milliseconds_of,
}

-- The time stands in the list.
pub data Lists (t : Datetime) : List Datetime → Type 0 where
  first : {ts : List Datetime} → Lists t (t ∷ ts)
  further : {s : Datetime} {ts : List Datetime} → Lists t ts → Lists t (s ∷ ts)

-- A bar of the step after the start and not after the end.
abbrev pub IsBar : ℕ → Datetime → Datetime → Datetime → Type 0
IsBar step start end t =
    (n : ℕ) × (t ≡ at_milliseconds (n * step)) × (before start t ≡ true) × (not_after t end ≡ true)

module _ (step : ℕ) (start end : Datetime) where
  times_from-IsBar :
      (fuel n cursor : ℕ)
      → cursor ≡ n * step
      → before start (at_milliseconds cursor) ≡ true
      → All (IsBar step start end) (times_from fuel step cursor end)
  unfolding times_from
  times_from-IsBar zero n cursor same after = tt
  times_from-IsBar (suc fuel) n cursor same after =
      let next_same : cursor + step ≡ suc n * step = rw (suc-mul n step, same) refl in
      if_branches (All (IsBar step start end)) (not_after (at_milliseconds cursor) end)
        (λ inside. (
          (n, ap at_milliseconds same, after, inside),
          times_from-IsBar fuel (suc n) (cursor + step) next_same (ground arith),
        ))
        (λ _. tt)

  times_from-Lists :
      (fuel k cursor t : ℕ)
      → k < fuel
      → t ≡ cursor + k * step
      → not_after (at_milliseconds t) end ≡ true
      → Lists (at_milliseconds t) (times_from fuel step cursor end)
  unfolding times_from
  times_from-Lists zero k cursor t less same inside = absurd (omega arith)
  times_from-Lists (suc fuel) zero cursor t less same inside =
      let same_t : t ≡ cursor = omega arith in
      if_branches (Lists (at_milliseconds t)) (not_after (at_milliseconds cursor) end)
        (λ _. rw same_t first) (λ outside. absurd (ground arith))
  times_from-Lists (suc fuel) (suc k) cursor t less same inside =
      let next_same : t ≡ cursor + step + k * step = omega (arith, suc-mul k step) in
      if_branches (Lists (at_milliseconds t)) (not_after (at_milliseconds cursor) end)
        (λ _. further (times_from-Lists fuel k (cursor + step) t (omega arith) next_same inside))
        (λ outside. absurd (ground arith))

interval_pos : (c : Cadence) → 0 < interval_milliseconds c
interval_pos m5 = omega arith
interval_pos m15 = omega arith
interval_pos m30 = omega arith
interval_pos h1 = omega arith
interval_pos h4 = omega arith

-- The first multiple of the step after s microseconds, and the ones from it on.
first_bar : (s step : ℕ) → 0 < step → s < (s / 1000 / step + 1) * step * 1000
first_bar s step positive =
    omega (arith, lt-div-mul-add {a = s / 1000} {b = step} positive, suc-mul (s / 1000 / step) step)

bar_from_first : (s n step : ℕ) → 0 < step → s < n * step * 1000 → s / 1000 / step + 1 ≤ n
bar_from_first s n step positive after =
    let below : s / 1000 / step < n = (div-lt_iff_lt-mul positive).1 (omega arith) in omega arith

bar_to_last : (e n step : ℕ) → 0 < step → n * step * 1000 ≤ e → n ≤ e / 1000 / step
bar_to_last e n step positive inside = (le-div_iff_mul-le positive).1 (omega arith)

split_bars : (n base step : ℕ) → base ≤ n → n * step ≡ base * step + (n - base) * step
split_bars n base step le =
    let whole : n ≡ base + (n - base) = omega arith in
    ap (λ (x : ℕ). x * step) whole ∙ add-mul base (n - base) step

after_start :
    (start : Datetime) (s step : ℕ)
    → start.micros ≡ pos s
    → 0 < step
    → before start (at_milliseconds ((milliseconds_of start / step + 1) * step)) ≡ true
after_start start s step at_start positive = rw at_start (ground (arith, first_bar s step positive))

-- With a start that is not before the epoch, every listed time is a multiple of the cadence's
-- interval, strictly after the start and not after the end.
pub decision_times-IsBar :
    (spec : BacktestSpec) (c : Cadence) (s : ℕ)
    → spec.start.micros ≡ pos s
    → All (IsBar (interval_milliseconds c) spec.start spec.end) (decision_times spec c)
unfolding decision_times
decision_times-IsBar spec c s at_start =
    let step = interval_milliseconds c in
    times_from-IsBar step spec.start spec.end (suc (milliseconds_of spec.end / step))
      (milliseconds_of spec.start / step + 1) _ refl
      (after_start spec.start s step at_start (interval_pos c))

-- With a start that is not before the epoch, every multiple of the cadence's interval that is
-- strictly after the start and not after the end is listed: the fuel is enough.
pub decision_times-Lists :
    (spec : BacktestSpec) (c : Cadence) (s n : ℕ)
    → spec.start.micros ≡ pos s
    → before spec.start (at_milliseconds (n * interval_milliseconds c)) ≡ true
    → not_after (at_milliseconds (n * interval_milliseconds c)) spec.end ≡ true
    → Lists (at_milliseconds (n * interval_milliseconds c)) (decision_times spec c)
unfolding decision_times
decision_times-Lists spec c s n at_start after inside =
    let step = interval_milliseconds c in
    let base = milliseconds_of spec.start / step + 1 in
    let start_micros : pos_part spec.start.micros < n * step * 1000 = ground arith in
    let in_micros : n * step * 1000 ≤ pos_part spec.end.micros = ground arith in
    let from_first : base ≤ n =
      bar_from_first (pos_part spec.start.micros) n step (interval_pos c) start_micros in
    times_from-Lists step spec.start spec.end (suc (milliseconds_of spec.end / step)) (n - base)
      (base * step) (n * step)
      (omega (arith, bar_to_last (pos_part spec.end.micros) n step (interval_pos c) in_micros))
      (split_bars n base step from_first) inside
