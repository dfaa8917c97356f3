-- ===== src/Outcomes/Start.antt =====
-- About `next_complete_5m_start` and `next_complete_1m_start`.
use candlepilot.Prelude.{
  ℕ, ◌+◌, ◌*◌, ◌/◌, ◌%◌, ◌≤◌, ◌<◌, ◌≡◌, refl, arith, true, false, leb, ◌==◌, if_branches, leb→le,
  ==_iff,
}
use candlepilot.Time.{Datetime}
use candlepilot.Outcomes.Clock.{
  utc, micros_of, minute, hour, floor_minute, minute_of, at_minute, next_complete_5m_start,
  next_complete_1m_start,
}

-- The first multiple of `step` after `n`, and from `n` on.
abbrev pub FirstAfter : ℕ → ℕ → Datetime → Type 0
FirstAfter step n t =
    (n < micros_of t) × (micros_of t ≤ n + step) × (micros_of t % step ≡ 0) × (t.aware ≡ true)

abbrev pub FirstFrom : ℕ → ℕ → Datetime → Type 0
FirstFrom step n t =
    (n ≤ micros_of t) × (micros_of t < n + step) × (micros_of t % step ≡ 0) × (t.aware ≡ true)

not_leb : (a b : ℕ) → leb a b ≡ false → b < a
not_leb a b h = ground arith

not_equal : (a b : ℕ) → (a == b) ≡ false → ¬ (a ≡ b)
not_equal a b h e = absurd (ground (arith, ==_iff a b))

late_hour :
    (n : ℕ)
    → 60 ≤ (minute_of (floor_minute n) / 5 + 1) * 5
    → FirstAfter (5 * minute) n (utc (at_minute (floor_minute n) 0 + hour))
late_hour n h = (omega arith, omega arith, omega arith, refl)

within_hour :
    (n : ℕ)
    → (minute_of (floor_minute n) / 5 + 1) * 5 < 60
    → FirstAfter
        (5 * minute)
        n
        (utc (at_minute (floor_minute n) ((minute_of (floor_minute n) / 5 + 1) * 5)))
within_hour n h = (omega arith, omega arith, omega arith, refl)

-- `next_complete_5m_start` gives a time in UTC: the first whole multiple of five minutes after the
-- completion, a time that counts as the epoch if it is before it.
pub next_complete_5m_start-FirstAfter :
    (completed : Datetime)
    → FirstAfter (5 * minute) (micros_of completed) (next_complete_5m_start completed)
unfolding next_complete_5m_start
next_complete_5m_start-FirstAfter completed =
    let n = micros_of completed in
    let base = floor_minute n in
    let minutes = (minute_of base / 5 + 1) * 5 in
    if_branches (FirstAfter (5 * minute) n) (leb 60 minutes)
      (λ late. late_hour n (leb→le 60 minutes late))
      (λ early. within_hour n (not_leb 60 minutes early))

-- The price at completion is that of the first whole minute from the completion on.
pub next_complete_1m_start-FirstFrom :
    (completed : Datetime)
    → FirstFrom minute (micros_of completed) (next_complete_1m_start completed)
unfolding next_complete_1m_start
next_complete_1m_start-FirstFrom completed =
    let n = micros_of completed in
    if_branches (FirstFrom minute n) (n == floor_minute n)
      (λ at_once.
        let m = (==_iff n (floor_minute n)).0 at_once in
        (omega arith, omega arith, omega arith, refl))
      (λ later.
        let m = not_equal n (floor_minute n) later in (omega arith, omega arith, omega arith, refl))
