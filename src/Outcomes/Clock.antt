-- ===== src/Outcomes/Clock.antt =====
-- The minutes at which observation begins, and the 5m window of a time. Times are not before the
-- epoch, and in UTC.
use candlepilot.Prelude.{true, ℕ, ◌+◌, ◌*◌, ◌/◌, ◌%◌, leb, ◌==◌, if◌then◌else◌, pos, pos_part}
use candlepilot.Time.{Datetime}

abbrev pub utc : ℕ → Datetime
utc n = record { micros = pos n; aware = true }

abbrev pub micros_of : Datetime → ℕ
micros_of t = pos_part t.micros

-- The microseconds of a minute, and those of an hour.
abbrev pub minute : ℕ
minute = 60000000

abbrev pub hour : ℕ
hour = 3600000000

-- `t.replace(second=0, microsecond=0)`, `t.minute` and `t.replace(minute=0)`.
abbrev pub floor_minute : ℕ → ℕ
floor_minute n = n / minute * minute

abbrev pub minute_of : ℕ → ℕ
minute_of n = n % hour / minute

abbrev pub at_minute : ℕ → ℕ → ℕ
at_minute n m = n / hour * hour + m * minute

unfoldable pub next_complete_5m_start : Datetime → Datetime
next_complete_5m_start completed =
    let base = floor_minute (micros_of completed) in
    let minutes = (minute_of base / 5 + 1) * 5 in
    if leb 60 minutes then utc (at_minute base 0 + hour) else utc (at_minute base minutes)

unfoldable pub next_complete_1m_start : Datetime → Datetime
next_complete_1m_start completed =
    let n = micros_of completed in
    let base = floor_minute n in if n == base then utc base else utc (base + minute)

unfoldable pub five_minute_window : Datetime → Datetime
five_minute_window open_time =
    let n = micros_of open_time in utc (at_minute n (minute_of n / 5 * 5))
