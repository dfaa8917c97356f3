-- ===== src/Outcomes/Windows.antt =====
-- About `_five_minute_window` and `_complete_minute_window`.
use mathlib.Core.Path.{subst}
use candlepilot.Prelude.{
  ℕ, suc, ◌+◌, ◌*◌, ◌/◌, ◌≤◌, ◌<◌, ◌≡◌, refl, arith, both_true, length, true, List, [], ◌∷◌, All,
}
use candlepilot.Time.{Datetime, same_instant}
use candlepilot.Outcomes.{Kline}
use candlepilot.Outcomes.Clock.{utc, micros_of, minute, minute_of, at_minute, five_minute_window}
use candlepilot.Outcomes.Refine.{has_five, opens_at, complete_minute_window}

abbrev window_of : ℕ → ℕ
window_of n = at_minute n (minute_of n / 5 * 5)

window_minute : (n j : ℕ) → j < 5 → window_of (window_of n + j * minute) ≡ window_of n
window_minute n j h = omega arith

same_micros : (t : Datetime) (n : ℕ) → same_instant t (utc n) ≡ true → micros_of t ≡ n
same_micros t n h = ground arith

abbrev pub InWindow : Datetime → Kline → Type 0
InWindow start bar = five_minute_window bar.open_time ≡ start

opens-InWindow :
    (n j : ℕ) (bar : Kline)
    → j < 5
    → same_instant bar.open_time (utc (window_of n + j * minute)) ≡ true
    → InWindow (utc (window_of n)) bar
unfolding five_minute_window
opens-InWindow n j bar small same =
    rw (same_micros bar.open_time (window_of n + j * minute) same, window_minute n j small) refl

opens_at-InWindow :
    (n j : ℕ) (bars : List Kline)
    → j + length bars ≤ 5
    → opens_at (window_of n + j * minute) bars ≡ true
    → All (InWindow (utc (window_of n))) bars
opens_at-InWindow n j [] fits h = tt
opens_at-InWindow n j (bar ∷ bars) fits h =
    let both =
      both_true (same_instant bar.open_time (utc (window_of n + j * minute)))
        (opens_at (window_of n + j * minute + minute) bars) h in
    let next : window_of n + j * minute + minute ≡ window_of n + suc j * minute = omega arith in
    (
      opens-InWindow n j bar (omega arith) both.0,
      opens_at-InWindow n (suc j) bars (omega arith)
          (subst (λ m. opens_at m bars ≡ true) next both.1),
    )

five-length : (bars : List Kline) → has_five bars ≡ true → length bars ≡ 5
five-length [] h = absurd (cc)
five-length (a ∷ []) h = absurd (cc)
five-length (a ∷ b ∷ []) h = absurd (cc)
five-length (a ∷ b ∷ c ∷ []) h = absurd (cc)
five-length (a ∷ b ∷ c ∷ d ∷ []) h = absurd (cc)
five-length (a ∷ b ∷ c ∷ d ∷ e ∷ []) h = refl
five-length (a ∷ b ∷ c ∷ d ∷ e ∷ f ∷ bars) h = absurd (cc)

-- The five bars that the code takes are those of a window.
pub complete_minute_window-InWindow :
    (bars : List Kline) (t : Datetime)
    → complete_minute_window bars (five_minute_window t) ≡ true
    → All (InWindow (five_minute_window t)) bars
unfolding five_minute_window
complete_minute_window-InWindow bars t whole =
    let n = micros_of t in
    let both = both_true (has_five bars) (opens_at (window_of n) bars) whole in
    let five = five-length bars both.0 in
    let start : window_of n ≡ window_of n + 0 * minute = omega arith in
    opens_at-InWindow n 0 bars (omega arith) (subst (λ m. opens_at m bars ≡ true) start both.1)
