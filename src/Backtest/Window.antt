-- ===== src/Backtest/Window.antt =====
-- The equity of the last 24 hours that `portfolio_state` keeps.
use candlepilot.Prelude.{
  Bool, false, Option, none, some, List, [], ◌∷◌, ◌++◌, not, if◌then◌else◌, ◌-ℤ◌,
}
use candlepilot.Decimal.{Decimal}
use candlepilot.Time.{Datetime, before, not_after, same_instant, seconds}
use candlepilot.Outcome.{Result, ok, value_error, raise_if, ◌>>◌}
use candlepilot.Backtest.{EquityPoint}

-- `self._equity_window[-1]`
abbrev pub last {ℓ} : {A : Type ℓ} → List A → Option A
last [] = none
last (x ∷ []) = some x
last (x ∷ y ∷ xs) = last (y ∷ xs)

-- `self._equity_window[-1] = point`
abbrev pub set_last {ℓ} : {A : Type ℓ} → A → List A → List A
set_last point [] = []
set_last point (x ∷ []) = point ∷ []
set_last point (x ∷ y ∷ xs) = x ∷ set_last point (y ∷ xs)

abbrev pub is_backwards : List EquityPoint → Datetime → Bool
is_backwards [] now = false
is_backwards (x ∷ []) now = before now x.timestamp
is_backwards (x ∷ y ∷ xs) now = is_backwards (y ∷ xs) now

abbrev pub is_same_time : List EquityPoint → Datetime → Bool
is_same_time [] now = false
is_same_time (x ∷ []) now = same_instant now x.timestamp
is_same_time (x ∷ y ∷ xs) now = is_same_time (y ∷ xs) now

abbrev pub put_point : EquityPoint → List EquityPoint → List EquityPoint
put_point point w = if is_same_time w point.timestamp then set_last point w else w ++ point ∷ []

-- `while len(w) > 1 and w[1].timestamp <= cutoff: w.pop(0)`
unfoldable pub trim : Datetime → List EquityPoint → List EquityPoint
trim cutoff [] = []
trim cutoff (x ∷ []) = x ∷ []
trim cutoff (x ∷ y ∷ w) =
    let rest = trim cutoff (y ∷ w) in if not_after y.timestamp cutoff then rest else x ∷ y ∷ w

-- A day before `now`.
abbrev pub day_before : Datetime → Datetime
day_before now = record now { micros = now.micros -ℤ seconds 86400 }

-- The window once the equity of `now` is in it.
unfoldable pub observe : Datetime → Decimal → List EquityPoint → Result (List EquityPoint)
observe now equity w =
    raise_if (not now.aware) (value_error "portfolio time must be timezone-aware")
    >> (raise_if (is_backwards w now) (value_error "portfolio time cannot move backwards")
        >> ok (trim (day_before now) (put_point (record { timestamp = now; equity = equity }) w)))

abbrev pub observe_at : Option Datetime → Decimal → List EquityPoint → Result (List EquityPoint)
observe_at none equity w = ok w
observe_at (some now) equity w = observe now equity w

abbrev pub window_start : Decimal → List EquityPoint → Decimal
window_start initial [] = initial
window_start initial (x ∷ w) = x.equity
