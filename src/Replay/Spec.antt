-- ===== src/Replay/Spec.antt =====
-- `decision_times`, `estimate` and `validate`.
use candlepilot.Prelude.{
  ℕ, zero, suc, ◌+◌, ◌*◌, ◌/◌, String, Bool, true, false, Option, none, some, List, [], ◌∷◌, ltb,
  leb_ℤ, if◌then◌else◌, length, pos, pos_part, not, ◌||◌, ◌&&◌,
}
use candlepilot.Time.{Datetime, not_after, before, seconds, elapsed}
use candlepilot.Outcome.{Result, value_error, raise_if, ◌>>◌}
use candlepilot.Domain.{Cadence, m5, m15, m30, h1, h4}
use candlepilot.Risk.Permission.{is_listed}
use candlepilot.Replay.{BacktestSpec}

-- `INTERVAL_MILLISECONDS[cadence]`
abbrev pub interval_milliseconds : Cadence → ℕ
interval_milliseconds m5 = 300000
interval_milliseconds m15 = 900000
interval_milliseconds m30 = 1800000
interval_milliseconds h1 = 3600000
interval_milliseconds h4 = 14400000

abbrev pub at_milliseconds : ℕ → Datetime
at_milliseconds ms = record { micros = pos (ms * 1000); aware = true }

-- `int(start.timestamp() * 1000)`, for a start that is not before the epoch.
abbrev pub milliseconds_of : Datetime → ℕ
milliseconds_of t = pos_part t.micros / 1000

-- The loop of `decision_times`, from `cursor` on.
unfoldable pub times_from : ℕ → ℕ → ℕ → Datetime → List Datetime
times_from zero step cursor end = []
times_from (suc fuel) step cursor end =
    let rest = times_from fuel step (cursor + step) end in
    if not_after (at_milliseconds cursor) end then at_milliseconds cursor ∷ rest else []

-- Bars from the start on are at least a step apart, so that there are at most `end / step` of them.
unfoldable pub decision_times : BacktestSpec → Cadence → List Datetime
decision_times spec cadence =
    let step = interval_milliseconds cadence in
    times_from (suc (milliseconds_of spec.end / step)) step
      ((milliseconds_of spec.start / step + 1) * step) spec.end

pub record BacktestEstimate : Type 0 where
  pub decisions_per_model : ℕ
  pub calls_per_model : ℕ
  pub total_calls : ℕ

unfoldable pub count_decisions : BacktestSpec → List Cadence → ℕ
count_decisions spec [] = 0
count_decisions spec (c ∷ cs) =
    length (decision_times spec c) * length spec.symbols + count_decisions spec cs

abbrev pub given_or : Option ℕ → ℕ → ℕ
given_or none n = n
given_or (some m) n = m

-- `a or b`, where 0 is false.
abbrev pub nonzero_or : Option ℕ → ℕ → ℕ
nonzero_or none n = n
nonzero_or (some zero) n = n
nonzero_or (some (suc m)) n = suc m

unfoldable pub estimate : BacktestSpec → BacktestEstimate
estimate spec =
    let decisions = given_or spec.replay_decision_count (count_decisions spec spec.cadences) in
    let calls = nonzero_or spec.replay_call_count decisions in
    record {
      decisions_per_model = decisions;
      calls_per_model = calls;
      total_calls = calls * length spec.providers;
    }

abbrev pub is_empty {ℓ} : {A : Type ℓ} → List A → Bool
is_empty [] = true
is_empty (x ∷ xs) = false

-- `len(set(xs)) != len(xs)`
abbrev pub has_duplicate : List String → Bool
has_duplicate [] = false
has_duplicate (x ∷ xs) = is_listed x xs || has_duplicate xs

abbrev pub any_decision : BacktestSpec → List Cadence → Bool
any_decision spec [] = false
any_decision spec (c ∷ cs) = not (is_empty (decision_times spec c)) || any_decision spec cs

abbrev pub max_backtest_symbols : ℕ
max_backtest_symbols = 5

abbrev pub max_backtest_models : ℕ
max_backtest_models = 4

abbrev pub max_backtest_days : ℕ
max_backtest_days = 31

-- `validate`, at the time `now`.
unfoldable pub validate : BacktestSpec → Datetime → Result (Unit {0})
validate spec now =
    raise_if
      (is_empty spec.symbols
        || (not spec.replays_live_run && ltb max_backtest_symbols (length spec.symbols)))
      (value_error "choose between 1 and 5 symbols")
    >> raise_if (is_empty spec.providers || ltb max_backtest_models (length spec.providers))
        (value_error "choose between 1 and 4 models")
    >> raise_if (has_duplicate spec.providers)
        (value_error "a model cannot be compared against itself")
    >> raise_if (is_empty spec.cadences) (value_error "choose at least one cadence")
    >> raise_if (not spec.start.aware || not spec.end.aware)
        (value_error "the window start and end must include a timezone")
    >> raise_if (not_after spec.end spec.start) (value_error "the window must end after it starts")
    >> raise_if (not (leb_ℤ (elapsed spec.end spec.start) (seconds (max_backtest_days * 86400))))
        (value_error "the window cannot exceed 31 days")
    >> raise_if (before now spec.end) (value_error "the window cannot reach into the future")
    >> raise_if (not spec.replays_live_run && not (any_decision spec spec.cadences))
        (value_error "the window contains no closed decision bar for the selected cadences")
