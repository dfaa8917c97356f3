-- ===== src/Outcomes/Tests.antt =====
-- A plan whose first candle leaves the order open, and the theorems at it.
use candlepilot.Prelude.{
  ℕ, ◌+◌, ◌*◌, ◌≡◌, refl, true, Option, none, some, List, [], ◌∷◌, str_eq, if◌then◌else◌,
}
use candlepilot.Decimal.{of_int}
use candlepilot.Time.{Datetime}
use candlepilot.Outcome.{Result, ok, err}
use candlepilot.Outcome.Returns.{Returns}
use candlepilot.Outcomes.{
  EntryPlan, MarketAnalysis, long, Row, Kline, AnalysisOutcome, OutcomeStatus, ambiguous,
  target1_partial,
}
use candlepilot.Outcomes.Clock.{
  utc, minute, next_complete_5m_start, next_complete_1m_start, five_minute_window,
}
use candlepilot.Outcomes.Evaluate.{
  evaluate_outcome, touches, evaluate_from, evaluate_each, refinement_at, evaluate_bar, waiting_bar,
  entered_bar, partial_bar,
}
use candlepilot.Outcomes.Refine.{
  MarketSource, evaluate_outcome_from_market, parse_closed_rows, parse_closed, refine,
  completion_price, observed_bars,
}
use candlepilot.Outcomes.Fair.{Decided, evaluate_outcome-Decided}
use candlepilot.Outcomes.Ended.{IsGiven, evaluate_outcome_from_market-IsGiven}
use candlepilot.Outcomes.Start.{FirstAfter, next_complete_5m_start-FirstAfter}

abbrev plan : EntryPlan
plan = record { entry = of_int 100; stop = of_int 95; target1 = of_int 105; target2 = of_int 110 }

abbrev analysis : MarketAnalysis
analysis = record { direction = long; entry_plan = some plan }

-- A candle of the minutes that begin at a minute.
abbrev row : ℕ → ℕ → ℕ → ℕ → Row
row at minutes low high = record {
  open_ms = at * 60000;
  open_price = of_int 100;
  high = of_int high;
  low = of_int low;
  close_ms = (at + minutes) * 60000;
}

-- The candles from the fifth minute on, and those of its five minutes.
abbrev candles : List Row
candles = row 5 5 99 106 ∷ row 10 5 102 109 ∷ []

abbrev minutes : List Row
minutes =
    row 5 1 99 101 ∷ row 6 1 101 104 ∷ row 7 1 102 106 ∷ row 8 1 103 106 ∷ row 9 1 102 104 ∷ []

abbrev venue : MarketSource
venue symbol interval start end limit = if str_eq interval "5m" then ok candles else ok minutes

abbrev at : ℕ → Datetime
at m = utc (m * minute)

abbrev status_of : Result (Option AnalysisOutcome) → Option OutcomeStatus
status_of (ok (some o)) = some o.status
status_of _ = none

abbrev bars : List Kline
bars = parse_closed_rows candles (at 20)

abbrev status_in : Result AnalysisOutcome → Option OutcomeStatus
status_in (ok o) = some o.status
status_in (err e) = none

-- One candle touches the entry and the first target.
order_open : status_in (evaluate_outcome analysis bars []) ≡ some ambiguous
unfolding evaluate_outcome evaluate_from parse_closed evaluate_each refinement_at evaluate_bar
    waiting_bar
order_open = refl

-- Its minutes touch them one after the other.
order_found :
    status_of (evaluate_outcome_from_market venue "BTCUSDT" analysis (at 3) (at 20))
    ≡ some target1_partial
unfolding evaluate_outcome_from_market completion_price next_complete_1m_start observed_bars
    next_complete_5m_start refine evaluate_outcome evaluate_from parse_closed evaluate_each
    refinement_at evaluate_bar waiting_bar five_minute_window entered_bar partial_bar
order_found = refl

evaluate_outcome_from_market-IsGiven_example :
    Returns IsGiven (evaluate_outcome_from_market venue "BTCUSDT" analysis (at 3) (at 20))
evaluate_outcome_from_market-IsGiven_example =
    evaluate_outcome_from_market-IsGiven venue "BTCUSDT" analysis (at 3) (at 20)

abbrev Passes103 : Kline → Type 0
Passes103 bar = touches bar (of_int 103) ≡ true

evaluate_outcome-Decided_example :
    Returns (Decided Passes103 (some plan)) (evaluate_outcome analysis bars [])
unfolding parse_closed
evaluate_outcome-Decided_example =
    evaluate_outcome-Decided Passes103 analysis bars [] (refl, (refl, tt)) tt

next_complete_5m_start-FirstAfter_example :
    FirstAfter (5 * minute) 3540000001 (next_complete_5m_start (utc 3540000001))
next_complete_5m_start-FirstAfter_example = next_complete_5m_start-FirstAfter (utc 3540000001)
