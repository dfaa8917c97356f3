-- ===== src/Rejected/Tests.antt =====
-- A limit plan at 100, and the theorems at it.
use candlepilot.Prelude.{
  false, Bool, ◌+ℤ◌, ℕ, ◌+◌, ◌*◌, ◌≡◌, refl, true, Option, none, some, List, [], ◌∷◌, str_eq,
  if◌then◌else◌,
}
use candlepilot.Decimal.{of_int}
use candlepilot.Time.{Datetime}
use candlepilot.Outcome.{Result, ok, err}
use candlepilot.Outcome.Returns.{Returns}
use candlepilot.Domain.{long, limit}
use candlepilot.Outcomes.{Row, Kline}
use candlepilot.Outcomes.Clock.{utc, minute}
use candlepilot.Outcomes.Evaluate.{touches, refinement_at}
use candlepilot.Outcomes.Refine.{MarketSource, parse_closed_rows, parse_closed}
use candlepilot.Outcomes.Ended.{IsGiven}
use candlepilot.Rejected.{
  RejectedDecisionPlan, RejectedDecisionOutcome, RejectedStatus, pre_trade, mark_price, ambiguous,
  take_profit_hit, post_init,
}
use candlepilot.Rejected.Evaluate.{
  evaluate_rejected_decision, rejected_from, rejected_each, rejected_bar, unentered_bar, active_bar,
}
use candlepilot.Rejected.Market.{
  evaluate_rejected_decision_from_market, refine_rejected, opens_one, next_complete_minute,
  next_five_minute_boundary,
}
use candlepilot.Rejected.Sure.{Gives, Told}
use candlepilot.Rejected.Whole.{evaluate_rejected_decision-Told}
use candlepilot.Rejected.Ended.{evaluate_rejected_decision_from_market-IsGiven}

abbrev at : ℕ → Datetime
at m = utc (m * minute)

abbrev plan : RejectedDecisionPlan
plan = record {
  direction = long;
  order_type = limit;
  entry_price = some (of_int 100);
  stop_loss = of_int 95;
  take_profit = of_int 105;
  price_source = pre_trade;
  evaluated_at = at 5;
  ttl_seconds = 600;
}

abbrev row : ℕ → ℕ → ℕ → ℕ → Row
row at minutes low high = record {
  open_ms = at * 60000;
  open_price = of_int 100;
  high = of_int high;
  low = of_int low;
  close_ms = (at + minutes) * 60000;
}

abbrev candles : List Row
candles = row 5 5 99 106 ∷ row 10 5 102 104 ∷ []

abbrev minutes : List Row
minutes =
    row 5 1 99 101 ∷ row 6 1 101 104 ∷ row 7 1 102 106 ∷ row 8 1 103 106 ∷ row 9 1 102 104 ∷ []

abbrev venue : MarketSource
venue symbol interval start end max_candles =
    if str_eq interval "5m" then ok candles else ok minutes

abbrev bars : List Kline
bars = parse_closed_rows candles (at 20)

abbrev status_in : Result RejectedDecisionOutcome → Option RejectedStatus
status_in (ok o) = some o.status
status_in (err e) = none

abbrev status_of : Result (Option RejectedDecisionOutcome) → Option RejectedStatus
status_of (ok (some o)) = some o.status
status_of _ = none

order_open :
    status_in (evaluate_rejected_decision plan (at 5) mark_price bars [] none) ≡ some ambiguous
unfolding evaluate_rejected_decision rejected_from rejected_each rejected_bar unentered_bar
    parse_closed refinement_at ◌+ℤ◌
order_open = refl

order_found :
    status_of (evaluate_rejected_decision_from_market (some venue) venue "BTCUSDT" plan (at 20))
    ≡ some take_profit_hit
unfolding evaluate_rejected_decision_from_market refine_rejected evaluate_rejected_decision
    rejected_from rejected_each rejected_bar unentered_bar active_bar parse_closed refinement_at
    opens_one next_complete_minute next_five_minute_boundary ◌+ℤ◌
order_found = refl

abbrev Passes103 : Bool → Kline → Type 0
Passes103 is_minute bar = (is_minute ≡ false) × (touches bar (of_int 103) ≡ true)

evaluate_rejected_decision-Told_example :
    Gives
      (Told Passes103 plan none)
      (evaluate_rejected_decision plan (at 5) mark_price bars [] none)
unfolding parse_closed post_init
evaluate_rejected_decision-Told_example =
    evaluate_rejected_decision-Told Passes103 plan (at 5) mark_price bars [] none refl
      ((refl, refl), ((refl, refl), tt)) tt

evaluate_rejected_decision_from_market-IsGiven_example :
    Returns IsGiven
      (evaluate_rejected_decision_from_market (some venue) venue "BTCUSDT" plan (at 20))
evaluate_rejected_decision_from_market-IsGiven_example =
    evaluate_rejected_decision_from_market-IsGiven (some venue) venue "BTCUSDT" plan (at 20)
