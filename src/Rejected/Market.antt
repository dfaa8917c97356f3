-- ===== src/Rejected/Market.antt =====
-- `evaluate_rejected_decision_from_market`.
use candlepilot.Prelude.{
  ℕ, zero, suc, ◌+◌, ◌-◌, ◌*◌, ◌%◌, ◌==◌, String, Bool, true, false, Option, none, some, List, [],
  ◌∷◌, ◌++◌, ◌||◌, not, if◌then◌else◌, length,
}
use candlepilot.Time.{Datetime, before, same_instant}
use candlepilot.Outcome.{Result, ok, ◌>>=◌}
use candlepilot.Outcomes.{Kline}
use candlepilot.Outcomes.Clock.{utc, micros_of, minute, floor_minute, minute_of}
use candlepilot.Outcomes.Evaluate.{Refinements, refinement_at, is_given}
use candlepilot.Outcomes.Refine.{MarketSource, parse_closed_rows, complete_minute_window, earlier}
use candlepilot.Rejected.{
  RejectedStatus, ambiguous, PriceBasis, mark_price, contract_price, RejectedDecisionPlan,
  RejectedDecisionOutcome,
}
use candlepilot.Rejected.Evaluate.{evaluate_rejected_decision}

unfoldable pub next_complete_minute : Datetime → Datetime
next_complete_minute value =
    let n = micros_of value in
    let at = floor_minute n in if n == at then utc at else utc (at + minute)

unfoldable pub next_five_minute_boundary : Datetime → Datetime
next_five_minute_boundary value =
    let n = floor_minute (micros_of value) in
    let remainder = minute_of n % 5 in
    if remainder == 0 then utc n else utc (n + (5 - remainder) * minute)

-- The candles of mark prices, where the market has them, or else those of the contract.
abbrev pub source_of : Option MarketSource → MarketSource → MarketSource × PriceBasis
source_of none klines = (klines, contract_price)
source_of (some mark) klines = (mark, mark_price)

-- The candles between two times, if there is time between them.
abbrev pub candles_between :
    MarketSource → String → String → Datetime → Datetime → ℕ → Datetime → Result (List Kline)
candles_between source symbol interval start stop max_candles end =
    if before start stop
    then (source symbol interval start stop max_candles >>= λ rows. ok (parse_closed_rows rows end))
    else ok []

-- `{bar.open_time: [bar] for bar in prefix}`, the latest entry first.
abbrev pub by_itself : List Kline → Refinements → Refinements
by_itself [] refinements = refinements
by_itself (bar ∷ bars) refinements = by_itself bars ((bar.open_time, bar ∷ []) ∷ refinements)

abbrev pub is_ambiguous : RejectedStatus → Bool
is_ambiguous ambiguous = true
is_ambiguous _ = false

-- `t in main_times`
unfoldable pub opens_one : Datetime → List Kline → Bool
opens_one t [] = false
opens_one t (bar ∷ bars) = same_instant bar.open_time t || opens_one t bars

-- The window to look at next, if any.
abbrev pub window_to_refine : RejectedDecisionOutcome → List Kline → Refinements → Option Datetime
window_to_refine o main refinements = elim (if is_ambiguous o.status then o.resolved_at else none) [
  | none ↦ none
  | some t ↦
      if not (opens_one t main) || is_given (refinement_at t refinements) then none else some t
]

module _ (source : MarketSource) (basis : PriceBasis) (symbol : String)
    (plan : RejectedDecisionPlan) (start end : Datetime) (bars main : List Kline) where
  -- The `while True` loop. It gives nothing back only where the fuel runs out.
  unfoldable pub refine_rejected : ℕ → Refinements → Result (Option RejectedDecisionOutcome)
  refine_rejected zero refinements = ok none
  refine_rejected (suc fuel) refinements =
      evaluate_rejected_decision plan start basis bars refinements (some end) >>= λ o.
      elim (window_to_refine o main refinements) [
        | none ↦ ok (some o)
        | some window ↦
            (source symbol "1m" window (utc (micros_of window + 5 * minute)) 5 >>= λ rows.
            let minutes = parse_closed_rows rows end in
            let onward = refine_rejected fuel ((window, minutes) ∷ refinements) in
            if complete_minute_window minutes window
            then onward
            else ok (some (record o { minutes_missing = true })))
      ]

-- A window is refined once, and there are at most as many as bars in `main`.
unfoldable pub evaluate_rejected_decision_from_market :
    Option MarketSource
    → MarketSource
    → String
    → RejectedDecisionPlan
    → Datetime
    → Result (Option RejectedDecisionOutcome)
evaluate_rejected_decision_from_market mark klines symbol plan end =
    let start = next_complete_minute plan.evaluated_at in
    let boundary = next_five_minute_boundary start in
    let source = source_of mark klines in
    candles_between source.0 symbol "1m" start (earlier boundary end) 5 end >>= λ prefix.
    candles_between source.0 symbol "5m" boundary end 100000 end >>= λ main.
    refine_rejected source.0 source.1 symbol plan start end (prefix ++ main) main
      (suc (length main)) (by_itself prefix [])
