-- ===== src/Outcomes/Refine.antt =====
-- `evaluate_outcome_from_market`: ambiguous bars are looked at minute by minute.
use candlepilot.Prelude.{
  ℕ, zero, suc, ◌+◌, ◌*◌, ◌/◌, String, Bool, true, false, Option, none, some, List, [], ◌∷◌, ◌++◌,
  ◌&&◌, ltb, if◌then◌else◌, length,
}
use candlepilot.Decimal.{Decimal}
use candlepilot.Time.{Datetime, before, same_instant}
use candlepilot.Outcome.{Result, ok, ◌>>=◌}
use candlepilot.Outcomes.{MarketAnalysis, Kline, Row, AnalysisOutcome, minutes_missing}
use candlepilot.Outcomes.Clock.{
  utc, micros_of, minute, next_complete_5m_start, next_complete_1m_start, five_minute_window,
}
use candlepilot.Outcomes.Evaluate.{
  Refinements, refinement_at, evaluate_outcome, is_ambiguous, is_given, is_neutral,
}

-- `Kline.from_binance`
abbrev pub from_binance : ℕ → Row → Kline
from_binance now_ms row = record {
  open_time = utc (row.open_ms * 1000);
  open_price = row.open_price;
  high = row.high;
  low = row.low;
  closed = ltb row.close_ms now_ms;
}

unfoldable pub parse_closed : ℕ → List Row → List Kline
parse_closed now_ms [] = []
parse_closed now_ms (row ∷ rows) =
    let rest = parse_closed now_ms rows in
    let bar = from_binance now_ms row in if bar.closed then bar ∷ rest else rest

-- `parse_closed_rows(rows, now=now)`
abbrev pub parse_closed_rows : List Row → Datetime → List Kline
parse_closed_rows rows now = parse_closed (micros_of now / 1000) rows

-- The bars open at the start and at the minutes after it.
abbrev pub opens_at : ℕ → List Kline → Bool
opens_at n [] = true
opens_at n (bar ∷ bars) = same_instant bar.open_time (utc n) && opens_at (n + minute) bars

abbrev pub has_five : List Kline → Bool
has_five (a ∷ b ∷ c ∷ d ∷ e ∷ []) = true
has_five _ = false

abbrev pub complete_minute_window : List Kline → Datetime → Bool
complete_minute_window bars start = has_five bars && opens_at (micros_of start) bars

-- `outcome.model_copy(update=…)` with the entry at completion.
abbrev pub with_completion : AnalysisOutcome → Datetime → Option Decimal → AnalysisOutcome
with_completion o entry_at none = record o {
  completion_entry_price = none;
  completion_entry_at = none;
}
with_completion o entry_at (some price) = record o {
  completion_entry_price = some price;
  completion_entry_at = some entry_at;
}

-- The venue's candles of a symbol: interval, start, end and how many at most.
abbrev pub MarketSource : Type 0
MarketSource = String → String → Datetime → Datetime → ℕ → Result (List Row)

-- Where an ambiguous outcome was resolved.
abbrev pub ambiguous_at : AnalysisOutcome → Option Datetime
ambiguous_at o = if is_ambiguous o.status then o.resolved_at else none

module _ (market : MarketSource) (symbol : String) (analysis : MarketAnalysis) (entry_at : Datetime)
    (price : Option Decimal) (end : Datetime) (bars : List Kline) where
  -- What a look at an ambiguous window's minutes leads to: the loop goes on only with a whole one.
  abbrev pub after_minutes :
      AnalysisOutcome
      → List Kline
      → Datetime
      → Result (Option AnalysisOutcome)
      → Result (Option AnalysisOutcome)
  after_minutes o minutes start onward =
      if complete_minute_window minutes start
      then onward
      else ok (
          some
            (record (with_completion o entry_at price) { notes = o.notes ++ minutes_missing ∷ [] }))

  -- The `while True` loop. It gives nothing back only where the fuel runs out.
  unfoldable pub refine : ℕ → Refinements → Result (Option AnalysisOutcome)
  refine zero refinements = ok none
  refine (suc fuel) refinements = evaluate_outcome analysis bars refinements >>= λ o.
      elim (ambiguous_at o) [
        | none ↦ ok (some (with_completion o entry_at price))
        | some t ↦
            let start = five_minute_window t in
            if is_given (refinement_at start refinements)
            then ok (some (with_completion o entry_at price))
            else (market symbol "1m" start (utc (micros_of start + 5 * minute)) 5 >>= λ rows.
                let minutes = parse_closed_rows rows end in
                after_minutes o minutes start (refine fuel ((start, minutes) ∷ refinements)))
      ]

-- The first minute after the completion, if its candle is closed.
abbrev pub first_open : List Kline → Datetime → Option Decimal
first_open [] entry_at = none
first_open (bar ∷ bars) entry_at =
    if same_instant bar.open_time entry_at then some bar.open_price else none

abbrev pub earlier : Datetime → Datetime → Datetime
earlier a b = if before b a then b else a

unfoldable pub completion_price :
    MarketSource → String → Datetime → Datetime → Result (Option Decimal)
completion_price market symbol entry_at end =
    if before entry_at end
    then (market symbol "1m" entry_at (earlier (utc (micros_of entry_at + minute)) end) 1
        >>= λ rows. ok (first_open (parse_closed_rows rows end) entry_at))
    else ok none

unfoldable pub observed_bars : MarketSource → String → Datetime → Datetime → Result (List Kline)
observed_bars market symbol start end =
    if before start end
    then (market symbol "5m" start end 100000 >>= λ rows. ok (parse_closed_rows rows end))
    else ok []

-- A window is refined once, and there are at most as many as bars.
unfoldable pub evaluate_outcome_from_market :
    MarketSource → String → MarketAnalysis → Datetime → Datetime → Result (Option AnalysisOutcome)
evaluate_outcome_from_market market symbol analysis completed end =
    let entry_at = next_complete_1m_start completed in
    if is_neutral analysis.direction
    then (evaluate_outcome analysis [] [] >>= λ o. ok (some o))
    else (completion_price market symbol entry_at end >>= λ price.
        observed_bars market symbol (next_complete_5m_start completed) end >>= λ bars.
        refine market symbol analysis entry_at price end bars (suc (length bars)) [])
