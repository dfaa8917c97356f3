-- ===== src/Replay/Decide.antt =====
-- The body of `run` for one decision: from the provider's intent to the exchange.
use candlepilot.Prelude.{
  ℕ, suc, String, Bool, true, false, Option, none, some, List, [], ◌∷◌, if◌then◌else◌, not, lookup,
}
use candlepilot.Time.{Datetime, before}
use candlepilot.Outcome.{Result, ok, err, value_error, key_error, require, ◌>>=◌}
use candlepilot.Domain.{
  MarketSnapshot, OrderPlan, ExecutionReport, TradeIntent, is_hold, ReportStatus, filled,
}
use candlepilot.Risk.{RiskEvaluation, SymbolRules}
use candlepilot.Risk.Evaluate.{evaluate}
use candlepilot.Backtest.{Candle, SimulatedExchange}
use candlepilot.Backtest.Book.{or_else}
use candlepilot.Backtest.Exchange.{has_pending, execute}
use candlepilot.Backtest.Account.{portfolio_state}
use candlepilot.Replay.{
  BacktestRunner, RunState, BacktestDecision, ReplayInput, ProviderResult, Detail, Fill,
  DecisionOutcome, rejected, hold, traded, pending, already_pending, not_accepted, no_candle_left,
}
use candlepilot.Replay.Progress.{record_usage}
use candlepilot.Replay.Settle.{marks_at, next_candle}
use candlepilot.Replay.Report.{report, note_equity}

pub record BatchItem : Type 0 where
  pub entry : BacktestDecision
  pub snapshot : MarketSnapshot
  pub input : Option ReplayInput

abbrev pub with_outcome : BacktestDecision → DecisionOutcome → Option Detail → BacktestDecision
with_outcome entry outcome detail = record entry { outcome = outcome; detail = detail }

-- The equity noted, then the decision reported.
unfoldable pub conclude : BacktestRunner → RunState → Datetime → BacktestDecision → Result RunState
conclude r st now entry = note_equity r st now >>= λ noted. report r noted entry

abbrev pub is_filled : ReportStatus → Bool
is_filled filled = true
is_filled _ = false

abbrev pub fill_of : OrderPlan → ℕ → ExecutionReport → Fill
fill_of order leverage execution = record {
  status = execution.status;
  price = or_else execution.average_price order.price;
  quantity = order.quantity;
  side = order.side;
  leverage = leverage;
  stop_loss = order.stop_price;
  take_profit = order.take_profit_price;
}

-- `fill_candle is None or fill_candle.timestamp >= self._spec.end`
abbrev pub usable_candle : Option Candle → Datetime → Option Candle
usable_candle none end = none
usable_candle (some c) end = if before c.timestamp end then some c else none

abbrev pub with_exchange : RunState → SimulatedExchange → RunState
with_exchange st e = record st { exchange = e }

-- An accepted order, given to the exchange for its next candle.
abbrev pub place :
    Option Candle
    → BacktestRunner
    → RunState
    → Datetime
    → BacktestDecision
    → OrderPlan
    → ℕ
    → Result RunState
place none r st now entry order leverage =
    report r st (with_outcome entry rejected (some no_candle_left))
place (some candle) r st now entry order leverage =
    execute st.exchange order candle leverage (some now) >>= λ both.
    conclude r (with_exchange st both.0) now (record entry {
      outcome = if is_filled both.1.status then traded else pending;
      fill = some (fill_of order leverage both.1);
    })

-- What becomes of the evaluation.
abbrev pub act_on :
    Option OrderPlan
    → RiskEvaluation
    → BacktestRunner
    → RunState
    → Datetime
    → String
    → BacktestDecision
    → ℕ
    → Result RunState
act_on none ev r st now symbol entry leverage =
    conclude r st now (with_outcome entry rejected (some (not_accepted ev.decision.reason)))
act_on (some order) ev r st now symbol entry leverage =
    if not ev.decision.accepted
    then conclude r st now (with_outcome entry rejected (some (not_accepted ev.decision.reason)))
    else (require (lookup symbol r.series) (key_error symbol) >>= λ candles.
        place (usable_candle (next_candle candles now) r.spec.end) r st now entry order leverage)

abbrev pub rules_for : Option ReplayInput → BacktestRunner → String → Result SymbolRules
rules_for none r symbol = require (lookup symbol r.rules) (key_error symbol)
rules_for (some input) r symbol = ok input.rules

-- The exchange sees a decision that is no HOLD, where the symbol has no order pending.
unfoldable pub trade :
    BacktestRunner
    → RunState
    → Datetime
    → BatchItem
    → BacktestDecision
    → TradeIntent
    → Result RunState
trade r st now item entry intent =
    portfolio_state st.exchange (marks_at r now) (some now) >>= λ both.
    rules_for item.input r item.snapshot.symbol >>= λ rules.
    evaluate r.risk (r.fresh_id st.progress.decisions_done) intent item.snapshot both.1 rules now
    >>= λ ev.
        act_on ev.order ev r (with_exchange st both.0) now item.snapshot.symbol entry
          intent.leverage

abbrev pub counted : RunState → Datetime → ProviderResult → RunState
counted st now result =
    let used = record_usage st.progress result.usage result.is_priced in
    record st {
      progress = record used {
        decisions_done = suc used.decisions_done;
        last_successful_at = some now;
      };
    }

unfoldable pub decide :
    BacktestRunner → RunState → Datetime → BatchItem → ProviderResult → Result RunState
decide r st now item result =
    let next_state = counted st now result in
    let entry = record item.entry { action = some result.intent.action } in
    if is_hold result.intent.action
    then conclude r next_state now (with_outcome entry hold none)
    else if has_pending next_state.exchange item.snapshot.symbol
    then conclude r next_state now (with_outcome entry rejected (some already_pending))
    else trade r next_state now item entry result.intent

-- `for item, result in zip(batch_items, results, strict=True)`
unfoldable pub decide_all :
    BacktestRunner → RunState → Datetime → List BatchItem → List ProviderResult → Result RunState
decide_all r st now [] [] = ok st
decide_all r st now (item ∷ items) (result ∷ results) =
    decide r st now item result >>= λ after. decide_all r after now items results
decide_all r st now _ _ = err (value_error "zip() argument lengths differ")
