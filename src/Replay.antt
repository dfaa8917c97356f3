-- ===== src/Replay.antt =====
-- candlepilot/backtest/runner.py: a window replayed for one model, against the risk policy.
pub mod Spec
pub mod Progress
pub mod Settle
pub mod Report
pub mod Decide
pub mod Schedule
pub mod Batch
pub mod Run
pub mod Driven
pub mod Ended
pub mod Attempts
pub mod Times
mod Tests
use candlepilot.Prelude.{ℕ, String, Bool, Option, List}
use candlepilot.Prelude.Assoc.{Dict}
use candlepilot.Decimal.{Decimal}
use candlepilot.Time.{Datetime}
use candlepilot.Outcome.{Error, Result}
use candlepilot.Domain.{
  Cadence, MarketSnapshot, PortfolioState, TradeIntent, TradeAction, OrderSide, ReportStatus,
}
use candlepilot.Risk.{AggressiveRiskPolicy, SymbolRules, Reason}
use candlepilot.Backtest.{BacktestConfig, Candle, SimulatedExchange, EquityPoint}
use candlepilot.Backtest.Summary.{BacktestResult}

-- `replay_live_run_id` counts only by whether it is given.
pub record BacktestSpec : Type 0 where
  pub symbols : List String
  pub cadences : List Cadence
  pub start : Datetime
  pub end : Datetime
  pub providers : List String
  pub config : BacktestConfig
  pub replays_live_run : Bool
  pub replay_decision_count : Option ℕ
  pub replay_call_count : Option ℕ

-- The token counts that one provider call reports.
pub record Usage : Type 0 where
  pub physical_call_id : Option String
  pub input_tokens : Option ℕ
  pub cached_input_tokens : Option ℕ
  pub cache_read_input_tokens : Option ℕ
  pub cache_creation_input_tokens : Option ℕ
  pub output_tokens : Option ℕ
  pub total_tokens : Option ℕ

-- A provider's result; of its cost only whether it is known.
pub record ProviderResult : Type 0 where
  pub intent : TradeIntent
  pub usage : Usage
  pub is_priced : Bool

pub record BacktestLiveStats : Type 0 where
  pub equity : Decimal
  pub unrealized_pnl : Decimal
  pub total_return : Decimal
  pub max_drawdown : Decimal
  pub win_rate : Decimal
  pub trade_count : ℕ

pub data DecisionOutcome : Type 0 where
  traded pending rejected hold no_snapshot call_failed : DecisionOutcome

-- Why a decision came to nothing.
pub data Detail : Type 0 where
  snapshot_failed : Error → Detail
  already_pending : Detail
  not_accepted : Reason → Detail
  no_candle_left : Detail
  unavailable : ℕ → Error → Detail

pub record Fill : Type 0 where
  pub status : ReportStatus
  pub price : Option Decimal
  pub quantity : Decimal
  pub side : OrderSide
  pub leverage : ℕ
  pub stop_loss : Option Decimal
  pub take_profit : Option Decimal

pub record BacktestDecision : Type 0 where
  pub decided_at : Datetime
  pub symbol : String
  pub cadence : Cadence
  pub outcome : DecisionOutcome
  pub action : Option TradeAction
  pub detail : Option Detail
  pub fill : Option Fill
  pub attempts : ℕ

-- The counters of a run; its clock, its costs and its durations are left out.
pub record ModelRun : Type 0 where
  pub decisions_done : ℕ
  pub decisions_total : ℕ
  pub calls_failed : ℕ
  pub usage_calls : ℕ
  pub priced_calls : ℕ
  pub input_tokens : ℕ
  pub cached_input_tokens : ℕ
  pub cache_creation_input_tokens : ℕ
  pub output_tokens : ℕ
  pub total_tokens : ℕ
  pub physical_calls_seen : List String
  pub error : Option Detail
  pub provider_failed : Bool
  pub last_successful_at : Option Datetime
  pub live_result : Option BacktestLiveStats

-- One recorded input, with the key that it stands under.
pub record ReplayInput : Type 0 where
  pub symbol : String
  pub cadence : Cadence
  pub decided_at : Datetime
  pub batch_id : String
  pub snapshot : MarketSnapshot
  pub rules : SymbolRules

-- A runner. `series` holds the 5m candles, oldest first; `build` is the snapshot builder of a
-- symbol, `generate n` the provider's answer to the n-th call, and `fresh_id n` the n-th order id.
pub record BacktestRunner : Type 0 where
  pub spec : BacktestSpec
  pub series : Dict (List Candle)
  pub rules : Dict SymbolRules
  pub risk : AggressiveRiskPolicy
  pub replay_snapshots : List ReplayInput
  pub initial_portfolio : Option PortfolioState
  pub build : String → Cadence → Datetime → Result MarketSnapshot
  pub fresh_id : ℕ → String
  pub is_retryable : Bool
  pub generate : ℕ → List MarketSnapshot → PortfolioState → Result (List ProviderResult)

-- The local variables of `run`, the calls made and what was reported.
pub record RunState : Type 0 where
  pub exchange : SimulatedExchange
  pub last_success_exchange : SimulatedExchange
  pub settled_next : Dict ℕ
  pub settled_through : Option Datetime
  pub curve : List EquityPoint
  pub progress : ModelRun
  pub calls : ℕ
  pub reported : List BacktestDecision
