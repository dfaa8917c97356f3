-- ===== src/Backtest.antt =====
-- The simulated exchange of candlepilot/backtest/engine.py: what it keeps, and what it is asked.
pub mod Book
pub mod Exchange
pub mod Window
pub mod Account
pub mod Summary
pub mod Sound
pub mod Kept
pub mod Settled
pub mod Steps
pub mod Orders
pub mod History
pub mod Exits
pub mod Frame
pub mod Close
pub mod Windowed
pub mod Observed
pub mod Partition
mod Tests
use candlepilot.Prelude.{ℕ, String, Bool, Option, none, some, List, [], ◌∷◌, ltb_ℤ, not, pos}
use candlepilot.Prelude.Assoc.{Dict}
use candlepilot.Decimal.{Decimal, dec, of_int}
use candlepilot.Time.{Datetime}
use candlepilot.Outcome.{Result, value_error, raise_if, ◌>>◌, ok}
use candlepilot.Domain.{Side, OrderPlan}

pub record Candle : Type 0 where
  pub timestamp : Datetime
  pub open_price : Decimal
  pub high : Decimal
  pub low : Decimal
  pub close : Decimal
  pub funding_rate : Decimal

-- `Candle.__post_init__`
unfoldable pub make_candle : Candle → Result Candle
make_candle c =
    raise_if (not c.timestamp.aware) (value_error "candle timestamp must be timezone-aware")
    >> raise_if (ltb_ℤ c.high c.low) (value_error "candle high cannot be below its low")
    >> ok c

pub record BacktestConfig : Type 0 where
  pub initial_equity : Decimal
  pub fee_rate : Decimal
  pub slippage_fraction : Decimal

abbrev pub default_config : BacktestConfig
default_config = record {
  initial_equity = of_int 10000;
  fee_rate = dec 5 4;
  slippage_fraction = dec 5 4;
}

pub data ExitReason : Type 0 where
  stop_loss take_profit model_exit run_end : ExitReason

pub record BacktestTrade : Type 0 where
  pub symbol : String
  pub side : Side
  pub quantity : Decimal
  pub entry_time : Datetime
  pub entry_price : Decimal
  pub exit_time : Datetime
  pub exit_price : Decimal
  pub net_pnl : Decimal
  pub fees : Decimal
  pub funding : Decimal
  pub exit_reason : ExitReason

pub record EquityPoint : Type 0 where
  pub timestamp : Datetime
  pub equity : Decimal

pub record Position : Type 0 where
  pub side : Side
  pub quantity : Decimal
  pub entry_price : Decimal
  pub entry_time : Datetime
  pub leverage : ℕ
  pub stop : Decimal
  pub target : Option Decimal
  pub fees : Decimal
  pub funding : Decimal
  pub carried_pnl : Decimal

pub record PendingOrder : Type 0 where
  pub order : OrderPlan
  pub submitted_at : Datetime
  pub leverage : ℕ

pub record ScheduledOrder : Type 0 where
  pub order : OrderPlan
  pub submitted_at : Datetime
  pub fill_candle : Candle
  pub leverage : ℕ

pub record SimulatedExchange : Type 0 where
  pub config : BacktestConfig
  pub positions : Dict Position
  pub pending : Dict PendingOrder
  pub scheduled : Dict ScheduledOrder
  pub stop_loss_cooldown_until : Dict Datetime
  pub trades : List BacktestTrade
  pub equity_window : List EquityPoint
  pub cash : Decimal
