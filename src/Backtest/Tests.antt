-- ===== src/Backtest/Tests.antt =====
-- A run of the exchange over a few candles, and its theorems at it.
use candlepilot.Prelude.{
  ℕ, String, true, false, Option, none, some, [], ◌∷◌, ◌≡◌, refl, pos, lookup, insert, erase, ◌+ℤ◌,
  ◌-ℤ◌, arith,
}
use candlepilot.Decimal.{
  Decimal, of_int, add, sub, mul, quotient, round, round_ratio, ulp, half_even,
}
use candlepilot.Time.{Datetime, seconds}
use candlepilot.Outcome.{Result, ok, err, div}
use candlepilot.Outcome.Returns.{Returns}
use candlepilot.Domain.{long, OrderPlan, OrderType, market, limit, buy, ExecutionReport}
use candlepilot.Backtest.{Candle, default_config, Position, PendingOrder, SimulatedExchange}
use candlepilot.Backtest.Book.{
  fill, fill_price, slipped, reduce, open_or_add, filled_report, book, trade_of, rest_of, or_kept,
}
use candlepilot.Backtest.Exchange.{
  new_report, execute, execute_at_candle, settle_candle, touched, close_all,
}
use candlepilot.Backtest.Account.{fresh, start, portfolio_state}
use candlepilot.Backtest.Summary.{summarize}
use candlepilot.Backtest.Sound.{Sound}
use candlepilot.Backtest.Steps.{executed, settled, Reachable, initial, later, reachable-Sound}
use candlepilot.Backtest.Orders.{Reported, execute-Reported}
use candlepilot.Backtest.History.{Adds}
use candlepilot.Backtest.Exits.{
  StoppedOut, NoTarget, settle_candle-StoppedOut, settle_candle-NoTarget,
}
use candlepilot.Backtest.Frame.{SameFor, settle_candle-SameFor}
use candlepilot.Backtest.Close.{Ended, close_all-Ended}
use candlepilot.Backtest.Observed.{Observed, portfolio_state-Observed}
use candlepilot.Backtest.Partition.{Strict, symbols_of_results, counts_of, summarize-Partition}

abbrev at : ℕ → Datetime
at t = record { micros = seconds t; aware = true }

-- `r`'s value, or d.
abbrev got {ℓ} : {A : Type ℓ} → A → Result A → A
got d (err e) = d
got d (ok a) = a

abbrev bar : ℕ → ℕ → ℕ → ℕ → ℕ → Candle
bar t o h l c = record {
  timestamp = at t;
  open_price = of_int o;
  high = of_int h;
  low = of_int l;
  close = of_int c;
  funding_rate = pos 0;
}

abbrev order : String → OrderType → Option Decimal → OrderPlan
order symbol type price = record {
  client_order_id = "cp-1";
  symbol = symbol;
  side = buy;
  quantity = of_int 2;
  order_type = type;
  price = price;
  stop_price = some (of_int 95);
  take_profit_price = some (of_int 110);
  reduce_only = false;
}

abbrev empty : SimulatedExchange
empty = fresh default_config

-- A market order fills at the open, slipped.
abbrev bought : SimulatedExchange
bought =
    (got (empty, new_report (order "BTCUSDT" market none) (at 0))
      (execute empty (order "BTCUSDT" market none) (bar 0 100 105 99 104) 2 none)).0

abbrev bought_report : ExecutionReport
bought_report =
    (got (empty, new_report (order "BTCUSDT" market none) (at 0))
      (execute empty (order "BTCUSDT" market none) (bar 0 100 105 99 104) 2 none)).1

runs_bought :
    execute empty (order "BTCUSDT" market none) (bar 0 100 105 99 104) 2 none
    ≡ ok (bought, bought_report)
unfolding execute execute_at_candle fill fill_price slipped reduce open_or_add filled_report add sub
    mul quotient round round_ratio ulp half_even ◌+ℤ◌ ◌-ℤ◌ lookup insert
runs_bought = refl

-- One candle that touches the stop and the target.
abbrev wide : Candle
wide = bar 300 100 112 94 105

abbrev stopped_out : SimulatedExchange
stopped_out = got empty (settle_candle bought "BTCUSDT" wide)

runs_stopped : settle_candle bought "BTCUSDT" wide ≡ ok stopped_out
unfolding settle_candle touched book trade_of rest_of div execute execute_at_candle fill fill_price
    slipped reduce open_or_add filled_report add sub mul quotient round round_ratio ulp half_even
    ◌+ℤ◌ ◌-ℤ◌ lookup insert erase
runs_stopped = refl

path : Reachable empty stopped_out
path =
    later bought stopped_out
      (later empty bought initial (
        executed (order "BTCUSDT" market none) (bar 0 100 105 99 104) 2 none bought_report
          (omega arith) runs_bought))
      (settled "BTCUSDT" wide runs_stopped)

reachable-Sound_example : Sound [] stopped_out
unfolding start
reachable-Sound_example = reachable-Sound default_config none none empty stopped_out tt tt refl path

bought-Sound : Sound [] bought
unfolding start
bought-Sound = reachable-Sound default_config none none empty bought tt tt refl (
    later empty bought initial (
      executed (order "BTCUSDT" market none) (bar 0 100 105 99 104) 2 none bought_report
        (omega arith) runs_bought))

execute-Reported_example :
    Returns
      (λ (both : SimulatedExchange × ExecutionReport).
        Reported (order "BTCUSDT" limit (some (of_int 101))) (bar 0 100 105 99 104) none both.1)
      (execute empty (order "BTCUSDT" limit (some (of_int 101))) (bar 0 100 105 99 104) 2 none)
execute-Reported_example =
    execute-Reported empty (order "BTCUSDT" limit (some (of_int 101))) (bar 0 100 105 99 104) 2 none

abbrev bought_position : Position
bought_position = or_kept (lookup "BTCUSDT" bought.positions) (record {
  side = long;
  quantity = pos 0;
  entry_price = pos 0;
  entry_time = at 0;
  leverage = 1;
  stop = pos 0;
  target = none;
  fees = pos 0;
  funding = pos 0;
  carried_pnl = pos 0;
})

settle_candle-StoppedOut_example :
    Returns (StoppedOut bought "BTCUSDT" bought_position) (settle_candle bought "BTCUSDT" wide)
unfolding execute execute_at_candle fill fill_price slipped reduce open_or_add filled_report add sub
    mul quotient round round_ratio ulp half_even ◌+ℤ◌ ◌-ℤ◌ lookup insert
settle_candle-StoppedOut_example =
    settle_candle-StoppedOut bought "BTCUSDT" wide bought_position refl refl

-- A limit below the open rests, and a later candle fills it inside its range.
abbrev resting_order : PendingOrder
resting_order = record {
  order = order "BTCUSDT" limit (some (of_int 98));
  submitted_at = at 0;
  leverage = 2;
}

abbrev resting : SimulatedExchange
resting = record empty { pending = ("BTCUSDT", resting_order) ∷ [] }

settle_candle-NoTarget_example :
    Returns (Adds NoTarget []) (settle_candle resting "BTCUSDT" (bar 300 100 112 97 105))
unfolding lookup
settle_candle-NoTarget_example =
    settle_candle-NoTarget resting "BTCUSDT" (bar 300 100 112 97 105) resting_order (of_int 98) refl
      refl refl refl

settle_candle-SameFor_example :
    Returns (SameFor "ETHUSDT" bought) (settle_candle bought "BTCUSDT" wide)
settle_candle-SameFor_example =
    settle_candle-SameFor [] bought "BTCUSDT" "ETHUSDT" wide bought-Sound refl

close_all-Ended_example :
    (after : SimulatedExchange) × (cancelled : ℕ) × (close_all bought
        (("BTCUSDT", of_int 104) ∷ [])
        (at 600)
      ≡ ok (after, cancelled))
    × Ended bought after cancelled
unfolding execute execute_at_candle fill fill_price slipped reduce open_or_add filled_report add sub
    mul quotient round round_ratio ulp half_even ◌+ℤ◌ ◌-ℤ◌ lookup insert
close_all-Ended_example =
    close_all-Ended [] bought (("BTCUSDT", of_int 104) ∷ []) (at 600) bought-Sound (refl, tt)

abbrev observed_before : SimulatedExchange
observed_before = record bought {
  equity_window =
      record { timestamp = at 0; equity = of_int 10000 }
      ∷ record { timestamp = at 300; equity = of_int 10010 }
      ∷ [];
}

portfolio_state-Observed_example :
    Returns
      (Observed (at 86700) observed_before)
      (portfolio_state observed_before (("BTCUSDT", of_int 104) ∷ []) (some (at 86700)))
portfolio_state-Observed_example =
    portfolio_state-Observed observed_before (("BTCUSDT", of_int 104) ∷ []) (at 86700) (refl, tt)

summarize-Partition_example :
    let result = summarize default_config stopped_out.trades [] 0 in
    Strict (symbols_of_results result.symbol_results)
    × (counts_of result.symbol_results ≡ result.trade_count)
summarize-Partition_example = summarize-Partition default_config stopped_out.trades [] 0
