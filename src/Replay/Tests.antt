-- ===== src/Replay/Tests.antt =====
-- A replay of one symbol, and the theorems at it.
use candlepilot.Prelude.{
  ℕ, zero, suc, ◌*◌, String, true, false, none, some, List, [], ◌∷◌, ◌≡◌, refl, pos, All,
}
use candlepilot.Decimal.{dec, of_int}
use candlepilot.Time.{Datetime, seconds}
use candlepilot.Outcome.{Result, ok, err, request_error, assertion_error}
use candlepilot.Outcome.Returns.{Returns}
use candlepilot.Domain.{
  Cadence, m5, TradeAction, open_long, market, off, TradeIntent, MarketSnapshot, PortfolioState,
}
use candlepilot.Backtest.{Candle, default_config}
use candlepilot.Replay.{BacktestSpec, BacktestRunner, ProviderResult, Usage}
use candlepilot.Replay.Spec.{decision_times, at_milliseconds, times_from}
use candlepilot.Replay.Batch.{attempt, new_decision}
use candlepilot.Replay.Decide.{BatchItem}
use candlepilot.Replay.Run.{run}
use candlepilot.Replay.Ended.{Finished, run-Finished}
use candlepilot.Replay.Attempts.{Asked, attempt-Asked}
use candlepilot.Replay.Times.{IsBar, Lists, decision_times-IsBar, decision_times-Lists}

abbrev at : ℕ → Datetime
at t = record { micros = seconds t; aware = true }

abbrev spec : BacktestSpec
spec = record {
  symbols = "BTCUSDT" ∷ [];
  cadences = m5 ∷ [];
  start = at 1000;
  end = at 1800;
  providers = "local" ∷ [];
  config = default_config;
  replays_live_run = false;
  replay_decision_count = none;
  replay_call_count = none;
}

-- The bars after 1000 s and up to 1800 s close at 1200, 1500 and 1800 s.
times : decision_times spec m5 ≡ at 1200 ∷ at 1500 ∷ at 1800 ∷ []
unfolding decision_times times_from
times = refl

decision_times-IsBar_example : All (IsBar 300000 (at 1000) (at 1800)) (decision_times spec m5)
decision_times-IsBar_example = decision_times-IsBar spec m5 1000000000 refl

decision_times-Lists_example : Lists (at_milliseconds (5 * 300000)) (decision_times spec m5)
decision_times-Lists_example = decision_times-Lists spec m5 1000000000 5 refl refl refl

abbrev bar : ℕ → ℕ → Candle
bar t price = record {
  timestamp = at t;
  open_price = of_int price;
  high = of_int (suc price);
  low = of_int 98;
  close = of_int price;
  funding_rate = pos 0;
}

abbrev snapshot : String → Cadence → Datetime → MarketSnapshot
snapshot symbol cadence t = record {
  symbol = symbol;
  cadence = cadence;
  timestamp = t;
  mark_price = of_int 100;
  bid = dec 999 1;
  ask = dec 1001 1;
  quote_volume_24h = of_int 1000000;
  funding_rate = of_int 0;
  features = [];
}

abbrev intent : TradeAction → TradeIntent
intent action = record {
  symbol = "BTCUSDT";
  cadence = m5;
  action = action;
  confidence = dec 7 1;
  leverage = 2;
  risk_fraction = dec 1 2;
  order_type = market;
  entry_price = none;
  stop_loss = some (of_int 95);
  take_profit = some (of_int 110);
  ttl_seconds = 60;
  structure_v1 = false;
  setup_type = none;
  anchor_timeframe = none;
  anchor_price = none;
  trigger_type = none;
  trigger_price = none;
  invalidation_type = none;
  invalidation_level = none;
  target_type = none;
  rationale = "";
}

abbrev no_usage : Usage
no_usage = record {
  physical_call_id = none;
  input_tokens = some 10;
  cached_input_tokens = none;
  cache_read_input_tokens = none;
  cache_creation_input_tokens = none;
  output_tokens = some 5;
  total_tokens = none;
}

-- The first call fails; the others open a long position or hold.
abbrev generate : ℕ → List MarketSnapshot → PortfolioState → Result (List ProviderResult)
generate zero snapshots portfolio = err (request_error "timeout")
generate (suc zero) snapshots portfolio =
    ok (record { intent = intent open_long; usage = no_usage; is_priced = true } ∷ [])
generate (suc (suc n)) snapshots portfolio =
    ok (record { intent = intent TradeAction.hold; usage = no_usage; is_priced = true } ∷ [])

abbrev runner : BacktestRunner
runner = record {
  spec = spec;
  series = ("BTCUSDT", bar 900 100 ∷ bar 1200 100 ∷ bar 1500 103 ∷ bar 1800 104 ∷ []) ∷ [];
  rules =
      (
        "BTCUSDT",
        record {
          quantity_step = dec 1 3;
          min_quantity = dec 1 3;
          min_notional = of_int 5;
          tick_size = dec 1 1;
          max_quantity = none;
          market_quantity_step = none;
          market_min_quantity = none;
          market_max_quantity = none;
        },
      )
      ∷ [];
  risk = record {
    max_leverage = 10;
    max_risk_fraction = dec 1 2;
    max_portfolio_risk_fraction = dec 4 2;
    max_margin_fraction = dec 80 2;
    max_symbol_margin_fraction = dec 10 2;
    daily_loss_fraction = dec 5 2;
    minimum_reward_risk_ratio = dec 115 2;
    fee_fraction = dec 5 4;
    slippage_fraction = dec 1 3;
    max_snapshot_age_seconds = 75;
    require_take_profit = false;
    structure_gate_mode = off;
  };
  replay_snapshots = [];
  initial_portfolio = none;
  build = λ symbol cadence t. ok (snapshot symbol cadence t);
  fresh_id = λ n. "cp";
  is_retryable = true;
  generate = generate;
}

run-Finished_example : Returns (Finished [] runner) (run runner)
run-Finished_example = run-Finished runner tt tt

abbrev portfolio : PortfolioState
portfolio = record {
  equity = of_int 10000;
  available_balance = of_int 10000;
  pnl_24h = pos 0;
  open_positions = 0;
  margin_used = pos 0;
  positions = [];
  pending_entry_symbols = [];
  stop_loss_cooldown_until = [];
}

abbrev item : BatchItem
item = record {
  entry = new_decision (record { decided_at = at 1200; symbol = "BTCUSDT"; cadence = m5 });
  snapshot = snapshot "BTCUSDT" m5 (at 1200);
  input = none;
}

attempt-Asked_example :
    Asked runner
      (item ∷ [])
      portfolio
      3
      0
      0
      (attempt 3 runner (item ∷ []) portfolio 0 0 assertion_error)
attempt-Asked_example = attempt-Asked runner (item ∷ []) portfolio 3 0 0 assertion_error
