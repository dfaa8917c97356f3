-- ===== src/Risk/Inputs.antt =====
-- Policies, intents, snapshots and portfolios, and the evaluations that are expected of them.
use candlepilot.Domain.{sell, StructureCheck}
use candlepilot.Risk.{because, plain_decision, tighter_stop_preserved}
use candlepilot.Prelude.{ℕ, String, true, false, none, some, [], ◌∷◌}
use candlepilot.Decimal.{dec, of_int}
use candlepilot.Time.{Datetime, seconds}
use candlepilot.Domain.{
  m15, open_long, limit, long, buy, off, enforce, SetupType, TriggerType, StructureLevelType,
  TargetType, TradeAction, MarketSnapshot, TradeIntent, PositionState, PortfolioState, OrderPlan,
}
use candlepilot.Risk.{
  SymbolRules, AggressiveRiskPolicy, RiskEvaluation, accepted_with, resting_limit,
}

abbrev pub policy : AggressiveRiskPolicy
policy = record {
  max_leverage = 10;
  max_risk_fraction = dec 1 2;
  max_portfolio_risk_fraction = dec 4 2;
  max_margin_fraction = dec 80 2;
  max_symbol_margin_fraction = dec 10 2;
  daily_loss_fraction = dec 5 2;
  minimum_reward_risk_ratio = dec 115 2;
  fee_fraction = dec 5 4;
  slippage_fraction = dec 1 3;
  max_snapshot_age_seconds = 75;
  require_take_profit = false;
  structure_gate_mode = off;
}

abbrev pub rules : SymbolRules
rules = record {
  quantity_step = dec 1 3;
  min_quantity = dec 1 3;
  min_notional = of_int 5;
  tick_size = dec 1 1;
  max_quantity = none;
  market_quantity_step = none;
  market_min_quantity = none;
  market_max_quantity = none;
}

abbrev pub at : ℕ → Datetime
at t = record { micros = seconds t; aware = true }

abbrev pub snapshot : MarketSnapshot
snapshot = record {
  symbol = "BTCUSDT";
  cadence = m15;
  timestamp = at 900;
  mark_price = dec 1005 1;
  bid = dec 1004 1;
  ask = dec 1006 1;
  quote_volume_24h = of_int 1000000;
  funding_rate = of_int 0;
  features = [];
}

abbrev pub intent : TradeIntent
intent = record {
  symbol = "BTCUSDT";
  cadence = m15;
  action = open_long;
  confidence = dec 7 1;
  leverage = 2;
  risk_fraction = dec 1 2;
  order_type = limit;
  entry_price = some (dec 10004 2);
  stop_loss = some (dec 9503 2);
  take_profit = some (of_int 110);
  ttl_seconds = 60;
  structure_v1 = false;
  setup_type = none;
  anchor_timeframe = none;
  anchor_price = none;
  trigger_type = none;
  trigger_price = none;
  invalidation_type = none;
  invalidation_level = none;
  target_type = none;
  rationale = "trend";
}

abbrev pub flat : PortfolioState
flat = record {
  equity = of_int 10000;
  available_balance = of_int 10000;
  pnl_24h = of_int 0;
  open_positions = 0;
  margin_used = of_int 0;
  positions = [];
  pending_entry_symbols = [];
  stop_loss_cooldown_until = [];
}

abbrev pub opening_order : OrderPlan
opening_order = record {
  client_order_id = "cp-1";
  symbol = "BTCUSDT";
  side = buy;
  quantity = dec 19258 3;
  order_type = limit;
  price = some (of_int 100);
  stop_price = some (of_int 95);
  take_profit_price = some (of_int 110);
  reduce_only = false;
}

abbrev pub opening : RiskEvaluation
opening = record {
  decision = record {
    accepted = true;
    reason = accepted_with (resting_limit ∷ []);
    max_quantity = some (dec 19258 3);
    pre_trade_entry_price = some (of_int 100);
    pre_trade_stop_price = some (of_int 95);
    pre_trade_take_profit_price = some (of_int 110);
    pre_trade_reward_risk_ratio = some (of_int 2);
    pending_entry = true;
    structure_assessment = none;
  };
  order = some opening_order;
}

-- An ADD to a long position whose stop is already tighter.
abbrev pub position : PositionState
position = record {
  side = long;
  quantity = of_int 2;
  entry_price = of_int 98;
  unrealized_pnl = of_int 5;
  leverage = 2;
  initial_margin = of_int 98;
  stop_loss = some (of_int 96);
  take_profit = none;
}

abbrev pub holding : PortfolioState
holding = record flat { positions = ("BTCUSDT", position) ∷ []; open_positions = 1 }

abbrev pub more : TradeIntent
more = record intent { action = TradeAction.add }

abbrev pub added_order : OrderPlan
added_order = record opening_order {
  client_order_id = "cp-2";
  quantity = dec 17932 3;
  stop_price = some (of_int 96);
}

abbrev pub added : RiskEvaluation
added = record {
  decision = record {
    accepted = true;
    reason = accepted_with (resting_limit ∷ tighter_stop_preserved ∷ []);
    max_quantity = some (dec 17932 3);
    pre_trade_entry_price = some (dec 9979931768011238209913706602 26);
    pre_trade_stop_price = some (of_int 96);
    pre_trade_take_profit_price = some (of_int 110);
    pre_trade_reward_risk_ratio = some (dec 2684872174096767377984365100 27);
    pending_entry = true;
    structure_assessment = none;
  };
  order = some added_order;
}

-- A structure plan under the enforced gate.
abbrev pub enforcing : AggressiveRiskPolicy
enforcing = record policy { structure_gate_mode = enforce }

abbrev pub planned : TradeIntent
planned = record intent {
  structure_v1 = true;
  setup_type = some SetupType.trend_pullback;
  anchor_timeframe = some m15;
  anchor_price = some (of_int 100);
  trigger_type = some TriggerType.market_confirmed;
  trigger_price = some (of_int 100);
  invalidation_type = some StructureLevelType.ema;
  invalidation_level = some (dec 955 1);
  target_type = some TargetType.swing;
}

abbrev pub mapped : MarketSnapshot
mapped = record snapshot {
  features =
      ("15m_atr_14", of_int 4)
      ∷ ("15m_ema20_distance_atr", dec 5 1)
      ∷ ("5m_ema_spread", dec 1 1)
      ∷ ("15m_ema_spread", dec 1 1)
      ∷ ("15m_ema_20", of_int 96)
      ∷ [];
}

abbrev pub passing : String → StructureCheck
passing key = record { key = key; passed = true }

abbrev pub gated_order : OrderPlan
gated_order = record opening_order { client_order_id = "cp-3" }

abbrev pub gated : RiskEvaluation
gated = record {
  decision = record opening.decision {
    structure_assessment = some (record {
      mode = enforce;
      passed = true;
      checks =
          passing "metadata"
          ∷ passing "anchor"
          ∷ passing "extension"
          ∷ passing "alignment"
          ∷ passing "trigger"
          ∷ passing "invalidation"
          ∷ [];
    });
  };
  order = some gated_order;
}

abbrev pub half : TradeIntent
half = record intent { action = TradeAction.reduce }

abbrev pub halved_order : OrderPlan
halved_order = record {
  client_order_id = "cp-4";
  symbol = "BTCUSDT";
  side = sell;
  quantity = of_int 1;
  order_type = limit;
  price = some (dec 1001 1);
  stop_price = none;
  take_profit_price = none;
  reduce_only = true;
}

abbrev pub halved : RiskEvaluation
halved = record {
  decision = plain_decision true (because "reduce-only exit accepted") none;
  order = some halved_order;
}
