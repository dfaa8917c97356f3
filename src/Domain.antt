-- ===== src/Domain.antt =====
-- The models of src/candlepilot/domain/models.py that trading decisions pass round.
pub mod Words
pub mod Validate
pub mod Shape
mod Tests
use candlepilot.Prelude.{ℕ, String, Bool, true, false, Option, List, not, ◌||◌, ◌&&◌}
use candlepilot.Prelude.Assoc.{Dict}
use candlepilot.Decimal.{Decimal}
use candlepilot.Time.{Datetime}

-- A decision cadence.
pub data Cadence : Type 0 where
  m5 m15 m30 h1 h4 : Cadence

pub data TradeAction : Type 0 where
  hold open_long open_short add reduce close : TradeAction

pub data OrderType : Type 0 where
  market limit : OrderType

pub data Side : Type 0 where
  long short : Side

pub data OrderSide : Type 0 where
  buy sell : OrderSide

pub data SetupType : Type 0 where
  trend_breakout trend_continuation breakout_retest trend_pullback reversal : SetupType

pub data TriggerType : Type 0 where
  market_confirmed breakout reclaim rejection : TriggerType

pub data StructureLevelType : Type 0 where
  swing range ema daily_level : StructureLevelType

pub data TargetType : Type 0 where
  swing range daily_level r_multiple : TargetType

pub record MarketSnapshot : Type 0 where
  pub symbol : String
  pub cadence : Cadence
  pub timestamp : Datetime
  pub mark_price : Decimal
  pub bid : Decimal
  pub ask : Decimal
  pub quote_volume_24h : Decimal
  pub funding_rate : Decimal
  -- A feature is the float's `Decimal(str(value))`, the only form in which the policy uses it.
  pub features : Dict Decimal

pub record TradeIntent : Type 0 where
  pub symbol : String
  pub cadence : Cadence
  pub action : TradeAction
  pub confidence : Decimal
  pub leverage : ℕ
  pub risk_fraction : Decimal
  pub order_type : OrderType
  pub entry_price : Option Decimal
  pub stop_loss : Option Decimal
  pub take_profit : Option Decimal
  pub ttl_seconds : ℕ
  pub structure_v1 : Bool  -- decision_framework, whose one value is "structure-v1"
  pub setup_type : Option SetupType
  pub anchor_timeframe : Option Cadence
  pub anchor_price : Option Decimal
  pub trigger_type : Option TriggerType
  pub trigger_price : Option Decimal
  pub invalidation_type : Option StructureLevelType
  pub invalidation_level : Option Decimal
  pub target_type : Option TargetType
  pub rationale : String

pub record PositionState : Type 0 where
  pub side : Side
  pub quantity : Decimal
  pub entry_price : Decimal
  pub unrealized_pnl : Decimal
  pub leverage : ℕ
  pub initial_margin : Decimal
  pub stop_loss : Option Decimal
  pub take_profit : Option Decimal

pub record PortfolioState : Type 0 where
  pub equity : Decimal
  pub available_balance : Decimal
  pub pnl_24h : Decimal
  pub open_positions : ℕ
  pub margin_used : Decimal
  pub positions : Dict PositionState
  pub pending_entry_symbols : List String
  pub stop_loss_cooldown_until : Dict Datetime

pub record StructureCheck : Type 0 where
  pub key : String
  pub passed : Bool

pub data GateMode : Type 0 where
  off shadow enforce : GateMode

pub record StructureAssessment : Type 0 where
  pub mode : GateMode
  pub passed : Bool
  pub checks : List StructureCheck

pub record OrderPlan : Type 0 where
  pub client_order_id : String
  pub symbol : String
  pub side : OrderSide
  pub quantity : Decimal
  pub order_type : OrderType
  pub price : Option Decimal
  pub stop_price : Option Decimal
  pub take_profit_price : Option Decimal
  pub reduce_only : Bool

pub data ReportStatus : Type 0 where
  new_order partially_filled filled canceled rejected expired expired_in_match : ReportStatus

pub record ExecutionReport : Type 0 where
  pub client_order_id : String
  pub status : ReportStatus
  pub filled_quantity : Decimal
  pub average_price : Option Decimal
  pub timestamp : Datetime

-- The spelling of a cadence.
abbrev pub cadence_name : Cadence → String
cadence_name m5 = "5m"
cadence_name m15 = "15m"
cadence_name m30 = "30m"
cadence_name h1 = "1h"
cadence_name h4 = "4h"

abbrev pub same_cadence : Cadence → Cadence → Bool
same_cadence m5 m5 = true
same_cadence m15 m15 = true
same_cadence m30 m30 = true
same_cadence h1 h1 = true
same_cadence h4 h4 = true
same_cadence _ _ = false

abbrev pub is_hold : TradeAction → Bool
is_hold hold = true
is_hold _ = false

abbrev pub is_add : TradeAction → Bool
is_add add = true
is_add _ = false

-- `action in {OPEN_LONG, OPEN_SHORT, ADD}`
abbrev pub is_opening : TradeAction → Bool
is_opening open_long = true
is_opening open_short = true
is_opening add = true
is_opening _ = false

abbrev pub is_limit : OrderType → Bool
is_limit market = false
is_limit limit = true

abbrev pub is_long : Side → Bool
is_long long = true
is_long short = false

abbrev pub is_buy : OrderSide → Bool
is_buy buy = true
is_buy sell = false

abbrev pub same_side : Side → Side → Bool
same_side long long = true
same_side short short = true
same_side _ _ = false

abbrev pub is_none {ℓ} : {A : Type ℓ} → Option A → Bool
is_none Option.none = true
is_none (Option.some a) = false

-- The side of the order that opens a position, and of the one that closes it.
abbrev pub entry_side : Side → OrderSide
entry_side long = buy
entry_side short = sell

abbrev pub exit_side : Side → OrderSide
exit_side long = sell
exit_side short = buy
