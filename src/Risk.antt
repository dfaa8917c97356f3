-- ===== src/Risk.antt =====
-- src/candlepilot/risk/engine.py: venue rules, the policy and what an evaluation returns.
pub mod Structure
pub mod Assess
pub mod Pricing
pub mod Exit
pub mod Permission
pub mod Levels
pub mod Sizing
pub mod Evaluate
pub mod Refusals
pub mod Exits
pub mod Trace
pub mod Gate
pub mod Facts
pub mod Settled
pub mod Opened
pub mod Entry
pub mod Protection
pub mod Verdict
pub mod Orders
mod Inputs
mod Scenarios
mod Tests
use candlepilot.Prelude.{
  ℕ, String, Bool, true, false, Option, none, some, List, ◌||◌, not, ltb_ℤ, leb_ℤ, ◌==◌, leb, pos,
  if◌then◌else◌,
}
use candlepilot.Decimal.{Decimal, Rounding, down, to_integral_value, mul, is_zero}
use candlepilot.Outcome.{Error, Result, ok, err, value_error, ◌>>=◌, ◌>>◌, raise_if, div}
use candlepilot.Time.{Datetime}
use candlepilot.Domain.{
  OrderType, market, limit, GateMode, StructureAssessment, OrderPlan, Side, TradeAction,
}

pub record SymbolRules : Type 0 where
  pub quantity_step : Decimal
  pub min_quantity : Decimal
  pub min_notional : Decimal
  pub tick_size : Decimal
  pub max_quantity : Option Decimal
  pub market_quantity_step : Option Decimal
  pub market_min_quantity : Option Decimal
  pub market_max_quantity : Option Decimal

-- `a or b`, `a if a is not None else b`, and the last line of `quantity_limits`.
abbrev pub value_or : Option Decimal → Decimal → Decimal
value_or none b = b
value_or (some a) b = if is_zero a then b else a

abbrev pub some_or : Option Decimal → Decimal → Decimal
some_or none b = b
some_or (some a) b = a

abbrev pub first_some : Option Decimal → Option Decimal → Option Decimal
first_some none b = b
first_some (some a) b = some a

abbrev pub positive_or_none : Option Decimal → Option Decimal
positive_or_none none = none
positive_or_none (some a) = if ltb_ℤ (pos 0) a then some a else none

pub record QuantityLimits : Type 0 where
  pub step : Decimal
  pub minimum : Decimal
  pub maximum : Option Decimal

unfoldable pub quantity_limits : SymbolRules → OrderType → QuantityLimits
quantity_limits r market = record {
  step = value_or r.market_quantity_step r.quantity_step;
  minimum = some_or r.market_min_quantity r.min_quantity;
  maximum = positive_or_none (first_some r.market_max_quantity r.max_quantity);
}
quantity_limits r limit = record {
  step = r.quantity_step;
  minimum = r.min_quantity;
  maximum = positive_or_none r.max_quantity;
}

-- `(value / step).to_integral_value(rounding=…) * step`
unfoldable pub snap : Rounding → Decimal → Decimal → Result Decimal
snap r value step = do q ← div value step; ok (mul (to_integral_value r q) step)

unfoldable pub round_down : Decimal → Decimal → Result Decimal
unfolding snap
round_down value step = do
  raise_if (leb_ℤ step (pos 0)) (value_error "quantity step must be positive")
  snap down value step

unfoldable pub to_tick : Rounding → Decimal → Decimal → Result Decimal
unfolding snap
to_tick r value tick = do
  raise_if (leb_ℤ tick (pos 0)) (value_error "tick size must be positive")
  snap r value tick

pub record AggressiveRiskPolicy : Type 0 where
  pub max_leverage : ℕ
  pub max_risk_fraction : Decimal
  pub max_portfolio_risk_fraction : Decimal
  pub max_margin_fraction : Decimal
  pub max_symbol_margin_fraction : Decimal
  pub daily_loss_fraction : Decimal
  pub minimum_reward_risk_ratio : Decimal
  pub fee_fraction : Decimal
  pub slippage_fraction : Decimal
  pub max_snapshot_age_seconds : ℕ
  pub require_take_profit : Bool
  pub structure_gate_mode : GateMode

-- `AggressiveRiskPolicy.__init__`; the gate's mode is one of three by its type.
unfoldable pub new_policy : AggressiveRiskPolicy → Result AggressiveRiskPolicy
new_policy p = do
  raise_if (p.max_snapshot_age_seconds == 0)
      (value_error "max_snapshot_age_seconds must be positive")
  raise_if (ltb_ℤ p.max_risk_fraction (pos 0)) (value_error "max_risk_fraction cannot be negative")
  raise_if (ltb_ℤ p.max_portfolio_risk_fraction p.max_risk_fraction)
      (value_error "max_portfolio_risk_fraction cannot be below max_risk_fraction")
  raise_if (leb_ℤ p.minimum_reward_risk_ratio (pos 0))
      (value_error "minimum_reward_risk_ratio must be positive")
  raise_if (ltb_ℤ p.fee_fraction (pos 0) || ltb_ℤ p.slippage_fraction (pos 0))
      (value_error "fee and slippage fractions cannot be negative")
  ok p

-- The parts that `accepted_reasons` joins after "accepted within hard risk limits".
pub data Note : Type 0 where
  quantity_capped : OrderType → Option Decimal → Note
  immediately_marketable : Note
  resting_limit : Note
  tighter_stop_preserved : Note
  stop_buffered : Note

-- The reason of a decision: a constructor for each message that is built from values, and `because`
-- for the fixed ones.
pub data Reason : Type 0 where
  because : String → Reason
  cooldown_until : Datetime → Reason
  gate_failed : List String → Reason
  reward_risk_low : Decimal → Decimal → Reason
  above_maximum : OrderType → Reason
  accepted_with : List Note → Reason

-- The times that the record stamps, and the fields that other components fill, are left out.
pub record RiskDecision : Type 0 where
  pub accepted : Bool
  pub reason : Reason
  pub max_quantity : Option Decimal
  pub pre_trade_entry_price : Option Decimal
  pub pre_trade_stop_price : Option Decimal
  pub pre_trade_take_profit_price : Option Decimal
  pub pre_trade_reward_risk_ratio : Option Decimal
  pub pending_entry : Bool
  pub structure_assessment : Option StructureAssessment

pub record RiskEvaluation : Type 0 where
  pub decision : RiskDecision
  pub order : Option OrderPlan

-- A decision with only a verdict, a reason and an assessment.
abbrev pub plain_decision : Bool → Reason → Option StructureAssessment → RiskDecision
plain_decision accepted reason assessment = record {
  accepted = accepted;
  reason = reason;
  max_quantity = none;
  pre_trade_entry_price = none;
  pre_trade_stop_price = none;
  pre_trade_take_profit_price = none;
  pre_trade_reward_risk_ratio = none;
  pending_entry = false;
  structure_assessment = assessment;
}

abbrev pub reject_for : Reason → RiskEvaluation
reject_for r = record { decision = plain_decision false r none; order = none }

-- `_reject`
abbrev pub reject : String → RiskEvaluation
reject reason = reject_for (because reason)
