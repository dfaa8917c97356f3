-- ===== src/Risk/Evaluate.antt =====
-- `AggressiveRiskPolicy.evaluate`, composed of its stages, and its last part: the reward/risk floor
-- and the order.
use candlepilot.Prelude.{
  String, Bool, true, false, Option, none, some, List, [], ◌∷◌, ◌++◌, ◌&&◌, not, leb_ℤ, pos, lookup,
  if◌then◌else◌,
}
use candlepilot.Decimal.{Decimal, add, mul}
use candlepilot.Outcome.{validation_error, Result, ok, err, div}
use candlepilot.Time.{Datetime}
use candlepilot.Flow.{Flow, next, returned, ◌>>=◌, ◌>>◌, asserted, call, run}
use candlepilot.Domain.{
  Side, long, short, OrderType, market, limit, MarketSnapshot, TradeIntent, PositionState,
  PortfolioState, StructureAssessment, OrderPlan, entry_side, is_add, is_limit,
}
use candlepilot.Domain.Validate.{order_plan, none_or_positive}
use candlepilot.Risk.{
  SymbolRules, AggressiveRiskPolicy, quantity_limits, Note, quantity_capped, immediately_marketable,
  resting_limit, tighter_stop_preserved, stop_buffered, reward_risk_low, accepted_with,
  RiskDecision, RiskEvaluation,
}
use candlepilot.Risk.Pricing.{raw_reward_risk_ratio}
use candlepilot.Risk.Structure.{should_buffer_structure_stop}
use candlepilot.Risk.Permission.{
  check_request, dispatch_action, check_limits, check_reentry, requested_side, check_structure,
}
use candlepilot.Risk.Levels.{EntryLevels, entry_levels}
use candlepilot.Risk.Sizing.{sized_quantity}

-- The entry that the reward is measured from: an ADD's is the merged position's average.
unfoldable pub reward_risk_entry :
    Bool → Option PositionState → Decimal → Decimal → Flow RiskEvaluation Decimal
reward_risk_entry false existing entry quantity = next entry
reward_risk_entry true existing entry quantity = do
  position ← asserted existing
  call (
      div (add (mul position.entry_price position.quantity) (mul entry quantity))
        (add position.quantity quantity))

-- `None` or a value of at least 0, for a field with `ge=0`.
abbrev pub none_or_nonnegative : Option Decimal → Bool
none_or_nonnegative none = true
none_or_nonnegative (some a) = leb_ℤ (pos 0) a

-- The bounds of the fields of `RiskDecision`.
unfoldable pub risk_decision : RiskDecision → Result RiskDecision
risk_decision d =
    if none_or_nonnegative d.max_quantity
      && none_or_positive d.pre_trade_entry_price
      && none_or_positive d.pre_trade_stop_price
      && none_or_positive d.pre_trade_take_profit_price
      && none_or_nonnegative d.pre_trade_reward_risk_ratio
    then ok d
    else err validation_error

-- The rejection for a ratio at or below the floor.
unfoldable pub reject_ratio :
    AggressiveRiskPolicy
    → Decimal
    → Decimal
    → Decimal
    → Decimal
    → Option StructureAssessment
    → Flow RiskEvaluation (Option Decimal)
reject_ratio p entry stop target ratio assessment = do
  decision ← call (
      risk_decision (record {
        accepted = false;
        reason = reward_risk_low ratio p.minimum_reward_risk_ratio;
        max_quantity = none;
        pre_trade_entry_price = some entry;
        pre_trade_stop_price = some stop;
        pre_trade_take_profit_price = some target;
        pre_trade_reward_risk_ratio = some ratio;
        pending_entry = false;
        structure_assessment = assessment;
      }))
  returned (record { decision = decision; order = none })

-- With a target, a ratio of the reward to the risk that must exceed the policy's floor.
unfoldable pub check_reward :
    AggressiveRiskPolicy
    → Side
    → Decimal
    → Decimal
    → Option Decimal
    → Option StructureAssessment
    → Flow RiskEvaluation (Option Decimal)
unfolding reject_ratio
check_reward p side entry stop none assessment = next none
check_reward p side entry stop (some target) assessment =
    call (raw_reward_risk_ratio side entry stop target) >>= λ ratio.
    if leb_ℤ ratio p.minimum_reward_risk_ratio
    then reject_ratio p entry stop target ratio assessment
    else next (some ratio)

abbrev pub crosses_book : Side → Decimal → MarketSnapshot → Bool
crosses_book long entry snapshot = leb_ℤ snapshot.ask entry
crosses_book short entry snapshot = leb_ℤ entry snapshot.bid

abbrev pub is_marketable : OrderType → Side → Decimal → MarketSnapshot → Bool
is_marketable order_type side entry snapshot =
    is_limit order_type && crosses_book side entry snapshot

abbrev pub note_if : Bool → Note → List Note
note_if true n = n ∷ []
note_if false n = []

abbrev pub limit_price : OrderType → Decimal → Option Decimal
limit_price market entry = none
limit_price limit entry = some entry

-- The fields of the order.
abbrev pub entry_order : String → TradeIntent → Side → EntryLevels → Decimal → OrderPlan
entry_order order_id intent side levels quantity = record {
  client_order_id = order_id;
  symbol = intent.symbol;
  side = entry_side side;
  quantity = quantity;
  order_type = intent.order_type;
  price = limit_price intent.order_type levels.entry;
  stop_price = some levels.stop;
  take_profit_price = levels.take_profit;
  reduce_only = false;
}

-- `accepted_reasons`, after the first.
abbrev pub accepted_notes :
    TradeIntent → MarketSnapshot → SymbolRules → Side → EntryLevels → Bool → List Note
accepted_notes intent snapshot rules side levels capped =
    let marketable = is_marketable intent.order_type side levels.entry snapshot in
    note_if capped
      (quantity_capped intent.order_type (quantity_limits rules intent.order_type).maximum)
    ++ (note_if marketable immediately_marketable
        ++ (note_if (is_limit intent.order_type && not marketable) resting_limit
            ++ (note_if levels.preserved_tighter_stop tighter_stop_preserved
                ++ note_if (should_buffer_structure_stop intent) stop_buffered)))

-- The order and the accepting decision.
unfoldable pub accept :
    String
    → TradeIntent
    → MarketSnapshot
    → SymbolRules
    → Side
    → EntryLevels
    → Decimal × Bool
    → Decimal
    → Option Decimal
    → Option StructureAssessment
    → Flow RiskEvaluation RiskEvaluation
accept order_id intent snapshot rules side levels size measured_entry ratio assessment = do
  order ← call (order_plan (entry_order order_id intent side levels size.0))
  decision ← call (
      risk_decision (record {
        accepted = true;
        reason = accepted_with (accepted_notes intent snapshot rules side levels size.1);
        max_quantity = some size.0;
        pre_trade_entry_price = some measured_entry;
        pre_trade_stop_price = some levels.stop;
        pre_trade_take_profit_price = levels.take_profit;
        pre_trade_reward_risk_ratio = ratio;
        pending_entry =
            is_limit intent.order_type
            && not (is_marketable intent.order_type side levels.entry snapshot);
        structure_assessment = assessment;
      }))
  next (record { decision = decision; order = some order })

-- From the levels to the order.
unfoldable pub plan_entry :
    AggressiveRiskPolicy
    → String
    → TradeIntent
    → MarketSnapshot
    → PortfolioState
    → SymbolRules
    → Option PositionState
    → Side
    → Option StructureAssessment
    → Flow RiskEvaluation RiskEvaluation
plan_entry p order_id intent snapshot portfolio rules existing side assessment = do
  levels ← entry_levels p intent snapshot rules existing side
  size ← sized_quantity p intent snapshot portfolio rules existing side levels
  measured ← reward_risk_entry (is_add intent.action) existing levels.entry size.0
  ratio ← check_reward p side measured levels.stop levels.take_profit assessment
  accept order_id intent snapshot rules side levels size measured ratio assessment

-- The whole method. `now` is given; `order_id` is the fresh identifier that the plan would carry.
unfoldable pub evaluate :
    AggressiveRiskPolicy
    → String
    → TradeIntent
    → MarketSnapshot
    → PortfolioState
    → SymbolRules
    → Datetime
    → Result RiskEvaluation
evaluate p order_id intent snapshot portfolio rules now = run do
  check_request intent snapshot now
  let existing = lookup intent.symbol portfolio.positions
  dispatch_action order_id intent rules existing intent.action
  check_limits p intent snapshot portfolio now
  check_reentry intent portfolio now
  side ← requested_side intent.action intent.leverage existing
  assessment ← check_structure p intent snapshot side
  plan_entry p order_id intent snapshot portfolio rules existing side assessment
