-- ===== src/Risk/Scenarios.antt =====
-- Runs of `AggressiveRiskPolicy.evaluate`.
use candlepilot.Prelude.{String, ◌≡◌, refl, ◌+ℤ◌, ◌-ℤ◌, lookup}
use candlepilot.Decimal.{
  add, sub, mul, quotient, abs, to_integral_value, round, round_ratio, half_even, ulp, integral,
}
use candlepilot.Outcome.{Result, ok, div}
use candlepilot.Time.{Datetime}
use candlepilot.Domain.{MarketSnapshot, TradeIntent, PortfolioState}
use candlepilot.Domain.Validate.{order_plan}
use candlepilot.Risk.{
  SymbolRules, AggressiveRiskPolicy, RiskEvaluation, snap, round_down, to_tick, quantity_limits,
}
use candlepilot.Risk.Pricing.{
  effective_entry, effective_exit, effective_loss_per_unit, portfolio_stop_risk, stop_risk_from,
  position_stop_risk, raw_reward_risk_ratio,
}
use candlepilot.Risk.Structure.{
  should_buffer_structure_stop, breakout_rejection, confirm_breakout, structure_reference,
}
use candlepilot.Risk.Assess.{
  assess_structure, assess_plan, plan_of, plan_checks, all_passed, failed_keys, anchor_ok,
  extension_ok, alignment_ok, trigger_ok, invalidation_ok,
}
use candlepilot.Risk.Exit.{close_order, exit_quantity, exit_price}
use candlepilot.Risk.Opened.{Opens}
use candlepilot.Risk.Permission.{
  check_request, dispatch_action, check_limits, check_reentry, check_cooldown, is_listed,
  requested_side, check_structure,
}
use candlepilot.Risk.Levels.{
  entry_price as entry_price_stage, buffered_stop, initial_stop, merge_stop, check_stop_uncrossed,
  take_profit_price as take_profit_stage, entry_levels,
}
use candlepilot.Risk.Sizing.{symbol_budget, risk_budget, margin_quantity, sized_quantity}
use candlepilot.Risk.Evaluate.{
  evaluate, plan_entry, reward_risk_entry, check_reward, accept, risk_decision,
}
use candlepilot.Risk.Inputs.{
  policy, rules, at, snapshot, intent, flat, opening_order, opening, holding, more, added_order,
  added, enforcing, planned, mapped, gated_order, gated, half, halved,
}

-- The method with all that it calls unfolded, for the runs below.
computed :
    AggressiveRiskPolicy
    → String
    → TradeIntent
    → MarketSnapshot
    → PortfolioState
    → SymbolRules
    → Datetime
    → Result RiskEvaluation
unfolding evaluate check_request dispatch_action check_limits check_reentry check_cooldown is_listed
    requested_side check_structure assess_structure breakout_rejection plan_entry entry_levels
    entry_price_stage initial_stop merge_stop check_stop_uncrossed take_profit_stage sized_quantity
    risk_budget symbol_budget margin_quantity portfolio_stop_risk effective_loss_per_unit
    effective_entry effective_exit reward_risk_entry check_reward raw_reward_risk_ratio accept
    order_plan risk_decision should_buffer_structure_stop to_tick round_down quantity_limits div add
    sub mul quotient abs to_integral_value integral round round_ratio half_even ulp ◌+ℤ◌ ◌-ℤ◌ lookup
    stop_risk_from position_stop_risk snap buffered_stop assess_plan plan_of plan_checks all_passed
    failed_keys structure_reference anchor_ok extension_ok alignment_ok trigger_ok invalidation_ok
    confirm_breakout close_order exit_quantity exit_price
computed = evaluate

pub run-opening : evaluate policy "cp-1" intent snapshot flat rules (at 910) ≡ ok opening
unfolding computed
run-opening = refl

pub opens : Opens policy "cp-1" intent snapshot flat rules (at 910) opening opening_order
opens = record { result = run-opening; ordered = refl; opening = refl }

pub run-added : evaluate policy "cp-2" more snapshot holding rules (at 910) ≡ ok added
unfolding computed
run-added = refl

pub adds : Opens policy "cp-2" more snapshot holding rules (at 910) added added_order
adds = record { result = run-added; ordered = refl; opening = refl }

pub run-gated : evaluate enforcing "cp-3" planned mapped flat rules (at 910) ≡ ok gated
unfolding computed
run-gated = refl

pub gates : Opens enforcing "cp-3" planned mapped flat rules (at 910) gated gated_order
gates = record { result = run-gated; ordered = refl; opening = refl }

pub run-halved : evaluate policy "cp-4" half snapshot holding rules (at 910) ≡ ok halved
unfolding computed
run-halved = refl
