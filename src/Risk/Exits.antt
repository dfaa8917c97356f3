-- ===== src/Risk/Exits.antt =====
-- What `_close_order` and the branch of `evaluate` on the action return.
use candlepilot.Prelude.{leb_ℤ, ltb_ℤ, ◌||◌}
use candlepilot.Flow.{return_if}
use candlepilot.Flow.Inversion.{run-call, return_if-eq-next}
use candlepilot.Domain.{OrderSide}
use candlepilot.Risk.Exit.{exit_quantity, exit_price, exit_order}
use candlepilot.Prelude.{
  String, true, false, Option, none, some, ◌≡◌, refl, sym, ◌⊎◌, inl, inr, arith, ◌≤ℤ◌, ◌<ℤ◌, pos,
}
use candlepilot.Decimal.{Decimal}
use candlepilot.Outcome.{ok}
use candlepilot.Flow.{returned}
use candlepilot.Flow.Inversion.{stage, return_call-eq-returned}
use candlepilot.Domain.{
  TradeIntent, PositionState, TradeAction, hold, reduce, close, Side, OrderPlan, exit_side, is_hold,
}
use candlepilot.Domain.Validate.{order_plan}
use candlepilot.Risk.{RiskEvaluation, SymbolRules, quantity_limits}
use candlepilot.Risk.Exit.{close_order, exceeds}
use candlepilot.Risk.Permission.{dispatch_action, held}
use mathlib.Core.Path.{subst}
use candlepilot.Risk.Refusals.{
  Refused, return_if-Refuses, exit_quantity-Refuses, exit_price-Refuses,
}

-- An exit order: reduce-only, against the side of the position, within the venue's quantities,
-- with no stop or target of its own.
pub record ExitOrder (i : TradeIntent) (rules : SymbolRules) (side : Side) (ev : RiskEvaluation)
    (o : OrderPlan) : Type 0 where
  pub reduces : o.reduce_only ≡ true
  pub against : o.side ≡ exit_side side
  pub same_symbol : o.symbol ≡ i.symbol
  pub quantity_pos : pos 0 <ℤ o.quantity
  pub above_minimum : (quantity_limits rules i.order_type).minimum ≤ℤ o.quantity
  pub below_maximum : exceeds o.quantity (quantity_limits rules i.order_type).maximum ≡ false
  pub no_stop : o.stop_price ≡ none
  pub no_target : o.take_profit_price ≡ none
  pub accepted : ev.decision.accepted ≡ true

exit_plan_lem :
    (id : String) (i : TradeIntent) (side : OrderSide) (quantity : Decimal) (price : Option Decimal)
    (o : OrderPlan)
    → order_plan (exit_order id i side quantity price) ≡ ok o
    → o ≡ exit_order id i side quantity price
unfolding order_plan
exit_plan_lem id i side quantity price o h = ground arith

-- A close that returns is a refusal, or has an exit order.
close_order_verdict :
    (id : String) (i : TradeIntent) (side : Side) (q : Decimal) (rules : SymbolRules)
    (ev : RiskEvaluation)
    → close_order id i side q rules ≡ ok ev
    → Refused ev ⊎ ((o : OrderPlan) × (ev.order ≡ some o) × ExitOrder i rules side ev o)
unfolding close_order
close_order_verdict id i side q rules ev h =
    let limits = quantity_limits rules i.order_type in
    stage (exit_quantity i.action q limits.step) _ h
      (λ r. inl (exit_quantity-Refuses i.action q limits.step ev r))
      λ quantity e1 h1.
        stage (return_if (leb_ℤ quantity (pos 0) || ltb_ℤ quantity limits.minimum) _) _ h1
          (λ r. inl (return_if-Refuses _ _ (refl, refl) ev r))
          λ _ e2 h2.
            stage (return_if (exceeds quantity limits.maximum) _) _ h2
              (λ r. inl (return_if-Refuses _ _ (refl, refl) ev r))
              λ _ e3 h3.
                stage (exit_price i.order_type (exit_side side) i.entry_price rules.tick_size) _ h3
                  (λ r. inl (
                    exit_price-Refuses i.order_type (exit_side side) i.entry_price rules.tick_size
                      ev r))
                  λ price e4 h4.
                    run-call (order_plan (exit_order id i (exit_side side) quantity price)) _ h4
                      λ o e5 h5.
                        let same = exit_plan_lem id i (exit_side side) quantity price o e5 in
                        let guards = return_if-eq-next _ _ e2 in
                        inr (
                          o,
                          cc,
                          subst (ExitOrder i rules side ev) (sym same) (record {
                            reduces = refl;
                            against = refl;
                            same_symbol = refl;
                            quantity_pos = ground arith;
                            above_minimum = ground arith;
                            below_maximum = return_if-eq-next _ _ e3;
                            no_stop = refl;
                            no_target = refl;
                            accepted = cc;
                          }),
                        )

-- What the branch on the action returns.
pub data ActionVerdict (i : TradeIntent) (rules : SymbolRules) (x : Option PositionState)
    (ev : RiskEvaluation) : Type 0 where
  holds : i.action ≡ hold → ev ≡ held → ActionVerdict i rules x ev
  refuses : Refused ev → ActionVerdict i rules x ev
  exits :
      (y : PositionState) (o : OrderPlan)
      → x ≡ some y
      → ev.order ≡ some o
      → ExitOrder i rules y.side ev o
      → ActionVerdict i rules x ev

missing_position_refuses :
    (id : String) (i : TradeIntent) (rules : SymbolRules) (a : TradeAction) (ev : RiskEvaluation)
    → is_hold a ≡ false
    → dispatch_action id i rules none a ≡ returned ev
    → Refused ev
unfolding dispatch_action
missing_position_refuses id i rules a ev h e = ground arith

closes :
    (id : String) (i : TradeIntent) (rules : SymbolRules) (y : PositionState) (ev : RiskEvaluation)
    → close_order id i y.side y.quantity rules ≡ ok ev
    → ActionVerdict i rules (some y) ev
closes id i rules y ev h = elim (close_order_verdict id i y.side y.quantity rules ev h) [
  | inl r ↦ refuses r
  | inr (o, e, exit) ↦ exits y o refl e exit
]

pub action_verdict :
    (id : String) (i : TradeIntent) (rules : SymbolRules) (x : Option PositionState)
    (a : TradeAction) (ev : RiskEvaluation)
    → i.action ≡ a
    → dispatch_action id i rules x a ≡ returned ev
    → ActionVerdict i rules x ev
unfolding dispatch_action
action_verdict id i rules x hold ev at h = holds at (cc)
action_verdict id i rules none reduce ev at h =
    refuses (missing_position_refuses id i rules reduce ev refl h)
action_verdict id i rules none close ev at h =
    refuses (missing_position_refuses id i rules close ev refl h)
action_verdict id i rules (some y) reduce ev at h =
    closes id i rules y ev (return_call-eq-returned _ h)
action_verdict id i rules (some y) close ev at h =
    closes id i rules y ev (return_call-eq-returned _ h)
action_verdict id i rules x _ ev at h = absurd (cc)
