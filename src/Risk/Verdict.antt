-- ===== src/Risk/Verdict.antt =====
-- The verdicts of `AggressiveRiskPolicy.evaluate`.
use candlepilot.Prelude.{String, true, false, none, some, ◌≡◌, refl, lookup}
use candlepilot.Time.{Datetime}
use candlepilot.Outcome.{ok}
use candlepilot.Domain.{
  TradeIntent, MarketSnapshot, PortfolioState, PositionState, hold, OrderPlan, is_opening,
}
use candlepilot.Risk.{AggressiveRiskPolicy, RiskEvaluation, SymbolRules}
use candlepilot.Risk.Evaluate.{evaluate}
use candlepilot.Risk.Facts.{dispatch_action_opening}
use candlepilot.Risk.Settled.{accept_facts}
use candlepilot.Risk.Trace.{evaluate_ending, refused, ended, entered}
use candlepilot.Risk.Exits.{ExitOrder, holds, refuses, exits, action_verdict}

-- An evaluation that returns is of one of four kinds, and its verdict is `accepted` exactly in the
-- last three: a refusal, which has no order; a HOLD, with no order; the exit of the symbol's
-- position, by a reduce-only order; or an opening order.
pub data Verdict (i : TradeIntent) (f : PortfolioState) (rules : SymbolRules) (ev : RiskEvaluation)
    : Type 0 where
  refusal : ev.order ≡ none → ev.decision.accepted ≡ false → Verdict i f rules ev
  holding : i.action ≡ hold → ev.order ≡ none → ev.decision.accepted ≡ true → Verdict i f rules ev
  exit :
      (x : PositionState) (o : OrderPlan)
      → lookup i.symbol f.positions ≡ some x
      → ev.order ≡ some o
      → ExitOrder i rules x.side ev o
      → Verdict i f rules ev
  entry :
      (o : OrderPlan)
      → is_opening i.action ≡ true
      → ev.order ≡ some o
      → o.reduce_only ≡ false
      → o.symbol ≡ i.symbol
      → ev.decision.accepted ≡ true
      → Verdict i f rules ev

-- Every evaluation that returns, of whatever intent, has one of the four verdicts.
pub evaluate_verdict :
    (p : AggressiveRiskPolicy) (id : String) (i : TradeIntent) (s : MarketSnapshot)
    (f : PortfolioState) (rules : SymbolRules) (now : Datetime) (ev : RiskEvaluation)
    → evaluate p id i s f rules now ≡ ok ev
    → Verdict i f rules ev
evaluate_verdict p id i s f rules now ev h = elim (evaluate_ending p id i s f rules now ev h) [
  | refused r ↦ refusal r.0 r.1
  | ended e ↦ elim (action_verdict id i rules (lookup i.symbol f.positions) i.action ev refl e) [
    | holds at same ↦ holding at (cc) (cc)
    | refuses r ↦ refusal r.0 r.1
    | exits x o at ordered order ↦ exit x o at ordered order
  ]
  | entered side a permitted planned ↦
      let accepted =
        accept_facts id i s rules side planned.levels planned.size planned.measured planned.ratio a
          ev planned.accepted in
      entry _ (dispatch_action_opening id i rules _ i.action permitted.dispatched) accepted.ordered
        refl refl accepted.marked
]
