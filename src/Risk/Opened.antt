-- ===== src/Risk/Opened.antt =====
-- An evaluation that returned an opening order: the stages it went through, and what they guarantee.
use candlepilot.Risk.Exits.{holds, refuses, exits, action_verdict}
use candlepilot.Prelude.{String, true, false, Option, some, ◌≡◌, refl, lookup}
use candlepilot.Time.{Datetime}
use candlepilot.Outcome.{ok}
use candlepilot.Flow.{returned}
use candlepilot.Domain.{
  TradeIntent, MarketSnapshot, PortfolioState, PositionState, Side, OrderPlan, StructureAssessment,
}
use candlepilot.Risk.{AggressiveRiskPolicy, RiskEvaluation, SymbolRules}
use candlepilot.Risk.Permission.{dispatch_action}
use candlepilot.Risk.Evaluate.{evaluate, entry_order}
use candlepilot.Risk.Trace.{Permitted, Planned, evaluate_ending, refused, ended, entered}
use candlepilot.Risk.Facts.{SideFits, requested_side_facts, LevelsFit, entry_levels_facts}
use candlepilot.Risk.Settled.{Accepted, accept_facts}

dispatch_action_reduces :
    (id : String) (i : TradeIntent) (rules : SymbolRules) (x : Option PositionState)
    (ev : RiskEvaluation) (o : OrderPlan)
    → dispatch_action id i rules x i.action ≡ returned ev
    → ev.order ≡ some o
    → o.reduce_only ≡ true
dispatch_action_reduces id i rules x ev o h e =
    elim (action_verdict id i rules x i.action ev refl h) [
      | holds at same ↦ absurd (cc)
      | refuses r ↦ absurd (cc (r.0, e))
      | exits y o' at ordered exit ↦ cc (exit.reduces)
    ]

module _ (p : AggressiveRiskPolicy) (id : String) (i : TradeIntent) (s : MarketSnapshot)
    (f : PortfolioState) (rules : SymbolRules) (now : Datetime) where
  -- The call returned an order that opens or adds to a position.
  pub record Opens (ev : RiskEvaluation) (o : OrderPlan) : Type 0 where
    pub result : evaluate p id i s f rules now ≡ ok ev
    pub ordered : ev.order ≡ some o
    pub opening : o.reduce_only ≡ false

  abbrev pub position : Option PositionState
  position = lookup i.symbol f.positions

  -- The stages that such a call went through, and what they guarantee.
  pub record Opened (ev : RiskEvaluation) (o : OrderPlan) : Type 0 where
    pub side : Side
    pub assessment : Option StructureAssessment
    pub permitted : Permitted p id i s f rules now side assessment
    pub planned : Planned p id i s f rules now side assessment ev
    pub accepted : Accepted id i side planned.levels planned.size.0 planned.ratio assessment ev
    pub fit : LevelsFit p i s position side planned.levels
    pub side_fits : SideFits i.action i.leverage position side
    pub same : entry_order id i side planned.levels planned.size.0 ≡ o

  pub opened : (ev : RiskEvaluation) (o : OrderPlan) → Opens ev o → Opened ev o
  opened ev o h = elim (evaluate_ending p id i s f rules now ev h.result) [
    | refused r ↦ absurd (cc (h.ordered, r.0))
    | ended e ↦ absurd (cc (h.opening, dispatch_action_reduces id i rules _ ev o e h.ordered))
    | entered side a permitted planned ↦
        let accepted =
          accept_facts id i s rules side planned.levels planned.size planned.measured planned.ratio
            a ev planned.accepted in
        record {
          side = side;
          assessment = a;
          permitted = permitted;
          planned = planned;
          accepted = accepted;
          fit = entry_levels_facts p i s rules position side planned.levels planned.leveled;
          side_fits = requested_side_facts i.action i.leverage position side permitted.sided;
          same = cc (accepted.ordered, h.ordered);
        }
  ]
