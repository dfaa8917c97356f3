-- ===== src/Risk/Orders.antt =====
-- The quantity of every order that `evaluate` plans.
use mathlib.Core.Path.{subst}
use candlepilot.Prelude.{String, some, ◌≡◌, refl, lookup, pos, ◌<ℤ◌}
use candlepilot.Time.{Datetime}
use candlepilot.Outcome.{ok}
use candlepilot.Domain.{TradeIntent, MarketSnapshot, PortfolioState, OrderPlan}
use candlepilot.Risk.{AggressiveRiskPolicy, RiskEvaluation, SymbolRules}
use candlepilot.Risk.Evaluate.{entry_order, evaluate}
use candlepilot.Risk.Settled.{accept_facts}
use candlepilot.Risk.Trace.{evaluate_ending, refused, ended, entered}
use candlepilot.Risk.Exits.{holds, refuses, exits, action_verdict}

pub evaluate-quantity_pos :
    (p : AggressiveRiskPolicy) (id : String) (i : TradeIntent) (s : MarketSnapshot)
    (f : PortfolioState) (rules : SymbolRules) (now : Datetime) (ev : RiskEvaluation)
    (o : OrderPlan)
    → evaluate p id i s f rules now ≡ ok ev
    → ev.order ≡ some o
    → pos 0 <ℤ o.quantity
evaluate-quantity_pos p id i s f rules now ev o h at =
    elim (evaluate_ending p id i s f rules now ev h) [
      | refused r ↦ absurd (cc)
      | ended e ↦
          elim (action_verdict id i rules (lookup i.symbol f.positions) i.action ev refl e) [
            | holds _ same ↦ absurd (cc)
            | refuses r ↦ absurd (cc)
            | exits x q _ ordered exit ↦
                let same : q ≡ o = cc in
                subst (λ (x : OrderPlan). pos 0 <ℤ x.quantity) same exit.quantity_pos
          ]
      | entered side a permitted planned ↦
          let accepted =
            accept_facts id i s rules side planned.levels planned.size planned.measured
              planned.ratio a ev planned.accepted in
          let same : entry_order id i side planned.levels planned.size.0 ≡ o = cc in
          subst (λ (x : OrderPlan). pos 0 <ℤ x.quantity) same accepted.quantity_pos
    ]
