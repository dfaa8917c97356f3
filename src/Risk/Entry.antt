-- ===== src/Risk/Entry.antt =====
-- What `AggressiveRiskPolicy.evaluate` guarantees of an order that opens or adds: the limits, the
-- side, the size and the structure gate.
use mathlib.Core.Path.{subst}
use candlepilot.Prelude.{
  ◌⊎◌, ◌≤◌, String, true, false, Option, none, some, ◌≡◌, refl, sym, ap, arith, ◌≤ℤ◌, ◌<ℤ◌, pos,
  negsuc, lookup,
}
use candlepilot.Decimal.{Decimal, sub, mul}
use candlepilot.Time.{Datetime, elapsed, seconds}
use candlepilot.Domain.{
  TradeIntent, MarketSnapshot, PortfolioState, PositionState, Side, OrderPlan, is_opening,
  entry_side,
}
use candlepilot.Risk.{AggressiveRiskPolicy, RiskEvaluation, SymbolRules, quantity_limits}
use candlepilot.Risk.Permission.{is_listed}
use candlepilot.Risk.Evaluate.{limit_price}
use candlepilot.Risk.Gate.{GatePassed, check_structure-GatePassed}
use candlepilot.Risk.Facts.{
  check_limits_facts, check_reentry_facts, dispatch_action_opening, SideFits, MeasuredAt,
}
use candlepilot.Risk.Settled.{sized_quantity_facts}
use candlepilot.Risk.Opened.{Opens, opened}

module _ (p : AggressiveRiskPolicy) (id : String) (i : TradeIntent) (s : MarketSnapshot)
    (f : PortfolioState) (rules : SymbolRules) (now : Datetime) where
  abbrev position : Option PositionState
  position = lookup i.symbol f.positions

  -- A cooldown that has run out by now, if there is one.
  abbrev pub CooledDown : Option Datetime → Type 0
  CooledDown none = Unit
  CooledDown (some until) = until.micros ≤ℤ now.micros

  cooled_down :
      (x : Option Datetime)
      → ((until : Datetime) → x ≡ some until → until.micros ≤ℤ now.micros)
      → CooledDown x
  cooled_down none h = tt
  cooled_down (some until) h = h until refl

  -- Whatever opens a position met every portfolio-wide limit: the action is an opening one, the
  -- snapshot is at most 2 s ahead and not older than the policy allows, the equity of 24 hours ago
  -- was not positive or less than the policy's fraction of it was lost since, leverage and risk are
  -- within the policy, no entry of the symbol is pending, and a stop-loss cooldown of the symbol
  -- has run out.
  pub evaluate_permits :
      (ev : RiskEvaluation) (o : OrderPlan)
      → Opens p id i s f rules now ev o
      → let age = elapsed now s.timestamp in
        let window_start = sub f.equity f.pnl_24h in
        (is_opening i.action ≡ true)
        × (negsuc 1999999 ≤ℤ age)
        × (age ≤ℤ seconds p.max_snapshot_age_seconds)
        × ((window_start ≤ℤ pos 0)
            ⊎ (sub (pos 0) (mul window_start p.daily_loss_fraction) <ℤ f.pnl_24h))
        × (i.leverage ≤ p.max_leverage)
        × (i.risk_fraction ≤ℤ p.max_risk_fraction)
        × (is_listed i.symbol f.pending_entry_symbols ≡ false)
        × CooledDown (lookup i.symbol f.stop_loss_cooldown_until)
  evaluate_permits ev o h =
      let r = opened p id i s f rules now ev o h in
      let limits = check_limits_facts p i s f now r.permitted.limited in
      let opening = dispatch_action_opening id i rules position i.action r.permitted.dispatched in
      let free =
        λ (until : Datetime). check_reentry_facts i f now until r.permitted.reentered opening in
      (
        opening,
        ground arith,
        ground arith,
        ground arith,
        limits.2,
        limits.3,
        (free now).0,
        cooled_down _ (λ until. (free until).1),
      )

  -- The order fits the position that it meets: it trades the side that was asked for, an ADD meets
  -- a position of that side and leverage, and an OPEN meets no position of the symbol.
  pub evaluate-SideFits :
      (ev : RiskEvaluation) (o : OrderPlan)
      → Opens p id i s f rules now ev o
      → (side : Side) × (o.side ≡ entry_side side) × SideFits i.action i.leverage position side
  evaluate-SideFits ev o h =
      let r = opened p id i s f rules now ev o h in
      (r.side, sym (ap (λ (x : OrderPlan). x.side) r.same), r.side_fits)

  -- The quantity is on or above the venue's minima, at the entry that the order is measured from.
  abbrev pub SizeFits : OrderPlan → Type 0
  SizeFits o =
      (entry : Decimal) × (o.price ≡ limit_price i.order_type entry)
      × MeasuredAt i.order_type s entry
      × (pos 0 <ℤ o.quantity)
      × ((quantity_limits rules i.order_type).minimum ≤ℤ o.quantity)
      × (rules.min_notional ≤ℤ mul o.quantity entry)

  -- The quantity of such an order is positive and not below the venue's minimum for its type, and
  -- its notional at the entry (the LIMIT price, or the mark of a MARKET order) is not below the
  -- venue's minimum.
  pub evaluate_sizes :
      (ev : RiskEvaluation) (o : OrderPlan) → Opens p id i s f rules now ev o → SizeFits o
  evaluate_sizes ev o h =
      let r = opened p id i s f rules now ev o h in
      let l = r.planned.levels in
      let sizes =
        sized_quantity_facts p i s f rules position r.side l r.planned.size r.planned.sized in
      subst SizeFits r.same
        (l.entry, refl, r.fit.at_market, r.accepted.quantity_pos, sizes.0, sizes.1)

  -- In `enforce` mode an order that opens or adds carries an assessment that passed, for the side
  -- that it trades: the plan of the intent is complete, and it meets the tests of the anchor, the
  -- extension, the alignment, the trigger and the invalidation; every check that the assessment
  -- lists has passed.
  pub evaluate_gate :
      (ev : RiskEvaluation) (o : OrderPlan)
      → Opens p id i s f rules now ev o
      → (side : Side) × (o.side ≡ entry_side side)
        × GatePassed p.structure_gate_mode i s side ev.decision.structure_assessment
  evaluate_gate ev o h =
      let r = opened p id i s f rules now ev o h in
      (
        r.side,
        ap (λ (x : OrderPlan). x.side) (sym r.same),
        subst (GatePassed p.structure_gate_mode i s r.side) (sym r.accepted.assessed)
            (check_structure-GatePassed p i s r.side r.assessment r.permitted.structured),
      )
