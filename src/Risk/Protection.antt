-- ===== src/Risk/Protection.antt =====
-- What `AggressiveRiskPolicy.evaluate` guarantees of the stop and the target of an order that opens
-- or adds.
use mathlib.Core.Path.{subst}
use candlepilot.Prelude.{
  arith, ℕ, String, Bool, true, false, Option, none, some, ◌≡◌, refl, sym, ◌∙◌, ap, ◌≤ℤ◌, ◌<ℤ◌, pos,
  lookup,
}
use candlepilot.Decimal.{Decimal, mul, add as add_up}
use candlepilot.Outcome.{ok, div}
use candlepilot.Flow.Inversion.{call-eq-next}
use candlepilot.Time.{Datetime}
use candlepilot.Flow.{next}
use candlepilot.Domain.{
  TradeIntent, MarketSnapshot, PortfolioState, PositionState, TradeAction, add, Side, OrderPlan,
  is_add, entry_side,
}
use candlepilot.Risk.{AggressiveRiskPolicy, RiskEvaluation, SymbolRules}
use candlepilot.Risk.Evaluate.{limit_price, reward_risk_entry}
use candlepilot.Risk.Facts.{SideFits, MeasuredAt, LossSide, Merged, Tightened, TargetBeyond}
use candlepilot.Risk.Settled.{AboveFloor, check_reward-AboveFloor, check_reward_risks}
use candlepilot.Risk.Opened.{Opens, opened}

-- What an ADD that has passed the sides and the stops meets.
add_fits :
    (a : TradeAction) (n : ℕ) (x : Option PositionState) (side : Side) (entry stop : Decimal)
    → is_add a ≡ true
    → SideFits a n x side
    → Merged (is_add a) x side entry stop
    → (y : PositionState) × (held : Decimal) × (x ≡ some y)
      × (side ≡ y.side)
      × (y.stop_loss ≡ some held)
      × Tightened side held stop
      × LossSide side stop entry
add_fits add n none side entry stop e fits merged = absurd merged
add_fits add n (some y) side entry stop e fits merged =
    (y, merged.0, refl, fits.0, merged.1, merged.2, merged.3)
add_fits _ n x side entry stop e fits merged = absurd (cc)

measured_entry :
    (b : Bool) (x : Option PositionState) (entry q measured : Decimal)
    → b ≡ false
    → reward_risk_entry b x entry q ≡ next measured
    → measured ≡ entry
unfolding reward_risk_entry
measured_entry true x entry q measured e h = absurd (cc)
measured_entry false x entry q measured e h = cc

-- The entry that a ratio is measured at.
abbrev pub Averaged : Bool → Option PositionState → Decimal → Decimal → Decimal → Type 0
Averaged false x entry q measured = measured ≡ entry
Averaged true none entry q measured = ⊥
Averaged true (some y) entry q measured =
    div (add_up (mul y.entry_price y.quantity) (mul entry q)) (add_up y.quantity q) ≡ ok measured

reward_risk_entry-Averaged :
    (b : Bool) (x : Option PositionState) (entry q measured : Decimal)
    → reward_risk_entry b x entry q ≡ next measured
    → Averaged b x entry q measured
unfolding reward_risk_entry
reward_risk_entry-Averaged false x entry q measured h =
    measured_entry false x entry q measured refl h
reward_risk_entry-Averaged true none entry q measured h = absurd (ground arith)
reward_risk_entry-Averaged true (some y) entry q measured h = call-eq-next _ h

module _ (p : AggressiveRiskPolicy) (id : String) (i : TradeIntent) (s : MarketSnapshot)
    (f : PortfolioState) (rules : SymbolRules) (now : Datetime) where
  abbrev position : Option PositionState
  position = lookup i.symbol f.positions

  -- The prices of the order, on the side that it trades.
  pub record Bracket (o : OrderPlan) : Type 0 where
    pub side : Side
    pub entry : Decimal
    pub stop : Decimal
    pub sided : o.side ≡ entry_side side
    pub priced : o.price ≡ limit_price i.order_type entry
    pub at_market : MeasuredAt i.order_type s entry
    pub stopped : o.stop_price ≡ some stop
    pub stop_pos : pos 0 <ℤ stop
    pub stop_uncrossed : LossSide side stop s.mark_price
    pub target_beyond : TargetBeyond p s side entry o.take_profit_price

  -- Every order that opens or adds carries a positive stop strictly on the losing side of the mark,
  -- and a target strictly beyond both the entry and the mark; it has no target only if the policy
  -- asks for none. A LIMIT order's price is that entry, and a MARKET order's entry is the mark.
  pub evaluate_brackets :
      (ev : RiskEvaluation) (o : OrderPlan) → Opens p id i s f rules now ev o → Bracket o
  evaluate_brackets ev o h =
      let r = opened p id i s f rules now ev o h in
      let l = r.planned.levels in
      subst Bracket r.same (record {
        side = r.side;
        entry = l.entry;
        stop = l.stop;
        sided = refl;
        priced = refl;
        at_market = r.fit.at_market;
        stopped = refl;
        stop_pos = r.accepted.stop_pos;
        stop_uncrossed = r.fit.stop_uncrossed;
        target_beyond = r.fit.target_beyond;
      })

  -- The order of an ADD, and the position that it joins.
  abbrev pub Tightens : OrderPlan → Type 0
  Tightens o =
      (x : PositionState) × (held : Decimal) × (stop : Decimal) × (entry : Decimal) × (position
        ≡ some x)
      × (x.stop_loss ≡ some held)
      × (o.side ≡ entry_side x.side)
      × (o.stop_price ≡ some stop)
      × (o.price ≡ limit_price i.order_type entry)
      × Tightened x.side held stop
      × LossSide x.side stop entry

  -- An ADD never loosens the stop of the position that it joins: it trades the side of a position
  -- that has a stop, and the order's stop is at least as tight as that one and still strictly on
  -- the losing side of the entry.
  pub evaluate_add_tightens :
      (ev : RiskEvaluation) (o : OrderPlan)
      → Opens p id i s f rules now ev o
      → is_add i.action ≡ true
      → Tightens o
  evaluate_add_tightens ev o h adds =
      let r = opened p id i s f rules now ev o h in
      let l = r.planned.levels in
      let (x, held, at, sided, stopped, tight, loss) =
        add_fits i.action i.leverage position r.side l.entry l.stop adds r.side_fits r.fit.merged in
      subst Tightens r.same (
        x,
        held,
        l.stop,
        l.entry,
        at,
        stopped,
        ap entry_side sided,
        refl,
        refl,
        subst (λ (d : Side). Tightened d held l.stop) sided tight,
        subst (λ (d : Side). LossSide d l.stop l.entry) sided loss,
      )

  -- The prices that the ratio of an order is made of.
  pub record Rewarded (o : OrderPlan) (ratio : Option Decimal) : Type 0 where
    pub side : Side
    pub entry : Decimal
    pub stop : Decimal
    pub measured : Decimal
    pub sided : o.side ≡ entry_side side
    pub priced : o.price ≡ limit_price i.order_type entry
    pub at_market : MeasuredAt i.order_type s entry
    pub stopped : o.stop_price ≡ some stop
    pub averaged : Averaged (is_add i.action) position entry o.quantity measured
    pub above : AboveFloor p side measured stop o.take_profit_price ratio

  -- If the policy's floor is not negative: with a target, the decision records a ratio that exceeds
  -- the floor, and it is the distance from the measured entry to the target (0 if it lies behind),
  -- divided by the distance from the stop to the measured entry, which is positive; without a target
  -- no ratio is recorded. The stop and the target are the order's. The measured entry is the order's
  -- limit or the mark, and for an ADD its average, by quantity, with the entry of the position.
  pub evaluate_reward_floor :
      (ev : RiskEvaluation) (o : OrderPlan)
      → Opens p id i s f rules now ev o
      → pos 0 ≤ℤ p.minimum_reward_risk_ratio
      → Rewarded o ev.decision.pre_trade_reward_risk_ratio
  evaluate_reward_floor ev o h floor =
      let r = opened p id i s f rules now ev o h in
      let l = r.planned.levels in
      let above =
        check_reward-AboveFloor p r.side r.planned.measured l.stop l.take_profit r.assessment
          r.planned.ratio floor r.planned.rewarded in
      subst (λ (x : OrderPlan). Rewarded x ev.decision.pre_trade_reward_risk_ratio) r.same
        (record {
          side = r.side;
          entry = l.entry;
          stop = l.stop;
          measured = r.planned.measured;
          sided = refl;
          priced = refl;
          at_market = r.fit.at_market;
          stopped = refl;
          averaged =
              reward_risk_entry-Averaged (is_add i.action) position l.entry r.planned.size.0
                r.planned.measured r.planned.averaged;
          above =
              subst (AboveFloor p r.side r.planned.measured l.stop l.take_profit)
                (sym r.accepted.rated) above;
        })

  -- The stop lies strictly on the losing side of the entry.
  abbrev pub StopBelowEntry : OrderPlan → Type 0
  StopBelowEntry o =
      (side : Side) × (entry : Decimal) × (stop : Decimal) × (o.side ≡ entry_side side)
      × (o.price ≡ limit_price i.order_type entry)
      × (o.stop_price ≡ some stop)
      × LossSide side stop entry

  -- If the policy's floor is not negative, a new position with a target has its stop strictly on
  -- the losing side of the entry, also after both have gone to the price grid.
  pub evaluate_target_risk :
      (ev : RiskEvaluation) (o : OrderPlan) (t : Decimal)
      → Opens p id i s f rules now ev o
      → is_add i.action ≡ false
      → o.take_profit_price ≡ some t
      → pos 0 ≤ℤ p.minimum_reward_risk_ratio
      → StopBelowEntry o
  evaluate_target_risk ev o t h fresh target floor =
      let r = opened p id i s f rules now ev o h in
      let l = r.planned.levels in
      let at =
        measured_entry (is_add i.action) position l.entry r.planned.size.0 r.planned.measured fresh
          r.planned.averaged in
      let t_eq : l.take_profit ≡ some t =
        ap (λ (x : OrderPlan). x.take_profit_price) r.same ∙ target in
      let risks =
        check_reward_risks p r.side r.planned.measured l.stop t r.assessment r.planned.ratio
          (rw t_eq at r.planned.rewarded) floor in
      subst StopBelowEntry r.same
        (r.side, l.entry, l.stop, refl, refl, refl, subst (LossSide r.side l.stop) at risks)
