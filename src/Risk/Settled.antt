-- ===== src/Risk/Settled.antt =====
-- What the later stages of `evaluate` guarantee: the size, the ratio and the order.
use mathlib.Core.Path.{subst}
use candlepilot.Prelude.{
  if◌then◌else◌, ltb_ℤ, String, Bool, true, false, Option, none, some, ◌≡◌, refl, arith, ◌≤ℤ◌, ◌<ℤ◌,
  pos,
}
use candlepilot.Decimal.{Decimal, sub, mul, quotient, max}
use candlepilot.Outcome.{Result, div, ok}
use candlepilot.Flow.{next, run, call}
use candlepilot.Flow.Inversion.{call-eq-next, run-call, after}
use candlepilot.Domain.{
  TradeIntent, MarketSnapshot, PortfolioState, PositionState, Side, long, short, OrderPlan,
  StructureAssessment,
}
use candlepilot.Risk.{
  AggressiveRiskPolicy, RiskEvaluation, RiskDecision, SymbolRules, quantity_limits,
}
use candlepilot.Risk.Levels.{EntryLevels}
use candlepilot.Risk.Sizing.{sized_quantity}
use candlepilot.Risk.Evaluate.{check_reward, accept, entry_order, risk_decision}
use candlepilot.Domain.Validate.{order_plan}
use candlepilot.Decimal.Order.{sub_pos-lt, sub_neg-lt}
use candlepilot.Decimal.Sign.{mul_one_pos, mul_minus_one_pos}
use candlepilot.Risk.Pricing.{direction, raw_reward_risk_ratio}
use candlepilot.Risk.Facts.{LossSide}

-- The size of an entry: on or above the venue's minima.
pub sized_quantity_facts :
    (p : AggressiveRiskPolicy) (i : TradeIntent) (s : MarketSnapshot) (f : PortfolioState)
    (rules : SymbolRules) (x : Option PositionState) (side : Side) (l : EntryLevels)
    (size : Decimal × Bool)
    → sized_quantity p i s f rules x side l ≡ next size
    → ((quantity_limits rules i.order_type).minimum ≤ℤ size.0)
      × (rules.min_notional ≤ℤ mul size.0 l.entry)
unfolding sized_quantity
sized_quantity_facts p i s f rules x side l size h = ground arith

-- The reward and the risk of an entry: its distances to the target and from the stop.
abbrev pub reward_of : Side → Decimal → Decimal → Decimal
reward_of side entry target = mul (sub target entry) (direction side)

abbrev pub risk_of : Side → Decimal → Decimal → Decimal
risk_of side entry stop = mul (sub entry stop) (direction side)

-- A ratio above a floor: that of a reward, if it is one, to a positive risk.
abbrev pub AboveFloor :
    AggressiveRiskPolicy → Side → Decimal → Decimal → Option Decimal → Option Decimal → Type 0
AboveFloor p side entry stop none ratio = ratio ≡ none
AboveFloor p side entry stop (some t) none = ⊥
AboveFloor p side entry stop (some t) (some r) =
    (p.minimum_reward_risk_ratio <ℤ r)
    × (pos 0 <ℤ risk_of side entry stop)
    × (r ≡ quotient (max (pos 0) (reward_of side entry t)) (risk_of side entry stop))

above_zero :
    (x : Decimal) → ltb_ℤ (pos 0) (max (pos 0) x) ≡ true → (pos 0 <ℤ x) × (max (pos 0) x ≡ x)
above_zero x h = (ground arith, ground arith)

div_value : (a b r : Decimal) → div a b ≡ ok r → r ≡ quotient a b
unfolding div
div_value a b r h = ground arith

positive_branch :
    (b : Bool) (x : Result Decimal) (r : Decimal)
    → (if b then x else ok (pos 0)) ≡ ok r
    → pos 0 <ℤ r
    → (b ≡ true) × (x ≡ ok r)
positive_branch true x r h g = (refl, h)
positive_branch false x r h g = absurd (ground arith)

ratio_of :
    (side : Side) (entry stop t r : Decimal)
    → raw_reward_risk_ratio side entry stop t ≡ ok r
    → pos 0 <ℤ r
    → (pos 0 <ℤ risk_of side entry stop)
      × (r ≡ quotient (max (pos 0) (reward_of side entry t)) (risk_of side entry stop))
unfolding raw_reward_risk_ratio
ratio_of side entry stop t r h g =
    let reward = max (pos 0) (reward_of side entry t) in
    let risk = risk_of side entry stop in
    let (risky, divided) =
      positive_branch (ltb_ℤ (pos 0) (max (pos 0) risk)) (div reward (max (pos 0) risk)) r h g in
    let (positive, same) = above_zero risk risky in
    (
      positive,
      subst (λ (x : Decimal). r ≡ quotient reward x) same
          (div_value reward (max (pos 0) risk) r divided),
    )

pub check_reward-AboveFloor :
    (p : AggressiveRiskPolicy) (side : Side) (entry stop : Decimal) (t : Option Decimal)
    (a : Option StructureAssessment) (ratio : Option Decimal)
    → pos 0 ≤ℤ p.minimum_reward_risk_ratio
    → check_reward p side entry stop t a ≡ next ratio
    → AboveFloor p side entry stop t ratio
unfolding check_reward
check_reward-AboveFloor p side entry stop none a ratio floor h = ground arith
check_reward-AboveFloor p side entry stop (some t) a ratio floor h =
    after (call (raw_reward_risk_ratio side entry stop t)) _ h λ r e1 h1.
      let high : p.minimum_reward_risk_ratio <ℤ r = ground arith in
      let (positive, formula) = ratio_of side entry stop t r (call-eq-next _ e1) (omega arith) in
      let recorded : some r ≡ ratio = ground arith in
      let above : AboveFloor p side entry stop (some t) (some r) = (high, positive, formula) in
      subst (AboveFloor p side entry stop (some t)) recorded above

-- A positive ratio needs a positive risk: the stop lies on the loss side of the entry.
pub ratio_needs_risk :
    (side : Side) (entry stop t r : Decimal)
    → raw_reward_risk_ratio side entry stop t ≡ ok r
    → pos 0 <ℤ r
    → LossSide side stop entry
unfolding raw_reward_risk_ratio
ratio_needs_risk long entry stop t r h g =
    grind (arith, sub_pos-lt stop entry, mul_one_pos (sub entry stop))
ratio_needs_risk short entry stop t r h g =
    grind (arith, sub_neg-lt stop entry, mul_minus_one_pos (sub entry stop))

-- So a target's ratio above a floor that is not negative puts the stop below the entry.
pub check_reward_risks :
    (p : AggressiveRiskPolicy) (side : Side) (entry stop t : Decimal)
    (a : Option StructureAssessment) (ratio : Option Decimal)
    → check_reward p side entry stop (some t) a ≡ next ratio
    → pos 0 ≤ℤ p.minimum_reward_risk_ratio
    → LossSide side stop entry
unfolding check_reward
check_reward_risks p side entry stop t a ratio h g =
    after (call (raw_reward_risk_ratio side entry stop t)) _ h λ r e1 h1.
      let high : p.minimum_reward_risk_ratio <ℤ r = ground arith in
      ratio_needs_risk side entry stop t r (call-eq-next _ e1) (omega arith)

-- An accepted entry: the order is the planned one, within its fields' bounds.
pub record Accepted (order_id : String) (i : TradeIntent) (side : Side) (l : EntryLevels)
    (quantity : Decimal) (ratio : Option Decimal) (assessment : Option StructureAssessment)
    (ev : RiskEvaluation) : Type 0 where
  pub ordered : ev.order ≡ some (entry_order order_id i side l quantity)
  pub quantity_pos : pos 0 <ℤ quantity
  pub stop_pos : pos 0 <ℤ l.stop
  pub marked : ev.decision.accepted ≡ true
  pub rated : ev.decision.pre_trade_reward_risk_ratio ≡ ratio
  pub assessed : ev.decision.structure_assessment ≡ assessment

order_plan_facts :
    (o o' : OrderPlan) (stop : Decimal)
    → order_plan o ≡ ok o'
    → o.stop_price ≡ some stop
    → (o' ≡ o) × (pos 0 <ℤ o.quantity) × (pos 0 <ℤ stop)
unfolding order_plan
order_plan_facts o o' stop h e = ground arith

risk_decision_facts : (d d' : RiskDecision) → risk_decision d ≡ ok d' → d' ≡ d
unfolding risk_decision
risk_decision_facts d d' h = ground arith

pub accept_facts :
    (id : String) (i : TradeIntent) (s : MarketSnapshot) (rules : SymbolRules) (side : Side)
    (l : EntryLevels) (size : Decimal × Bool) (measured : Decimal) (ratio : Option Decimal)
    (a : Option StructureAssessment) (ev : RiskEvaluation)
    → run (accept id i s rules side l size measured ratio a) ≡ ok ev
    → Accepted id i side l size.0 ratio a ev
unfolding accept
accept_facts id i s rules side l size measured ratio a ev h =
    run-call (order_plan (entry_order id i side l size.0)) _ h λ o e1 h1.
      run-call (risk_decision _) _ h1 λ d e2 h2.
        let placed = order_plan_facts _ o l.stop e1 refl in
        let same = risk_decision_facts _ d e2 in
        record {
          ordered = cc;
          quantity_pos = placed.1;
          stop_pos = placed.2;
          marked = cc;
          rated = cc;
          assessed = cc;
        }
