-- ===== src/Risk/Refusals.antt =====
-- A stage of `evaluate` that returns early, `dispatch_action` apart, refuses the trade.
use candlepilot.Prelude.{true, if◌then◌else◌}
use candlepilot.Outcome.{Result, ok, err}
use candlepilot.Flow.{call, return_if}
use candlepilot.Flow.Inversion.{returned-injective}
use mathlib.Core.Path.{subst}
use candlepilot.Domain.{OrderSide}
use candlepilot.Risk.Exit.{exit_quantity, exit_price}
use candlepilot.Risk.Pricing.{raw_reward_risk_ratio}
use candlepilot.Risk.Evaluate.{risk_decision}
use candlepilot.Prelude.{some, false, ℕ, Bool, Option, none, ◌≡◌, arith}
use candlepilot.Decimal.{Decimal}
use candlepilot.Time.{Datetime}
use candlepilot.Flow.{call, Flow, returned, ◌>>=◌, next, raised}
use candlepilot.Domain.{
  TradeIntent, MarketSnapshot, PortfolioState, PositionState, TradeAction, Side,
  StructureAssessment, OrderType,
}
use candlepilot.Risk.{err, ok, Result, AggressiveRiskPolicy, RiskEvaluation, SymbolRules}
use candlepilot.Risk.Permission.{
  check_request, check_limits, check_reentry, requested_side, check_structure,
}
use candlepilot.Risk.Levels.{
  entry_price, initial_stop, merge_stop, check_stop_uncrossed, take_profit_price, entry_levels,
  EntryLevels,
}
use candlepilot.Risk.Sizing.{symbol_budget, risk_budget, sized_quantity}
use candlepilot.Risk.Evaluate.{risk_decision, reject_ratio, reward_risk_entry, check_reward}

-- A decision against the trade, which carries no order.
abbrev pub Refused : RiskEvaluation → Type 0
Refused r = (r.order ≡ none) × (r.decision.accepted ≡ false)

-- What a stage returns early is a refusal.
abbrev pub Refuses : {A : Type 0} → Flow RiskEvaluation A → Type 0
Refuses m = (r : RiskEvaluation) → m ≡ returned r → Refused r

call-ne-returned :
    {A : Type 0} {C : Type 0} (m : Result A) {r : RiskEvaluation} → call m ≡ returned r → C
call-ne-returned (ok a) e = absurd (cc)
call-ne-returned (err x) e = absurd (cc)

pub Refuses->>= :
    {A B : Type 0} (m : Flow RiskEvaluation A) (f : A → Flow RiskEvaluation B)
    → Refuses m
    → ((a : A) → Refuses (f a))
    → Refuses (m >>= f)
Refuses->>= (next a) f hm hf r e = hf a r e
Refuses->>= (returned s) f hm hf r e = hm r (cc)
Refuses->>= (raised x) f hm hf r e = cc

-- A guard that refuses.
pub return_if-Refuses : (b : Bool) (r : RiskEvaluation) → Refused r → Refuses (return_if b r)
return_if-Refuses true r h s e = subst Refused (returned-injective e) h
return_if-Refuses false r h s e = absurd (cc)

pub exit_quantity-Refuses : (a : TradeAction) (q step : Decimal) → Refuses (exit_quantity a q step)
unfolding exit_quantity
exit_quantity-Refuses a q step r e = ground arith

pub exit_price-Refuses :
    (t : OrderType) (side : OrderSide) (price : Option Decimal) (tick : Decimal)
    → Refuses (exit_price t side price tick)
unfolding exit_price
exit_price-Refuses t side price tick r e = ground arith

pub check_request-Refuses :
    (i : TradeIntent) (s : MarketSnapshot) (now : Datetime) → Refuses (check_request i s now)
unfolding check_request
check_request-Refuses i s now r e = ground arith

pub check_limits-Refuses :
    (p : AggressiveRiskPolicy) (i : TradeIntent) (s : MarketSnapshot) (f : PortfolioState)
    (now : Datetime)
    → Refuses (check_limits p i s f now)
unfolding check_limits
check_limits-Refuses p i s f now r e = ground arith

pub check_reentry-Refuses :
    (i : TradeIntent) (f : PortfolioState) (now : Datetime) → Refuses (check_reentry i f now)
unfolding check_reentry
check_reentry-Refuses i f now r e = ground arith

pub requested_side-Refuses :
    (a : TradeAction) (n : ℕ) (x : Option PositionState) → Refuses (requested_side a n x)
unfolding requested_side
requested_side-Refuses a n x r e = ground arith

pub check_structure-Refuses :
    (p : AggressiveRiskPolicy) (i : TradeIntent) (s : MarketSnapshot) (side : Side)
    → Refuses (check_structure p i s side)
unfolding check_structure
check_structure-Refuses p i s side r e = ground arith

entry_price-Refuses :
    (o : OrderType) (price : Option Decimal) (s : MarketSnapshot) (rules : SymbolRules)
    (side : Side)
    → Refuses (entry_price o price s rules side)
unfolding entry_price
entry_price-Refuses o price s rules side r e = ground arith

initial_stop-Refuses :
    (i : TradeIntent) (rules : SymbolRules) (side : Side) (entry : Decimal)
    → Refuses (initial_stop i rules side entry)
unfolding initial_stop
initial_stop-Refuses i rules side entry r e = ground arith

merge_stop-Refuses :
    (b : Bool) (x : Option PositionState) (side : Side) (entry stop : Decimal)
    → Refuses (merge_stop b x side entry stop)
unfolding merge_stop
merge_stop-Refuses b x side entry stop r e = ground arith

uncrossed-Refuses :
    (side : Side) (stop : Decimal) (s : MarketSnapshot) → Refuses (check_stop_uncrossed side stop s)
unfolding check_stop_uncrossed
uncrossed-Refuses side stop s r e = ground arith

take_profit_price-Refuses :
    (p : AggressiveRiskPolicy) (target : Option Decimal) (s : MarketSnapshot) (rules : SymbolRules)
    (side : Side) (entry : Decimal)
    → Refuses (take_profit_price p target s rules side entry)
unfolding take_profit_price
take_profit_price-Refuses p target s rules side entry r e = ground arith

pub entry_levels-Refuses :
    (p : AggressiveRiskPolicy) (i : TradeIntent) (s : MarketSnapshot) (rules : SymbolRules)
    (x : Option PositionState) (side : Side)
    → Refuses (entry_levels p i s rules x side)
unfolding entry_levels
entry_levels-Refuses p i s rules x side =
    Refuses->>= _ _ (entry_price-Refuses _ _ s rules side) λ entry.
      Refuses->>= _ _ (initial_stop-Refuses i rules side entry) λ first.
        Refuses->>= _ _ (merge_stop-Refuses _ x side entry first) λ merged.
          Refuses->>= _ _ (uncrossed-Refuses side merged.0 s)
            λ _. Refuses->>= _ _ (take_profit_price-Refuses p _ s rules side entry) λ target r e. cc

symbol_budget-Refuses :
    (p : AggressiveRiskPolicy) (i : TradeIntent) (s : MarketSnapshot) (f : PortfolioState)
    (rules : SymbolRules) (x : Option PositionState) (side : Side) (l : EntryLevels) (b : Bool)
    → Refuses (symbol_budget p i s f rules x side l b)
unfolding symbol_budget
symbol_budget-Refuses p i s f rules x side l b r e = ground arith

risk_budget-Refuses :
    (p : AggressiveRiskPolicy) (i : TradeIntent) (s : MarketSnapshot) (f : PortfolioState)
    (rules : SymbolRules) (x : Option PositionState) (side : Side) (l : EntryLevels)
    → Refuses (risk_budget p i s f rules x side l)
unfolding risk_budget
risk_budget-Refuses p i s f rules x side l =
    Refuses->>= _ _ (symbol_budget-Refuses p i s f rules x side l _) λ part r e. ground arith

pub sized_quantity-Refuses :
    (p : AggressiveRiskPolicy) (i : TradeIntent) (s : MarketSnapshot) (f : PortfolioState)
    (rules : SymbolRules) (x : Option PositionState) (side : Side) (l : EntryLevels)
    → Refuses (sized_quantity p i s f rules x side l)
unfolding sized_quantity
sized_quantity-Refuses p i s f rules x side l =
    Refuses->>= _ _ (risk_budget-Refuses p i s f rules x side l) λ budget r e. ground arith

pub reward_risk_entry-Refuses :
    (b : Bool) (x : Option PositionState) (entry q : Decimal)
    → Refuses (reward_risk_entry b x entry q)
unfolding reward_risk_entry
reward_risk_entry-Refuses b x entry q r e = ground arith

reject_ratio-Refuses :
    (p : AggressiveRiskPolicy) (entry stop t r : Decimal) (a : Option StructureAssessment)
    → Refuses (reject_ratio p entry stop t r a)
unfolding reject_ratio risk_decision
reject_ratio-Refuses p entry stop t ratio a r e = ground arith

reward_verdict-Refuses :
    (b : Bool) (m : Flow RiskEvaluation (Option Decimal)) (ratio : Decimal)
    → Refuses m
    → Refuses (if b then m else next (some ratio))
reward_verdict-Refuses true m ratio h r e = h r e
reward_verdict-Refuses false m ratio h r e = absurd (cc)

pub check_reward-Refuses :
    (p : AggressiveRiskPolicy) (side : Side) (entry stop : Decimal) (t : Option Decimal)
    (a : Option StructureAssessment)
    → Refuses (check_reward p side entry stop t a)
unfolding check_reward
check_reward-Refuses p side entry stop none a = λ r e. absurd (cc)
check_reward-Refuses p side entry stop (some t) a =
    Refuses->>= (call (raw_reward_risk_ratio side entry stop t)) _ (λ r e. call-ne-returned _ e)
      λ ratio. reward_verdict-Refuses _ _ ratio (reject_ratio-Refuses p entry stop t ratio a)
