-- ===== src/Risk/Facts.antt =====
-- What each stage of `evaluate` guarantees when it goes on.
use candlepilot.Prelude.{
  Option-cases, ℕ, String, Bool, true, false, Option, none, some, ◌≡◌, inl, inr, arith, ◌≤◌, ◌≤ℤ◌,
  ◌<ℤ◌, lookup,
}
use candlepilot.Decimal.{Decimal}
use candlepilot.Time.{Datetime}
use candlepilot.Flow.{next}
use mathlib.Core.Path.{subst}
use candlepilot.Flow.Inversion.{after, next-injective}
use candlepilot.Domain.{
  TradeIntent, MarketSnapshot, PortfolioState, PositionState, TradeAction, add, open_long,
  open_short, Side, long, short, OrderType, market, is_add, is_opening,
}
use candlepilot.Risk.{AggressiveRiskPolicy, SymbolRules}
use candlepilot.Risk.Permission.{
  dispatch_action, check_limits, check_reentry, requested_side, is_stale, breaker_active, is_listed,
}
use candlepilot.Risk.Levels.{
  entry_levels, EntryLevels, entry_price, initial_stop, merge_stop, check_stop_uncrossed,
  take_profit_price, worse,
}

pub check_limits_facts :
    (p : AggressiveRiskPolicy) (i : TradeIntent) (s : MarketSnapshot) (f : PortfolioState)
    (now : Datetime)
    → check_limits p i s f now ≡ next tt
    → (is_stale p s now ≡ false)
      × (breaker_active p f ≡ false)
      × (i.leverage ≤ p.max_leverage)
      × (i.risk_fraction ≤ℤ p.max_risk_fraction)
unfolding check_limits
check_limits_facts p i s f now h = ground arith

-- A cooldown that has not run out lets nothing open.
pub check_reentry_facts :
    (i : TradeIntent) (f : PortfolioState) (now : Datetime) (until : Datetime)
    → check_reentry i f now ≡ next tt
    → is_opening i.action ≡ true
    → (is_listed i.symbol f.pending_entry_symbols ≡ false)
      × (lookup i.symbol f.stop_loss_cooldown_until ≡ some until → until.micros ≤ℤ now.micros)
unfolding check_reentry
check_reentry_facts i f now until h o = (ground arith, λ e. ground arith)

pub dispatch_action_opening :
    (id : String) (i : TradeIntent) (rules : SymbolRules) (x : Option PositionState)
    (a : TradeAction)
    → dispatch_action id i rules x a ≡ next tt
    → is_opening a ≡ true
unfolding dispatch_action
dispatch_action_opening id i rules x a h = ground arith

-- What an opening side says of the position it meets.
abbrev pub SideFits : TradeAction → ℕ → Option PositionState → Side → Type 0
SideFits add leverage none side = ⊥
SideFits add leverage (some x) side = (side ≡ x.side) × (leverage ≡ x.leverage)
SideFits open_long leverage x side = (side ≡ long) × (x ≡ none)
SideFits open_short leverage x side = (side ≡ short) × (x ≡ none)
SideFits _ leverage x side = Unit

pub requested_side_facts :
    (a : TradeAction) (n : ℕ) (x : Option PositionState) (side : Side)
    → requested_side a n x ≡ next side
    → SideFits a n x side
unfolding requested_side
requested_side_facts add n none side h = cc
requested_side_facts add n (some x) side h = ground arith
requested_side_facts open_long n none side h = ground arith
requested_side_facts open_long n (some x) side h = ground arith
requested_side_facts open_short n none side h = ground arith
requested_side_facts open_short n (some x) side h = ground arith
requested_side_facts _ n x side h = tt

abbrev pub LossSide : Side → Decimal → Decimal → Type 0
LossSide long a b = a <ℤ b
LossSide short a b = b <ℤ a

pub worse-LossSide : (side : Side) (a b : Decimal) → worse side a b ≡ true → LossSide side a b
worse-LossSide long a b h = ground arith
worse-LossSide short a b h = ground arith

-- At least as tight as `held`.
abbrev pub Tightened : Side → Decimal → Decimal → Type 0
Tightened long held stop = held ≤ℤ stop
Tightened short held stop = stop ≤ℤ held

abbrev pub Merged : Bool → Option PositionState → Side → Decimal → Decimal → Type 0
Merged false x side entry stop = Unit
Merged true none side entry stop = ⊥
Merged true (some x) side entry stop =
    (held : Decimal) × (x.stop_loss ≡ some held)
    × Tightened side held stop
    × LossSide side stop entry

merge_stop-Tightened :
    (x : PositionState) (held : Decimal) (side : Side) (entry stop : Decimal) (m : Decimal × Bool)
    → x.stop_loss ≡ some held
    → merge_stop true (some x) side entry stop ≡ next m
    → Tightened side held m.0 × LossSide side m.0 entry
unfolding merge_stop
merge_stop-Tightened x held long entry stop m e h = ground arith
merge_stop-Tightened x held short entry stop m e h = ground arith

merge_stop_facts :
    (b : Bool) (x : Option PositionState) (side : Side) (entry stop : Decimal) (m : Decimal × Bool)
    → merge_stop b x side entry stop ≡ next m
    → Merged b x side entry m.0
unfolding merge_stop
merge_stop_facts false x side entry stop m h = tt
merge_stop_facts true none side entry stop m h = cc
merge_stop_facts true (some x) side entry stop m h = elim (Option-cases x.stop_loss) [
  | inl missing ↦ absurd (ground arith)
  | inr (held, e) ↦
      let tight = merge_stop-Tightened x held side entry stop m e h in (held, e, tight.0, tight.1)
]

uncrossed_facts :
    (side : Side) (stop : Decimal) (s : MarketSnapshot)
    → check_stop_uncrossed side stop s ≡ next tt
    → LossSide side stop s.mark_price
unfolding check_stop_uncrossed
uncrossed_facts side stop s h = ground arith

abbrev pub TargetBeyond :
    AggressiveRiskPolicy → MarketSnapshot → Side → Decimal → Option Decimal → Type 0
TargetBeyond p s side entry none = p.require_take_profit ≡ false
TargetBeyond p s side entry (some t) = LossSide side entry t × LossSide side s.mark_price t

take_profit_facts :
    (p : AggressiveRiskPolicy) (t : Option Decimal) (s : MarketSnapshot) (rules : SymbolRules)
    (side : Side) (entry : Decimal) (t' : Option Decimal)
    → take_profit_price p t s rules side entry ≡ next t'
    → TargetBeyond p s side entry t'
unfolding take_profit_price
take_profit_facts p none s rules side entry none h = ground arith
take_profit_facts p none s rules side entry (some t') h = absurd (ground arith)
take_profit_facts p (some t) s rules side entry none h = absurd (ground arith)
take_profit_facts p (some t) s rules long entry (some t') h = ground arith
take_profit_facts p (some t) s rules short entry (some t') h = ground arith

-- A market entry is measured at the mark.
abbrev pub MeasuredAt : OrderType → MarketSnapshot → Decimal → Type 0
MeasuredAt market s entry = entry ≡ s.mark_price
MeasuredAt _ s entry = Unit

entry_price_facts :
    (t : OrderType) (price : Option Decimal) (s : MarketSnapshot) (rules : SymbolRules)
    (side : Side) (entry : Decimal)
    → entry_price t price s rules side ≡ next entry
    → MeasuredAt t s entry
unfolding entry_price
entry_price_facts market price s rules side entry h = ground arith
entry_price_facts _ price s rules side entry h = tt

-- The levels of an entry: the stop on the loss side of the mark, a target beyond both.
pub record LevelsFit (p : AggressiveRiskPolicy) (i : TradeIntent) (s : MarketSnapshot)
    (x : Option PositionState) (side : Side) (l : EntryLevels) : Type 0 where
  pub at_market : MeasuredAt i.order_type s l.entry
  pub stop_uncrossed : LossSide side l.stop s.mark_price
  pub target_beyond : TargetBeyond p s side l.entry l.take_profit
  pub merged : Merged (is_add i.action) x side l.entry l.stop

pub entry_levels_facts :
    (p : AggressiveRiskPolicy) (i : TradeIntent) (s : MarketSnapshot) (rules : SymbolRules)
    (x : Option PositionState) (side : Side) (l : EntryLevels)
    → entry_levels p i s rules x side ≡ next l
    → LevelsFit p i s x side l
unfolding entry_levels
entry_levels_facts p i s rules x side l h =
    after (entry_price i.order_type i.entry_price s rules side) _ h λ entry e1 h1.
      after (initial_stop i rules side entry) _ h1 λ first e2 h2.
        after (merge_stop (is_add i.action) x side entry first) _ h2 λ m e3 h3.
          after (check_stop_uncrossed side m.0 s) _ h3 λ _ e4 h4.
            after (take_profit_price p i.take_profit s rules side entry) _ h4 λ t e5 h5.
              subst (LevelsFit p i s x side) (next-injective h5) (record {
                at_market = entry_price_facts i.order_type i.entry_price s rules side entry e1;
                stop_uncrossed = uncrossed_facts side m.0 s e4;
                target_beyond = take_profit_facts p i.take_profit s rules side entry t e5;
                merged = merge_stop_facts (is_add i.action) x side entry first m e3;
              })
