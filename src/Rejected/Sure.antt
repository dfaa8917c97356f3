-- ===== src/Rejected/Sure.antt =====
-- About an outcome of `evaluate_rejected_decision`: the bar that decides it, and the entry.
use candlepilot.Prelude.{◌≡◌, refl, Bool, true, false, Option, none, some, ◌||◌, ◌&&◌, ◌⊎◌}
use candlepilot.Decimal.{Decimal}
use candlepilot.Time.{Datetime, before}
use candlepilot.Outcome.{Error, raise_if, ◌>>◌, Result, ok, err, assertion_error, require, ◌>>=◌}
use candlepilot.Outcomes.{Kline}
use candlepilot.Outcomes.Evaluate.{touches}
use candlepilot.Rejected.{
  RejectedStatus, waiting_entry, active, take_profit_hit, stop_loss_hit, expired_unfilled,
  invalidated_before_entry, target_before_entry, ambiguous, RejectedDecisionPlan,
  RejectedDecisionOutcome, State, is_limit,
}
use candlepilot.Rejected.Evaluate.{not_before, RejectedStep, expiry, end_of}

-- A call that raises nothing, and whose value has `P`.
abbrev pub Gives {κ} : {V : Type κ} → (V → Type 0) → Result V → Type 0
Gives P (err problem) = ⊥
Gives P (ok value) = P value

pub chain-Gives {κ μ} :
    {V : Type κ} {W : Type μ} (P : W → Type 0) (Q : V → Type 0) (r : Result V) (rest : V → Result W)
    → Gives Q r
    → ((value : V) → Q value → Gives P (rest value))
    → Gives P (r >>= rest)
chain-Gives P Q (err problem) rest h then_rest = absurd h
chain-Gives P Q (ok value) rest h then_rest = then_rest value h

pub require-Gives {κ} :
    {W : Type κ} (P : W → Type 0) (o : Option Decimal) (price : Decimal) (rest : Decimal → Result W)
    → o ≡ some price
    → Gives P (rest price)
    → Gives P (require o assertion_error >>= rest)
require-Gives P o price rest e h = rw e h

pub passes :
    (b : Bool) (problem : Error) (rest : Result (Unit {0}))
    → (raise_if b problem >> rest) ≡ ok tt
    → (b ≡ false) × (rest ≡ ok tt)
passes true problem rest h = absurd (cc)
passes false problem rest h = (refl, h)

-- The price at which a plan enters, which a bar touches or not.
abbrev pub EntryTouched : RejectedDecisionPlan → Kline → Bool → Type 0
EntryTouched plan bar touched =
    (price : Decimal) × (plan.entry_price ≡ some price) × (touches bar price ≡ touched)

abbrev pub Sure : RejectedStatus → RejectedDecisionPlan → Kline → Type 0
Sure stop_loss_hit p bar = (touches bar p.stop_loss ≡ true) × (touches bar p.take_profit ≡ false)
Sure take_profit_hit p bar = (touches bar p.stop_loss ≡ false) × (touches bar p.take_profit ≡ true)
Sure invalidated_before_entry p bar =
    EntryTouched p bar false
    × (touches bar p.stop_loss ≡ true)
    × (touches bar p.take_profit ≡ false)
Sure target_before_entry p bar =
    EntryTouched p bar false
    × (touches bar p.stop_loss ≡ false)
    × (touches bar p.take_profit ≡ true)
Sure ambiguous p bar =
    ((touches bar p.stop_loss && touches bar p.take_profit) ≡ true)
    ⊎ (EntryTouched p bar true × ((touches bar p.stop_loss || touches bar p.take_profit) ≡ true))
Sure _ p bar = ⊥

abbrev pub is_open : RejectedStatus → Bool
is_open waiting_entry = true
is_open active = true
is_open _ = false

pub data Explained (B : Bool → Kline → Type 0) (plan : RejectedDecisionPlan)
    (observation_end : Option Datetime) (o : RejectedDecisionOutcome) : Type 0 where
  undecided : is_open o.status ≡ true → o.resolved_at ≡ none → Explained B plan observation_end o
  expired_by :
      (bar : Kline) (is_minute : Bool)
      → B is_minute bar
      → before (expiry plan) (end_of is_minute bar) ≡ true
      → o.status ≡ expired_unfilled
      → o.resolved_at ≡ some (expiry plan)
      → is_limit plan.order_type ≡ true
      → Explained B plan observation_end o
  expired_at_end :
      not_before (expiry plan) observation_end ≡ true
      → o.status ≡ expired_unfilled
      → o.resolved_at ≡ some (expiry plan)
      → is_limit plan.order_type ≡ true
      → Explained B plan observation_end o
  decided_by :
      (bar : Kline) (is_minute : Bool)
      → B is_minute bar
      → o.resolved_at ≡ some bar.open_time
      → Sure o.status plan bar
      → Explained B plan observation_end o

-- An entry: at once at the market, or by a bar that ends before the order expires.
pub data EntryOf (B : Bool → Kline → Type 0) (plan : RejectedDecisionPlan) (at : Option Datetime)
    : Type 0 where
  not_entered : at ≡ none → EntryOf B plan at
  at_once : is_limit plan.order_type ≡ false → at ≡ some plan.evaluated_at → EntryOf B plan at
  entered_by :
      (bar : Kline) (is_minute : Bool)
      → B is_minute bar
      → EntryTouched plan bar true
      → before (expiry plan) (end_of is_minute bar) ≡ false
      → at ≡ some bar.open_time
      → EntryOf B plan at

module _ (B : Bool → Kline → Type 0) (plan : RejectedDecisionPlan)
    (observation_end : Option Datetime) where
  abbrev pub Told : RejectedDecisionOutcome → Type 0
  Told o = Explained B plan observation_end o × EntryOf B plan o.entry_at

  abbrev pub Idle : Bool → Type 0
  Idle true = Unit
  Idle false = is_limit plan.order_type ≡ true

  abbrev pub Held : State → Type 0
  Held s = Idle s.active × EntryOf B plan s.entry_at

  abbrev pub ToldSome : Option RejectedDecisionOutcome → Type 0
  ToldSome none = Unit
  ToldSome (some o) = Told o

  abbrev pub HeldStep : RejectedStep → Type 0
  HeldStep step = Held step.0 × ToldSome step.1

  -- A limit plan has a price.
  abbrev pub Priced : Type 0
  Priced =
      (is_limit plan.order_type ≡ false) ⊎ ((price : Decimal) × (plan.entry_price ≡ some price))
