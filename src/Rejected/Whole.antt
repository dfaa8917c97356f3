-- ===== src/Rejected/Whole.antt =====
-- About all bars in `evaluate_rejected_decision`.
use mathlib.Core.Path.{subst}
use candlepilot.Prelude.{
  ℕ, suc, ◌≡◌, refl, Bool, true, false, Option, none, some, List, [], ◌∷◌, ◌||◌, ◌&&◌, not,
  if_branches, All, inl, inr, leb_ℤ, pos, if◌then◌else◌,
}
use candlepilot.Decimal.{Decimal}
use candlepilot.Time.{Datetime}
use candlepilot.Outcome.{Result, ok}
use candlepilot.Outcomes.{Kline}
use candlepilot.Outcomes.Evaluate.{Refinements, refinement_at, is_given}
use candlepilot.Outcomes.Every.{AllMinutes, AllGiven, refinement_at-AllMinutes}
use candlepilot.Rejected.{
  waiting_entry, active, PriceBasis, RejectedDecisionPlan, RejectedDecisionOutcome, State, is_limit,
  no_price, post_init,
}
use candlepilot.Rejected.Evaluate.{
  expiry, bars_at, first_state, rejected_bar, go_on, rejected_each, not_before, rejected_from,
  evaluate_rejected_decision,
}
use candlepilot.Rejected.Sure.{
  Gives, chain-Gives, passes, undecided, expired_at_end, EntryOf, not_entered, at_once, Told, Idle,
  Held, ToldSome, HeldStep, Priced, is_open,
}
use candlepilot.Rejected.Bars.{late_limit, late_bar, rejected_bar-HeldStep}

module _ (B : Bool → Kline → Type 0) (plan : RejectedDecisionPlan) (started : Datetime)
    (basis : PriceBasis) (observation_end : Option Datetime) where
  go_on-Gives :
      {V : Type 0} (P : V → Type 0) (o : Option RejectedDecisionOutcome) (onward : Result V)
      (give : RejectedDecisionOutcome → Result V)
      → (ToldSome B plan observation_end) o
      → Gives P onward
      → ((o : RejectedDecisionOutcome) → (Told B plan observation_end) o → Gives P (give o))
      → Gives P (go_on o onward give)
  go_on-Gives P none onward give h k f = k
  go_on-Gives P (some o) onward give h k f = f o h

  open_either : (now_active : Bool) → is_open (if now_active then active else waiting_entry) ≡ true
  open_either true = refl
  open_either false = refl

  bars_at-All :
      (o : Option (List Kline)) (bar : Kline)
      → AllGiven (B true) o
      → B false bar
      → All (B (is_given o)) (bars_at o bar)
  bars_at-All none bar all h = (h, tt)
  bars_at-All (some bars) bar all h = all

  rejected_each-HeldStep :
      (is_minute : Bool) (s : State) (bars : List Kline) (n : ℕ)
      → (Priced B plan observation_end)
      → All (B is_minute) bars
      → (Held B plan observation_end) s
      → Gives
          (HeldStep B plan observation_end)
          (rejected_each plan started basis is_minute s bars n)
  unfolding rejected_each
  rejected_each-HeldStep is_minute s [] n priced all h = (h, tt)
  rejected_each-HeldStep is_minute s (bar ∷ bars) n priced all h =
      chain-Gives ((HeldStep B plan observation_end)) (HeldStep B plan observation_end)
        (rejected_bar plan started basis is_minute s bar n) _
        (rejected_bar-HeldStep B plan started basis observation_end is_minute s bar n priced all.0
          h)
        (λ step k.
          go_on-Gives (HeldStep B plan observation_end) step.1
            (rejected_each plan started basis is_minute step.0 bars n) (λ o. ok (step.0, some o))
            k.1 (rejected_each-HeldStep is_minute step.0 bars n priced all.1 k.0)
            (λ o told. (k.0, told)))

  rejected_from-Told :
      (s : State) (bars : List Kline) (n : ℕ) (refinements : Refinements)
      → (Priced B plan observation_end)
      → All (B false) bars
      → AllMinutes (B true) refinements
      → (Held B plan observation_end) s
      → Gives
          (Told B plan observation_end)
          (rejected_from plan started basis s bars n refinements observation_end)
  unfolding rejected_from
  rejected_from-Told s [] n refinements priced all minutes h =
      if_branches (Told B plan observation_end)
        (not s.active && not_before (expiry plan) observation_end)
        (λ c.
          let ended = not_before (expiry plan) observation_end in
          let told =
            expired_at_end (late_bar s.active ended c) refl refl
              (subst (Idle B plan observation_end) (late_limit s.active ended c) h.0) in
          (told, h.1))
        (λ _. (undecided (open_either s.active) refl, h.1))
  rejected_from-Told s (bar ∷ bars) n refinements priced all minutes h =
      let refinement = refinement_at bar.open_time refinements in
      chain-Gives (Told B plan observation_end) (HeldStep B plan observation_end)
        (rejected_each plan started basis (is_given refinement) s (bars_at refinement bar) (suc n))
        _
        (rejected_each-HeldStep (is_given refinement) s (bars_at refinement bar) (suc n) priced
          (bars_at-All refinement bar
            (refinement_at-AllMinutes (B true) bar.open_time refinements minutes) all.0)
          h)
        (λ step k.
          go_on-Gives (Told B plan observation_end) step.1
            (rejected_from plan started basis step.0 bars (suc n) refinements observation_end)
            (λ o. ok o) k.1
            (rejected_from-Told step.0 bars (suc n) refinements priced all.1 minutes k.0)
            (λ o told. told))

module _ (B : Bool → Kline → Type 0) (plan : RejectedDecisionPlan) (started : Datetime)
    (basis : PriceBasis) (observation_end : Option Datetime) where
  starts-Held :
      (resting : Bool)
      → is_limit plan.order_type ≡ resting
      → Idle B plan observation_end (not resting)
        × EntryOf B plan (if not resting then some plan.evaluated_at else none)
  starts-Held true e = (e, not_entered refl)
  starts-Held false e = (tt, at_once e refl)

  missing_price : (o : Option Decimal) → no_price o ≡ false → (price : Decimal) × (o ≡ some price)
  missing_price none h = absurd (cc)
  missing_price (some price) h = (price, refl)

  limit-Priced :
      (resting : Bool)
      → is_limit plan.order_type ≡ resting
      → (resting && no_price plan.entry_price) ≡ false
      → Priced B plan observation_end
  limit-Priced true e h = inr (missing_price plan.entry_price h)
  limit-Priced false e h = inl e

  post_init-Priced : post_init plan ≡ ok tt → Priced B plan observation_end
  unfolding post_init
  post_init-Priced valid =
      let aware = passes (not plan.evaluated_at.aware) _ _ valid in
      let positive =
        passes (leb_ℤ plan.stop_loss (pos 0) || leb_ℤ plan.take_profit (pos 0)) _ _ aware.1 in
      let priced = passes (is_limit plan.order_type && no_price plan.entry_price) _ _ positive.1 in
      limit-Priced (is_limit plan.order_type) refl priced.0

-- A plan that passes its checks is always evaluated: the assertion on the entry price never fails.
-- Where every candle has `B false` and every minute `B true`, the outcome is undecided and has no
-- time, or a limit plan expired_at_end, or a candle or a minute with its `B`, at whose open it is resolved,
-- decides it: the stop by one that does not touch the target, the target by one that does not touch
-- the stop, before the entry by one that does not touch the entry either, an ambiguous one by one
-- that touches both or the entry and one of them. An entry is the evaluation's, at the market, or
-- that of a limit plan by one that touches the entry price and ends by the expiry: a candle with
-- `B false` five minutes after its open, a minute with `B true` one minute after it.
pub evaluate_rejected_decision-Told :
    (B : Bool → Kline → Type 0) (plan : RejectedDecisionPlan) (started : Datetime)
    (basis : PriceBasis) (bars : List Kline) (refinements : Refinements)
    (observation_end : Option Datetime)
    → post_init plan ≡ ok tt
    → All (B false) bars
    → AllMinutes (B true) refinements
    → Gives
        (Told B plan observation_end)
        (evaluate_rejected_decision plan started basis bars refinements observation_end)
unfolding evaluate_rejected_decision
evaluate_rejected_decision-Told B plan started basis bars refinements observation_end valid all
      minutes =
    rejected_from-Told B plan started basis observation_end (first_state plan) bars 0 refinements
      (post_init-Priced B plan started basis observation_end valid) all minutes
      (starts-Held B plan started basis observation_end (is_limit plan.order_type) refl)
