-- ===== src/Rejected/Evaluate.antt =====
-- `evaluate_rejected_decision`.
use candlepilot.Prelude.{
  ℕ, suc, ◌-◌, ◌*◌, Bool, true, false, Option, none, some, List, [], ◌∷◌, ◌||◌, ◌&&◌, not, pos,
  if◌then◌else◌,
}
use candlepilot.Decimal.{Decimal}
use candlepilot.Time.{Datetime, before, not_after, shift, seconds}
use candlepilot.Outcome.{Result, ok, assertion_error, require, ◌>>=◌}
use candlepilot.Domain.{OrderType}
use candlepilot.Outcomes.{Kline}
use candlepilot.Outcomes.Clock.{minute}
use candlepilot.Outcomes.Evaluate.{Refinements, refinement_at, is_given, touches}
use candlepilot.Rejected.{
  RejectedStatus, waiting_entry, active, take_profit_hit, stop_loss_hit, expired_unfilled,
  invalidated_before_entry, target_before_entry, ambiguous, PriceBasis, RejectedDecisionPlan,
  RejectedDecisionOutcome, State, is_limit,
}

abbrev pub is_market : OrderType → Bool
is_market order_type = not (is_limit order_type)

abbrev pub RejectedStep : Type 0
RejectedStep = State × Option RejectedDecisionOutcome

abbrev pub expiry : RejectedDecisionPlan → Datetime
expiry plan = shift plan.evaluated_at (seconds plan.ttl_seconds)

abbrev pub end_of : Bool → Kline → Datetime
end_of is_minute bar = shift bar.open_time (pos (if is_minute then minute else 5 * minute))

-- `refinements.get(base_bar.open_time, [base_bar])`
abbrev pub bars_at : Option (List Kline) → Kline → List Kline
bars_at none bar = bar ∷ []
bars_at (some bars) bar = bars

abbrev pub first_state : RejectedDecisionPlan → State
first_state plan = record {
  active = is_market plan.order_type;
  entry_at = if is_market plan.order_type then some plan.evaluated_at else none;
  observed_until = none;
}

-- The rest of a loop, unless a bar gave an outcome.
abbrev pub go_on :
    {V : Type 0} → Option RejectedDecisionOutcome → V → (RejectedDecisionOutcome → V) → V
go_on none onward give = onward
go_on (some o) onward give = give o

-- `observation_end is not None and observation_end >= t`
abbrev pub not_before : Datetime → Option Datetime → Bool
not_before t none = false
not_before t (some end) = not_after t end

module _ (plan : RejectedDecisionPlan) (started : Datetime) (basis : PriceBasis) where
  -- `_outcome`
  abbrev pub outcome_of : RejectedStatus → ℕ → State → Option Datetime → RejectedDecisionOutcome
  outcome_of status n s resolved_at = record {
    status = status;
    plan = plan;
    price_basis = basis;
    bars_observed = n;
    observation_started_at = started;
    observed_until = s.observed_until;
    entry_at = s.entry_at;
    resolved_at = resolved_at;
    minutes_missing = false;
  }

  -- A bar before the entry at a price.
  unfoldable pub unentered_bar : Decimal → State → Kline → ℕ → RejectedStep
  unentered_bar price s bar n =
      let entry = touches bar price in
      let stop = touches bar plan.stop_loss in
      let target = touches bar plan.take_profit in
      if entry && (stop || target)
      then (s, some (outcome_of ambiguous n s (some bar.open_time)))
      else if not entry && stop && target
      then (s, some (outcome_of ambiguous n s (some bar.open_time)))
      else if not entry && stop
      then (s, some (outcome_of invalidated_before_entry n s (some bar.open_time)))
      else if not entry && target
      then (s, some (outcome_of target_before_entry n s (some bar.open_time)))
      else if entry
      then (record s { active = true; entry_at = some bar.open_time }, none)
      else (s, none)

  unfoldable pub active_bar : State → Kline → ℕ → RejectedStep
  active_bar s bar n =
      let stop = touches bar plan.stop_loss in
      let target = touches bar plan.take_profit in
      if stop && target
      then (s, some (outcome_of ambiguous n s (some bar.open_time)))
      else if stop
      then (s, some (outcome_of stop_loss_hit n s (some bar.open_time)))
      else if target
      then (s, some (outcome_of take_profit_hit n s (some bar.open_time)))
      else (s, none)

  -- The body of the inner loop, in the `n`th bar.
  unfoldable pub rejected_bar : Bool → State → Kline → ℕ → Result RejectedStep
  rejected_bar is_minute s bar n =
      let bar_end = end_of is_minute bar in
      let seen = record s { observed_until = some bar_end } in
      if not s.active && before (expiry plan) bar_end
      then ok (s, some (outcome_of expired_unfilled (n - 1) s (some (expiry plan))))
      else if s.active
      then ok (active_bar seen bar n)
      else (require plan.entry_price assertion_error >>= λ price.
          ok (unentered_bar price seen bar n))

  unfoldable pub rejected_each : Bool → State → List Kline → ℕ → Result RejectedStep
  rejected_each is_minute s [] n = ok (s, none)
  rejected_each is_minute s (bar ∷ bars) n = rejected_bar is_minute s bar n >>= λ step.
      go_on step.1 (rejected_each is_minute step.0 bars n) (λ o. ok (step.0, some o))

  abbrev pub still_open : State → RejectedStatus
  still_open s = if s.active then active else waiting_entry

  -- After the last of `n` bars.
  abbrev pub unresolved : State → ℕ → Option Datetime → RejectedDecisionOutcome
  unresolved s n observation_end =
      if not s.active && not_before (expiry plan) observation_end
      then outcome_of expired_unfilled n s (some (expiry plan))
      else outcome_of (still_open s) n s none

  unfoldable pub rejected_from :
      State → List Kline → ℕ → Refinements → Option Datetime → Result RejectedDecisionOutcome
  rejected_from s [] n refinements observation_end = ok (unresolved s n observation_end)
  rejected_from s (bar ∷ bars) n refinements observation_end =
      let refinement = refinement_at bar.open_time refinements in
      rejected_each (is_given refinement) s (bars_at refinement bar) (suc n) >>= λ step.
      go_on step.1 (rejected_from step.0 bars (suc n) refinements observation_end) (λ o. ok o)

  unfoldable pub evaluate_rejected_decision :
      List Kline → Refinements → Option Datetime → Result RejectedDecisionOutcome
  evaluate_rejected_decision bars refinements observation_end =
      rejected_from (first_state plan) bars 0 refinements observation_end
