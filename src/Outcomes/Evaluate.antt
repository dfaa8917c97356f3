-- ===== src/Outcomes/Evaluate.antt =====
-- `_evaluate_bar` and `evaluate_outcome`.
use candlepilot.Prelude.{
  ℕ, suc, ◌+◌, Bool, true, false, Option, none, some, List, [], ◌∷◌, ◌++◌, ◌||◌, ◌&&◌, not, leb_ℤ,
  ltb, length, if◌then◌else◌,
}
use candlepilot.Decimal.{Decimal}
use candlepilot.Time.{Datetime, same_instant}
use candlepilot.Outcome.{Result, ok, assertion_error, require, ◌>>=◌}
use candlepilot.Outcomes.{
  EntryPlan, MarketAnalysis, Direction, neutral, Kline, OutcomeStatus, neutral_observation,
  waiting_entry, stopped_before_entry, target1_before_entry, active, target1_partial,
  target2_reached, stopped_out, breakeven_after_target1, ambiguous, refined_by_minutes,
  AnalysisOutcome, Phase, waiting, entered, partial, OutcomeState,
}

abbrev pub touches : Kline → Decimal → Bool
touches bar value = leb_ℤ bar.low value && leb_ℤ value bar.high

-- An outcome that a bar resolves.
abbrev pub resolved_by :
    OutcomeStatus → ℕ → Option Datetime → Option Datetime → Kline → AnalysisOutcome
resolved_by status n entry_at target1_at bar = record {
  status = status;
  bars_observed = n;
  completion_entry_price = none;
  completion_entry_at = none;
  entry_at = entry_at;
  target1_at = target1_at;
  resolved_at = some bar.open_time;
  notes = [];
}

-- The state after a bar, and the outcome, if the bar resolves it.
abbrev pub BarStep : Type 0
BarStep = OutcomeState × Option AnalysisOutcome

unfoldable pub waiting_bar : EntryPlan → OutcomeState → Kline → ℕ → BarStep
waiting_bar p s bar n =
    let after = record s { entry_at = some bar.open_time } in
    if not (touches bar p.entry)
    then (if touches bar p.stop
        then (s, some (resolved_by stopped_before_entry n none none bar))
        else if touches bar p.target1
        then (s, some (resolved_by target1_before_entry n none none bar))
        else (s, none))
    else if touches bar p.stop || touches bar p.target1 || touches bar p.target2
    then (after, some (resolved_by ambiguous n (some bar.open_time) none bar))
    else (record after { phase = entered }, none)

abbrev pub count_touched : Bool → ℕ
count_touched true = 1
count_touched false = 0

unfoldable pub entered_bar : EntryPlan → OutcomeState → Kline → ℕ → BarStep
entered_bar p s bar n =
    if ltb 1 (
      count_touched (touches bar p.stop)
      + count_touched (touches bar p.target1)
      + count_touched (touches bar p.target2))
    then (s, some (resolved_by ambiguous n s.entry_at none bar))
    else if touches bar p.stop
    then (s, some (resolved_by stopped_out n s.entry_at none bar))
    else if touches bar p.target2
    then (s, some (resolved_by target2_reached n s.entry_at (some bar.open_time) bar))
    else if touches bar p.target1
    then (if touches bar p.entry
        then (s, some (resolved_by ambiguous n s.entry_at (some bar.open_time) bar))
        else (record s { target1_at = some bar.open_time; phase = partial }, none))
    else (s, none)

unfoldable pub partial_bar : EntryPlan → OutcomeState → Kline → ℕ → BarStep
partial_bar p s bar n =
    if touches bar p.entry && touches bar p.target2
    then (s, some (resolved_by ambiguous n s.entry_at s.target1_at bar))
    else if touches bar p.target2
    then (s, some (resolved_by target2_reached n s.entry_at s.target1_at bar))
    else if touches bar p.entry
    then (s, some (resolved_by breakeven_after_target1 n s.entry_at s.target1_at bar))
    else (s, none)

abbrev pub bar_in : Phase → EntryPlan → OutcomeState → Kline → ℕ → BarStep
bar_in waiting p s bar n = waiting_bar p s bar n
bar_in entered p s bar n = entered_bar p s bar n
bar_in partial p s bar n = partial_bar p s bar n

unfoldable pub evaluate_bar : Option EntryPlan → OutcomeState → Kline → ℕ → Result BarStep
evaluate_bar plan s bar n = require plan assertion_error >>= λ p. ok (bar_in s.phase p s bar n)

-- The inner loop, which an outcome ends.
abbrev pub unless_resolved : Option AnalysisOutcome → Result BarStep → OutcomeState → Result BarStep
unless_resolved none onward s = onward
unless_resolved (some outcome) onward s = ok (s, some outcome)

unfoldable pub evaluate_each : Option EntryPlan → OutcomeState → List Kline → ℕ → Result BarStep
evaluate_each plan s [] n = ok (s, none)
evaluate_each plan s (bar ∷ bars) n = evaluate_bar plan s bar n >>= λ step.
    unless_resolved step.1 (evaluate_each plan step.0 bars n) step.0

-- `minute_refinements`, by the open times of their bars.
abbrev pub Refinements : Type 0
Refinements = List (Datetime × List Kline)

unfoldable pub refinement_at : Datetime → Refinements → Option (List Kline)
refinement_at t [] = none
refinement_at t ((k, bars) ∷ rest) =
    let later = refinement_at t rest in if same_instant k t then some bars else later

-- `refinement or [bar]`
abbrev pub bars_for : Option (List Kline) → Kline → List Kline
bars_for none bar = bar ∷ []
bars_for (some []) bar = bar ∷ []
bars_for (some (b ∷ bars)) bar = b ∷ bars

abbrev pub is_given {ℓ} : {A : Type ℓ} → Option A → Bool
is_given none = false
is_given (some x) = true

abbrev pub is_ambiguous : OutcomeStatus → Bool
is_ambiguous ambiguous = true
is_ambiguous _ = false

abbrev pub with_refinement_note : AnalysisOutcome → Bool → AnalysisOutcome
with_refinement_note o used =
    if not used || is_ambiguous o.status
    then o
    else record o { notes = o.notes ++ refined_by_minutes ∷ [] }

abbrev pub open_status : Phase → OutcomeStatus
open_status waiting = waiting_entry
open_status entered = active
open_status partial = target1_partial

-- The outcome of a plan that no bar resolved.
abbrev pub open_outcome : OutcomeState → ℕ → AnalysisOutcome
open_outcome s n = record {
  status = open_status s.phase;
  bars_observed = n;
  completion_entry_price = none;
  completion_entry_at = none;
  entry_at = s.entry_at;
  target1_at = s.target1_at;
  resolved_at = none;
  notes = [];
}

abbrev pub first_or :
    Option AnalysisOutcome → Result AnalysisOutcome → Bool → Result AnalysisOutcome
first_or none onward used = onward
first_or (some outcome) onward used = ok (with_refinement_note outcome used)

-- The outer loop over the bars after the first `n`.
unfoldable pub evaluate_from :
    Option EntryPlan → OutcomeState → List Kline → ℕ → Bool → Refinements → Result AnalysisOutcome
evaluate_from plan s [] n used refinements = ok (with_refinement_note (open_outcome s n) used)
evaluate_from plan s (bar ∷ bars) n used refinements =
    let refinement = refinement_at bar.open_time refinements in
    let now_used = used || is_given refinement in
    evaluate_each plan s (bars_for refinement bar) (suc n) >>= λ step.
    first_or step.1 (evaluate_from plan step.0 bars (suc n) now_used refinements) now_used

abbrev pub first_state : OutcomeState
first_state = record { phase = waiting; entry_at = none; target1_at = none }

abbrev pub neutral_outcome : ℕ → AnalysisOutcome
neutral_outcome n = record {
  status = neutral_observation;
  bars_observed = n;
  completion_entry_price = none;
  completion_entry_at = none;
  entry_at = none;
  target1_at = none;
  resolved_at = none;
  notes = [];
}

abbrev pub is_neutral : Direction → Bool
is_neutral neutral = true
is_neutral _ = false

unfoldable pub evaluate_outcome : MarketAnalysis → List Kline → Refinements → Result AnalysisOutcome
evaluate_outcome a bars refinements =
    if is_neutral a.direction
    then ok (neutral_outcome (length bars))
    else evaluate_from a.entry_plan first_state bars 0 false refinements
