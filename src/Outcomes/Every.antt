-- ===== src/Outcomes/Every.antt =====
-- About all outcomes of `evaluate_outcome`: a bar gives one, or none does.
use candlepilot.Prelude.{
  ℕ, suc, Bool, false, Option, none, some, List, [], ◌∷◌, ◌||◌, if_branches, length, All, map-All,
}
use candlepilot.Time.{Datetime, same_instant}
use candlepilot.Outcome.{Result}
use candlepilot.Outcome.Returns.{Returns, chain-Returns}
use candlepilot.Outcomes.{EntryPlan, MarketAnalysis, Kline, AnalysisOutcome, OutcomeState}
use candlepilot.Outcomes.Evaluate.{
  Refinements, refinement_at, bars_for, is_given, with_refinement_note, open_outcome, first_or,
  evaluate_from, first_state, is_neutral, neutral_outcome, evaluate_outcome, BarStep, evaluate_bar,
  unless_resolved, evaluate_each,
}

-- Of the bars that are evaluated in place of others.
abbrev pub AllMinutes : (Kline → Type 0) → Refinements → Type 0
AllMinutes P [] = Unit
AllMinutes P ((k, bars) ∷ rest) = All P bars × AllMinutes P rest

pub map-AllMinutes :
    (P Q : Kline → Type 0) (refinements : Refinements)
    → ((bar : Kline) → P bar → Q bar)
    → AllMinutes P refinements
    → AllMinutes Q refinements
map-AllMinutes P Q [] f all = tt
map-AllMinutes P Q ((k, bars) ∷ rest) f all =
    (map-All P Q bars f all.0, map-AllMinutes P Q rest f all.1)

abbrev pub AllGiven : (Kline → Type 0) → Option (List Kline) → Type 0
AllGiven P none = Unit
AllGiven P (some bars) = All P bars

pub refinement_at-AllMinutes :
    (P : Kline → Type 0) (t : Datetime) (refinements : Refinements)
    → AllMinutes P refinements
    → AllGiven P (refinement_at t refinements)
unfolding refinement_at
refinement_at-AllMinutes P t [] all = tt
refinement_at-AllMinutes P t ((k, bars) ∷ rest) all =
    if_branches (AllGiven P) (same_instant k t) (λ _. all.0)
      (λ _. refinement_at-AllMinutes P t rest all.1)

bars_for-All :
    (P : Kline → Type 0) (o : Option (List Kline)) (bar : Kline)
    → AllGiven P o
    → P bar
    → All P (bars_for o bar)
bars_for-All P none bar all h = (h, tt)
bars_for-All P (some []) bar all h = (h, tt)
bars_for-All P (some (b ∷ bars)) bar all h = all

abbrev pub SomeOutcome : (AnalysisOutcome → Type 0) → Option AnalysisOutcome → Type 0
SomeOutcome Q none = Unit
SomeOutcome Q (some o) = Q o

abbrev pub StepOutcome : (AnalysisOutcome → Type 0) → BarStep → Type 0
StepOutcome Q step = SomeOutcome Q step.1

module _ (B : Kline → Type 0) (Q : AnalysisOutcome → Type 0) (plan : Option EntryPlan)
    (by_bar : (s : OutcomeState) (bar : Kline) (n : ℕ)
      → B bar
      → Returns (StepOutcome Q) (evaluate_bar plan s bar n))
    (noted : (o : AnalysisOutcome) (used : Bool) → Q o → Q (with_refinement_note o used))
    (unresolved : (s : OutcomeState) (n : ℕ) → Q (open_outcome s n)) where
  unless_resolved-Every :
      (o : Option AnalysisOutcome) (onward : Result BarStep) (s : OutcomeState)
      → SomeOutcome Q o
      → Returns (StepOutcome Q) onward
      → Returns (StepOutcome Q) (unless_resolved o onward s)
  unless_resolved-Every none onward s h k = k
  unless_resolved-Every (some o) onward s h k = h

  evaluate_each-Every :
      (s : OutcomeState) (bars : List Kline) (n : ℕ)
      → All B bars
      → Returns (StepOutcome Q) (evaluate_each plan s bars n)
  unfolding evaluate_each
  evaluate_each-Every s [] n all = tt
  evaluate_each-Every s (bar ∷ bars) n all =
      chain-Returns (StepOutcome Q) (StepOutcome Q) (evaluate_bar plan s bar n) _
        (by_bar s bar n all.0)
        (λ step h.
          unless_resolved-Every step.1 (evaluate_each plan step.0 bars n) step.0 h
            (evaluate_each-Every step.0 bars n all.1))

  first_or-Every :
      (o : Option AnalysisOutcome) (onward : Result AnalysisOutcome) (used : Bool)
      → SomeOutcome Q o
      → Returns Q onward
      → Returns Q (first_or o onward used)
  first_or-Every none onward used h k = k
  first_or-Every (some o) onward used h k = noted o used h

  evaluate_from-Every :
      (s : OutcomeState) (bars : List Kline) (n : ℕ) (used : Bool) (refinements : Refinements)
      → All B bars
      → AllMinutes B refinements
      → Returns Q (evaluate_from plan s bars n used refinements)
  unfolding evaluate_from
  evaluate_from-Every s [] n used refinements all minutes =
      noted (open_outcome s n) used (unresolved s n)
  evaluate_from-Every s (bar ∷ bars) n used refinements all minutes =
      let refinement = refinement_at bar.open_time refinements in
      let now_used = used || is_given refinement in
      chain-Returns Q (StepOutcome Q) (evaluate_each plan s (bars_for refinement bar) (suc n)) _
        (evaluate_each-Every s (bars_for refinement bar) (suc n) (
          bars_for-All B refinement bar
            (refinement_at-AllMinutes B bar.open_time refinements minutes) all.0))
        (λ step h.
          first_or-Every step.1 (evaluate_from plan step.0 bars (suc n) now_used refinements)
            now_used h (evaluate_from-Every step.0 bars (suc n) now_used refinements all.1 minutes))

pub evaluate_outcome-Every :
    (B : Kline → Type 0) (Q : AnalysisOutcome → Type 0) (a : MarketAnalysis) (bars : List Kline)
    (refinements : Refinements)
    → ((s : OutcomeState) (bar : Kline) (n : ℕ)
        → B bar
        → Returns (StepOutcome Q) (evaluate_bar a.entry_plan s bar n))
    → ((o : AnalysisOutcome) (used : Bool) → Q o → Q (with_refinement_note o used))
    → ((s : OutcomeState) (n : ℕ) → Q (open_outcome s n))
    → Q (neutral_outcome (length bars))
    → All B bars
    → AllMinutes B refinements
    → Returns Q (evaluate_outcome a bars refinements)
unfolding evaluate_outcome
evaluate_outcome-Every B Q a bars refinements by_bar noted unresolved kept all minutes =
    if_branches (Returns Q) (is_neutral a.direction) (λ _. kept)
      (λ _.
        evaluate_from-Every B Q a.entry_plan by_bar noted unresolved first_state bars 0 false
          refinements all minutes)
