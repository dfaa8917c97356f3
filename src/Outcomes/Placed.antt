-- ===== src/Outcomes/Placed.antt =====
-- About the bar at which `evaluate_outcome` resolves an ambiguous outcome.
use candlepilot.Prelude.{
  ℕ, ◌+◌, Bool, Option, none, some, List, ◌||◌, ◌&&◌, not, ltb, if_branches, All,
}
use candlepilot.Time.{Datetime}
use candlepilot.Outcome.Returns.{Returns}
use candlepilot.Outcomes.{
  EntryPlan, MarketAnalysis, Kline, OutcomeStatus, AnalysisOutcome, OutcomeState, Phase, waiting,
  entered, partial,
}
use candlepilot.Outcomes.Evaluate.{
  Refinements, is_ambiguous, with_refinement_note, open_outcome, evaluate_outcome, resolved_by,
  BarStep, waiting_bar, count_touched, entered_bar, partial_bar, bar_in, evaluate_bar, touches,
}
use candlepilot.Outcomes.Refine.{ambiguous_at}
use candlepilot.Outcomes.Every.{AllMinutes, StepOutcome, evaluate_outcome-Every}

abbrev pub AllSome : (Datetime → Type 0) → Option Datetime → Type 0
AllSome P none = Unit
AllSome P (some t) = P t

module _ (P : Datetime → Type 0) where
  abbrev pub Placed : AnalysisOutcome → Type 0
  Placed o = AllSome P (ambiguous_at o)

  abbrev PlacedStep : BarStep → Type 0
  PlacedStep step = StepOutcome Placed step

  abbrev OpensIn : Kline → Type 0
  OpensIn bar = P bar.open_time

  resolved_by-Placed :
      (status : OutcomeStatus) (n : ℕ) (entry_at target1_at : Option Datetime) (bar : Kline)
      → OpensIn bar
      → Placed (resolved_by status n entry_at target1_at bar)
  resolved_by-Placed status n entry_at target1_at bar h =
      if_branches (AllSome P) (is_ambiguous status) (λ _. h) (λ _. tt)

  waiting_bar-Placed :
      (p : EntryPlan) (s : OutcomeState) (bar : Kline) (n : ℕ)
      → OpensIn bar
      → PlacedStep (waiting_bar p s bar n)
  unfolding waiting_bar
  waiting_bar-Placed p s bar n h =
      if_branches PlacedStep (not (touches bar p.entry))
        (λ _.
          if_branches PlacedStep (touches bar p.stop) (λ _. tt)
            (λ _. if_branches PlacedStep (touches bar p.target1) (λ _. tt) (λ _. tt)))
        (λ _.
          if_branches PlacedStep
            (touches bar p.stop || touches bar p.target1 || touches bar p.target2) (λ _. h)
            (λ _. tt))

  entered_bar-Placed :
      (p : EntryPlan) (s : OutcomeState) (bar : Kline) (n : ℕ)
      → OpensIn bar
      → PlacedStep (entered_bar p s bar n)
  unfolding entered_bar
  entered_bar-Placed p s bar n h =
      if_branches PlacedStep
        (ltb 1 (
          count_touched (touches bar p.stop)
          + count_touched (touches bar p.target1)
          + count_touched (touches bar p.target2)))
        (λ _. h)
        (λ _.
          if_branches PlacedStep (touches bar p.stop) (λ _. tt)
            (λ _.
              if_branches PlacedStep (touches bar p.target2) (λ _. tt)
                (λ _.
                  if_branches PlacedStep (touches bar p.target1)
                    (λ _. if_branches PlacedStep (touches bar p.entry) (λ _. h) (λ _. tt))
                    (λ _. tt))))

  partial_bar-Placed :
      (p : EntryPlan) (s : OutcomeState) (bar : Kline) (n : ℕ)
      → OpensIn bar
      → PlacedStep (partial_bar p s bar n)
  unfolding partial_bar
  partial_bar-Placed p s bar n h =
      if_branches PlacedStep (touches bar p.entry && touches bar p.target2) (λ _. h)
        (λ _.
          if_branches PlacedStep (touches bar p.target2) (λ _. tt)
            (λ _. if_branches PlacedStep (touches bar p.entry) (λ _. tt) (λ _. tt)))

  bar_in-Placed :
      (phase : Phase) (p : EntryPlan) (s : OutcomeState) (bar : Kline) (n : ℕ)
      → OpensIn bar
      → PlacedStep (bar_in phase p s bar n)
  bar_in-Placed waiting p s bar n h = waiting_bar-Placed p s bar n h
  bar_in-Placed entered p s bar n h = entered_bar-Placed p s bar n h
  bar_in-Placed partial p s bar n h = partial_bar-Placed p s bar n h

  evaluate_bar-Placed :
      (plan : Option EntryPlan) (s : OutcomeState) (bar : Kline) (n : ℕ)
      → OpensIn bar
      → Returns PlacedStep (evaluate_bar plan s bar n)
  unfolding evaluate_bar
  evaluate_bar-Placed none s bar n h = tt
  evaluate_bar-Placed (some p) s bar n h = bar_in-Placed s.phase p s bar n h

  noted-Placed :
      (o : AnalysisOutcome) (used : Bool) → Placed o → Placed (with_refinement_note o used)
  noted-Placed o used h = if_branches Placed (not used || is_ambiguous o.status) (λ _. h) (λ _. h)

  open_outcome-Placed :
      (phase : Phase) (s : OutcomeState) (n : ℕ)
      → Placed (open_outcome (record s { phase = phase }) n)
  open_outcome-Placed waiting s n = tt
  open_outcome-Placed entered s n = tt
  open_outcome-Placed partial s n = tt

  -- An ambiguous outcome was resolved at the open time of a bar or of a minute.
  pub evaluate_outcome-Placed :
      (a : MarketAnalysis) (bars : List Kline) (refinements : Refinements)
      → All OpensIn bars
      → AllMinutes OpensIn refinements
      → Returns Placed (evaluate_outcome a bars refinements)
  evaluate_outcome-Placed a bars refinements all minutes =
      evaluate_outcome-Every OpensIn Placed a bars refinements (evaluate_bar-Placed a.entry_plan)
        noted-Placed (λ s n. open_outcome-Placed s.phase s n) tt all minutes
