-- ===== src/Outcomes/Fair.antt =====
-- About the bar that decides an outcome of `evaluate_outcome`.
use candlepilot.Prelude.{
  ℕ, ◌+◌, ◌≡◌, refl, arith, Bool, true, false, Option, none, some, List, [], ◌∷◌, ◌++◌, ◌||◌, ◌&&◌,
  not, ltb, if_branches, All, inl, inr, ◌⊎◌,
}
use candlepilot.Outcome.Returns.{Returns}
use candlepilot.Outcomes.{
  EntryPlan, MarketAnalysis, Kline, OutcomeStatus, neutral_observation, waiting_entry,
  stopped_before_entry, target1_before_entry, active, target1_partial, target2_reached, stopped_out,
  breakeven_after_target1, ambiguous, Note, refined_by_minutes, AnalysisOutcome, OutcomeState,
  Phase, waiting, entered, partial,
}
use candlepilot.Outcomes.Evaluate.{
  Refinements, with_refinement_note, open_outcome, evaluate_outcome, BarStep, waiting_bar,
  count_touched, entered_bar, partial_bar, bar_in, evaluate_bar, touches, is_ambiguous,
}
use candlepilot.Outcomes.Every.{AllMinutes, StepOutcome, evaluate_outcome-Every}

-- The levels of the plan that a bar touches.
abbrev pub touched_levels : EntryPlan → Kline → ℕ
touched_levels p bar =
    count_touched (touches bar p.entry)
    + count_touched (touches bar p.stop)
    + count_touched (touches bar p.target1)
    + count_touched (touches bar p.target2)

-- A bar that leaves no doubt about the order of the levels, and one that leaves it open.
abbrev pub Verdict : OutcomeStatus → EntryPlan → Kline → Type 0
Verdict stopped_before_entry p bar = (touches bar p.entry ≡ false) × (touches bar p.stop ≡ true)
Verdict target1_before_entry p bar =
    (touches bar p.entry ≡ false) × (touches bar p.stop ≡ false) × (touches bar p.target1 ≡ true)
Verdict stopped_out p bar =
    (touches bar p.stop ≡ true) × (touches bar p.target1 ≡ false) × (touches bar p.target2 ≡ false)
Verdict target2_reached p bar =
    (touches bar p.target2 ≡ true)
    × (((touches bar p.stop ≡ false) × (touches bar p.target1 ≡ false))
        ⊎ (touches bar p.entry ≡ false))
Verdict breakeven_after_target1 p bar =
    (touches bar p.entry ≡ true) × (touches bar p.target2 ≡ false)
Verdict ambiguous p bar = ltb 1 (touched_levels p bar) ≡ true
Verdict _ p bar = ⊥

abbrev pub is_open : OutcomeStatus → Bool
is_open neutral_observation = true
is_open waiting_entry = true
is_open active = true
is_open target1_partial = true
is_open _ = false

-- An outcome is open, or a bar that has `B` decides it.
pub data Decided (B : Kline → Type 0) (plan : Option EntryPlan) (o : AnalysisOutcome) : Type 0 where
  undecided : is_open o.status ≡ true → o.resolved_at ≡ none → Decided B plan o
  decided_by :
      (p : EntryPlan) (bar : Kline)
      → plan ≡ some p
      → B bar
      → o.resolved_at ≡ some bar.open_time
      → Verdict o.status p bar
      → Decided B plan o

is_out : (a : Bool) → not a ≡ true → a ≡ false
is_out true h = absurd (cc)
is_out false h = refl

entry_and :
    (a b c d : Bool)
    → not a ≡ false
    → (b || c || d) ≡ true
    → ltb 1 (count_touched a + count_touched b + count_touched c + count_touched d) ≡ true
entry_and a b c d h k = ground arith

two_exits :
    (a b c d : Bool)
    → ltb 1 (count_touched b + count_touched c + count_touched d) ≡ true
    → ltb 1 (count_touched a + count_touched b + count_touched c + count_touched d) ≡ true
two_exits a b c d h = ground arith

one_exit :
    (b c d : Bool)
    → ltb 1 (count_touched b + count_touched c + count_touched d) ≡ false
    → b ≡ true
    → (c ≡ false) × (d ≡ false)
one_exit true false false h k = (refl, refl)
one_exit true true d h k = absurd (ground arith)
one_exit true false true h k = absurd (ground arith)
one_exit false c d h k = absurd (cc)

last_exit :
    (b c d : Bool)
    → ltb 1 (count_touched b + count_touched c + count_touched d) ≡ false
    → d ≡ true
    → (b ≡ false) × (c ≡ false)
last_exit false false true h k = (refl, refl)
last_exit true c true h k = absurd (ground arith)
last_exit false true true h k = absurd (ground arith)
last_exit b c false h k = absurd (cc)

target_and_entry :
    (a b c d : Bool)
    → a ≡ true
    → c ≡ true
    → ltb 1 (count_touched a + count_touched b + count_touched c + count_touched d) ≡ true
target_and_entry a b c d h k = ground arith

without_entry : (a d : Bool) → (a && d) ≡ false → d ≡ true → a ≡ false
without_entry true d h k = absurd (cc)
without_entry false d h k = refl

entry_and_target2 :
    (a b c d : Bool)
    → (a && d) ≡ true
    → ltb 1 (count_touched a + count_touched b + count_touched c + count_touched d) ≡ true
entry_and_target2 a b c d h = ground arith

module _ (B : Kline → Type 0) (p : EntryPlan) where
  abbrev DecidedStep : BarStep → Type 0
  DecidedStep step = StepOutcome (Decided B (some p)) step

  waiting_bar-Decided :
      (s : OutcomeState) (bar : Kline) (n : ℕ) → B bar → DecidedStep (waiting_bar p s bar n)
  unfolding waiting_bar
  waiting_bar-Decided s bar n h =
      if_branches DecidedStep (not (touches bar p.entry))
        (λ out.
          if_branches DecidedStep (touches bar p.stop)
            (λ stop. decided_by p bar refl h refl (is_out (touches bar p.entry) out, stop))
            (λ no_stop.
              if_branches DecidedStep (touches bar p.target1)
                (λ target.
                  decided_by p bar refl h refl (is_out (touches bar p.entry) out, no_stop, target))
                (λ _. tt)))
        (λ enter.
          if_branches DecidedStep
            (touches bar p.stop || touches bar p.target1 || touches bar p.target2)
            (λ more. decided_by p bar refl h refl (
              entry_and (touches bar p.entry) (touches bar p.stop) (touches bar p.target1)
                (touches bar p.target2) enter more))
            (λ _. tt))

  entered_bar-Decided :
      (s : OutcomeState) (bar : Kline) (n : ℕ) → B bar → DecidedStep (entered_bar p s bar n)
  unfolding entered_bar
  entered_bar-Decided s bar n h =
      let e = touches bar p.entry in
      let b = touches bar p.stop in
      let c = touches bar p.target1 in
      let d = touches bar p.target2 in
      if_branches DecidedStep (ltb 1 (count_touched b + count_touched c + count_touched d))
        (λ more. decided_by p bar refl h refl (two_exits e b c d more))
        (λ one.
          if_branches DecidedStep b
            (λ stop.
              let others = one_exit b c d one stop in
              decided_by p bar refl h refl (stop, others.0, others.1))
            (λ _.
              if_branches DecidedStep d
                (λ target2.
                  decided_by p bar refl h refl (target2, inl (last_exit b c d one target2)))
                (λ _.
                  if_branches DecidedStep c
                    (λ target1.
                      if_branches DecidedStep e
                        (λ entry.
                          decided_by p bar refl h refl (target_and_entry e b c d entry target1))
                        (λ _. tt))
                    (λ _. tt))))

  partial_bar-Decided :
      (s : OutcomeState) (bar : Kline) (n : ℕ) → B bar → DecidedStep (partial_bar p s bar n)
  unfolding partial_bar
  partial_bar-Decided s bar n h =
      let e = touches bar p.entry in
      let d = touches bar p.target2 in
      if_branches DecidedStep (e && d)
        (λ both.
          decided_by p bar refl h refl
            (entry_and_target2 e (touches bar p.stop) (touches bar p.target1) d both))
        (λ one.
          if_branches DecidedStep d
            (λ target2. decided_by p bar refl h refl (target2, inr (without_entry e d one target2)))
            (λ no_target2.
              if_branches DecidedStep e (λ entry. decided_by p bar refl h refl (entry, no_target2))
                (λ _. tt)))

  bar_in-Decided :
      (phase : Phase) (s : OutcomeState) (bar : Kline) (n : ℕ)
      → B bar
      → DecidedStep (bar_in phase p s bar n)
  bar_in-Decided waiting s bar n h = waiting_bar-Decided s bar n h
  bar_in-Decided entered s bar n h = entered_bar-Decided s bar n h
  bar_in-Decided partial s bar n h = partial_bar-Decided s bar n h

evaluate_bar-Decided :
    (B : Kline → Type 0) (plan : Option EntryPlan) (s : OutcomeState) (bar : Kline) (n : ℕ)
    → B bar
    → Returns (StepOutcome (Decided B plan)) (evaluate_bar plan s bar n)
unfolding evaluate_bar
evaluate_bar-Decided B none s bar n h = tt
evaluate_bar-Decided B (some p) s bar n h = bar_in-Decided B p s.phase s bar n h

module _ (B : Kline → Type 0) (plan : Option EntryPlan) where
  open_outcome-Decided :
      (phase : Phase) (s : OutcomeState) (n : ℕ)
      → Decided B plan (open_outcome (record s { phase = phase }) n)
  open_outcome-Decided waiting s n = undecided refl refl
  open_outcome-Decided entered s n = undecided refl refl
  open_outcome-Decided partial s n = undecided refl refl

  annotated-Decided :
      (o : AnalysisOutcome) (notes : List Note)
      → Decided B plan o
      → Decided B plan (record o { notes = notes })
  annotated-Decided o notes (undecided h k) = undecided h k
  annotated-Decided o notes (decided_by p bar e h k v) = decided_by p bar e h k v

  noted-Decided :
      (o : AnalysisOutcome) (used : Bool)
      → Decided B plan o
      → Decided B plan (with_refinement_note o used)
  noted-Decided o used h =
      if_branches (Decided B plan) (not used || is_ambiguous o.status) (λ _. h)
        (λ _. annotated-Decided o (o.notes ++ refined_by_minutes ∷ []) h)

-- The order of the levels is never guessed. Where every candle and every minute has `B`, an outcome
-- is undecided and has no time, or a bar with `B`, at whose open it is resolved, decides it: a
-- verdict before the entry by a bar that does not touch the entry, a stop by one that touches no
-- target, the second target by one that touches neither the stop nor the first target or not
-- the entry, breakeven by one that touches the entry and not the second target, and an ambiguous
-- one by a bar that touches two levels at least.
pub evaluate_outcome-Decided :
    (B : Kline → Type 0) (a : MarketAnalysis) (bars : List Kline) (refinements : Refinements)
    → All B bars
    → AllMinutes B refinements
    → Returns (Decided B a.entry_plan) (evaluate_outcome a bars refinements)
evaluate_outcome-Decided B a bars refinements all minutes =
    evaluate_outcome-Every B (Decided B a.entry_plan) a bars refinements
      (evaluate_bar-Decided B a.entry_plan) (noted-Decided B a.entry_plan)
      (λ s n. open_outcome-Decided B a.entry_plan s.phase s n) (undecided refl refl) all minutes
