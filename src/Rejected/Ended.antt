-- ===== src/Rejected/Ended.antt =====
-- About the loop of `evaluate_rejected_decision_from_market` over ambiguous candles.
use candlepilot.Prelude.{
  sym, Option, none, some, ℕ, zero, suc, ◌+◌, ◌*◌, ◌≤◌, ◌≡◌, refl, arith, Bool, true, false, String,
  List, [], ◌∷◌, ◌++◌, ◌||◌, not, length, if_branches, if◌then◌else◌, Bool-cases, inl, inr,
  eq_of_parts, ==_iff, pos_part, neg_part,
}
use candlepilot.Time.{Datetime, same_instant}
use candlepilot.Outcome.Returns.{Returns, value-Returns}
use candlepilot.Outcomes.{Kline}
use candlepilot.Outcomes.Clock.{utc, micros_of, minute}
use candlepilot.Outcomes.Evaluate.{Refinements, refinement_at, is_given}
use candlepilot.Outcomes.Refine.{MarketSource, parse_closed_rows, complete_minute_window, earlier}
use candlepilot.Outcomes.Placed.{AllSome}
use candlepilot.Outcomes.Ended.{IsGiven, one_unless, one_unless_less, elim_some, same_self}
use candlepilot.Rejected.{PriceBasis, RejectedDecisionPlan, RejectedDecisionOutcome}
use candlepilot.Rejected.Evaluate.{evaluate_rejected_decision}
use candlepilot.Rejected.Market.{
  next_complete_minute, next_five_minute_boundary, source_of, candles_between, by_itself,
  is_ambiguous, opens_one, window_to_refine, refine_rejected,
  evaluate_rejected_decision_from_market,
}

abbrev in_use : Refinements → Datetime → Bool
in_use refinements t = is_given (refinement_at t refinements)

-- The bars that are not looked at minute by minute.
unrefined : Refinements → List Kline → ℕ
unrefined refinements [] = 0
unrefined refinements (bar ∷ bars) =
    one_unless (in_use refinements bar.open_time) + unrefined refinements bars

same_micros : (a b : Datetime) → same_instant a b ≡ true → a.micros ≡ b.micros
same_micros a b h =
    eq_of_parts a.micros b.micros
      ((==_iff (pos_part a.micros + neg_part b.micros) (pos_part b.micros + neg_part a.micros)).0 h)

in_rest : (a b : Bool) → a ≡ false → (a || b) ≡ true → b ≡ true
in_rest true b h k = absurd (cc)
in_rest false b h k = k

refinement_at_same :
    (a b : Datetime) (refinements : Refinements)
    → a.micros ≡ b.micros
    → refinement_at a refinements ≡ refinement_at b refinements
unfolding refinement_at
refinement_at_same a b [] h = refl
refinement_at_same a b ((k, bars) ∷ rest) h = rw (h, refinement_at_same a b rest h) refl

in_use_before :
    (t k : Datetime) (minutes : List Kline) (refinements : Refinements)
    → in_use refinements t ≡ true
    → in_use ((k, minutes) ∷ refinements) t ≡ true
unfolding refinement_at
in_use_before t k minutes refinements h =
    if_branches (λ (o : Option (List Kline)). is_given o ≡ true) (same_instant k t) (λ _. refl)
      (λ _. h)

in_use_now :
    (t b : Datetime) (minutes : List Kline) (refinements : Refinements)
    → t.micros ≡ b.micros
    → in_use ((t, minutes) ∷ refinements) b ≡ true
unfolding refinement_at
in_use_now t b minutes refinements h = rw (h, same_self b) refl

unrefined_less :
    (k : Datetime) (minutes : List Kline) (refinements : Refinements) (bars : List Kline)
    → unrefined ((k, minutes) ∷ refinements) bars ≤ unrefined refinements bars
unfolding unrefined
unrefined_less k minutes refinements [] = omega arith
unrefined_less k minutes refinements (bar ∷ bars) =
    let now =
      one_unless_less (in_use refinements bar.open_time)
        (in_use ((k, minutes) ∷ refinements) bar.open_time)
        (in_use_before bar.open_time k minutes refinements) in
    let rest = unrefined_less k minutes refinements bars in omega arith

-- A look at the minutes of one of the bars leaves fewer.
unrefined_fewer :
    (t : Datetime) (minutes : List Kline) (refinements : Refinements) (bars : List Kline)
    → opens_one t bars ≡ true
    → in_use refinements t ≡ false
    → suc (unrefined ((t, minutes) ∷ refinements) bars) ≤ unrefined refinements bars
unfolding unrefined opens_one
unrefined_fewer t minutes refinements [] h new = absurd (cc)
unrefined_fewer t minutes refinements (bar ∷ bars) h new =
    elim (Bool-cases (same_instant bar.open_time t)) [
      | inl same ↦
          let at = same_micros bar.open_time t same in
          let rest = unrefined_less t minutes refinements bars in
          let old : in_use refinements bar.open_time ≡ false =
            rw (refinement_at_same bar.open_time t refinements at) new in
          let now = in_use_now t bar.open_time minutes refinements (sym at) in
          rw (now, old) (omega arith)
      | inr other ↦
          let rest = unrefined_fewer t minutes refinements bars (in_rest _ _ other h) new in
          let now =
            one_unless_less (in_use refinements bar.open_time)
              (in_use ((t, minutes) ∷ refinements) bar.open_time)
              (in_use_before bar.open_time t minutes refinements) in
          omega arith
    ]

anywhere : (o : Option Datetime) → AllSome (λ _. Unit {0}) o
anywhere none = tt
anywhere (some t) = tt

abbrev Fresh : List Kline → Refinements → Datetime → Type 0
Fresh main refinements t = (opens_one t main ≡ true) × (in_use refinements t ≡ false)

fresh_parts : (a b : Bool) → (not a || b) ≡ false → (a ≡ true) × (b ≡ false)
fresh_parts true b h = (refl, h)
fresh_parts false b h = absurd (cc)

window_to_refine-Fresh :
    (o : RejectedDecisionOutcome) (main : List Kline) (refinements : Refinements)
    → AllSome (Fresh main refinements) (window_to_refine o main refinements)
window_to_refine-Fresh o main refinements =
    elim_some (λ _. Unit {0}) (AllSome (Fresh main refinements))
      (if is_ambiguous o.status then o.resolved_at else none) none _
      (anywhere (if is_ambiguous o.status then o.resolved_at else none)) tt
      (λ t _.
        if_branches (AllSome (Fresh main refinements))
          (not (opens_one t main) || is_given (refinement_at t refinements)) (λ _. tt)
          (λ both. fresh_parts (opens_one t main) (is_given (refinement_at t refinements)) both))

module _ (source : MarketSource) (basis : PriceBasis) (symbol : String)
    (plan : RejectedDecisionPlan) (start end : Datetime) (bars main : List Kline) where
  refine_rejected-IsGiven :
      (fuel : ℕ) (refinements : Refinements)
      → suc (unrefined refinements main) ≤ fuel
      → Returns IsGiven
          (refine_rejected source basis symbol plan start end bars main fuel refinements)
  unfolding refine_rejected
  refine_rejected-IsGiven zero refinements enough = absurd (omega arith)
  refine_rejected-IsGiven (suc fuel) refinements enough =
      value-Returns IsGiven
        (evaluate_rejected_decision plan start basis bars refinements (some end)) _
        (λ o _.
          elim_some (Fresh main refinements) (Returns IsGiven) (window_to_refine o main refinements)
            _ _ (window_to_refine-Fresh o main refinements) refl
            (λ t fresh.
              value-Returns IsGiven (source symbol "1m" t (utc (micros_of t + 5 * minute)) 5) _
                (λ rows _.
                  let minutes = parse_closed_rows rows end in
                  if_branches (Returns IsGiven) (complete_minute_window minutes t)
                    (λ _.
                      let fewer = unrefined_fewer t minutes refinements main fresh.0 fresh.1 in
                      refine_rejected-IsGiven fuel ((t, minutes) ∷ refinements) (omega arith))
                    (λ _. refl))))

unrefined_all :
    (refinements : Refinements) (bars : List Kline) → unrefined refinements bars ≤ length bars
unfolding unrefined
unrefined_all refinements [] = omega arith
unrefined_all refinements (bar ∷ bars) =
    let rest = unrefined_all refinements bars in
    let one = one_unless_less false (in_use refinements bar.open_time) (λ e. absurd (cc)) in
    omega arith

-- Whatever the venue answers, the loop that looks at ambiguous candles minute by minute ends: a call
-- that raises nothing gives an outcome.
pub evaluate_rejected_decision_from_market-IsGiven :
    (mark : Option MarketSource) (klines : MarketSource) (symbol : String)
    (plan : RejectedDecisionPlan) (end : Datetime)
    → Returns IsGiven (evaluate_rejected_decision_from_market mark klines symbol plan end)
unfolding evaluate_rejected_decision_from_market
evaluate_rejected_decision_from_market-IsGiven mark klines symbol plan end =
    let start = next_complete_minute plan.evaluated_at in
    let boundary = next_five_minute_boundary start in
    let source = source_of mark klines in
    value-Returns IsGiven (candles_between source.0 symbol "1m" start (earlier boundary end) 5 end)
      _
      (λ prefix _.
        value-Returns IsGiven (candles_between source.0 symbol "5m" boundary end 100000 end) _
          (λ main _.
            let few = unrefined_all (by_itself prefix []) main in
            refine_rejected-IsGiven source.0 source.1 symbol plan start end (prefix ++ main) main
              (suc (length main)) (by_itself prefix []) (omega arith)))
