-- ===== src/Outcomes/Ended.antt =====
-- About the loop of `evaluate_outcome_from_market` over ambiguous windows.
use mathlib.Core.Path.{subst⁻¹}
use candlepilot.Prelude.{
  ℕ, zero, suc, ◌+◌, ◌≤◌, ◌≡◌, refl, arith, Bool, true, false, Option, none, some, List, [], ◌∷◌,
  length, if_branches, ==_iff, pos_part, neg_part, All, map-All, String,
}
use candlepilot.Decimal.{Decimal}
use candlepilot.Time.{Datetime, same_instant}
use candlepilot.Outcome.{ok}
use candlepilot.Outcome.Returns.{any-Returns, Returns, chain-Returns, value-Returns}
use candlepilot.Outcomes.{MarketAnalysis, Kline}
use candlepilot.Outcomes.Clock.{five_minute_window, next_complete_5m_start, next_complete_1m_start}
use candlepilot.Outcomes.Evaluate.{
  Refinements, refinement_at, is_given, is_neutral, evaluate_outcome,
}
use candlepilot.Outcomes.Refine.{
  MarketSource, ambiguous_at, complete_minute_window, parse_closed_rows, refine, completion_price,
  observed_bars, evaluate_outcome_from_market,
}
use candlepilot.Outcomes.Placed.{AllSome, Placed, evaluate_outcome-Placed}
use candlepilot.Outcomes.Every.{AllMinutes, map-AllMinutes}
use candlepilot.Outcomes.Windows.{InWindow, complete_minute_window-InWindow}

-- A window that was looked at.
abbrev refined : Refinements → Datetime → Bool
refined refinements t = is_given (refinement_at (five_minute_window t) refinements)

abbrev pub one_unless : Bool → ℕ
one_unless true = 0
one_unless false = 1

-- The bars whose window was not looked at.
unrefined : Refinements → List Kline → ℕ
unrefined refinements [] = 0
unrefined refinements (bar ∷ bars) =
    one_unless (refined refinements bar.open_time) + unrefined refinements bars

refined_before :
    (t k : Datetime) (minutes : List Kline) (refinements : Refinements)
    → refined refinements t ≡ true
    → refined ((k, minutes) ∷ refinements) t ≡ true
unfolding refinement_at
refined_before t k minutes refinements h =
    if_branches (λ (o : Option (List Kline)). is_given o ≡ true)
      (same_instant k (five_minute_window t)) (λ _. refl) (λ _. h)

pub same_self : (t : Datetime) → same_instant t t ≡ true
same_self t =
    (==_iff (pos_part t.micros + neg_part t.micros) (pos_part t.micros + neg_part t.micros)).1 refl

refined_now :
    (t : Datetime) (minutes : List Kline) (refinements : Refinements)
    → refined ((five_minute_window t, minutes) ∷ refinements) t ≡ true
unfolding refinement_at
refined_now t minutes refinements = rw (same_self (five_minute_window t)) refl

pub one_unless_less : (a b : Bool) → (a ≡ true → b ≡ true) → one_unless b ≤ one_unless a
one_unless_less true b h = rw (h refl) omega arith
one_unless_less false true h = omega arith
one_unless_less false false h = omega arith

unrefined_less :
    (k : Datetime) (minutes : List Kline) (refinements : Refinements) (bars : List Kline)
    → unrefined ((k, minutes) ∷ refinements) bars ≤ unrefined refinements bars
unfolding unrefined
unrefined_less k minutes refinements [] = omega arith
unrefined_less k minutes refinements (bar ∷ bars) =
    let now =
      one_unless_less (refined refinements bar.open_time)
        (refined ((k, minutes) ∷ refinements) bar.open_time)
        (refined_before bar.open_time k minutes refinements) in
    let rest = unrefined_less k minutes refinements bars in omega arith

-- A look at the window of `t` leaves fewer bars.
abbrev Shrinks : Refinements → List Kline → Datetime → Type 0
Shrinks refinements bars t =
    (minutes : List Kline)
    → refined refinements t ≡ false
    → suc (unrefined ((five_minute_window t, minutes) ∷ refinements) bars)
      ≤ unrefined refinements bars

abbrev BarShrinks : Refinements → List Kline → Kline → Type 0
BarShrinks refinements bars bar = Shrinks refinements bars bar.open_time

bars-Shrinks :
    (refinements : Refinements) (bars : List Kline) → All (BarShrinks refinements bars) bars
unfolding unrefined
bars-Shrinks refinements [] = tt
bars-Shrinks refinements (bar ∷ bars) = (
  λ minutes new.
      let rest = unrefined_less (five_minute_window bar.open_time) minutes refinements bars in
      rw (refined_now bar.open_time minutes refinements, new) (omega arith),
  map-All (BarShrinks refinements bars) (BarShrinks refinements (bar ∷ bars)) bars
      (λ other h minutes new.
        let now =
          one_unless_less (refined refinements bar.open_time)
            (refined ((five_minute_window other.open_time, minutes) ∷ refinements) bar.open_time)
            (refined_before bar.open_time (five_minute_window other.open_time) minutes
              refinements) in
        let rest = h minutes new in omega arith)
      (bars-Shrinks refinements bars),
)

pub elim_some {κ μ} :
    {R : Type κ} (P : Datetime → Type 0) (Q : R → Type μ) (o : Option Datetime) (x : R)
    (f : Datetime → R)
    → AllSome P o
    → Q x
    → ((t : Datetime) → P t → Q (f t))
    → Q (elim o [ none ↦ x | some t ↦ f t ])
elim_some P Q none x f h y g = y
elim_some P Q (some t) x f h y g = g t h

-- Every minute in use is of a window that was looked at.
abbrev Looked : Refinements → Kline → Type 0
Looked refinements bar = refined refinements bar.open_time ≡ true

abbrev pub IsGiven {ℓ} : {A : Type ℓ} → Option A → Type 0
IsGiven o = is_given o ≡ true

minute-Shrinks :
    (refinements : Refinements) (bars : List Kline) (bar : Kline)
    → Looked refinements bar
    → BarShrinks refinements bars bar
minute-Shrinks refinements bars bar h minutes new = absurd (cc)

after-AllMinutes :
    (t : Datetime) (minutes : List Kline) (refinements : Refinements)
    → complete_minute_window minutes (five_minute_window t) ≡ true
    → AllMinutes (Looked refinements) refinements
    → AllMinutes
        (Looked ((five_minute_window t, minutes) ∷ refinements))
        ((five_minute_window t, minutes) ∷ refinements)
after-AllMinutes t minutes refinements whole all =
    let start = five_minute_window t in
    let after = (start, minutes) ∷ refinements in
    (
      map-All (InWindow start) (Looked after) minutes
          (λ bar same.
            subst⁻¹ (λ t2. is_given (refinement_at t2 after) ≡ true) same
              (refined_now t minutes refinements))
          (complete_minute_window-InWindow minutes t whole),
      map-AllMinutes (Looked refinements) (Looked after) refinements
          (λ bar h. refined_before bar.open_time start minutes refinements h) all,
    )

module _ (market : MarketSource) (symbol : String) (analysis : MarketAnalysis) (entry_at : Datetime)
    (price : Option Decimal) (end : Datetime) (bars : List Kline) where
  refine-IsGiven :
      (fuel : ℕ) (refinements : Refinements)
      → suc (unrefined refinements bars) ≤ fuel
      → AllMinutes (Looked refinements) refinements
      → Returns IsGiven (refine market symbol analysis entry_at price end bars fuel refinements)
  unfolding refine
  refine-IsGiven zero refinements enough all = absurd (omega arith)
  refine-IsGiven (suc fuel) refinements enough all =
      chain-Returns IsGiven (Placed (Shrinks refinements bars))
        (evaluate_outcome analysis bars refinements) _
        (evaluate_outcome-Placed (Shrinks refinements bars) analysis bars refinements
          (bars-Shrinks refinements bars)
          (map-AllMinutes (Looked refinements) (BarShrinks refinements bars) refinements
            (minute-Shrinks refinements bars) all))
        (λ o h.
          elim_some (Shrinks refinements bars) (Returns IsGiven) (ambiguous_at o) _ _ h refl
            (λ t shrinks.
              if_branches (Returns IsGiven) (refined refinements t) (λ _. refl)
                (λ new.
                  chain-Returns IsGiven (λ _. Unit {0})
                    (market symbol "1m" (five_minute_window t) _ 5) _
                    (any-Returns (market symbol "1m" (five_minute_window t) _ 5))
                    (λ rows _.
                      let minutes = parse_closed_rows rows end in
                      if_branches (Returns IsGiven)
                        (complete_minute_window minutes (five_minute_window t))
                        (λ whole.
                          let fewer = shrinks minutes new in
                          refine-IsGiven fuel ((five_minute_window t, minutes) ∷ refinements)
                            (omega arith) (after-AllMinutes t minutes refinements whole all))
                        (λ _. refl)))))

unrefined_all : (bars : List Kline) → unrefined [] bars ≤ length bars
unfolding unrefined
unrefined_all [] = omega arith
unrefined_all (bar ∷ bars) =
    let rest = unrefined_all bars in
    let one = one_unless_less false (refined [] bar.open_time) (λ e. absurd (cc)) in omega arith

-- Whatever the venue answers, the loop that looks at ambiguous windows minute by minute ends: a
-- call that raises nothing gives an outcome.
pub evaluate_outcome_from_market-IsGiven :
    (market : MarketSource) (symbol : String) (analysis : MarketAnalysis) (completed end : Datetime)
    → Returns IsGiven (evaluate_outcome_from_market market symbol analysis completed end)
unfolding evaluate_outcome_from_market
evaluate_outcome_from_market-IsGiven market symbol analysis completed end =
    let entry_at = next_complete_1m_start completed in
    if_branches (Returns IsGiven) (is_neutral analysis.direction)
      (λ _.
        value-Returns IsGiven (evaluate_outcome analysis [] []) (λ o. ok (some o)) (λ o _. refl))
      (λ _. value-Returns IsGiven (completion_price market symbol entry_at end) _ (λ price _.
        value-Returns IsGiven (observed_bars market symbol (next_complete_5m_start completed) end) _
          (λ bars _.
            let few = unrefined_all bars in
            refine-IsGiven market symbol analysis entry_at price end bars (suc (length bars)) []
              (omega arith) tt)))
