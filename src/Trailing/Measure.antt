-- ===== src/Trailing/Measure.antt =====
-- R, the initial risk that a trailing state is measured by.
use mathlib.Core.Path.{subst}
use candlepilot.Prelude.{
  ◌||◌, ◌++◌, inr, not, inl, Bool-cases, Option-cases, eqb_ℤ, suc, negsuc, Bool, true, false,
  Option, none, some, List, [], ◌∷◌, ◌≡◌, refl, sym, lookup, arith, pos, ◌<ℤ◌, if_branches,
}
use candlepilot.Decimal.{Decimal, sub, abs}
use candlepilot.Decimal.Digits.{round_ratio_pos}
use candlepilot.Decimal.Order.{lt-sub_pos, lt-sub_neg}
use candlepilot.Outcome.{◌>>=◌, raise_if, Error, Result, ok, err}
use candlepilot.Domain.{Side, long, short, same_side}
use candlepilot.Risk.Facts.{LossSide}
use candlepilot.Trailing.{
  replacement_refused, critical, raised, done, Ending, Mode, TrailingPosition, TrailingStopProfile,
  TrailingStopState, Broker, Event, profiles_of, is_loss_side,
}
use candlepilot.Trailing.Position.{
  changed_by, with_step, profile_step, unless_stopped, PositionStep, run_profiles, run_state,
  maintain_measured, maintain_stopped, maintain_position, measure_state, fresh_state,
  same_side_state, observe,
}

abs_pos : (a : Decimal) → pos 0 <ℤ a → pos 0 <ℤ abs a
unfolding abs
abs_pos (pos n) h = ground (arith, round_ratio_pos n 1)
abs_pos (negsuc n) h = absurd (omega arith)

abs_neg : (a : Decimal) → a <ℤ pos 0 → pos 0 <ℤ abs a
unfolding abs
abs_neg (pos n) h = absurd (omega arith)
abs_neg (negsuc n) h = ground (arith, round_ratio_pos (suc n) 1)

loss_distance_pos :
    (side : Side) (entry stop : Decimal) → LossSide side stop entry → pos 0 <ℤ abs (sub entry stop)
loss_distance_pos long entry stop h = abs_pos (sub entry stop) (lt-sub_pos stop entry h)
loss_distance_pos short entry stop h = abs_neg (sub entry stop) (lt-sub_neg stop entry h)

is_loss_side-LossSide :
    (side : Side) (entry stop : Decimal)
    → is_loss_side side entry stop ≡ true
    → LossSide side stop entry
is_loss_side-LossSide long entry stop h = ground arith
is_loss_side-LossSide short entry stop h = ground arith

-- R is the positive distance of the entry from a stop on its losing side.
pub record Measured (s : TrailingStopState) : Type 0 where
  pub stop_at_loss : LossSide s.side s.original_stop s.entry_price
  pub distance : s.risk_distance ≡ abs (sub s.entry_price s.original_stop)
  pub distance_pos : pos 0 <ℤ s.risk_distance

abbrev pub MeasuredIfAny : Option TrailingStopState → Type 0
MeasuredIfAny none = Unit
MeasuredIfAny (some s) = Measured s

abbrev MeasuredResult : Result (TrailingStopState × Bool) → Type 0
MeasuredResult (ok m) = Measured m.0
MeasuredResult (err e) = Unit

same_side-≡ : (a b : Side) → same_side a b ≡ true → a ≡ b
same_side-≡ long long h = refl
same_side-≡ short short h = refl
same_side-≡ _ _ h = absurd (cc)

guarded_Measured :
    (b : Bool) (e : Error) (r : Result (TrailingStopState × Bool))
    → (b ≡ true → MeasuredResult r)
    → MeasuredResult (raise_if (not b) e >>= (λ _. r))
guarded_Measured true e r h = h refl
guarded_Measured false e r h = tt

-- A state that is measured by a stop on the loss side.
Measured-by :
    (s : TrailingStopState)
    → LossSide s.side s.original_stop s.entry_price
    → s.risk_distance ≡ abs (sub s.entry_price s.original_stop)
    → Measured s
Measured-by s h e = record {
  stop_at_loss = h;
  distance = e;
  distance_pos = rw e (loss_distance_pos s.side s.entry_price s.original_stop h);
}

module _ (mode : Mode) (position : TrailingPosition) (stop : Decimal) where
  fresh-Measured : MeasuredResult (measure_state mode position stop none)
  unfolding measure_state
  fresh-Measured =
      guarded_Measured (is_loss_side position.side position.entry_price stop) _ _ (λ loss.
        Measured-by (fresh_state mode position stop)
          (is_loss_side-LossSide position.side position.entry_price stop loss) refl)

  known-Measured :
      (s : TrailingStopState)
      → s.side ≡ position.side
      → Measured s
      → MeasuredResult (measure_state mode position stop (some s))
  unfolding measure_state
  known-Measured s same h =
      if_branches MeasuredResult (eqb_ℤ position.entry_price s.entry_price) (λ _. h)
        (λ _. guarded_Measured (is_loss_side position.side position.entry_price stop) _ _ (λ loss.
          Measured-by _
            (subst (λ (d : Side). LossSide d stop position.entry_price) (sym same)
              (is_loss_side-LossSide position.side position.entry_price stop loss))
            refl))

  measure_state-Measured :
      (x : Option TrailingStopState)
      → MeasuredIfAny x
      → MeasuredResult (measure_state mode position stop (same_side_state position.side x))
  measure_state-Measured none h = fresh-Measured
  measure_state-Measured (some s) h = elim (Bool-cases (same_side s.side position.side)) [
    | inl same ↦ rw same (known-Measured s (same_side-≡ s.side position.side same) h)
    | inr other ↦ rw other fresh-Measured
  ]

remeasured :
    (s t : TrailingStopState)
    → Measured s
    → t.side ≡ s.side
    → t.entry_price ≡ s.entry_price
    → t.original_stop ≡ s.original_stop
    → t.risk_distance ≡ s.risk_distance
    → Measured t
remeasured s t h a b c d = Measured-by t (rw (a, b, c) h.stop_at_loss) (rw (b, c, d) h.distance)

module _ (mode : Mode) (broker : Broker) (position : TrailingPosition) (tick : Decimal) where
  unless_stopped-Measured :
      (e : Ending) (rest stop : PositionStep)
      → Measured rest.state
      → Measured stop.state
      → Measured (unless_stopped e rest stop).state
  unless_stopped-Measured (done c) rest stop h k = h
  unless_stopped-Measured (raised x) rest stop h k = k
  unless_stopped-Measured replacement_refused rest stop h k = k
  unless_stopped-Measured critical rest stop h k = k

  run_profiles-Measured :
      (stop : Decimal) (ps : List TrailingStopProfile) (state : TrailingStopState)
      (events : List Event) (changed : Bool)
      → Measured state
      → Measured (run_profiles mode broker position tick stop ps state events changed).state
  unfolding run_profiles
  run_profiles-Measured stop [] state events changed h = h
  run_profiles-Measured stop (p ∷ ps) state events changed h =
      elim (Option-cases (lookup p.profile_id state.profiles)) [
        | inl e ↦ rw (run_profiles, e) h
        | inr (progress, e) ↦
            rw (run_profiles, e)
              (let step = profile_step mode broker position tick stop p state progress in
                let after = with_step p state step in
                let kept = remeasured state after h refl refl refl refl in
                unless_stopped-Measured step.ending _ _
                  (run_profiles-Measured stop ps after (events ++ step.events)
                    (changed_by step.ending || changed) kept)
                  kept)
      ]

  maintain_measured-Measured :
      (stop : Decimal) (x : Option TrailingStopState) (r : Result (TrailingStopState × Bool))
      → MeasuredIfAny x
      → MeasuredResult r
      → MeasuredIfAny (maintain_measured mode broker position tick stop x r).state
  unfolding maintain_measured run_state observe
  maintain_measured-Measured stop x (err e) h k = h
  maintain_measured-Measured stop x (ok m) h k =
      run_profiles-Measured stop (profiles_of mode) _ _ _ (remeasured m.0 _ k refl refl refl refl)

  maintain_stopped-Measured :
      (x : Option TrailingStopState) (stop : Option Decimal)
      → MeasuredIfAny x
      → MeasuredIfAny (maintain_stopped mode broker position tick x stop).state
  unfolding maintain_stopped
  maintain_stopped-Measured x none h = h
  maintain_stopped-Measured x (some stop) h =
      maintain_measured-Measured stop x _ h (measure_state-Measured mode position stop x h)

  -- One symbol's step keeps R measured, also when it raises.
  pub maintain_position-Measured :
      (x : Option TrailingStopState)
      → MeasuredIfAny x
      → MeasuredIfAny (maintain_position mode broker position tick x).state
  unfolding maintain_position
  maintain_position-Measured x h = maintain_stopped-Measured x position.stop_loss h
