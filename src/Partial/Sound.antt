-- ===== src/Partial/Sound.antt =====
-- The phases of the profiles over `_maintain_position`.
use candlepilot.Prelude.{
  String, Bool, true, false, Option, none, some, List, [], ◌∷◌, refl, lookup, if_branches,
  Option-cases, inl, inr, ◌<ℤ◌, eqb_ℤ,
}
use candlepilot.Prelude.Assoc.{Dict, AllValues, insert-AllValues, lookup-AllValues}
use candlepilot.Decimal.{Decimal}
use candlepilot.Domain.{same_side}
use candlepilot.Outcome.{Error, Result, ok, err, ◌>>=◌, raise_if}
use candlepilot.Risk.{SymbolRules}
use candlepilot.Trailing.{TrailingPosition}
use candlepilot.Partial.{
  PartialTakeProfitProfile, PartialTakeProfitProgress, PartialTakeProfitState, fresh_progress,
  partial_take_profit_profiles, PartialEvent,
}
use candlepilot.Partial.Phase.{
  Phase, watching, split, closed, InPhase, Steps, rests, gives_up, splits, closes,
  maintain_profile_steps,
}
use candlepilot.Partial.Profile.{maintain_profile}
use candlepilot.Partial.Position.{
  PartialRun, fresh_profiles, new_state, known_state, find_state, run_profiles, progress_or_fresh,
  put_progress, unless_raised, maintain_found, maintain_with_stop, maintain_position,
}

-- A partial fill is less than the position.
abbrev pub Leaves : Decimal → Phase → Type 0
Leaves quantity (split q) = q <ℤ quantity
Leaves quantity (closed q) = q <ℤ quantity
Leaves quantity _ = Unit

abbrev pub Sound : Decimal → PartialTakeProfitProgress → Type 0
Sound quantity p = (phase : Phase) × InPhase p phase × Leaves quantity phase

Steps-Leaves :
    (least quantity : Decimal) (before after : Phase)
    → Steps least quantity before after
    → Leaves quantity before
    → Leaves quantity after
Steps-Leaves least quantity before after (rests _) h = h
Steps-Leaves least quantity before after gives_up h = tt
Steps-Leaves least quantity before after (splits q enough less) h = less
Steps-Leaves least quantity before after (closes q) h = h

abbrev pub SoundState : PartialTakeProfitState → Type 0
SoundState s = AllValues (Sound s.quantity) s.profiles

fresh-Sound : (quantity : Decimal) → Sound quantity fresh_progress
fresh-Sound quantity = (watching, refl, tt)

new_state-SoundState :
    (position : TrailingPosition) (stop : Decimal) → SoundState (new_state position stop)
unfolding new_state fresh_profiles
new_state-SoundState position stop =
    (fresh-Sound position.quantity, (fresh-Sound position.quantity, tt))

abbrev pub SoundIfAny : Option PartialTakeProfitState → Type 0
SoundIfAny none = Unit
SoundIfAny (some s) = SoundState s

abbrev SoundResult : Result (PartialTakeProfitState × Bool) → Type 0
SoundResult (ok m) = SoundState m.0
SoundResult (err e) = Unit

guarded_SoundResult :
    (b : Bool) (e : Error) (r : Result (PartialTakeProfitState × Bool))
    → SoundResult r
    → SoundResult (raise_if b e >>= (λ _. r))
guarded_SoundResult true e r h = tt
guarded_SoundResult false e r h = h

find_state-SoundResult :
    (position : TrailingPosition) (stop : Decimal) (x : Option PartialTakeProfitState)
    → SoundIfAny x
    → SoundResult (find_state position stop x)
unfolding find_state
find_state-SoundResult position stop none h =
    guarded_SoundResult _ _ (ok (new_state position stop, true))
      (new_state-SoundState position stop)
find_state-SoundResult position stop (some s) h =
    if_branches SoundResult (eqb_ℤ position.entry_price s.entry_price) (λ _. h)
      (λ _.
        guarded_SoundResult _ _ (ok (new_state position stop, true))
          (new_state-SoundState position stop))

known_state-SoundIfAny :
    (position : TrailingPosition) (x : Option PartialTakeProfitState)
    → SoundIfAny x
    → SoundIfAny (known_state position x)
known_state-SoundIfAny position none h = tt
known_state-SoundIfAny position (some s) h =
    if_branches SoundIfAny (same_side s.side position.side) {x = some s} {y = none} (λ _. h)
      (λ _. tt)

progress_or_fresh-Sound :
    (key : String) (quantity : Decimal) (d : Dict PartialTakeProfitProgress)
    → AllValues (Sound quantity) d
    → Sound quantity (progress_or_fresh (lookup key d))
progress_or_fresh-Sound key quantity d h = elim (Option-cases (lookup key d)) [
  | inl missing ↦ rw missing (fresh-Sound quantity)
  | inr (p, found) ↦ rw found (lookup-AllValues (Sound quantity) key p d h found)
]

module _ (position : TrailingPosition) (rules : SymbolRules) where
  maintain_profile-Sound :
      (state : PartialTakeProfitState) (profile : PartialTakeProfitProfile)
      (progress : PartialTakeProfitProgress)
      → Sound state.quantity progress
      → Sound state.quantity (maintain_profile position rules state profile progress).progress
  maintain_profile-Sound state profile progress (phase, at, leaves) =
      let (after, reached, step) =
        maintain_profile_steps position rules state profile progress phase at in
      (after, reached, Steps-Leaves _ state.quantity phase after step leaves)

  unless_raised-SoundState :
      (e : Result Bool) (rest stop : PartialRun)
      → SoundState rest.state
      → SoundState stop.state
      → SoundState (unless_raised e rest stop).state
  unless_raised-SoundState (ok c) rest stop h k = h
  unless_raised-SoundState (err e) rest stop h k = k

  run_profiles-SoundState :
      (ps : List PartialTakeProfitProfile) (state : PartialTakeProfitState)
      (events : List PartialEvent) (changed : Bool)
      → SoundState state
      → SoundState (run_profiles position rules ps state events changed).state
  unfolding run_profiles
  run_profiles-SoundState [] state events changed h = h
  run_profiles-SoundState (p ∷ ps) state events changed h =
      let progress = progress_or_fresh (lookup p.profile_id state.profiles) in
      let step = maintain_profile position rules state p progress in
      let kept : SoundState (put_progress state p step.progress) =
        insert-AllValues (Sound state.quantity) p.profile_id step.progress state.profiles
          (maintain_profile-Sound state p progress
            (progress_or_fresh-Sound p.profile_id state.quantity state.profiles h))
          h in
      unless_raised-SoundState step.ending _ _ (run_profiles-SoundState ps _ _ _ kept) kept

  maintain_found-SoundIfAny :
      (x : Option PartialTakeProfitState) (r : Result (PartialTakeProfitState × Bool))
      → SoundIfAny x
      → SoundResult r
      → SoundIfAny (maintain_found position rules x r).state
  unfolding maintain_found
  maintain_found-SoundIfAny x (err e) h k = h
  maintain_found-SoundIfAny x (ok m) h k =
      run_profiles-SoundState partial_take_profit_profiles _ [] _ k

  maintain_with_stop-SoundIfAny :
      (x : Option PartialTakeProfitState) (stop : Option Decimal)
      → SoundIfAny x
      → SoundIfAny (maintain_with_stop position rules x stop).state
  unfolding maintain_with_stop
  maintain_with_stop-SoundIfAny x none h = h
  maintain_with_stop-SoundIfAny x (some stop) h =
      maintain_found-SoundIfAny x _ h
        (find_state-SoundResult position stop _ (known_state-SoundIfAny position x h))

  pub maintain_position-SoundIfAny :
      (x : Option PartialTakeProfitState)
      → SoundIfAny x
      → SoundIfAny (maintain_position position rules x).state
  unfolding maintain_position
  maintain_position-SoundIfAny x h = maintain_with_stop-SoundIfAny x position.stop_loss h
