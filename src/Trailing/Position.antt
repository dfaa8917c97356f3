-- ===== src/Trailing/Position.antt =====
-- `_maintain_position`: the state of one symbol under a new reading of its position.
use candlepilot.Prelude.{
  Bool, true, false, Option, none, some, List, [], ◌∷◌, ◌++◌, ◌||◌, not, ltb_ℤ, eqb_ℤ, lookup,
  contains, insert, if◌then◌else◌,
}
use candlepilot.Prelude.Assoc.{Dict}
use candlepilot.Decimal.{Decimal, sub, abs}
use candlepilot.Outcome.{Error, value_error, key_error, Result, ok, err, ◌>>◌, raise_if}
use candlepilot.Domain.{Side, long, short, same_side}
use candlepilot.Trailing.{
  Mode, TrailingPosition, TrailingStopProfile, TrailingProfileState, TrailingStopState, Broker,
  Ending, done, raised, Event, is_loss_side, profiles_of, idle,
}
use candlepilot.Trailing.Profile.{ProfileStep, maintain_profile}

pub record PositionStep : Type 0 where
  pub state : TrailingStopState
  pub events : List Event
  pub ending : Ending

-- `{profile.profile_id: TrailingProfileState() for profile in self._profiles}`
unfoldable pub idle_profiles : List TrailingStopProfile → Dict TrailingProfileState
idle_profiles [] = []
idle_profiles (p ∷ ps) = (p.profile_id, idle) ∷ idle_profiles ps

-- A state measured from the position as it stands now.
abbrev pub fresh_state : Mode → TrailingPosition → Decimal → TrailingStopState
fresh_state mode position stop = record {
  side = position.side;
  quantity = position.quantity;
  entry_price = position.entry_price;
  original_stop = stop;
  risk_distance = abs (sub position.entry_price stop);
  best_mark = position.mark_price;
  profiles = idle_profiles (profiles_of mode);
}

-- The state that is known for this side of the symbol.
abbrev pub same_side_state : Side → Option TrailingStopState → Option TrailingStopState
same_side_state side none = none
same_side_state side (some state) = if same_side state.side side then some state else none

-- The first two tests: R is set by a stop on the loss side, at the start and after an add.
unfoldable pub measure_state :
    Mode → TrailingPosition → Decimal → Option TrailingStopState → Result (TrailingStopState × Bool)
measure_state mode position stop none = do
  raise_if (not (is_loss_side position.side position.entry_price stop))
      (value_error "cannot infer original R from a stop that already locks profit")
  ok (fresh_state mode position stop, true)
measure_state mode position stop (some state) =
    if eqb_ℤ position.entry_price state.entry_price then ok (state, false) else do
      raise_if (not (is_loss_side position.side position.entry_price stop))
          (value_error "cannot reset R after an add because the current stop is beyond breakeven")
      ok (
        record state {
          entry_price = position.entry_price;
          original_stop = stop;
          risk_distance = abs (sub position.entry_price stop);
          best_mark = position.mark_price;
          profiles = idle_profiles (profiles_of mode);
        },
        true,
      )

-- The profiles that the state lacks, and whether there was one.
unfoldable pub fill_profiles :
    List TrailingStopProfile → Dict TrailingProfileState → Bool → Dict TrailingProfileState × Bool
fill_profiles [] profiles changed = (profiles, changed)
fill_profiles (p ∷ ps) profiles changed =
    fill_profiles ps
      (if contains p.profile_id profiles then profiles else insert p.profile_id idle profiles)
      (if contains p.profile_id profiles then changed else true)

abbrev pub is_favorable : Side → Decimal → Decimal → Bool
is_favorable long mark best = ltb_ℤ best mark
is_favorable short mark best = ltb_ℤ mark best

-- The quantity and the best mark after this reading.
unfoldable pub observe : TrailingPosition → TrailingStopState → Bool → TrailingStopState × Bool
observe position state changed =
    let favorable = is_favorable position.side position.mark_price state.best_mark in
    (
      record state {
        quantity = position.quantity;
        best_mark = if favorable then position.mark_price else state.best_mark;
      },
      favorable || changed,
    )

-- The state and the events after one profile's step.
abbrev pub with_step : TrailingStopProfile → TrailingStopState → ProfileStep → TrailingStopState
with_step p state step = record state {
  profiles = insert p.profile_id step.progress state.profiles;
}

abbrev pub stopped : TrailingStopState → List Event → Ending → PositionStep
stopped state events ending = record { state = state; events = events; ending = ending }

-- The flag of a step, and the rest of the loop unless an exception leaves it.
abbrev pub changed_by : Ending → Bool
changed_by (done c) = c
changed_by _ = true

abbrev pub unless_stopped : Ending → PositionStep → PositionStep → PositionStep
unless_stopped (done c) rest stop = rest
unless_stopped _ rest stop = stop

module _ (mode : Mode) (broker : Broker) (position : TrailingPosition) (tick stop : Decimal) where
  -- `_maintain_profile` of a profile's progress in the state.
  unfoldable pub profile_step :
      TrailingStopProfile → TrailingStopState → TrailingProfileState → ProfileStep
  profile_step p state progress = maintain_profile mode broker position tick state p progress stop

  -- The loop over the profiles; an exception leaves it, and what was written stays.
  unfoldable pub run_profiles :
      List TrailingStopProfile → TrailingStopState → List Event → Bool → PositionStep
  run_profiles [] state events changed = stopped state events (done changed)
  run_profiles (p ∷ ps) state events changed = elim (lookup p.profile_id state.profiles) [
    | none ↦ stopped state events (raised (key_error p.profile_id))
    | some progress ↦
        let step = profile_step p state progress in
        let rest =
          run_profiles ps (with_step p state step) (events ++ step.events)
            (changed_by step.ending || changed) in
        unless_stopped step.ending rest
          (stopped (with_step p state step) (events ++ step.events) step.ending)
  ]

  -- The method once the state is measured.
  unfoldable pub run_state : TrailingStopState × Bool → PositionStep
  unfolding run_profiles
  run_state (state, changed) =
      let (profiles, filled) = fill_profiles (profiles_of mode) state.profiles changed in
      let (observed, moved) = observe position (record state { profiles = profiles }) filled in
      run_profiles (profiles_of mode) observed [] moved

-- The state that the symbol has afterwards, the events, and the ending. A state that cannot be
-- measured leaves the old one.
pub record SymbolStep : Type 0 where
  pub state : Option TrailingStopState
  pub events : List Event
  pub ending : Ending

abbrev pub symbol_step : PositionStep → SymbolStep
symbol_step s = record { state = some s.state; events = s.events; ending = s.ending }

abbrev pub unmeasured : Option TrailingStopState → Error → SymbolStep
unmeasured existing e = record { state = existing; events = []; ending = raised e }

unfoldable pub maintain_measured :
    Mode
    → Broker
    → TrailingPosition
    → Decimal
    → Decimal
    → Option TrailingStopState
    → Result (TrailingStopState × Bool)
    → SymbolStep
maintain_measured mode broker position tick stop existing (err e) = unmeasured existing e
maintain_measured mode broker position tick stop existing (ok m) =
    symbol_step (run_state mode broker position tick stop m)

unfoldable pub maintain_stopped :
    Mode
    → Broker
    → TrailingPosition
    → Decimal
    → Option TrailingStopState
    → Option Decimal
    → SymbolStep
maintain_stopped mode broker position tick existing none =
    unmeasured existing (value_error "position has no exchange stop")
maintain_stopped mode broker position tick existing (some stop) =
    maintain_measured mode broker position tick stop existing
      (measure_state mode position stop (same_side_state position.side existing))

unfoldable pub maintain_position :
    Mode → Broker → TrailingPosition → Decimal → Option TrailingStopState → SymbolStep
unfolding maintain_stopped maintain_measured
maintain_position mode broker position tick existing =
    maintain_stopped mode broker position tick existing position.stop_loss
