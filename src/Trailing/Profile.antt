-- ===== src/Trailing/Profile.antt =====
-- `_maintain_profile`: one profile of one position, on a new mark.
use candlepilot.Prelude.{
  String, Bool, true, false, Option, none, some, List, [], ◌∷◌, not, ltb_ℤ, leb_ℤ, eqb_ℤ, pos,
  if◌then◌else◌,
}
use candlepilot.Decimal.{Decimal, dec, add, sub, mul, max}
use candlepilot.Outcome.{Result, ok, err}
use candlepilot.Domain.{Side, long, short}
use candlepilot.Risk.{value_or}
use candlepilot.Trailing.{
  Mode, shadow, TrailingPosition, TrailingStopProfile, TrailingProfileState, TrailingStopState,
  Broker, Replacement, replaced, refused, failed, Ending, done, raised, replacement_refused,
  critical, Status, simulated_filled, missed, shadowed, applied, failure, Event, trigger_crossed,
  to_side_tick,
}

-- `previous_stop or position.stop_loss`
abbrev pub stop_before : Option Decimal → Option Decimal → Option Decimal
stop_before none stop = stop
stop_before (some a) none = elim (eqb_ℤ a (pos 0)) [ true ↦ none | false ↦ some a ]
stop_before (some a) (some b) = some (value_or (some a) b)

module _ (position : TrailingPosition) (state : TrailingStopState) where
  -- `_record`, of a position that has a state.
  abbrev pub event :
      Status → Option String → Option Decimal → Option Decimal → Option Decimal → Event
  event status profile_id candidate previous fill = record {
    symbol = position.symbol;
    status = status;
    side = position.side;
    quantity = position.quantity;
    entry_price = position.entry_price;
    mark_price = position.mark_price;
    original_stop = some state.original_stop;
    best_mark = some state.best_mark;
    previous_stop = stop_before previous position.stop_loss;
    candidate_stop = candidate;
    simulated_fill_price = fill;
    profile_id = profile_id;
  }

  abbrev pub excursion : Side → Decimal
  excursion long = sub state.best_mark state.entry_price
  excursion short = sub state.entry_price state.best_mark

  abbrev pub raw_candidate : TrailingStopProfile → Side → Decimal
  raw_candidate profile long = sub state.best_mark (mul profile.distance_r state.risk_distance)
  raw_candidate profile short = add state.best_mark (mul profile.distance_r state.risk_distance)

  -- `minimum_step_r` is 0.1.
  abbrev pub minimum_step : Decimal → Decimal
  minimum_step tick = max tick (mul (dec 1 1) state.risk_distance)

  abbrev pub improvement : Side → Decimal → Decimal → Decimal
  improvement long candidate reference = sub candidate reference
  improvement short candidate reference = sub reference candidate

  abbrev pub valid_side : Side → Decimal → Decimal → Bool
  valid_side long tick candidate = leb_ℤ candidate (sub position.mark_price tick)
  valid_side short tick candidate = leb_ℤ (add position.mark_price tick) candidate

  -- `progress.last_candidate == candidate`
  abbrev pub is_last : Option Decimal → Decimal → Bool
  is_last none candidate = false
  is_last (some last) candidate = eqb_ℤ last candidate

  -- What an active profile wants of its stop.
  pub data Decision : Type 0 where
    keep : Decision
    miss : Decimal → Decision
    move : Decimal → Decision

  unfoldable pub decide :
      Decimal → TrailingStopProfile → TrailingProfileState → Decimal → Decimal → Decision
  decide tick profile progress stop candidate =
      let reference = value_or progress.last_candidate stop in
      if ltb_ℤ (improvement position.side candidate reference) (minimum_step tick)
      then keep
      else if not (valid_side position.side tick candidate)
      then (if is_last progress.last_candidate candidate then keep else miss candidate)
      else if is_last progress.last_candidate candidate
      then keep
      else move candidate

pub record ProfileStep : Type 0 where
  pub progress : TrailingProfileState
  pub events : List Event
  pub ending : Ending

abbrev pub kept : TrailingProfileState → Bool → ProfileStep
kept progress changed = record { progress = progress; events = []; ending = done changed }

module _ (mode : Mode) (broker : Broker) (position : TrailingPosition) (tick : Decimal)
    (state : TrailingStopState) (profile : TrailingStopProfile) where
  -- The end of the method, on the broker's answer to the replacement.
  unfoldable pub settle_replacement : TrailingProfileState → Decimal → Replacement → ProfileStep
  settle_replacement progress candidate (replaced previous current) = record {
    progress = record progress { last_candidate = some current };
    events =
        event position state applied (some profile.profile_id) (some current) (some previous) none
        ∷ [];
    ending = done true;
  }
  settle_replacement progress candidate (refused true) = record {
    progress = progress;
    events = event position state failure (some profile.profile_id) (some candidate) none none ∷ [];
    ending = critical;
  }
  settle_replacement progress candidate (refused false) = record {
    progress = progress;
    events = [];
    ending = replacement_refused;
  }
  settle_replacement progress candidate (failed e) = record {
    progress = progress;
    events = [];
    ending = raised e;
  }

  abbrev pub observed : TrailingProfileState → Status → Decimal → ProfileStep
  observed progress status candidate = record {
    progress = record progress { last_candidate = some candidate };
    events = event position state status (some profile.profile_id) (some candidate) none none ∷ [];
    ending = done true;
  }

  abbrev pub move_stop : Mode → TrailingProfileState → Decimal → ProfileStep
  move_stop shadow progress candidate = observed progress shadowed candidate
  move_stop _ progress candidate =
      settle_replacement progress candidate (broker position.symbol position.side candidate)

  unfoldable pub act : TrailingProfileState → Bool → Decision position state → ProfileStep
  act progress changed keep = kept progress changed
  act progress changed (miss candidate) = observed progress missed candidate
  act progress changed (move candidate) = move_stop mode progress candidate

  -- The part of an active profile, from the candidate on.
  abbrev pub trail_to : TrailingProfileState → Bool → Decimal → Result Decimal → ProfileStep
  trail_to progress changed stop (err e) = record {
    progress = progress;
    events = [];
    ending = raised e;
  }
  trail_to progress changed stop (ok candidate) =
      act progress changed (decide position state tick profile progress stop candidate)

  unfoldable pub trail : TrailingProfileState → Bool → Decimal → ProfileStep
  trail progress changed stop =
      trail_to progress changed stop
        (to_side_tick (raw_candidate position state profile position.side) tick position.side)

  -- `excursion >= profile.activation_r * state.risk_distance`
  abbrev pub activates : Bool
  activates =
      leb_ℤ (mul profile.activation_r state.risk_distance) (excursion position state position.side)

  unfoldable pub activate : TrailingProfileState → Decimal → ProfileStep
  activate progress stop =
      if progress.active
      then trail progress false stop
      else if activates
      then trail (record progress { active = true }) true stop
      else kept progress false

  -- The shadow profile's simulated fill at the first mark that crosses its last candidate.
  abbrev pub crosses : Mode → Option Decimal → Bool
  crosses shadow (some last) = trigger_crossed position.side position.mark_price last
  crosses _ _ = false

  unfoldable pub maintain_profile : TrailingProfileState → Decimal → ProfileStep
  maintain_profile progress stop =
      if progress.simulated_triggered
      then kept progress false
      else if crosses mode progress.last_candidate
      then record {
        progress = record progress { simulated_triggered = true };
        events =
            event position state simulated_filled (some profile.profile_id) progress.last_candidate
              none (some position.mark_price)
            ∷ [];
        ending = done true;
      }
      else activate progress stop
