-- ===== src/Partial/Position.antt =====
-- `_maintain_position` of the partial-profit manager: the state of one symbol.
use candlepilot.Prelude.{
  Bool, true, false, Option, none, some, List, [], ◌∷◌, ◌++◌, ◌||◌, not, lookup, insert, eqb_ℤ,
  if◌then◌else◌,
}
use candlepilot.Prelude.Assoc.{Dict}
use candlepilot.Decimal.{Decimal, sub, abs}
use candlepilot.Outcome.{Error, value_error, Result, ok, err, ◌>>◌, raise_if}
use candlepilot.Domain.{same_side}
use candlepilot.Risk.{SymbolRules}
use candlepilot.Trailing.{TrailingPosition, is_loss_side}
use candlepilot.Partial.{
  PartialTakeProfitProfile, PartialTakeProfitProgress, PartialTakeProfitState, fresh_progress,
  partial_take_profit_profiles, PartialEvent,
}
use candlepilot.Partial.Profile.{maintain_profile}

unfoldable pub fresh_profiles : List PartialTakeProfitProfile → Dict PartialTakeProfitProgress
fresh_profiles [] = []
fresh_profiles (p ∷ ps) = (p.profile_id, fresh_progress) ∷ fresh_profiles ps

unfoldable pub new_state : TrailingPosition → Decimal → PartialTakeProfitState
new_state position stop = record {
  side = position.side;
  quantity = position.quantity;
  entry_price = position.entry_price;
  original_stop = stop;
  risk_distance = abs (sub position.entry_price stop);
  last_mark = position.mark_price;
  profiles = fresh_profiles partial_take_profit_profiles;
}

abbrev pub known_state :
    TrailingPosition → Option PartialTakeProfitState → Option PartialTakeProfitState
known_state position none = none
known_state position (some s) = if same_side s.side position.side then some s else none

-- The state that the reading is measured by, and whether it is new.
unfoldable pub find_state :
    TrailingPosition
    → Decimal
    → Option PartialTakeProfitState
    → Result (PartialTakeProfitState × Bool)
find_state position stop none = do
  raise_if (not (is_loss_side position.side position.entry_price stop))
      (value_error "cannot infer original R from a stop beyond breakeven")
  ok (new_state position stop, true)
find_state position stop (some s) =
    if eqb_ℤ position.entry_price s.entry_price then ok (s, false) else do
      raise_if (not (is_loss_side position.side position.entry_price stop))
          (value_error "cannot reset R after an add with stop beyond breakeven")
      ok (new_state position stop, true)

pub record PartialRun : Type 0 where
  pub state : PartialTakeProfitState
  pub events : List PartialEvent
  pub ending : Result Bool

abbrev pub changed_flag : Result Bool → Bool
changed_flag (ok c) = c
changed_flag (err e) = true

abbrev pub unless_raised : Result Bool → PartialRun → PartialRun → PartialRun
unless_raised (ok c) rest stop = rest
unless_raised (err e) rest stop = stop

abbrev pub is_missing : Option PartialTakeProfitProgress → Bool
is_missing none = true
is_missing (some p) = false

abbrev pub progress_or_fresh : Option PartialTakeProfitProgress → PartialTakeProfitProgress
progress_or_fresh none = fresh_progress
progress_or_fresh (some p) = p

abbrev pub put_progress :
    PartialTakeProfitState
    → PartialTakeProfitProfile
    → PartialTakeProfitProgress
    → PartialTakeProfitState
put_progress state p progress = record state {
  profiles = insert p.profile_id progress state.profiles;
}

module _ (position : TrailingPosition) (rules : SymbolRules) where
  -- The loop over the profiles; an exception leaves it, and what was written stays.
  unfoldable pub run_profiles :
      List PartialTakeProfitProfile → PartialTakeProfitState → List PartialEvent → Bool → PartialRun
  run_profiles [] state events changed = record {
    state = state;
    events = events;
    ending = ok changed;
  }
  run_profiles (p ∷ ps) state events changed =
      let found = lookup p.profile_id state.profiles in
      let step = maintain_profile position rules state p (progress_or_fresh found) in
      let after = put_progress state p step.progress in
      let rest =
        run_profiles ps after (events ++ step.events)
          (changed_flag step.ending || (is_missing found || changed)) in
      unless_raised step.ending rest
        (record { state = after; events = events ++ step.events; ending = step.ending })

-- The symbol's state afterwards, the events and the ending.
pub record PartialSymbol : Type 0 where
  pub state : Option PartialTakeProfitState
  pub events : List PartialEvent
  pub ending : Result Bool

abbrev pub unknown : Option PartialTakeProfitState → Error → PartialSymbol
unknown existing e = record { state = existing; events = []; ending = err e }

abbrev pub ran : PartialRun → PartialSymbol
ran r = record { state = some r.state; events = r.events; ending = r.ending }

unfoldable pub maintain_found :
    TrailingPosition
    → SymbolRules
    → Option PartialTakeProfitState
    → Result (PartialTakeProfitState × Bool)
    → PartialSymbol
maintain_found position rules existing (err e) = unknown existing e
maintain_found position rules existing (ok found) = ran (
    run_profiles position rules partial_take_profit_profiles
      (record found.0 { last_mark = position.mark_price }) [] found.1)

unfoldable pub maintain_with_stop :
    TrailingPosition → SymbolRules → Option PartialTakeProfitState → Option Decimal → PartialSymbol
maintain_with_stop position rules existing none =
    unknown existing (value_error "position has no exchange stop")
maintain_with_stop position rules existing (some stop) =
    maintain_found position rules existing
      (find_state position stop (known_state position existing))

unfoldable pub maintain_position :
    TrailingPosition → SymbolRules → Option PartialTakeProfitState → PartialSymbol
maintain_position position rules existing =
    maintain_with_stop position rules existing position.stop_loss
