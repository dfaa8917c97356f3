-- ===== src/Partial/Profile.antt =====
-- `_maintain_profile`: one partial-profit profile of one position, on a new mark.
use candlepilot.Prelude.{
  Bool, true, false, none, some, List, [], ◌∷◌, ◌||◌, not, ltb_ℤ, leb_ℤ, pos, if◌then◌else◌,
}
use candlepilot.Decimal.{Decimal, Rounding, down, up, add, sub, mul}
use candlepilot.Outcome.{Result, ok, err}
use candlepilot.Domain.{Side, long, short}
use candlepilot.Risk.{SymbolRules, value_or, round_down, to_tick}
use candlepilot.Trailing.{TrailingPosition}
use candlepilot.Partial.{
  PartialTakeProfitProfile, PartialTakeProfitProgress, PartialTakeProfitState, PartialStatus,
  unviable_split, partial_simulated_filled, breakeven_simulated_filled, PartialEvent,
}

abbrev pub target_reached : Side → Decimal → Decimal → Bool
target_reached long mark target = leb_ℤ target mark
target_reached short mark target = leb_ℤ mark target

abbrev pub breakeven_crossed : Side → Decimal → Decimal → Bool
breakeven_crossed long mark breakeven = leb_ℤ mark breakeven
breakeven_crossed short mark breakeven = leb_ℤ breakeven mark

unfoldable pub gross_pnl : Side → Decimal → Decimal → Decimal → Decimal
gross_pnl long entry fill quantity = mul (sub fill entry) quantity
gross_pnl short entry fill quantity = mul (sub entry fill) quantity

abbrev pub raw_target : Side → PartialTakeProfitState → PartialTakeProfitProfile → Decimal
raw_target long state profile = add state.entry_price (mul profile.target_r state.risk_distance)
raw_target short state profile = sub state.entry_price (mul profile.target_r state.risk_distance)

abbrev pub away : Side → Rounding
away long = up
away short = down

unfoldable pub target_price :
    PartialTakeProfitState → PartialTakeProfitProfile → Decimal → Result Decimal
target_price state profile tick_size =
    to_tick (away state.side) (raw_target state.side state profile) tick_size

-- A step's progress and events, and its flag or its exception.
pub record PartialStep : Type 0 where
  pub progress : PartialTakeProfitProgress
  pub events : List PartialEvent
  pub ending : Result Bool

abbrev pub quiet : PartialTakeProfitProgress → Result Bool → PartialStep
quiet progress ending = record { progress = progress; events = []; ending = ending }

module _ (position : TrailingPosition) (rules : SymbolRules) (state : PartialTakeProfitState)
    (profile : PartialTakeProfitProfile) where
  abbrev pub minimum : Decimal
  minimum = value_or rules.market_min_quantity rules.min_quantity

  abbrev pub split_event : PartialTakeProfitProgress → PartialStatus → PartialEvent
  split_event progress status = record {
    symbol = position.symbol;
    state = state;
    profile = profile;
    progress = progress;
    status = status;
    target_price = none;
    simulated_fill = none;
    fill_quantity = none;
    fill_gross_pnl = none;
    strategy_gross_pnl = none;
  }

  abbrev pub mark_unviable : PartialTakeProfitProgress → PartialStep
  mark_unviable progress =
      let after = record progress { unviable = true } in
      record { progress = after; events = split_event after unviable_split ∷ []; ending = ok true }

  abbrev pub fill_partial : PartialTakeProfitProgress → Decimal → Decimal → PartialStep
  fill_partial progress quantity target =
      let pnl = gross_pnl position.side state.entry_price target quantity in
      let after = record progress {
        partial_triggered = true;
        partial_quantity = some quantity;
        partial_gross_pnl = pnl;
      } in
      record {
        progress = after;
        events =
            record (split_event after partial_simulated_filled) {
              target_price = some target;
              simulated_fill = some target;
              fill_quantity = some quantity;
              fill_gross_pnl = some pnl;
            }
            ∷ [];
        ending = ok true;
      }

  abbrev pub take_partial : PartialTakeProfitProgress → Decimal → Result Decimal → PartialStep
  take_partial progress quantity (err e) = quiet progress (err e)
  take_partial progress quantity (ok target) =
      if target_reached position.side position.mark_price target
      then fill_partial progress quantity target
      else quiet progress (ok false)

  abbrev pub split_position : PartialTakeProfitProgress → Result Decimal → PartialStep
  split_position progress (err e) = quiet progress (err e)
  split_position progress (ok quantity) =
      if ltb_ℤ quantity minimum || leb_ℤ (sub state.quantity quantity) (pos 0)
      then mark_unviable progress
      else take_partial progress quantity (target_price state profile rules.tick_size)

  -- The flag is set before the target is computed for the event.
  abbrev pub close_rest : PartialTakeProfitProgress → Decimal → Result Decimal → PartialStep
  close_rest after pnl (err e) = quiet after (err e)
  close_rest after pnl (ok target) = record {
    progress = after;
    events =
        record (split_event after breakeven_simulated_filled) {
          target_price = some target;
          simulated_fill = some position.mark_price;
          fill_quantity = some (sub state.quantity (value_or after.partial_quantity (pos 0)));
          fill_gross_pnl = some pnl;
          strategy_gross_pnl = some (add after.partial_gross_pnl pnl);
        }
        ∷ [];
    ending = ok true;
  }

  abbrev pub close_at_breakeven : PartialTakeProfitProgress → PartialStep
  close_at_breakeven progress =
      let remaining = sub state.quantity (value_or progress.partial_quantity (pos 0)) in
      close_rest (record progress { breakeven_triggered = true })
        (gross_pnl position.side state.entry_price position.mark_price remaining)
        (target_price state profile rules.tick_size)

  unfoldable pub maintain_profile : PartialTakeProfitProgress → PartialStep
  maintain_profile progress =
      let step = value_or rules.market_quantity_step rules.quantity_step in
      if progress.unviable || progress.breakeven_triggered
      then quiet progress (ok false)
      else if not progress.partial_triggered
      then split_position progress (round_down (mul state.quantity profile.fraction) step)
      else if breakeven_crossed position.side position.mark_price state.entry_price
      then close_at_breakeven progress
      else quiet progress (ok false)
