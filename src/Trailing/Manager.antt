-- ===== src/Trailing/Manager.antt =====
-- `TrailingStopManager.maintain` over all positions.
use Prim.Native.String.{compare}
use Prim.Native.Nat.{Ordering}
use candlepilot.Prelude.{
  String, Bool, true, false, Option, none, some, List, [], ◌∷◌, ◌++◌, ◌||◌, lookup, insert,
  if◌then◌else◌,
}
use candlepilot.Prelude.Assoc.{Dict}
use candlepilot.Risk.{SymbolRules}
use candlepilot.Risk.Permission.{is_listed}
use candlepilot.Trailing.{
  Mode, off, TrailingPosition, TrailingStopState, Broker, Ending, done, critical, failure, Event,
}
use candlepilot.Trailing.Profile.{stop_before}
use candlepilot.Trailing.Position.{changed_by, SymbolStep, maintain_position}
use candlepilot.Trailing.Store.{TrailingStopManager, load, save}

pub data Problem : Type 0 where
  no_tick_rule : String → Problem
  caught : String → Ending → Problem

pub data MaintainResult : Type 0 where
  errors : List Problem → MaintainResult
  critical_stop : MaintainResult

abbrev pub put_state :
    String → Option TrailingStopState → Dict TrailingStopState → Dict TrailingStopState
put_state symbol none states = states
put_state symbol (some state) states = insert symbol state states

-- `_record(position, "failed", detail=…)`, where the symbol may have no state.
abbrev pub failure_event : TrailingPosition → Option TrailingStopState → Event
failure_event position state = record {
  symbol = position.symbol;
  status = failure;
  side = position.side;
  quantity = position.quantity;
  entry_price = position.entry_price;
  mark_price = position.mark_price;
  original_stop = elim state [ none ↦ none | some s ↦ some s.original_stop ];
  best_mark = elim state [ none ↦ none | some s ↦ some s.best_mark ];
  previous_stop = stop_before none position.stop_loss;
  candidate_stop = none;
  simulated_fill_price = none;
  profile_id = none;
}

-- The manager after one symbol's step, before its ending is looked at.
abbrev pub with_symbol : TrailingStopManager → TrailingPosition → SymbolStep → TrailingStopManager
with_symbol m position step = record m {
  states = put_state position.symbol step.state m.states;
  events = m.events ++ step.events;
}

abbrev pub log_failure :
    TrailingStopManager → TrailingPosition → Option TrailingStopState → TrailingStopManager
log_failure m position state = record m { events = m.events ++ failure_event position state ∷ [] }

-- The `except` clauses of the loop: what they record and append, and the one that leaves it.
abbrev pub log_ending :
    TrailingStopManager → TrailingPosition → Option TrailingStopState → Ending → TrailingStopManager
log_ending m position state (done c) = m
log_ending m position state _ = log_failure m position state

abbrev pub problems_of : String → Ending → List Problem
problems_of symbol (done c) = []
problems_of symbol e = caught symbol e ∷ []

abbrev pub unless_critical {ℓ} : {A : Type ℓ} → Ending → A → A → A
unless_critical critical onward stop = stop
unless_critical _ onward stop = onward

abbrev pub finish : TrailingStopManager → List Problem → Bool → TrailingStopManager × MaintainResult
finish m problems changed = (if changed then save m else m, errors problems)

module _ (broker : Broker) (rules : Dict SymbolRules) where
  -- The loop over the positions, in the order of their symbols.
  unfoldable pub maintain_all :
      List (String × TrailingPosition)
      → TrailingStopManager
      → List Problem
      → Bool
      → TrailingStopManager × MaintainResult
  unfolding save
  maintain_all [] m problems changed = finish m problems changed
  maintain_all ((symbol, position) ∷ rest) m problems changed = elim (lookup symbol rules) [
    | none ↦ maintain_all rest m (problems ++ no_tick_rule symbol ∷ []) changed
    | some rule ↦
        let step =
          maintain_position m.mode broker position rule.tick_size
            (lookup position.symbol m.states) in
        let after = with_symbol m position step in
        let onward =
          maintain_all rest (log_ending after position step.state step.ending)
            (problems ++ problems_of symbol step.ending) (changed || changed_by step.ending) in
        unless_critical step.ending onward (after, critical_stop)
  ]

-- `sorted(positions.items())`: by symbol.
unfoldable pub insert_sorted {ℓ} : {V : Type ℓ} → String × V → Dict V → Dict V
insert_sorted item [] = item ∷ []
insert_sorted item (other ∷ rest) =
    let later = other ∷ insert_sorted item rest in
    elim (compare item.0 other.0) [ Ordering.gt ↦ later | _ ↦ item ∷ other ∷ rest ]

unfoldable pub sorted_items {ℓ} : {V : Type ℓ} → Dict V → Dict V
unfolding insert_sorted
sorted_items [] = []
sorted_items (item ∷ rest) = insert_sorted item (sorted_items rest)

abbrev pub keys {ℓ} : {V : Type ℓ} → Dict V → List String
keys [] = []
keys ((k, v) ∷ d) = k ∷ keys d

-- The states of the symbols that are still observed, and whether one was dropped.
unfoldable pub drop_closed : List String → Dict TrailingStopState → Dict TrailingStopState × Bool
drop_closed observed [] = ([], false)
drop_closed observed ((symbol, state) ∷ states) =
    let (rest, dropped) = drop_closed observed states in
    if is_listed symbol observed then ((symbol, state) ∷ rest, dropped) else (rest, true)

abbrev pub observed_symbols : Option (List String) → Dict TrailingPosition → List String
observed_symbols none positions = keys positions
observed_symbols (some symbols) positions = symbols

abbrev pub is_off : Mode → Bool
is_off off = true
is_off _ = false

unfoldable pub maintain :
    TrailingStopManager
    → Broker
    → Dict TrailingPosition
    → Dict SymbolRules
    → Option (List String)
    → TrailingStopManager × MaintainResult
unfolding maintain_all drop_closed sorted_items load
maintain m broker positions rules open_symbols =
    let loaded = load m in
    let (states, dropped) = drop_closed (observed_symbols open_symbols positions) loaded.states in
    if is_off m.mode
    then (m, errors [])
    else maintain_all broker rules (sorted_items positions) (record loaded { states = states }) []
        dropped
