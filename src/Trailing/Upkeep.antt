-- ===== src/Trailing/Upkeep.antt =====
-- R over all the states of `maintain`, in memory and in the store.
use candlepilot.Prelude.{
  Bool, Option, none, some, List, [], ◌∷◌, String, lookup, if_branches, Option-cases, inl, inr,
}
use candlepilot.Prelude.Assoc.{Dict, AllValues, insert-AllValues, lookup-AllValues}
use candlepilot.Risk.{SymbolRules}
use candlepilot.Risk.Permission.{is_listed}
use candlepilot.Trailing.{
  Ending, done, raised, replacement_refused, critical, TrailingPosition, TrailingStopState, Broker,
}
use candlepilot.Trailing.Position.{maintain_position}
use candlepilot.Trailing.Store.{
  TrailingStopManager, StoredItem, Stored, map_values, load_item, save_item, save, load,
  load_states, load_stored, clear_state,
}
use candlepilot.Trailing.Manager.{
  Problem, MaintainResult, drop_closed, observed_symbols, sorted_items, is_off, maintain_all,
  maintain, unless_critical, log_ending, with_symbol, put_state,
}
use candlepilot.Trailing.Measure.{Measured, MeasuredIfAny, maintain_position-Measured}

abbrev StatesMeasured : Dict TrailingStopState → Type 0
StatesMeasured = AllValues Measured

abbrev StoreMeasured : Option Stored → Type 0
StoreMeasured none = Unit
StoreMeasured (some stored) =
    AllValues (λ (item : StoredItem). Measured (load_item item)) stored.states

-- Every state in memory and in the store measures R.
pub record AllMeasured (m : TrailingStopManager) : Type 0 where
  pub in_memory : StatesMeasured m.states
  pub in_store : StoreMeasured m.stored

save-in_store :
    (d : Dict TrailingStopState)
    → StatesMeasured d
    → AllValues (λ (item : StoredItem). Measured (load_item item)) (map_values save_item d)
unfolding map_values save_item load_item
save-in_store [] h = tt
save-in_store ((k, s) ∷ d) h = (h.0, save-in_store d h.1)

save-AllMeasured : (m : TrailingStopManager) → AllMeasured m → AllMeasured (save m)
unfolding save
save-AllMeasured m h = record {
  in_memory = h.in_memory;
  in_store = save-in_store m.states h.in_memory;
}

load_items-Measured :
    (d : Dict StoredItem)
    → AllValues (λ (item : StoredItem). Measured (load_item item)) d
    → StatesMeasured (map_values load_item d)
unfolding map_values
load_items-Measured [] h = tt
load_items-Measured ((k, s) ∷ d) h = (h.0, load_items-Measured d h.1)

clear_states-Measured :
    (d : Dict TrailingStopState) → StatesMeasured d → StatesMeasured (map_values clear_state d)
unfolding map_values clear_state
clear_states-Measured [] h = tt
clear_states-Measured ((k, s) ∷ d) h = (
  record {
    stop_at_loss = h.0.stop_at_loss;
    distance = h.0.distance;
    distance_pos = h.0.distance_pos;
  },
  clear_states-Measured d h.1,
)

load_stored-AllMeasured :
    (m : TrailingStopManager) (stored : Option Stored)
    → AllMeasured m
    → StoreMeasured stored
    → AllMeasured (load_stored m stored)
unfolding load_states
load_stored-AllMeasured m none h k = record { in_memory = h.in_memory; in_store = h.in_store }
load_stored-AllMeasured m (some stored) h k = record {
  in_memory =
      if_branches StatesMeasured _ (λ _. load_items-Measured stored.states k)
        (λ _. clear_states-Measured _ (load_items-Measured stored.states k));
  in_store = h.in_store;
}

load-AllMeasured : (m : TrailingStopManager) → AllMeasured m → AllMeasured (load m)
unfolding load
load-AllMeasured m h =
    if_branches AllMeasured m.loaded (λ _. h) (λ _. load_stored-AllMeasured m m.stored h h.in_store)

drop_closed-Measured :
    (observed : List String) (d : Dict TrailingStopState)
    → StatesMeasured d
    → StatesMeasured (drop_closed observed d).0
unfolding drop_closed
drop_closed-Measured observed [] h = tt
drop_closed-Measured observed ((k, s) ∷ d) h =
    if_branches (λ (r : Dict TrailingStopState × Bool). StatesMeasured r.0) (is_listed k observed)
      (λ _. (h.0, drop_closed-Measured observed d h.1)) (λ _. drop_closed-Measured observed d h.1)

put_state-Measured :
    (symbol : String) (x : Option TrailingStopState) (d : Dict TrailingStopState)
    → MeasuredIfAny x
    → StatesMeasured d
    → StatesMeasured (put_state symbol x d)
put_state-Measured symbol none d h k = k
put_state-Measured symbol (some s) d h k = insert-AllValues Measured symbol s d h k

lookup-MeasuredIfAny :
    (symbol : String) (d : Dict TrailingStopState)
    → StatesMeasured d
    → MeasuredIfAny (lookup symbol d)
lookup-MeasuredIfAny symbol d h = elim (Option-cases (lookup symbol d)) [
  | inl missing ↦ rw missing tt
  | inr (s, found) ↦ rw found (lookup-AllValues Measured symbol s d h found)
]

log_ending-AllMeasured :
    (m : TrailingStopManager) (position : TrailingPosition) (x : Option TrailingStopState)
    (e : Ending)
    → AllMeasured m
    → AllMeasured (log_ending m position x e)
log_ending-AllMeasured m position x (done c) h = h
log_ending-AllMeasured m position x (raised e) h = record {
  in_memory = h.in_memory;
  in_store = h.in_store;
}
log_ending-AllMeasured m position x replacement_refused h = record {
  in_memory = h.in_memory;
  in_store = h.in_store;
}
log_ending-AllMeasured m position x critical h = record {
  in_memory = h.in_memory;
  in_store = h.in_store;
}

module _ (broker : Broker) (rules : Dict SymbolRules) where
  abbrev Kept : TrailingStopManager × MaintainResult → Type 0
  Kept r = AllMeasured r.0

  unless_critical-Kept :
      (e : Ending) (onward stop : TrailingStopManager × MaintainResult)
      → Kept onward
      → Kept stop
      → Kept (unless_critical e onward stop)
  unless_critical-Kept (done c) onward stop h k = h
  unless_critical-Kept (raised e) onward stop h k = h
  unless_critical-Kept replacement_refused onward stop h k = h
  unless_critical-Kept critical onward stop h k = k

  maintain_all-Kept :
      (positions : Dict TrailingPosition) (m : TrailingStopManager) (problems : List Problem)
      (changed : Bool)
      → AllMeasured m
      → Kept (maintain_all broker rules positions m problems changed)
  unfolding maintain_all
  maintain_all-Kept [] m problems changed h =
      if_branches AllMeasured changed (λ _. save-AllMeasured m h) (λ _. h)
  maintain_all-Kept ((symbol, position) ∷ rest) m problems changed h =
      elim (Option-cases (lookup symbol rules)) [
        | inl missing ↦ rw (maintain_all, missing) (maintain_all-Kept rest m _ changed h)
        | inr (rule, found) ↦
            let existing = lookup position.symbol m.states in
            let step = maintain_position m.mode broker position rule.tick_size existing in
            let kept : AllMeasured (with_symbol m position step) = record {
              in_memory =
                  put_state-Measured position.symbol step.state m.states
                    (maintain_position-Measured m.mode broker position rule.tick_size existing
                      (lookup-MeasuredIfAny position.symbol m.states h.in_memory))
                    h.in_memory;
              in_store = h.in_store;
            } in
            rw (maintain_all, found)
              (unless_critical-Kept step.ending _ _
                (maintain_all-Kept rest _ _ _ (
                  log_ending-AllMeasured (with_symbol m position step) position step.state
                    step.ending kept))
                kept)
      ]

-- If every state in memory and in the store measures R by a stop on the entry's losing side, so
-- that R is positive and the distance from entry to that stop, `maintain` leaves them so, whatever
-- the broker answers and however the run ends.
pub maintain_measures :
    (m : TrailingStopManager) (broker : Broker) (positions : Dict TrailingPosition)
    (rules : Dict SymbolRules) (open_symbols : Option (List String))
    → AllMeasured m
    → AllMeasured (maintain m broker positions rules open_symbols).0
unfolding maintain
maintain_measures m broker positions rules open_symbols h =
    let loaded = load-AllMeasured m h in
    if_branches (λ (r : TrailingStopManager × MaintainResult). AllMeasured r.0) (is_off m.mode)
      (λ _. h)
      (λ _. maintain_all-Kept broker rules (sorted_items positions) _ [] _ (record {
        in_memory =
            drop_closed-Measured (observed_symbols open_symbols positions) _ loaded.in_memory;
        in_store = loaded.in_store;
      }))
