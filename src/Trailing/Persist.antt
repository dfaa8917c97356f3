-- ===== src/Trailing/Persist.antt =====
-- About `_load` in a process of another mode.
use candlepilot.Prelude.{String, Bool, false, Option, none, some, List, [], ◌∷◌, ◌≡◌, refl, ap, ◌∙◌}
use candlepilot.Prelude.Assoc.{Dict, AllValues}
use candlepilot.Trailing.{TrailingProfileState, TrailingStopState, live_profile}
use candlepilot.Trailing.Store.{
  TrailingStopManager, StoredItem, Stored, map_values, load_item, load_states, load,
  stored_profiles, clear_progress, clear_state, same_mode,
}

abbrev pub Cleared : TrailingProfileState → Type 0
Cleared p = (p.last_candidate ≡ none) × (p.simulated_triggered ≡ false)

-- Which profiles there are, and whether each is active.
pub activity : Dict TrailingProfileState → List (String × Bool)
activity [] = []
activity ((k, p) ∷ d) = (k, p.active) ∷ activity d

abbrev pub stored_activity : StoredItem → Option (Dict TrailingProfileState) → List (String × Bool)
stored_activity item none = (live_profile.profile_id, item.active) ∷ []
stored_activity item (some profiles) = activity profiles

-- A state that is loaded in another mode.
pub record Restarted (item : StoredItem) (s : TrailingStopState) : Type 0 where
  pub same_side : s.side ≡ item.side
  pub same_quantity : s.quantity ≡ item.quantity
  pub same_entry : s.entry_price ≡ item.entry_price
  pub same_stop : s.original_stop ≡ item.original_stop
  pub same_risk : s.risk_distance ≡ item.risk_distance
  pub same_mark : s.best_mark ≡ item.best_mark
  pub same_activity : activity s.profiles ≡ stored_activity item item.profiles
  pub cleared : AllValues Cleared s.profiles

-- The same symbols in the same order, each with its state.
abbrev pub AllRestarted : Dict StoredItem → Dict TrailingStopState → Type 0
AllRestarted [] [] = Unit
AllRestarted ((k, item) ∷ items) ((j, s) ∷ d) = (k ≡ j) × Restarted item s × AllRestarted items d
AllRestarted _ _ = ⊥

cleared_activity :
    (d : Dict TrailingProfileState) → activity (map_values clear_progress d) ≡ activity d
unfolding activity map_values clear_progress
cleared_activity [] = refl
cleared_activity ((k, p) ∷ d) =
    ap (λ (x : List (String × Bool)). (k, p.active) ∷ x) (cleared_activity d)

all-Cleared : (d : Dict TrailingProfileState) → AllValues Cleared (map_values clear_progress d)
unfolding map_values clear_progress
all-Cleared [] = tt
all-Cleared ((k, p) ∷ d) = ((refl, refl), all-Cleared d)

loaded_activity :
    (item : StoredItem) (o : Option (Dict TrailingProfileState))
    → activity (stored_profiles item o) ≡ stored_activity item o
unfolding activity
loaded_activity item none = refl
loaded_activity item (some profiles) = refl

loaded-Restarted : (item : StoredItem) → Restarted item (clear_state (load_item item))
unfolding load_item clear_state
loaded-Restarted item = record {
  same_side = refl;
  same_quantity = refl;
  same_entry = refl;
  same_stop = refl;
  same_risk = refl;
  same_mark = refl;
  same_activity =
      cleared_activity (stored_profiles item item.profiles) ∙ loaded_activity item item.profiles;
  cleared = all-Cleared (stored_profiles item item.profiles);
}

loaded-AllRestarted :
    (items : Dict StoredItem)
    → AllRestarted items (map_values clear_state (map_values load_item items))
unfolding map_values
loaded-AllRestarted [] = tt
loaded-AllRestarted ((k, item) ∷ items) = (refl, loaded-Restarted item, loaded-AllRestarted items)

-- A manager that has not loaded yet, on a store of another mode or of none, loads every stored
-- symbol: with the side, the quantity, the prices, the R and the best mark that the store has, and
-- its profiles, each active as stored (one stored before there were profiles has the live one), but
-- with neither a last candidate nor a simulated fill.
pub load-AllRestarted :
    (m : TrailingStopManager) (stored : Stored)
    → m.loaded ≡ false
    → m.stored ≡ some stored
    → same_mode m.mode stored.mode ≡ false
    → AllRestarted stored.states (load m).states
unfolding load load_states
load-AllRestarted m stored fresh found other =
    rw (fresh, found, other) (loaded-AllRestarted stored.states)
