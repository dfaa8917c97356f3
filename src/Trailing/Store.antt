-- ===== src/Trailing/Store.antt =====
-- `TrailingStopManager`, and the state that `_load` and `_save` keep in the audit store. The
-- store holds what `json.loads` gives of what `json.dumps` wrote; a number stands for the text that
-- `str` and `Decimal` spell and read it by.
use candlepilot.Prelude.{Bool, true, false, Option, none, some, List, [], ◌∷◌, if◌then◌else◌}
use candlepilot.Prelude.Assoc.{Dict}
use candlepilot.Decimal.{Decimal}
use candlepilot.Domain.{Side}
use candlepilot.Trailing.{
  Mode, off, shadow, live, TrailingProfileState, TrailingStopState, Event, live_profile,
}

-- A stored state; one written before there were profiles has the live profile's fields instead.
pub record StoredItem : Type 0 where
  pub side : Side
  pub quantity : Decimal
  pub entry_price : Decimal
  pub original_stop : Decimal
  pub risk_distance : Decimal
  pub best_mark : Decimal
  pub profiles : Option (Dict TrailingProfileState)
  pub active : Bool
  pub last_candidate : Option Decimal

pub record Stored : Type 0 where
  pub mode : Option Mode
  pub states : Dict StoredItem

pub record TrailingStopManager : Type 0 where
  pub mode : Mode
  pub states : Dict TrailingStopState
  pub loaded : Bool
  pub events : List Event  -- the audit's events, the last one last
  pub stored : Option Stored  -- the runtime state of the audit store

-- `for … in d.items()` with a new value for each key.
unfoldable pub map_values {ℓ κ} : {A : Type ℓ} {B : Type κ} → (A → B) → Dict A → Dict B
map_values f [] = []
map_values f ((k, a) ∷ d) = (k, f a) ∷ map_values f d

abbrev pub stored_profiles :
    StoredItem → Option (Dict TrailingProfileState) → Dict TrailingProfileState
stored_profiles item (some profiles) = profiles
stored_profiles item none =
    (
      live_profile.profile_id,
      record {
        active = item.active;
        last_candidate = item.last_candidate;
        simulated_triggered = false;
      },
    )
    ∷ []

unfoldable pub load_item : StoredItem → TrailingStopState
load_item item = record {
  side = item.side;
  quantity = item.quantity;
  entry_price = item.entry_price;
  original_stop = item.original_stop;
  risk_distance = item.risk_distance;
  best_mark = item.best_mark;
  profiles = stored_profiles item item.profiles;
}

-- What a change of mode clears.
unfoldable pub clear_progress : TrailingProfileState → TrailingProfileState
clear_progress p = record p { last_candidate = none; simulated_triggered = false }

unfoldable pub clear_state : TrailingStopState → TrailingStopState
clear_state s = record s { profiles = map_values clear_progress s.profiles }

abbrev pub same_mode : Mode → Option Mode → Bool
same_mode off (some off) = true
same_mode shadow (some shadow) = true
same_mode live (some live) = true
same_mode _ _ = false

unfoldable pub load_states : Mode → Stored → Dict TrailingStopState
load_states mode stored =
    let states = map_values load_item stored.states in
    if same_mode mode stored.mode then states else map_values clear_state states

abbrev pub load_stored : TrailingStopManager → Option Stored → TrailingStopManager
load_stored m none = record m { loaded = true }
load_stored m (some stored) = record m { states = load_states m.mode stored; loaded = true }

-- `_load`
unfoldable pub load : TrailingStopManager → TrailingStopManager
load m = if m.loaded then m else load_stored m m.stored

unfoldable pub save_item : TrailingStopState → StoredItem
save_item s = record {
  side = s.side;
  quantity = s.quantity;
  entry_price = s.entry_price;
  original_stop = s.original_stop;
  risk_distance = s.risk_distance;
  best_mark = s.best_mark;
  profiles = some s.profiles;
  active = false;
  last_candidate = none;
}

-- `_save`
unfoldable pub save : TrailingStopManager → TrailingStopManager
save m = record m {
  stored = some (record { mode = some m.mode; states = map_values save_item m.states });
}
