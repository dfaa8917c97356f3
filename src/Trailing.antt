-- ===== src/Trailing.antt =====
-- src/candlepilot/risk/trailing.py: the data of `TrailingStopManager` and its static methods.
pub mod Profile
pub mod Position
pub mod Store
pub mod Manager
pub mod Ratchet
pub mod Advance
pub mod Requests
pub mod Shadow
pub mod Replace
pub mod Venue
pub mod Measure
pub mod Persist
pub mod Upkeep
pub mod Critical
mod Tests
use candlepilot.Prelude.{String, Bool, true, false, Option, none, some, List, [], ◌∷◌, ltb_ℤ, leb_ℤ}
use candlepilot.Prelude.Assoc.{Dict}
use candlepilot.Decimal.{Decimal, dec, of_int}
use candlepilot.Outcome.{Error, Result}
use candlepilot.Domain.{Side, long, short}
use candlepilot.Risk.{to_tick}
use candlepilot.Risk.Levels.{entry_rounding}

pub data Mode : Type 0 where
  off shadow live : Mode

-- broker/binance_testnet.py, `TrailingPosition`.
pub record TrailingPosition : Type 0 where
  pub symbol : String
  pub side : Side
  pub quantity : Decimal
  pub entry_price : Decimal
  pub mark_price : Decimal
  pub stop_loss : Option Decimal

pub record TrailingStopProfile : Type 0 where
  pub profile_id : String
  pub activation_r : Decimal
  pub distance_r : Decimal

pub record TrailingProfileState : Type 0 where
  pub active : Bool
  pub last_candidate : Option Decimal
  pub simulated_triggered : Bool

pub record TrailingStopState : Type 0 where
  pub side : Side
  pub quantity : Decimal
  pub entry_price : Decimal
  pub original_stop : Decimal
  pub risk_distance : Decimal
  pub best_mark : Decimal
  pub profiles : Dict TrailingProfileState

abbrev pub live_profile : TrailingStopProfile
live_profile = record { profile_id = "2R / 1R"; activation_r = of_int 2; distance_r = of_int 1 }

abbrev pub shadow_profiles : List TrailingStopProfile
shadow_profiles =
    record { profile_id = "0.5R / 0.5R"; activation_r = dec 5 1; distance_r = dec 5 1 }
    ∷ record { profile_id = "0.5R / 0.75R"; activation_r = dec 5 1; distance_r = dec 75 2 }
    ∷ record { profile_id = "1R / 1R"; activation_r = of_int 1; distance_r = of_int 1 }
    ∷ record { profile_id = "1.5R / 0.5R"; activation_r = dec 15 1; distance_r = dec 5 1 }
    ∷ live_profile
    ∷ []

-- `_profiles`
abbrev pub profiles_of : Mode → List TrailingStopProfile
profiles_of shadow = shadow_profiles
profiles_of _ = live_profile ∷ []

-- What `replace_stop_loss` of the broker does: it returns the previous and the current stop, or
-- raises `TrailingStopReplacementError`, with the flag for the emergency lock, or anything else.
pub data Replacement : Type 0 where
  replaced : Decimal → Decimal → Replacement
  refused : Bool → Replacement
  failed : Error → Replacement

abbrev pub Broker : Type 0
Broker = String → Side → Decimal → Replacement

-- How a step ends: with its `changed` flag, with an exception that `maintain` catches, or with
-- `TrailingStopCriticalError`, which it does not.
pub data Ending : Type 0 where
  done : Bool → Ending
  raised : Error → Ending
  replacement_refused : Ending
  critical : Ending

pub data Status : Type 0 where
  simulated_filled missed shadowed applied failure : Status

-- An audit event of `_record`; the texts of `detail` are left out.
pub record Event : Type 0 where
  pub symbol : String
  pub status : Status
  pub side : Side
  pub quantity : Decimal
  pub entry_price : Decimal
  pub mark_price : Decimal
  pub original_stop : Option Decimal
  pub best_mark : Option Decimal
  pub previous_stop : Option Decimal
  pub candidate_stop : Option Decimal
  pub simulated_fill_price : Option Decimal
  pub profile_id : Option String

abbrev pub is_loss_side : Side → Decimal → Decimal → Bool
is_loss_side long entry stop = ltb_ℤ stop entry
is_loss_side short entry stop = ltb_ℤ entry stop

abbrev pub trigger_crossed : Side → Decimal → Decimal → Bool
trigger_crossed long mark trigger = leb_ℤ mark trigger
trigger_crossed short mark trigger = leb_ℤ trigger mark

-- `_to_tick`
abbrev pub to_side_tick : Decimal → Decimal → Side → Result Decimal
to_side_tick value tick side = to_tick (entry_rounding side) value tick

abbrev pub idle : TrailingProfileState
idle = record { active = false; last_candidate = none; simulated_triggered = false }
