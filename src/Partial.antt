-- ===== src/Partial.antt =====
-- src/candlepilot/risk/partial_take_profit.py: the data of `PartialTakeProfitManager`.
pub mod Profile
pub mod Position
pub mod Manager
pub mod Upkeep
pub mod Phase
pub mod Sound
pub mod Kept
mod Tests
use candlepilot.Prelude.{String, Bool, false, Option, none, List, [], ◌∷◌, pos}
use candlepilot.Prelude.Assoc.{Dict}
use candlepilot.Decimal.{Decimal, dec, of_int}
use candlepilot.Domain.{Side}

pub record PartialTakeProfitProfile : Type 0 where
  pub profile_id : String
  pub target_r : Decimal
  pub fraction : Decimal

-- PARTIAL_TAKE_PROFIT_PROFILES
abbrev pub partial_take_profit_profiles : List PartialTakeProfitProfile
partial_take_profit_profiles =
    record { profile_id = "1R / 25% + BE"; target_r = of_int 1; fraction = dec 25 2 }
    ∷ record { profile_id = "1R / 50% + BE"; target_r = of_int 1; fraction = dec 50 2 }
    ∷ []

pub record PartialTakeProfitProgress : Type 0 where
  pub partial_triggered : Bool
  pub breakeven_triggered : Bool
  pub unviable : Bool
  pub partial_quantity : Option Decimal
  pub partial_gross_pnl : Decimal

pub record PartialTakeProfitState : Type 0 where
  pub side : Side
  pub quantity : Decimal
  pub entry_price : Decimal
  pub original_stop : Decimal
  pub risk_distance : Decimal
  pub last_mark : Decimal
  pub profiles : Dict PartialTakeProfitProgress

-- `PartialTakeProfitProgress()`
abbrev pub fresh_progress : PartialTakeProfitProgress
fresh_progress = record {
  partial_triggered = false;
  breakeven_triggered = false;
  unviable = false;
  partial_quantity = none;
  partial_gross_pnl = pos 0;
}

pub data PartialStatus : Type 0 where
  position_closed unviable_split partial_simulated_filled breakeven_simulated_filled : PartialStatus

-- What `_record` is called with; the state and the progress are those at the call, from which it
-- prints the other fields.
pub record PartialEvent : Type 0 where
  pub symbol : String
  pub state : PartialTakeProfitState
  pub profile : PartialTakeProfitProfile
  pub progress : PartialTakeProfitProgress
  pub status : PartialStatus
  pub target_price : Option Decimal
  pub simulated_fill : Option Decimal
  pub fill_quantity : Option Decimal
  pub fill_gross_pnl : Option Decimal
  pub strategy_gross_pnl : Option Decimal
