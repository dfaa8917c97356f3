-- ===== src/Outcomes.antt =====
-- candlepilot/analysis/outcomes.py: what the candles after an analysis made of its plan.
pub mod Clock
pub mod Evaluate
pub mod Refine
pub mod Start
pub mod Windows
pub mod Every
pub mod Placed
pub mod Ended
pub mod Fair
mod Tests
use candlepilot.Prelude.{ℕ, Bool, Option, List}
use candlepilot.Decimal.{Decimal}
use candlepilot.Time.{Datetime}

pub data Direction : Type 0 where
  long short neutral : Direction

-- The prices of the plan are floats, and those of a candle are rounded to floats before they are
-- compared; as they are only compared, all are decimals here.
pub record EntryPlan : Type 0 where
  pub entry : Decimal
  pub stop : Decimal
  pub target1 : Decimal
  pub target2 : Decimal

pub record MarketAnalysis : Type 0 where
  pub direction : Direction
  pub entry_plan : Option EntryPlan

-- The fields of a candle that this module reads.
pub record Kline : Type 0 where
  pub open_time : Datetime
  pub open_price : Decimal
  pub high : Decimal
  pub low : Decimal
  pub closed : Bool

-- A row of the venue, its numbers read.
pub record Row : Type 0 where
  pub open_ms : ℕ
  pub open_price : Decimal
  pub high : Decimal
  pub low : Decimal
  pub close_ms : ℕ

pub data OutcomeStatus : Type 0 where
  neutral_observation waiting_entry stopped_before_entry target1_before_entry active : OutcomeStatus
  target1_partial target2_reached stopped_out breakeven_after_target1 ambiguous : OutcomeStatus

-- What is added to the text of an outcome.
pub data Note : Type 0 where
  refined_by_minutes minutes_missing : Note

pub record AnalysisOutcome : Type 0 where
  pub status : OutcomeStatus
  pub bars_observed : ℕ
  pub completion_entry_price : Option Decimal
  pub completion_entry_at : Option Datetime
  pub entry_at : Option Datetime
  pub target1_at : Option Datetime
  pub resolved_at : Option Datetime
  pub notes : List Note

pub data Phase : Type 0 where
  waiting entered partial : Phase

pub record OutcomeState : Type 0 where
  pub phase : Phase
  pub entry_at : Option Datetime
  pub target1_at : Option Datetime
