-- ===== src/Rejected.antt =====
-- candlepilot/analysis/rejected_outcomes.py: what a decision that the policy rejected would have led to.
pub mod Evaluate
pub mod Market
pub mod Sure
pub mod Bars
pub mod Whole
pub mod Ended
mod Tests
use candlepilot.Prelude.{ℕ, Bool, true, false, not, ◌||◌, ◌&&◌, Option, none, some, pos, leb_ℤ}
use candlepilot.Decimal.{Decimal}
use candlepilot.Time.{Datetime}
use candlepilot.Outcome.{Result, value_error, raise_if, ◌>>=◌, ◌>>◌}
use candlepilot.Domain.{Side, long, short, OrderType, limit, market}

pub data RejectedStatus : Type 0 where
  waiting_entry active take_profit_hit stop_loss_hit expired_unfilled : RejectedStatus
  invalidated_before_entry target_before_entry ambiguous : RejectedStatus

pub data PriceSource : Type 0 where
  pre_trade intent : PriceSource

pub data PriceBasis : Type 0 where
  mark_price contract_price : PriceBasis

pub record RejectedDecisionPlan : Type 0 where
  pub direction : Side
  pub order_type : OrderType
  pub entry_price : Option Decimal
  pub stop_loss : Decimal
  pub take_profit : Decimal
  pub price_source : PriceSource
  pub evaluated_at : Datetime
  pub ttl_seconds : ℕ

-- The fields of the plan are the plan. Without the text, but for whether the minutes of an ambiguous bar were missing.
pub record RejectedDecisionOutcome : Type 0 where
  pub status : RejectedStatus
  pub plan : RejectedDecisionPlan
  pub price_basis : PriceBasis
  pub bars_observed : ℕ
  pub observation_started_at : Datetime
  pub observed_until : Option Datetime
  pub entry_at : Option Datetime
  pub resolved_at : Option Datetime
  pub minutes_missing : Bool

-- `_State`, and `observed_until`.
pub record State : Type 0 where
  pub active : Bool
  pub entry_at : Option Datetime
  pub observed_until : Option Datetime

abbrev pub is_limit : OrderType → Bool
is_limit limit = true
is_limit market = false

abbrev pub no_price : Option Decimal → Bool
no_price none = true
no_price (some price) = false

abbrev pub in_order : Side → Decimal → Decimal → Result (Unit {0})
in_order long stop target =
    raise_if (leb_ℤ target stop) (value_error "long counterfactual stop must be below take profit")
in_order short stop target =
    raise_if (leb_ℤ stop target) (value_error "short counterfactual stop must be above take profit")

-- `__post_init__`
unfoldable pub post_init : RejectedDecisionPlan → Result (Unit {0})
post_init p =
    raise_if (not p.evaluated_at.aware) (value_error "evaluated_at must be timezone-aware")
    >> (raise_if (leb_ℤ p.stop_loss (pos 0) || leb_ℤ p.take_profit (pos 0))
          (value_error "protective prices must be positive")
        >> (raise_if (is_limit p.order_type && no_price p.entry_price)
              (value_error "limit counterfactual requires an entry price")
            >> in_order p.direction p.stop_loss p.take_profit))
