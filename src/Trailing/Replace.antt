-- ===== src/Trailing/Replace.antt =====
-- src/candlepilot/broker/binance_testnet.py: `replace_stop_loss`. The requests to the venue are
-- parameters over a state X of the venue.
use candlepilot.Prelude.{
  String, Bool, true, false, Option, none, some, List, [], ◌∷◌, pos, leb_ℤ, ltb_ℤ, if◌then◌else◌,
}
use candlepilot.Decimal.{Decimal}
use candlepilot.Outcome.{value_error, reconciliation_error, Result, ok, err}
use candlepilot.Domain.{Side, long, short, OrderSide, exit_side}
use candlepilot.Trailing.{Replacement, replaced, refused, failed}

pub data ProtectiveType : Type 0 where
  stop_market take_profit_market : ProtectiveType

pub record ProtectiveOrder : Type 0 where
  pub client_order_id : String
  pub order_type : ProtectiveType
  pub trigger_price : Option Decimal

abbrev pub add_stop : ProtectiveType → ProtectiveOrder → List ProtectiveOrder → List ProtectiveOrder
add_stop stop_market o rest = o ∷ rest
add_stop take_profit_market o rest = rest

-- `if item.order_type == "STOP_MARKET"`
unfoldable pub stops_of : List ProtectiveOrder → List ProtectiveOrder
stops_of [] = []
stops_of (o ∷ rest) = add_stop o.order_type o (stops_of rest)

abbrev pub is_tighter : Side → Decimal → Decimal → Bool
is_tighter long trigger previous = ltb_ℤ previous trigger
is_tighter short trigger previous = ltb_ℤ trigger previous

module _ {X : Type 0} (sync_time : X → X × Result (Unit {0}))
    (protective_orders : X → String → X × Result (List ProtectiveOrder))
    (cancel : X → String → X × Result Bool)
    (place : X → String → OrderSide → Decimal → String → X × Result (Unit {0})) (symbol : String)
    (side : Side) (trigger : Decimal) where
  -- The old trigger is put back; the flag says that this failed too.
  unfoldable pub restore : X × Result (Unit {0}) → X × Replacement
  restore (x, ok u) = (x, refused false)
  restore (x, err e) = (x, refused true)

  unfoldable pub install : String → Decimal → X × Result (Unit {0}) → X × Replacement
  install id previous (x, ok u) = (x, replaced previous trigger)
  install id previous (x, err e) = restore (place x symbol (exit_side side) previous id)

  unfoldable pub after_cancel : String → Decimal → X × Result Bool → X × Replacement
  after_cancel id previous (x, err e) = (x, failed e)
  after_cancel id previous (x, ok false) = (x, refused false)
  after_cancel id previous (x, ok true) =
      install id previous (place x symbol (exit_side side) trigger id)

  unfoldable pub replace_from : X → String → Option Decimal → X × Replacement
  replace_from x id none =
      (x, failed (reconciliation_error "protective order has no valid trigger price"))
  replace_from x id (some previous) =
      let replacement = after_cancel id previous (cancel x id) in
      if is_tighter side trigger previous then replacement else (x, replaced previous previous)

  -- Exactly one stop is expected.
  unfoldable pub replace_only : X → List ProtectiveOrder → X × Replacement
  replace_only x (o ∷ []) = replace_from x o.client_order_id o.trigger_price
  replace_only x _ = (x, failed (reconciliation_error "expected exactly one CandlePilot stop"))

  unfoldable pub after_listing : X × Result (List ProtectiveOrder) → X × Replacement
  after_listing (x, err e) = (x, failed e)
  after_listing (x, ok orders) = replace_only x (stops_of orders)

  unfoldable pub after_sync : X × Result (Unit {0}) → X × Replacement
  after_sync (x, err e) = (x, failed e)
  after_sync (x, ok u) = after_listing (protective_orders x symbol)

  unfoldable pub replace_stop_loss : X → X × Replacement
  replace_stop_loss x =
      let replacement = after_sync (sync_time x) in
      if leb_ℤ trigger (pos 0)
      then (x, failed (value_error "trailing stop trigger must be positive"))
      else replacement
