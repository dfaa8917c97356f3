-- ===== src/Risk/Exit.antt =====
-- `_close_order`: the reduce-only order of a REDUCE or CLOSE intent.
use candlepilot.Prelude.{String, Bool, true, false, Option, none, some, ◌||◌, ltb_ℤ, leb_ℤ, pos}
use candlepilot.Decimal.{Decimal, Rounding, down, up, of_int, quotient}
use candlepilot.Outcome.{Result}
use candlepilot.Flow.{Flow, next, ◌>>=◌, ◌>>◌, return_if, call, run}
use candlepilot.Domain.{
  Side, OrderSide, buy, sell, TradeAction, reduce, OrderType, limit, TradeIntent, OrderPlan,
  exit_side,
}
use candlepilot.Domain.Validate.{order_plan}
use candlepilot.Risk.{
  SymbolRules, quantity_limits, round_down, to_tick, RiskEvaluation, because, above_maximum,
  plain_decision, reject, reject_for,
}

-- `maximum is not None and quantity > maximum`
abbrev pub exceeds : Decimal → Option Decimal → Bool
exceeds quantity none = false
exceeds quantity (some m) = ltb_ℤ m quantity

abbrev pub is_reduce : TradeAction → Bool
is_reduce reduce = true
is_reduce _ = false

abbrev pub exit_rounding : OrderSide → Rounding
exit_rounding sell = up
exit_rounding buy = down

-- The quantity of the position, and half of it for a REDUCE, on the venue's grid.
unfoldable pub exit_quantity : TradeAction → Decimal → Decimal → Flow RiskEvaluation Decimal
exit_quantity reduce position step = do
  whole ← call (round_down position step)
  call (round_down (quotient whole (of_int 2)) step)
exit_quantity _ position step = call (round_down position step)

-- The exit's price: a LIMIT price goes to the grid, away from a worse fill.
unfoldable pub exit_price :
    OrderType → OrderSide → Option Decimal → Decimal → Flow RiskEvaluation (Option Decimal)
exit_price limit side (some price) tick = do
  snapped ← call (to_tick (exit_rounding side) price tick)
  return_if (leb_ℤ snapped (pos 0)) (reject "exit price rounds to zero at the exchange tick size")
  next (some snapped)
exit_price _ side price tick = next price

-- The fields of the order.
abbrev pub exit_order : String → TradeIntent → OrderSide → Decimal → Option Decimal → OrderPlan
exit_order order_id intent side quantity price = record {
  client_order_id = order_id;
  symbol = intent.symbol;
  side = side;
  quantity = quantity;
  order_type = intent.order_type;
  price = price;
  stop_price = none;
  take_profit_price = none;
  reduce_only = true;
}

unfoldable pub close_order :
    String → TradeIntent → Side → Decimal → SymbolRules → Result RiskEvaluation
close_order order_id intent existing_side position_quantity rules = run do
  let limits = quantity_limits rules intent.order_type
  quantity ← exit_quantity intent.action position_quantity limits.step
  return_if (leb_ℤ quantity (pos 0) || ltb_ℤ quantity limits.minimum)
      (reject "reduce-only quantity is below the exchange minimum")
  return_if (exceeds quantity limits.maximum) (reject_for (above_maximum intent.order_type))
  let side = exit_side existing_side
  price ← exit_price intent.order_type side intent.entry_price rules.tick_size
  order ← call (order_plan (exit_order order_id intent side quantity price))
  next (record {
    decision = plain_decision true (because "reduce-only exit accepted") none;
    order = some order;
  })
