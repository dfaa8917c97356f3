-- ===== src/Backtest/Book.antt =====
-- `_slipped`, `_fill`, `_open_or_add`, `_reduce` and `_book` of the simulated exchange.
use candlepilot.Prelude.{
  ℕ, String, Bool, true, false, Option, none, some, [], ◌∷◌, ◌++◌, ◌&&◌, pos, ltb_ℤ, leb_ℤ,
  if◌then◌else◌, lookup, insert, erase, not,
}
use candlepilot.Prelude.Assoc.{Dict}
use candlepilot.Decimal.{Decimal, add, sub, mul, signed, one_units, min, max}
use candlepilot.Time.{Datetime, before, shift, seconds}
use candlepilot.Outcome.{
  Result, ok, value_error, validation_error, assertion_error, raise_if, require, div, ◌>>=◌, ◌>>◌,
}
use candlepilot.Domain.{
  Side, long, short, OrderSide, buy, sell, OrderPlan, ExecutionReport, filled, is_limit, is_long,
  is_buy,
}
use candlepilot.Backtest.{
  Position, BacktestTrade, SimulatedExchange, ExitReason, stop_loss, take_profit,
}

-- `Decimal("1") if position.side == "LONG" else Decimal("-1")`
abbrev pub direction : Side → Decimal
direction s = signed (not (is_long s)) one_units

unfoldable pub slipped : SimulatedExchange → Decimal → OrderSide → Decimal
slipped e price side =
    let drift = mul price e.config.slippage_fraction in
    if is_buy side then add price drift else sub price drift

-- `STOP_LOSS_REENTRY_COOLDOWN`, 90 minutes.
abbrev pub reentry_cooldown : ℕ
reentry_cooldown = 5400

abbrev pub is_protective : ExitReason → Bool
is_protective stop_loss = true
is_protective take_profit = true
is_protective _ = false

-- The trade that a reduction by `quantity`, a `share` of the position, is recorded as.
unfoldable pub trade_of :
    String
    → Position
    → Decimal
    → Decimal
    → Datetime
    → Decimal
    → ExitReason
    → Decimal
    → BacktestTrade
trade_of symbol p quantity exit_price now fee reason share =
    let lifetime_gross = mul (mul quantity (sub exit_price p.entry_price)) (direction p.side) in
    let gross = sub lifetime_gross (mul p.carried_pnl share) in
    let entry_fees = mul p.fees share in
    let funding = mul p.funding share in
    record {
      symbol = symbol;
      side = p.side;
      quantity = quantity;
      entry_time = p.entry_time;
      entry_price = p.entry_price;
      exit_time = now;
      exit_price = exit_price;
      net_pnl = sub (sub (sub gross entry_fees) fee) funding;
      fees = add entry_fees fee;
      funding = funding;
      exit_reason = reason;
    }

-- What is left of the position.
unfoldable pub rest_of : Position → Decimal → Decimal → Position
rest_of p quantity share = record p {
  quantity = sub p.quantity quantity;
  fees = sub p.fees (mul p.fees share);
  funding = sub p.funding (mul p.funding share);
  carried_pnl = sub p.carried_pnl (mul p.carried_pnl share);
}

-- `if position.quantity <= 0: del self._positions[symbol]`
abbrev pub keep_open : String → Position → Dict Position → Dict Position
keep_open symbol p positions =
    if leb_ℤ p.quantity (pos 0) then erase symbol positions else insert symbol p positions

abbrev pub cool_down : String → BacktestTrade → Dict Datetime → Dict Datetime
cool_down symbol t until =
    if is_protective t.exit_reason && ltb_ℤ t.net_pnl (pos 0)
    then insert symbol (shift t.exit_time (seconds reentry_cooldown)) until
    else until

-- The exchange once the trade is known.
abbrev pub booked :
    SimulatedExchange → String → Position → Decimal → BacktestTrade → SimulatedExchange
booked e symbol rest gross t = record e {
  cash = add e.cash gross;
  trades = e.trades ++ t ∷ [];
  stop_loss_cooldown_until = cool_down symbol t e.stop_loss_cooldown_until;
  positions = keep_open symbol rest e.positions;
}

unfoldable pub book :
    SimulatedExchange
    → String
    → Position
    → Decimal
    → Decimal
    → Datetime
    → Decimal
    → ExitReason
    → Result SimulatedExchange
book e symbol p quantity exit_price now fee reason =
    raise_if (before now p.entry_time) (value_error "trade exit cannot precede its entry")
    >> (div quantity p.quantity >>= λ share. ok (
        booked e symbol (rest_of p quantity share)
          (mul (mul quantity (sub exit_price p.entry_price)) (direction p.side))
          (trade_of symbol p quantity exit_price now fee reason share)))

abbrev pub reduce_held :
    Option Position
    → SimulatedExchange
    → OrderPlan
    → Decimal
    → Datetime
    → Decimal
    → Result SimulatedExchange
reduce_held none e order fill now fee = ok e
reduce_held (some p) e order fill now fee =
    book e order.symbol p (min order.quantity p.quantity) fill now fee ExitReason.model_exit

unfoldable pub reduce :
    SimulatedExchange → OrderPlan → Decimal → Datetime → Decimal → Result SimulatedExchange
reduce e order fill now fee = reduce_held (lookup order.symbol e.positions) e order fill now fee

-- `x if x is not None else y`
abbrev pub or_kept {ℓ} : {A : Type ℓ} → Option A → A → A
or_kept none y = y
or_kept (some x) y = x

abbrev pub or_else {ℓ} : {A : Type ℓ} → Option A → Option A → Option A
or_else none y = y
or_else (some x) y = some x

abbrev pub with_position : SimulatedExchange → String → Position → SimulatedExchange
with_position e symbol p = record e { positions = insert symbol p e.positions }

-- The position that a fill opens, and the one it is added to.
abbrev pub opened_by : OrderPlan → Decimal → Datetime → ℕ → Decimal → Decimal → Position
opened_by order fill now leverage fee stop = record {
  side = if is_buy order.side then long else short;
  quantity = order.quantity;
  entry_price = fill;
  entry_time = now;
  leverage = leverage;
  stop = stop;
  target = order.take_profit_price;
  fees = fee;
  funding = pos 0;
  carried_pnl = pos 0;
}

abbrev pub added_to : Position → OrderPlan → ℕ → Decimal → Decimal → Position
added_to p order leverage fee entry_price = record p {
  entry_price = entry_price;
  quantity = add p.quantity order.quantity;
  leverage = leverage;
  fees = add p.fees fee;
  stop = or_kept order.stop_price p.stop;
  target = or_else order.take_profit_price p.target;
}

abbrev pub open_or_add_held :
    Option Position
    → SimulatedExchange
    → OrderPlan
    → Decimal
    → Datetime
    → ℕ
    → Decimal
    → Result SimulatedExchange
open_or_add_held none e order fill now leverage fee =
    require order.stop_price assertion_error >>= λ stop.
    ok (with_position e order.symbol (opened_by order fill now leverage fee stop))
open_or_add_held (some p) e order fill now leverage fee =
    div (add (mul p.entry_price p.quantity) (mul fill order.quantity))
      (add p.quantity order.quantity)
    >>= λ price. ok (with_position e order.symbol (added_to p order leverage fee price))

unfoldable pub open_or_add :
    SimulatedExchange → OrderPlan → Decimal → Datetime → ℕ → Decimal → Result SimulatedExchange
open_or_add e order fill now leverage fee =
    open_or_add_held (lookup order.symbol e.positions) e order fill now leverage fee

-- The price of a fill: slipped, and for a limit order not worse than its limit.
abbrev pub limited : OrderSide → Decimal → Decimal → Decimal
limited buy fill price = min fill price
limited sell fill price = max fill price

unfoldable pub fill_price : SimulatedExchange → OrderPlan → Decimal → Result Decimal
fill_price e order base =
    let fill = slipped e base order.side in
    if is_limit order.order_type
    then (require order.price assertion_error >>= λ price. ok (limited order.side fill price))
    else ok fill

-- `ExecutionReport(status="FILLED", …)`, whose price must be positive and quantity not negative.
unfoldable pub filled_report : OrderPlan → Decimal → Datetime → Result ExecutionReport
filled_report order price now =
    raise_if (ltb_ℤ order.quantity (pos 0)) validation_error
    >> (raise_if (leb_ℤ price (pos 0)) validation_error
        >> ok (record {
          client_order_id = order.client_order_id;
          status = filled;
          filled_quantity = order.quantity;
          average_price = some price;
          timestamp = now;
        }))

abbrev pub charged : SimulatedExchange → Decimal → SimulatedExchange
charged e fee = record e { cash = sub e.cash fee }

unfoldable pub fill :
    SimulatedExchange
    → OrderPlan
    → Decimal
    → Datetime
    → ℕ
    → Result (SimulatedExchange × ExecutionReport)
fill e order base now leverage = fill_price e order base >>= λ price.
    let fee = mul (mul price order.quantity) e.config.fee_rate in
    let paid = charged e fee in
    (if order.reduce_only
      then reduce paid order price now fee
      else open_or_add paid order price now leverage fee)
    >>= λ after. filled_report order price now >>= λ report. ok (after, report)
