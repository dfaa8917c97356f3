-- ===== src/Backtest/Exchange.antt =====
-- `execute`, `activate_scheduled`, `settle_candle` and `close_all` of the simulated exchange.
use candlepilot.Prelude.{
  ℕ, ◌+◌, String, Bool, true, false, Option, none, some, List, [], ◌∷◌, ◌&&◌, ◌||◌, pos, leb_ℤ,
  if◌then◌else◌, lookup, contains, insert, erase, not, length,
}
use candlepilot.Prelude.Assoc.{Dict}
use candlepilot.Decimal.{Decimal, add, mul}
use candlepilot.Time.{Datetime, before}
use candlepilot.Outcome.{
  Result, ok, value_error, key_error, assertion_error, raise_if, require, ◌>>=◌, ◌>>◌,
}
use candlepilot.Domain.{
  Side, long, short, OrderPlan, ExecutionReport, new_order, is_limit, is_buy, exit_side,
}
use candlepilot.Backtest.{
  Candle, Position, SimulatedExchange, PendingOrder, ScheduledOrder, ExitReason, stop_loss,
  take_profit, run_end,
}
use candlepilot.Backtest.Book.{direction, slipped, book, fill, charged, with_position, or_kept}

unfoldable pub has_pending : SimulatedExchange → String → Bool
has_pending e symbol = contains symbol e.pending || contains symbol e.scheduled

-- Whether a limit at `price` fills at the open.
abbrev pub is_marketable : OrderPlan → Decimal → Candle → Bool
is_marketable order price candle =
    if is_buy order.side then leb_ℤ candle.open_price price else leb_ℤ price candle.open_price

abbrev pub new_report : OrderPlan → Datetime → ExecutionReport
new_report order now = record {
  client_order_id = order.client_order_id;
  status = new_order;
  filled_quantity = pos 0;
  average_price = none;
  timestamp = now;
}

abbrev pub with_pending : SimulatedExchange → OrderPlan → Datetime → ℕ → SimulatedExchange
with_pending e order now leverage = record e {
  pending =
      insert order.symbol (record { order = order; submitted_at = now; leverage = leverage })
        e.pending;
}

unfoldable pub execute_at_candle :
    SimulatedExchange → OrderPlan → Candle → ℕ → Result (SimulatedExchange × ExecutionReport)
execute_at_candle e order candle leverage =
    let now = candle.timestamp in
    if is_limit order.order_type
    then (require order.price assertion_error >>= λ price.
        if is_marketable order price candle
        then fill e order candle.open_price now leverage
        else ok (with_pending e order now leverage, new_report order now))
    else fill e order candle.open_price now leverage

abbrev pub with_scheduled :
    SimulatedExchange → OrderPlan → Datetime → Candle → ℕ → SimulatedExchange
with_scheduled e order now candle leverage = record e {
  scheduled =
      insert order.symbol
        (record { order = order; submitted_at = now; fill_candle = candle; leverage = leverage })
        e.scheduled;
}

unfoldable pub execute :
    SimulatedExchange
    → OrderPlan
    → Candle
    → ℕ
    → Option Datetime
    → Result (SimulatedExchange × ExecutionReport)
execute e order candle leverage none = execute_at_candle e order candle leverage
execute e order candle leverage (some submitted) =
    raise_if (not submitted.aware) (value_error "order submission time must be timezone-aware")
    >> (if before submitted candle.timestamp
        then ok (with_scheduled e order submitted candle leverage, new_report order submitted)
        else execute_at_candle e order candle leverage)

-- The exchange that a call leaves, its report dropped.
abbrev pub drop_report : Result (SimulatedExchange × ExecutionReport) → Result SimulatedExchange
drop_report r = r >>= λ both. ok both.0

abbrev pub without_scheduled : SimulatedExchange → String → SimulatedExchange
without_scheduled e symbol = record e { scheduled = erase symbol e.scheduled }

abbrev pub without_pending : SimulatedExchange → String → SimulatedExchange
without_pending e symbol = record e { pending = erase symbol e.pending }

abbrev pub activate_waiting :
    Option ScheduledOrder → SimulatedExchange → String → Datetime → Result SimulatedExchange
activate_waiting none e symbol through = ok e
activate_waiting (some s) e symbol through =
    if before through s.fill_candle.timestamp
    then ok e
    else if s.order.reduce_only && not (contains symbol e.positions)
    then ok (without_scheduled e symbol)
    else drop_report
        (execute_at_candle (without_scheduled e symbol) s.order s.fill_candle s.leverage)

unfoldable pub activate_scheduled : SimulatedExchange → String → Datetime → Result SimulatedExchange
activate_scheduled e symbol through = activate_waiting (lookup symbol e.scheduled) e symbol through

-- `target is not None and …`
abbrev pub took : Side → Option Decimal → Candle → Bool
took s none candle = false
took long (some target) candle = leb_ℤ target candle.high
took short (some target) candle = leb_ℤ candle.low target

abbrev pub stopped : Side → Decimal → Candle → Bool
stopped long stop candle = leb_ℤ candle.low stop
stopped short stop candle = leb_ℤ stop candle.high

-- The trigger that the candle touched; the stop comes before the target.
unfoldable pub touched : Position → Candle → Bool → Option (Decimal × ExitReason)
touched p candle allow_target =
    if stopped p.side p.stop candle
    then some (p.stop, stop_loss)
    else if took p.side p.target candle && allow_target
    then some (or_kept p.target p.stop, take_profit)
    else none

-- Closes the position at its trigger.
abbrev pub close_at :
    SimulatedExchange
    → String
    → Position
    → Candle
    → Option (Decimal × ExitReason)
    → Result SimulatedExchange
close_at e symbol p candle none = ok e
close_at e symbol p candle (some (trigger, reason)) =
    let price = slipped e trigger (exit_side p.side) in
    let fee = mul (mul price p.quantity) e.config.fee_rate in
    book (charged e fee) symbol p p.quantity price candle.timestamp fee reason

abbrev pub funding_of : Position → Candle → Decimal
funding_of p candle = mul (mul (mul p.quantity candle.close) candle.funding_rate) (direction p.side)

abbrev pub funded : Position → Decimal → Position
funded p funding = record p { funding = add p.funding funding }

-- The first half of `settle_candle`: the position.
abbrev pub settle_held :
    Option Position → SimulatedExchange → String → Candle → Result SimulatedExchange
settle_held none e symbol candle = ok e
settle_held (some p) e symbol candle =
    let funding = funding_of p candle in
    let after = funded p funding in
    close_at (with_position (charged e funding) symbol after) symbol after candle
      (touched after candle true)

-- The protection of a resting entry that the candle filled.
abbrev pub protect_opened :
    Option Position → SimulatedExchange → String → Candle → Bool → Bool → Result SimulatedExchange
protect_opened none e symbol candle reduce_only marketable = ok e
protect_opened (some p) e symbol candle reduce_only marketable =
    if reduce_only then ok e else close_at e symbol p candle (touched p candle marketable)

abbrev pub is_touched : OrderPlan → Decimal → Candle → Bool
is_touched order price candle =
    if is_buy order.side then leb_ℤ candle.low price else leb_ℤ price candle.high

-- A resting order that the candle touched.
abbrev pub fill_resting :
    PendingOrder → Decimal → SimulatedExchange → String → Candle → Result SimulatedExchange
fill_resting p price e symbol candle =
    if p.order.reduce_only && not (contains symbol e.positions)
    then ok (without_pending e symbol)
    else let marketable = is_marketable p.order price candle in
      fill (without_pending e symbol) p.order (if marketable then candle.open_price else price)
        candle.timestamp p.leverage
      >>= λ both.
          protect_opened (lookup symbol both.0.positions) both.0 symbol candle p.order.reduce_only
            marketable

-- The second half of `settle_candle`: the resting order.
abbrev pub settle_pending :
    Option PendingOrder → SimulatedExchange → String → Candle → Result SimulatedExchange
settle_pending none e symbol candle = ok e
settle_pending (some p) e symbol candle =
    if before candle.timestamp p.submitted_at
    then ok e
    else require p.order.price assertion_error >>= λ price.
        if is_touched p.order price candle then fill_resting p price e symbol candle else ok e

unfoldable pub settle_candle : SimulatedExchange → String → Candle → Result SimulatedExchange
settle_candle e symbol candle =
    settle_held (lookup symbol e.positions) e symbol candle >>= λ settled.
    settle_pending (lookup symbol settled.pending) settled symbol candle

abbrev pub mark_of : Dict Decimal → String → Position → Decimal
mark_of marks symbol p = or_kept (lookup symbol marks) p.entry_price

-- One position of the loop in `close_all`.
unfoldable pub close_one :
    SimulatedExchange → Dict Decimal → Datetime → String → Position → Result SimulatedExchange
close_one e marks now symbol p =
    let price = slipped e (mark_of marks symbol p) (exit_side p.side) in
    let fee = mul (mul price p.quantity) e.config.fee_rate in
    book (charged e fee) symbol p p.quantity price now fee run_end

unfoldable pub close_each :
    List String → SimulatedExchange → Dict Decimal → Datetime → Result SimulatedExchange
close_each [] e marks now = ok e
close_each (symbol ∷ symbols) e marks now =
    require (lookup symbol e.positions) (key_error symbol) >>= λ p.
    close_one e marks now symbol p >>= λ closed. close_each symbols closed marks now

-- `list(self._positions)`
abbrev pub symbols_of {ℓ} : {V : Type ℓ} → Dict V → List String
symbols_of [] = []
symbols_of ((k, v) ∷ d) = k ∷ symbols_of d

unfoldable pub close_all :
    SimulatedExchange → Dict Decimal → Datetime → Result (SimulatedExchange × ℕ)
close_all e marks now = close_each (symbols_of e.positions) e marks now >>= λ flat.
    ok (record flat { pending = []; scheduled = [] }, length flat.pending + length flat.scheduled)
