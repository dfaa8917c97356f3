-- ===== src/Backtest/Orders.antt =====
-- About what `execute` reports.
use mathlib.Core.Path.{subst}
use candlepilot.Prelude.{
  sym, if◌then◌else◌, ℕ, true, false, Option, none, some, ◌≡◌, refl, pos, ◌<ℤ◌, ◌≤ℤ◌, if_branches,
  arith, not, leb_ℤ, ltb_ℤ,
}
use candlepilot.Decimal.{Decimal}
use candlepilot.Time.{Datetime, before}
use candlepilot.Outcome.{◌>>=◌, ok, require, assertion_error}
use candlepilot.Outcome.Returns.{
  require-some, Returns, value-Returns, chain-Returns, raise_if-Returns,
}
use candlepilot.Domain.{
  OrderPlan, OrderType, market, limit, OrderSide, buy, sell, ExecutionReport, filled, is_limit,
}
use candlepilot.Backtest.{Candle, SimulatedExchange}
use candlepilot.Backtest.Book.{fill, fill_price, filled_report, limited, slipped}
use candlepilot.Backtest.Exchange.{new_report, execute, execute_at_candle, is_marketable}

-- A price that a limit order may be filled at; it has a limit.
abbrev pub WithinLimit : OrderType → OrderSide → Option Decimal → Decimal → Type 0
WithinLimit market side price p = Unit
WithinLimit limit side none p = ⊥
WithinLimit limit buy (some price) p = p ≤ℤ price
WithinLimit limit sell (some price) p = price ≤ℤ p

-- An order that need not wait for its candle, and one that its candle's open reaches.
abbrev pub Due : Option Datetime → Candle → Type 0
Due none candle = Unit
Due (some t) candle = before t candle.timestamp ≡ false

abbrev pub Reached : OrderPlan → OrderType → Option Decimal → Candle → Type 0
Reached order market price candle = Unit
Reached order limit none candle = ⊥
Reached order limit (some price) candle = is_marketable order price candle ≡ true

pub data Reported (order : OrderPlan) (candle : Candle) (submitted : Option Datetime)
    (report : ExecutionReport) : Type 0 where
  rests :
      (price : Decimal)
      → Due submitted candle
      → order.order_type ≡ limit
      → order.price ≡ some price
      → is_marketable order price candle ≡ false
      → report ≡ new_report order candle.timestamp
      → Reported order candle submitted report
  waits :
      (at_time : Datetime)
      → submitted ≡ some at_time
      → before at_time candle.timestamp ≡ true
      → report ≡ new_report order at_time
      → Reported order candle submitted report
  fills :
      (price : Decimal)
      → Due submitted candle
      → Reached order order.order_type order.price candle
      → report.status ≡ filled
      → report.filled_quantity ≡ order.quantity
      → report.average_price ≡ some price
      → pos 0 <ℤ price
      → WithinLimit order.order_type order.side order.price price
      → Reported order candle submitted report

price-WithinLimit :
    (type : OrderType) (side : OrderSide) (price : Option Decimal) (p : Decimal)
    → Returns (WithinLimit type side price) (
        if is_limit type
        then (require price assertion_error >>= λ at_most. ok (limited side p at_most))
        else ok p)
price-WithinLimit market side price p = tt
price-WithinLimit limit side none p = tt
price-WithinLimit limit buy (some price) p = ground arith
price-WithinLimit limit sell (some price) p = ground arith

some_injective : {a b : Decimal} → some a ≡ some b → a ≡ b
some_injective h = cc

limit-Reached :
    (order : OrderPlan) (type : OrderType) (named : Option Decimal) (candle : Candle)
    (price : Decimal)
    → type ≡ limit
    → named ≡ some price
    → is_marketable order price candle ≡ true
    → Reached order type named candle
limit-Reached order market named candle price e h k = absurd (cc)
limit-Reached order limit none candle price e h k = absurd (cc)
limit-Reached order limit (some price2) candle price e h k =
    subst (λ (x : Decimal). is_marketable order x candle ≡ true) (sym (some_injective h)) k

market-Reached :
    (order : OrderPlan) (type : OrderType) (named : Option Decimal) (candle : Candle)
    → is_limit type ≡ false
    → Reached order type named candle
market-Reached order market named candle e = tt
market-Reached order limit named candle e = absurd (cc)

limit_type : (type : OrderType) → is_limit type ≡ true → type ≡ limit
limit_type market e = absurd (cc)
limit_type limit e = refl

module _ (order : OrderPlan) (candle : Candle) (submitted : Option Datetime) where
  abbrev ReportedSecond : SimulatedExchange × ExecutionReport → Type 0
  ReportedSecond both = Reported order candle submitted both.1

  abbrev Priced : Decimal → Type 0
  Priced = WithinLimit order.order_type order.side order.price

  abbrev Ready : Type 0
  Ready = Due submitted candle × Reached order order.order_type order.price candle

  filled_report-Reported :
      (price : Decimal) (now : Datetime) (e : SimulatedExchange)
      → Ready
      → Priced price
      → Returns ReportedSecond (filled_report order price now >>= λ report. ok (e, report))
  unfolding filled_report
  filled_report-Reported price now e ready within =
      let Report = λ (report : ExecutionReport). Reported order candle submitted report in
      chain-Returns ReportedSecond Report (filled_report order price now) _
        (raise_if-Returns Report (ltb_ℤ order.quantity (pos 0)) _ _ (λ _.
          raise_if-Returns Report (leb_ℤ price (pos 0)) _ _
            (λ positive. fills price ready.0 ready.1 refl refl refl (ground arith) within)))
        (λ report h. h)

  fill-Reported :
      (e : SimulatedExchange) (base : Decimal) (now : Datetime) (leverage : ℕ)
      → Ready
      → Returns ReportedSecond (fill e order base now leverage)
  unfolding fill fill_price
  fill-Reported e base now leverage ready =
      chain-Returns ReportedSecond Priced (fill_price e order base) _
        (price-WithinLimit order.order_type order.side order.price (slipped e base order.side))
        (λ price within.
          value-Returns ReportedSecond _
            (λ after. filled_report order price now >>= λ report. ok (after, report))
            (λ after _. filled_report-Reported price now after ready within))

  execute_at_candle-Reported :
      (e : SimulatedExchange) (leverage : ℕ)
      → Due submitted candle
      → Returns ReportedSecond (execute_at_candle e order candle leverage)
  unfolding execute_at_candle
  execute_at_candle-Reported e leverage due =
      if_branches (Returns ReportedSecond) (is_limit order.order_type)
        (λ at_limit.
          value-Returns ReportedSecond (require order.price assertion_error) _ (λ price known.
            let named = require-some order.price assertion_error price known in
            let type = limit_type order.order_type at_limit in
            if_branches (Returns ReportedSecond) (is_marketable order price candle)
              (λ better. fill-Reported e candle.open_price candle.timestamp leverage (
                due,
                limit-Reached order order.order_type order.price candle price type named better,
              ))
              (λ worse. rests price due type named worse refl)))
        (λ at_market.
          fill-Reported e candle.open_price candle.timestamp leverage
            (due, market-Reached order order.order_type order.price candle at_market))

-- Whatever `execute` reports: an order submitted before its candle waits unfilled; otherwise a
-- limit order that its candle's open does not reach rests unfilled; and the order is filled only
-- if it need not wait and, as a limit order, its limit is reached: in full, at a positive price,
-- which for a limit order is not worse than its limit, whatever the slippage.
pub execute-Reported :
    (e : SimulatedExchange) (order : OrderPlan) (candle : Candle) (leverage : ℕ)
    (submitted : Option Datetime)
    → Returns
        (λ (both : SimulatedExchange × ExecutionReport). Reported order candle submitted both.1)
        (execute e order candle leverage submitted)
unfolding execute
execute-Reported e order candle leverage none =
    execute_at_candle-Reported order candle none e leverage tt
execute-Reported e order candle leverage (some t) =
    let Goal = ReportedSecond order candle (some t) in
    raise_if-Returns Goal (not t.aware) _ _ (λ _.
      if_branches (Returns Goal) (before t candle.timestamp) (λ early. waits t refl early refl)
        (λ late. execute_at_candle-Reported order candle (some t) e leverage late))
