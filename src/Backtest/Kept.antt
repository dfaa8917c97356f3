-- ===== src/Backtest/Kept.antt =====
-- The invariant over `_fill`, `execute`, `activate_scheduled`, `settle_candle` and `close_all`.
use candlepilot.Prelude.{
  ℕ, String, Option, none, some, ◌≡◌, refl, pos, ◌<ℤ◌, lookup, if_branches, arith, Option-cases,
  inl, inr, +ℤ_parts, contains, ◌&&◌, not,
}
use candlepilot.Prelude.Assoc.{
  insert-Distinct, Dict, insert-AllItems, erase-AllItems, lookup-AllItems,
}
use candlepilot.Decimal.{Decimal, add, min, mul}
use candlepilot.Decimal.Order.{round_pos}
use candlepilot.Time.{Datetime, before}
use candlepilot.Outcome.{ok, div, require, assertion_error}
use candlepilot.Outcome.Returns.{Returns, chain-Returns, value-Returns, raise_if-Returns}
use candlepilot.Domain.{OrderPlan, ExecutionReport, is_limit}
use candlepilot.Backtest.{Candle, Position, ScheduledOrder, SimulatedExchange, ExitReason}
use candlepilot.Backtest.Book.{
  reduce, open_or_add, opened_by, added_to, with_position, charged, fill, fill_price, filled_report,
}
use candlepilot.Backtest.Exchange.{
  execute, execute_at_candle, is_marketable, without_pending, without_scheduled, activate_scheduled,
  activate_waiting,
}
use candlepilot.Backtest.Sound.{Sound, Held, Resting, Waiting, book-Sound}

add_pos : (a b : Decimal) → pos 0 <ℤ a → pos 0 <ℤ b → pos 0 <ℤ add a b
unfolding add
add_pos a b h k = round_pos _ (omega (arith, +ℤ_parts a b))

min_pos : (a b : Decimal) → pos 0 <ℤ a → pos 0 <ℤ b → pos 0 <ℤ min a b
min_pos a b h k = ground arith

module _ (inherited : Dict Datetime) where
  abbrev pub SoundFirst : SimulatedExchange × ExecutionReport → Type 0
  SoundFirst both = Sound inherited both.0

  pub charged-Sound :
      (e : SimulatedExchange) (fee : Decimal) → Sound inherited e → Sound inherited (charged e fee)
  charged-Sound e fee s = record {
    held = s.held;
    distinct = s.distinct;
    resting = s.resting;
    waiting = s.waiting;
    fair = s.fair;
    backed = s.backed;
  }

  pub with_position-Sound :
      (e : SimulatedExchange) (symbol : String) (p : Position)
      → Sound inherited e
      → pos 0 <ℤ p.quantity
      → Sound inherited (with_position e symbol p)
  with_position-Sound e symbol p s h = record {
    held = insert-AllItems Held symbol p e.positions h s.held;
    distinct = insert-Distinct symbol p e.positions s.distinct;
    resting = s.resting;
    waiting = s.waiting;
    fair = s.fair;
    backed = s.backed;
  }

  pub without_pending-Sound :
      (e : SimulatedExchange) (symbol : String)
      → Sound inherited e
      → Sound inherited (without_pending e symbol)
  without_pending-Sound e symbol s = record {
    held = s.held;
    distinct = s.distinct;
    resting = erase-AllItems Resting symbol e.pending s.resting;
    waiting = s.waiting;
    fair = s.fair;
    backed = s.backed;
  }

  without_scheduled-Sound :
      (e : SimulatedExchange) (symbol : String)
      → Sound inherited e
      → Sound inherited (without_scheduled e symbol)
  without_scheduled-Sound e symbol s = record {
    held = s.held;
    distinct = s.distinct;
    resting = s.resting;
    waiting = erase-AllItems Waiting symbol e.scheduled s.waiting;
    fair = s.fair;
    backed = s.backed;
  }

  pub held_at :
      (e : SimulatedExchange) (symbol : String) (p : Position)
      → Sound inherited e
      → lookup symbol e.positions ≡ some p
      → pos 0 <ℤ p.quantity
  held_at e symbol p s found = lookup-AllItems Held symbol p e.positions s.held found

  module _ (e : SimulatedExchange) (order : OrderPlan) (s : Sound inherited e)
      (size : pos 0 <ℤ order.quantity) where
    reduce-Sound :
        (price : Decimal) (now : Datetime) (fee : Decimal)
        → Returns (Sound inherited) (reduce e order price now fee)
    unfolding reduce
    reduce-Sound price now fee = elim (Option-cases (lookup order.symbol e.positions)) [
      | inl missing ↦ rw missing s
      | inr (p, found) ↦ rw found (
          book-Sound inherited e order.symbol p (min order.quantity p.quantity) price now fee
            ExitReason.model_exit s
            (min_pos order.quantity p.quantity size (held_at e order.symbol p s found)))
    ]

    open_or_add-Sound :
        (price : Decimal) (now : Datetime) (leverage : ℕ) (fee : Decimal)
        → Returns (Sound inherited) (open_or_add e order price now leverage fee)
    unfolding open_or_add
    open_or_add-Sound price now leverage fee =
        elim (Option-cases (lookup order.symbol e.positions)) [
          | inl missing ↦ rw missing (
              value-Returns (Sound inherited) (require order.stop_price assertion_error) _
                (λ stop _.
                  with_position-Sound e order.symbol (opened_by order price now leverage fee stop) s
                    size))
          | inr (p, found) ↦ rw found (
              value-Returns (Sound inherited)
                (div (add (mul p.entry_price p.quantity) (mul price order.quantity))
                  (add p.quantity order.quantity))
                (λ entry. ok (with_position e order.symbol (added_to p order leverage fee entry)))
                (λ entry _.
                  with_position-Sound e order.symbol (added_to p order leverage fee entry) s
                    (add_pos p.quantity order.quantity (held_at e order.symbol p s found) size)))
        ]

  pub fill-Sound :
      (e : SimulatedExchange) (order : OrderPlan) (base : Decimal) (now : Datetime) (leverage : ℕ)
      → Sound inherited e
      → pos 0 <ℤ order.quantity
      → Returns SoundFirst (fill e order base now leverage)
  unfolding fill
  fill-Sound e order base now leverage s size =
      value-Returns SoundFirst (fill_price e order base) _ (λ price _.
        chain-Returns SoundFirst (Sound inherited) _ _
          (if_branches (Returns (Sound inherited)) order.reduce_only
            (λ _. reduce-Sound (charged e _) order (charged-Sound e _ s) size price now _)
            (λ _.
              open_or_add-Sound (charged e _) order (charged-Sound e _ s) size price now leverage
                _))
          (λ after h. value-Returns SoundFirst (filled_report order price now) _ (λ report _. h)))

  execute_at_candle-Sound :
      (e : SimulatedExchange) (order : OrderPlan) (candle : Candle) (leverage : ℕ)
      → Sound inherited e
      → pos 0 <ℤ order.quantity
      → Returns SoundFirst (execute_at_candle e order candle leverage)
  unfolding execute_at_candle
  execute_at_candle-Sound e order candle leverage s size =
      let fills = fill-Sound e order candle.open_price candle.timestamp leverage s size in
      if_branches (Returns SoundFirst) (is_limit order.order_type)
        (λ _. value-Returns SoundFirst (require order.price assertion_error) _ (λ price _.
          if_branches (Returns SoundFirst) (is_marketable order price candle) (λ _. fills)
            (λ _. record {
              held = s.held;
              distinct = s.distinct;
              resting =
                  insert-AllItems Resting order.symbol
                    (record { order = order; submitted_at = candle.timestamp; leverage = leverage })
                    e.pending (refl, size) s.resting;
              waiting = s.waiting;
              fair = s.fair;
              backed = s.backed;
            })))
        (λ _. fills)

  pub execute-Sound :
      (e : SimulatedExchange) (order : OrderPlan) (candle : Candle) (leverage : ℕ)
      (submitted : Option Datetime)
      → Sound inherited e
      → pos 0 <ℤ order.quantity
      → Returns SoundFirst (execute e order candle leverage submitted)
  unfolding execute
  execute-Sound e order candle leverage none s size =
      execute_at_candle-Sound e order candle leverage s size
  execute-Sound e order candle leverage (some submitted) s size =
      raise_if-Returns SoundFirst (not submitted.aware) _ _ (λ _.
        if_branches (Returns SoundFirst) (before submitted candle.timestamp)
          (λ _. record {
            held = s.held;
            distinct = s.distinct;
            resting = s.resting;
            waiting =
                insert-AllItems Waiting order.symbol
                  (record {
                    order = order;
                    submitted_at = submitted;
                    fill_candle = candle;
                    leverage = leverage;
                  })
                  e.scheduled (refl, size) s.waiting;
            fair = s.fair;
            backed = s.backed;
          })
          (λ _. execute_at_candle-Sound e order candle leverage s size))

  activate_due-Sound :
      (e : SimulatedExchange) (symbol : String) (through : Datetime) (w : ScheduledOrder)
      → Sound inherited e
      → pos 0 <ℤ w.order.quantity
      → Returns (Sound inherited) (activate_waiting (some w) e symbol through)
  activate_due-Sound e symbol through w s size =
      let dropped = without_scheduled-Sound e symbol s in
      if_branches (Returns (Sound inherited)) (before through w.fill_candle.timestamp) (λ _. s)
        (λ _.
          if_branches (Returns (Sound inherited))
            (w.order.reduce_only && not (contains symbol e.positions)) (λ _. dropped)
            (λ _.
              chain-Returns (Sound inherited) SoundFirst
                (execute_at_candle (without_scheduled e symbol) w.order w.fill_candle w.leverage) _
                (execute_at_candle-Sound (without_scheduled e symbol) w.order w.fill_candle
                  w.leverage dropped size)
                (λ both h. h)))

  pub activate_scheduled-Sound :
      (e : SimulatedExchange) (symbol : String) (through : Datetime)
      → Sound inherited e
      → Returns (Sound inherited) (activate_scheduled e symbol through)
  unfolding activate_scheduled
  activate_scheduled-Sound e symbol through s = elim (Option-cases (lookup symbol e.scheduled)) [
    | inl missing ↦ rw missing s
    | inr (w, found) ↦ rw found (
        activate_due-Sound e symbol through w s
          (lookup-AllItems Waiting symbol w e.scheduled s.waiting found).1)
  ]
