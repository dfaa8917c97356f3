-- ===== src/Backtest/Settled.antt =====
-- The invariant over `settle_candle` and `close_all`.
use candlepilot.Prelude.{
  ℕ, String, Bool, true, Option, none, some, List, [], ◌∷◌, pos, ◌<ℤ◌, lookup, if_branches,
  Option-cases, inl, inr, contains, ◌&&◌, not,
}
use candlepilot.Prelude.Assoc.{Dict, lookup-AllItems}
use candlepilot.Decimal.{Decimal}
use candlepilot.Time.{Datetime, before}
use candlepilot.Outcome.{require, assertion_error, key_error}
use candlepilot.Outcome.Returns.{require-some, Returns, chain-Returns, value-Returns}
use candlepilot.Backtest.{Candle, Position, PendingOrder, SimulatedExchange, ExitReason, run_end}
use candlepilot.Backtest.Book.{with_position, charged, fill}
use candlepilot.Backtest.Exchange.{
  is_marketable, without_pending, close_at, settle_candle, settle_held, settle_pending,
  protect_opened, fill_resting, is_touched, touched, funding_of, funded, close_one, close_each,
  close_all, symbols_of,
}
use candlepilot.Backtest.Sound.{Sound, Resting, book-Sound}
use candlepilot.Backtest.Kept.{
  SoundFirst, charged-Sound, with_position-Sound, without_pending-Sound, held_at, fill-Sound,
}

module _ (inherited : Dict Datetime) where
  close_at-Sound :
      (e : SimulatedExchange) (symbol : String) (p : Position) (candle : Candle)
      (trigger : Option (Decimal × ExitReason))
      → Sound inherited e
      → pos 0 <ℤ p.quantity
      → Returns (Sound inherited) (close_at e symbol p candle trigger)
  close_at-Sound e symbol p candle none s h = s
  close_at-Sound e symbol p candle (some (at_price, reason)) s h =
      book-Sound inherited (charged e _) symbol p p.quantity _ candle.timestamp _ reason
        (charged-Sound inherited e _ s) h

  pub settle_held-Sound :
      (e : SimulatedExchange) (symbol : String) (candle : Candle)
      → Sound inherited e
      → Returns (Sound inherited) (settle_held (lookup symbol e.positions) e symbol candle)
  settle_held-Sound e symbol candle s = elim (Option-cases (lookup symbol e.positions)) [
    | inl missing ↦ rw missing s
    | inr (p, found) ↦
        let h = held_at inherited e symbol p s found in
        let funding = funding_of p candle in
        rw found (
          close_at-Sound (with_position (charged e funding) symbol (funded p funding)) symbol
            (funded p funding) candle (touched (funded p funding) candle true)
            (with_position-Sound inherited (charged e funding) symbol (funded p funding)
              (charged-Sound inherited e funding s) h)
            h)
  ]

  protect_opened-Sound :
      (e : SimulatedExchange) (symbol : String) (candle : Candle) (reduce_only marketable : Bool)
      → Sound inherited e
      → Returns
          (Sound inherited)
          (protect_opened (lookup symbol e.positions) e symbol candle reduce_only marketable)
  protect_opened-Sound e symbol candle reduce_only marketable s =
      elim (Option-cases (lookup symbol e.positions)) [
        | inl missing ↦ rw missing s
        | inr (p, found) ↦ rw found (
            if_branches (Returns (Sound inherited)) reduce_only (λ _. s)
              (λ _.
                close_at-Sound e symbol p candle (touched p candle marketable) s
                  (held_at inherited e symbol p s found)))
      ]

  fill_resting-Sound :
      (p : PendingOrder) (price : Decimal) (e : SimulatedExchange) (symbol : String)
      (candle : Candle)
      → Sound inherited e
      → pos 0 <ℤ p.order.quantity
      → Returns (Sound inherited) (fill_resting p price e symbol candle)
  fill_resting-Sound p price e symbol candle s size =
      let dropped = without_pending-Sound inherited e symbol s in
      if_branches (Returns (Sound inherited))
        (p.order.reduce_only && not (contains symbol e.positions)) (λ _. dropped)
        (λ _.
          chain-Returns (Sound inherited) (SoundFirst inherited)
            (fill (without_pending e symbol) p.order _ candle.timestamp p.leverage) _
            (fill-Sound inherited (without_pending e symbol) p.order _ candle.timestamp p.leverage
              dropped size)
            (λ both h.
              protect_opened-Sound both.0 symbol candle p.order.reduce_only
                (is_marketable p.order price candle) h))

  settle_pending-Sound :
      (e : SimulatedExchange) (symbol : String) (candle : Candle)
      → Sound inherited e
      → Returns (Sound inherited) (settle_pending (lookup symbol e.pending) e symbol candle)
  settle_pending-Sound e symbol candle s = elim (Option-cases (lookup symbol e.pending)) [
    | inl missing ↦ rw missing s
    | inr (p, found) ↦ rw found (
        if_branches (Returns (Sound inherited)) (before candle.timestamp p.submitted_at) (λ _. s)
          (λ _.
            value-Returns (Sound inherited) (require p.order.price assertion_error) _ (λ price _.
              if_branches (Returns (Sound inherited)) (is_touched p.order price candle)
                (λ _.
                  fill_resting-Sound p price e symbol candle s
                    (lookup-AllItems Resting symbol p e.pending s.resting found).1)
                (λ _. s))))
  ]

  pub settle_candle-Sound :
      (e : SimulatedExchange) (symbol : String) (candle : Candle)
      → Sound inherited e
      → Returns (Sound inherited) (settle_candle e symbol candle)
  unfolding settle_candle
  settle_candle-Sound e symbol candle s =
      chain-Returns (Sound inherited) (Sound inherited)
        (settle_held (lookup symbol e.positions) e symbol candle) _
        (settle_held-Sound e symbol candle s)
        (λ settled h. settle_pending-Sound settled symbol candle h)

  close_each-Sound :
      (symbols : List String) (e : SimulatedExchange) (marks : Dict Decimal) (now : Datetime)
      → Sound inherited e
      → Returns (Sound inherited) (close_each symbols e marks now)
  unfolding close_each close_one
  close_each-Sound [] e marks now s = s
  close_each-Sound (symbol ∷ symbols) e marks now s =
      value-Returns (Sound inherited) (require (lookup symbol e.positions) (key_error symbol)) _
        (λ p found.
          chain-Returns (Sound inherited) (Sound inherited) (close_one e marks now symbol p) _
            (book-Sound inherited (charged e _) symbol p p.quantity _ now _ run_end
              (charged-Sound inherited e _ s)
              (held_at inherited e symbol p s
                (require-some (lookup symbol e.positions) (key_error symbol) p found)))
            (λ closed h. close_each-Sound symbols closed marks now h))

  pub close_all-Sound :
      (e : SimulatedExchange) (marks : Dict Decimal) (now : Datetime)
      → Sound inherited e
      → Returns (λ (both : SimulatedExchange × ℕ). Sound inherited both.0) (close_all e marks now)
  unfolding close_all
  close_all-Sound e marks now s =
      chain-Returns (λ (both : SimulatedExchange × ℕ). Sound inherited both.0) (Sound inherited)
        (close_each (symbols_of e.positions) e marks now) _
        (close_each-Sound (symbols_of e.positions) e marks now s)
        (λ flat h. record {
          held = h.held;
          distinct = h.distinct;
          resting = tt;
          waiting = tt;
          fair = h.fair;
          backed = h.backed;
        })
