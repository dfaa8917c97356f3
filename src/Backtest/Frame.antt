-- ===== src/Backtest/Frame.antt =====
-- What the calls for one symbol leave of the others.
use candlepilot.Prelude.{
  ℕ, String, Bool, true, false, Option, none, some, ◌≡◌, refl, ◌∙◌, lookup, insert, erase,
  lookup-insert, lookup-erase, str_eq, if_branches, Option-cases, inl, inr, contains, ◌&&◌, not,
  leb_ℤ, pos, ltb_ℤ,
}
use candlepilot.Prelude.Assoc.{Dict, lookup-AllItems}
use candlepilot.Decimal.{Decimal, add, mul, min}
use candlepilot.Time.{Datetime, before, shift, seconds}
use candlepilot.Outcome.{ok, div, require, assertion_error}
use candlepilot.Outcome.Returns.{
  both-Returns, Returns, value-Returns, chain-Returns, raise_if-Returns,
}
use candlepilot.Domain.{OrderPlan, ExecutionReport}
use candlepilot.Backtest.{
  Candle, Position, PendingOrder, BacktestTrade, SimulatedExchange, ExitReason, model_exit,
}
use candlepilot.Backtest.Book.{
  book, keep_open, cool_down, trade_of, rest_of, reentry_cooldown, is_protective, charged, fill,
  fill_price, filled_report, reduce, open_or_add, with_position, opened_by, added_to,
}
use candlepilot.Backtest.Exchange.{
  close_at, touched, protect_opened, fill_resting, is_marketable, is_touched, settle_candle,
  settle_held, settle_pending, without_pending, funding_of, funded,
}
use candlepilot.Backtest.Sound.{Sound, Resting}
use candlepilot.Backtest.Settled.{settle_held-Sound}

-- Nothing that the exchange keeps for the symbol is changed.
pub record SameFor (symbol : String) (e after : SimulatedExchange) : Type 0 where
  pub same_position : lookup symbol after.positions ≡ lookup symbol e.positions
  pub same_pending : lookup symbol after.pending ≡ lookup symbol e.pending
  pub same_scheduled : lookup symbol after.scheduled ≡ lookup symbol e.scheduled
  pub same_cooldown :
      lookup symbol after.stop_loss_cooldown_until ≡ lookup symbol e.stop_loss_cooldown_until

module _ (symbol other : String) (differs : str_eq symbol other ≡ false) where
  insert_apart :
      {V : Type 0} (v : V) (d : Dict V) → lookup other (insert symbol v d) ≡ lookup other d
  insert_apart v d = rw (lookup-insert symbol other v d, differs) refl

  erase_apart : {V : Type 0} (d : Dict V) → lookup other (erase symbol d) ≡ lookup other d
  erase_apart d = rw (lookup-erase symbol other d, differs) refl

  keep_open_apart :
      (p : Position) (d : Dict Position) → lookup other (keep_open symbol p d) ≡ lookup other d
  keep_open_apart p d =
      if_branches (λ (x : Dict Position). lookup other x ≡ lookup other d)
        (leb_ℤ p.quantity (pos 0)) (λ _. erase_apart d) (λ _. insert_apart p d)

  cool_down_apart :
      (t : BacktestTrade) (d : Dict Datetime) → lookup other (cool_down symbol t d) ≡ lookup other d
  cool_down_apart t d =
      if_branches (λ (x : Dict Datetime). lookup other x ≡ lookup other d)
        (is_protective t.exit_reason && ltb_ℤ t.net_pnl (pos 0))
        (λ _. insert_apart (shift t.exit_time (seconds reentry_cooldown)) d) (λ _. refl)

  -- The maps that a call may change are related to those of an earlier exchange `e`.
  module _ (e : SimulatedExchange) where
    book-SameFor :
        (mid : SimulatedExchange) (p : Position) (quantity price : Decimal) (now : Datetime)
        (fee : Decimal) (reason : ExitReason)
        → SameFor other e mid
        → Returns (SameFor other e) (book mid symbol p quantity price now fee reason)
    unfolding book
    book-SameFor mid p quantity price now fee reason s =
        raise_if-Returns (SameFor other e) (before now p.entry_time) _ _ (λ _.
          value-Returns (SameFor other e) (div quantity p.quantity) _ (λ share _. record {
            same_position =
                keep_open_apart (rest_of p quantity share) mid.positions ∙ s.same_position;
            same_pending = s.same_pending;
            same_scheduled = s.same_scheduled;
            same_cooldown =
                cool_down_apart (trade_of symbol p quantity price now fee reason share)
                  mid.stop_loss_cooldown_until
                ∙ s.same_cooldown;
          }))

    charged-SameFor :
        (mid : SimulatedExchange) (fee : Decimal)
        → SameFor other e mid
        → SameFor other e (charged mid fee)
    charged-SameFor mid fee s = record {
      same_position = s.same_position;
      same_pending = s.same_pending;
      same_scheduled = s.same_scheduled;
      same_cooldown = s.same_cooldown;
    }

    with_position-SameFor :
        (mid : SimulatedExchange) (p : Position)
        → SameFor other e mid
        → SameFor other e (with_position mid symbol p)
    with_position-SameFor mid p s = record {
      same_position = insert_apart p mid.positions ∙ s.same_position;
      same_pending = s.same_pending;
      same_scheduled = s.same_scheduled;
      same_cooldown = s.same_cooldown;
    }

    without_pending-SameFor :
        (mid : SimulatedExchange)
        → SameFor other e mid
        → SameFor other e (without_pending mid symbol)
    without_pending-SameFor mid s = record {
      same_position = s.same_position;
      same_pending = erase_apart mid.pending ∙ s.same_pending;
      same_scheduled = s.same_scheduled;
      same_cooldown = s.same_cooldown;
    }

    close_at-SameFor :
        (mid : SimulatedExchange) (p : Position) (candle : Candle)
        (trigger : Option (Decimal × ExitReason))
        → SameFor other e mid
        → Returns (SameFor other e) (close_at mid symbol p candle trigger)
    close_at-SameFor mid p candle none s = s
    close_at-SameFor mid p candle (some (price, reason)) s =
        book-SameFor (charged mid _) p p.quantity _ candle.timestamp _ reason
          (charged-SameFor mid _ s)

    settle_held-SameFor :
        (mid : SimulatedExchange) (candle : Candle)
        → SameFor other e mid
        → Returns (SameFor other e) (settle_held (lookup symbol mid.positions) mid symbol candle)
    settle_held-SameFor mid candle s = elim (Option-cases (lookup symbol mid.positions)) [
      | inl missing ↦ rw missing s
      | inr (p, found) ↦
          let funding = funding_of p candle in
          rw found (
            close_at-SameFor (with_position (charged mid funding) symbol (funded p funding))
              (funded p funding) candle (touched (funded p funding) candle true)
              (with_position-SameFor (charged mid funding) (funded p funding)
                (charged-SameFor mid funding s)))
    ]

    protect_opened-SameFor :
        (mid : SimulatedExchange) (candle : Candle) (reduce_only marketable : Bool)
        → SameFor other e mid
        → Returns
            (SameFor other e)
            (protect_opened (lookup symbol mid.positions) mid symbol candle reduce_only marketable)
    protect_opened-SameFor mid candle reduce_only marketable s =
        elim (Option-cases (lookup symbol mid.positions)) [
          | inl missing ↦ rw missing s
          | inr (p, found) ↦ rw found (
              if_branches (Returns (SameFor other e)) reduce_only (λ _. s)
                (λ _. close_at-SameFor mid p candle (touched p candle marketable) s))
        ]

module _ (order : OrderPlan) (other : String) (differs : str_eq order.symbol other ≡ false)
    (e : SimulatedExchange) where
  reduce-SameFor :
      (mid : SimulatedExchange) (price : Decimal) (now : Datetime) (fee : Decimal)
      → SameFor other e mid
      → Returns (SameFor other e) (reduce mid order price now fee)
  unfolding reduce
  reduce-SameFor mid price now fee s = elim (Option-cases (lookup order.symbol mid.positions)) [
    | inl missing ↦ rw missing s
    | inr (p, found) ↦ rw found (
        book-SameFor order.symbol other differs e mid p (min order.quantity p.quantity) price now
          fee model_exit s)
  ]

  open_or_add-SameFor :
      (mid : SimulatedExchange) (price : Decimal) (now : Datetime) (leverage : ℕ) (fee : Decimal)
      → SameFor other e mid
      → Returns (SameFor other e) (open_or_add mid order price now leverage fee)
  unfolding open_or_add
  open_or_add-SameFor mid price now leverage fee s =
      let put = with_position-SameFor order.symbol other differs e mid in
      elim (Option-cases (lookup order.symbol mid.positions)) [
        | inl missing ↦ rw missing (
            value-Returns (SameFor other e) (require order.stop_price assertion_error)
              (λ stop.
                ok (with_position mid order.symbol (opened_by order price now leverage fee stop)))
              (λ stop _. put (opened_by order price now leverage fee stop) s))
        | inr (p, found) ↦ rw found (
            value-Returns (SameFor other e)
              (div (add (mul p.entry_price p.quantity) (mul price order.quantity))
                (add p.quantity order.quantity))
              (λ entry. ok (with_position mid order.symbol (added_to p order leverage fee entry)))
              (λ entry _. put (added_to p order leverage fee entry) s))
      ]

  abbrev SameFirst : SimulatedExchange × ExecutionReport → Type 0
  SameFirst both = SameFor other e both.0

  fill-SameFor :
      (mid : SimulatedExchange) (base : Decimal) (now : Datetime) (leverage : ℕ)
      → SameFor other e mid
      → Returns SameFirst (fill mid order base now leverage)
  unfolding fill
  fill-SameFor mid base now leverage s =
      value-Returns SameFirst (fill_price mid order base) _ (λ price _.
        chain-Returns SameFirst (SameFor other e) _ _
          (if_branches (Returns (SameFor other e)) order.reduce_only
            (λ _.
              reduce-SameFor (charged mid _) price now _
                (charged-SameFor order.symbol other differs e mid _ s))
            (λ _.
              open_or_add-SameFor (charged mid _) price now leverage _
                (charged-SameFor order.symbol other differs e mid _ s)))
          (λ after h. value-Returns SameFirst (filled_report order price now) _ (λ _ _. h)))

module _ (symbol other : String) (differs : str_eq symbol other ≡ false) (e : SimulatedExchange)
    (candle : Candle) where
  fill_resting-SameFor :
      (p : PendingOrder) (price : Decimal) (mid : SimulatedExchange)
      → p.order.symbol ≡ symbol
      → SameFor other e mid
      → Returns (SameFor other e) (fill_resting p price mid symbol candle)
  fill_resting-SameFor p price mid own s =
      let dropped = without_pending-SameFor symbol other differs e mid s in
      let apart : str_eq p.order.symbol other ≡ false = rw own differs in
      if_branches (Returns (SameFor other e))
        (p.order.reduce_only && not (contains symbol mid.positions)) (λ _. dropped)
        (λ _.
          chain-Returns (SameFor other e) (SameFirst p.order other apart e)
            (fill (without_pending mid symbol) p.order _ candle.timestamp p.leverage) _
            (fill-SameFor p.order other apart e (without_pending mid symbol) _ candle.timestamp
              p.leverage dropped)
            (λ both h.
              protect_opened-SameFor symbol other differs e both.0 candle p.order.reduce_only
                (is_marketable p.order price candle) h))

  settle_pending-SameFor :
      (inherited : Dict Datetime) (mid : SimulatedExchange)
      → Sound inherited mid
      → SameFor other e mid
      → Returns (SameFor other e) (settle_pending (lookup symbol mid.pending) mid symbol candle)
  settle_pending-SameFor inherited mid sound s = elim (Option-cases (lookup symbol mid.pending)) [
    | inl missing ↦ rw missing s
    | inr (p, found) ↦ rw found (
        if_branches (Returns (SameFor other e)) (before candle.timestamp p.submitted_at) (λ _. s)
          (λ _.
            value-Returns (SameFor other e) (require p.order.price assertion_error) _ (λ price _.
              if_branches (Returns (SameFor other e)) (is_touched p.order price candle)
                (λ _.
                  fill_resting-SameFor p price mid
                    (lookup-AllItems Resting symbol p mid.pending sound.resting found).0 s)
                (λ _. s))))
  ]

-- Settling a candle of one symbol leaves the position, the resting and scheduled orders and the
-- cooldown of every other symbol as they were, in an exchange with the invariant.
pub settle_candle-SameFor :
    (inherited : Dict Datetime) (e : SimulatedExchange) (symbol other : String) (candle : Candle)
    → Sound inherited e
    → str_eq symbol other ≡ false
    → Returns (SameFor other e) (settle_candle e symbol candle)
unfolding settle_candle
settle_candle-SameFor inherited e symbol other candle sound differs =
    let untouched : SameFor other e e = record {
      same_position = refl;
      same_pending = refl;
      same_scheduled = refl;
      same_cooldown = refl;
    } in
    chain-Returns (SameFor other e)
      (λ (mid : SimulatedExchange). Sound inherited mid × SameFor other e mid)
      (settle_held (lookup symbol e.positions) e symbol candle) _
      (both-Returns (Sound inherited) (SameFor other e)
        (settle_held (lookup symbol e.positions) e symbol candle)
        (settle_held-Sound inherited e symbol candle sound)
        (settle_held-SameFor symbol other differs e e candle untouched))
      (λ mid h. settle_pending-SameFor symbol other differs e candle inherited mid h.0 h.1)
