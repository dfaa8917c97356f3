-- ===== src/Backtest/History.antt =====
-- The trades that a call adds, by the reasons of their exits.
use candlepilot.Prelude.{
  ℕ, String, Bool, true, Option, none, some, List, [], ◌∷◌, ◌++◌, ◌≡◌, refl, ap, ◌∙◌, sym, All,
  lookup, if_branches, Option-cases, inl, inr, contains, ◌&&◌, not, arith,
}
use candlepilot.Decimal.{Decimal, add, mul, min}
use candlepilot.Time.{Datetime, before}
use candlepilot.Outcome.{Result, ok, div, require, assertion_error}
use candlepilot.Outcome.Returns.{
  require-some, Returns, value-Returns, chain-Returns, raise_if-Returns,
}
use candlepilot.Domain.{OrderPlan, ExecutionReport}
use candlepilot.Backtest.{
  Candle, Position, PendingOrder, BacktestTrade, SimulatedExchange, ExitReason, stop_loss,
  take_profit, model_exit,
}
use candlepilot.Backtest.Book.{
  book, trade_of, charged, fill, fill_price, filled_report, reduce, open_or_add, with_position,
  opened_by, added_to,
}
use candlepilot.Backtest.Exchange.{
  close_at, touched, stopped, took, protect_opened, fill_resting, is_marketable, is_touched,
  settle_pending, without_pending,
}

pub append_nil : {A : Type 0} (xs : List A) → xs ++ [] ≡ xs
append_nil [] = refl
append_nil (x ∷ xs) = ap (λ (ys : List _). x ∷ ys) (append_nil xs)

pub append_assoc : {A : Type 0} (xs ys zs : List A) → (xs ++ ys) ++ zs ≡ xs ++ (ys ++ zs)
append_assoc [] ys zs = refl
append_assoc (x ∷ xs) ys zs = ap (λ (us : List _). x ∷ us) (append_assoc xs ys zs)

both-All : {A : Type 0} (P : A → Type 0) (xs ys : List A) → All P xs → All P ys → All P (xs ++ ys)
both-All P [] ys h k = k
both-All P (x ∷ xs) ys h k = (h.0, both-All P xs ys h.1 k)

-- What holds of a trade by the reason of its exit.
abbrev pub For : (ExitReason → Type 0) → BacktestTrade → Type 0
For R t = R t.exit_reason

-- The trades go on with new ones, whose reasons all satisfy R.
pub record Adds (R : ExitReason → Type 0) (past : List BacktestTrade) (after : SimulatedExchange)
    : Type 0 where
  pub new : List BacktestTrade
  pub goes_on : after.trades ≡ past ++ new
  pub reasons : All (For R) new

module _ (R : ExitReason → Type 0) where
  pub none_added :
      (past : List BacktestTrade) (after : SimulatedExchange)
      → after.trades ≡ past
      → Adds R past after
  none_added past after same = record {
    new = [];
    goes_on = same ∙ sym (append_nil past);
    reasons = tt;
  }

  pub both_added :
      (past : List BacktestTrade) (mid after : SimulatedExchange)
      → Adds R past mid
      → Adds R mid.trades after
      → Adds R past after
  both_added past mid after a b = record {
    new = a.new ++ b.new;
    goes_on =
        b.goes_on
        ∙ ap (λ (ts : List BacktestTrade). ts ++ b.new) a.goes_on
        ∙ append_assoc past a.new b.new;
    reasons = both-All (For R) a.new b.new a.reasons b.reasons;
  }

  module _ (e : SimulatedExchange) (symbol : String) (p : Position) where
    pub book-Adds :
        (quantity price : Decimal) (now : Datetime) (fee : Decimal) (reason : ExitReason)
        → R reason
        → Returns (Adds R e.trades) (book e symbol p quantity price now fee reason)
    unfolding book trade_of
    book-Adds quantity price now fee reason r =
        raise_if-Returns (Adds R e.trades) (before now p.entry_time) _ _ (λ _.
          value-Returns (Adds R e.trades) (div quantity p.quantity) _ (λ share _. record {
            new = trade_of symbol p quantity price now fee reason share ∷ [];
            goes_on = refl;
            reasons = (r, tt);
          }))

  -- The reason of a trigger, if there is one.
  abbrev RIfAny : Option (Decimal × ExitReason) → Type 0
  RIfAny none = Unit
  RIfAny (some (price, reason)) = R reason

  module _ (e : SimulatedExchange) where
    close_at-Adds :
        (symbol : String) (p : Position) (candle : Candle) (trigger : Option (Decimal × ExitReason))
        → RIfAny trigger
        → Returns (Adds R e.trades) (close_at e symbol p candle trigger)
    close_at-Adds symbol p candle none r = none_added e.trades e refl
    close_at-Adds symbol p candle (some (price, reason)) r =
        book-Adds (charged e _) symbol p p.quantity _ candle.timestamp _ reason r

    reduce-Adds :
        (order : OrderPlan) (price : Decimal) (now : Datetime) (fee : Decimal)
        → R model_exit
        → Returns (Adds R e.trades) (reduce e order price now fee)
    unfolding reduce
    reduce-Adds order price now fee r = elim (Option-cases (lookup order.symbol e.positions)) [
      | inl missing ↦ rw missing (none_added e.trades e refl)
      | inr (p, found) ↦
          rw found
            (book-Adds e order.symbol p (min order.quantity p.quantity) price now fee model_exit r)
    ]

    open_or_add-Adds :
        (order : OrderPlan) (price : Decimal) (now : Datetime) (leverage : ℕ) (fee : Decimal)
        → Returns (Adds R e.trades) (open_or_add e order price now leverage fee)
    unfolding open_or_add
    open_or_add-Adds order price now leverage fee =
        elim (Option-cases (lookup order.symbol e.positions)) [
          | inl missing ↦ rw missing (
              value-Returns (Adds R e.trades) (require order.stop_price assertion_error)
                (λ stop.
                  ok (with_position e order.symbol (opened_by order price now leverage fee stop)))
                (λ stop _. none_added e.trades _ refl))
          | inr (p, found) ↦ rw found (
              value-Returns (Adds R e.trades)
                (div (add (mul p.entry_price p.quantity) (mul price order.quantity))
                  (add p.quantity order.quantity))
                (λ entry. ok (with_position e order.symbol (added_to p order leverage fee entry)))
                (λ entry _. none_added e.trades _ refl))
        ]

  abbrev AddsFirst : SimulatedExchange → SimulatedExchange × ExecutionReport → Type 0
  AddsFirst e both = Adds R e.trades both.0

  fill-Adds :
      (e : SimulatedExchange) (order : OrderPlan) (base : Decimal) (now : Datetime) (leverage : ℕ)
      → R model_exit
      → Returns (AddsFirst e) (fill e order base now leverage)
  unfolding fill
  fill-Adds e order base now leverage r =
      value-Returns (AddsFirst e) (fill_price e order base) _ (λ price _.
        chain-Returns (AddsFirst e) (Adds R e.trades) _ _
          (if_branches (Returns (Adds R e.trades)) order.reduce_only
            (λ _. reduce-Adds (charged e _) order price now _ r)
            (λ _. open_or_add-Adds (charged e _) order price now leverage _))
          (λ after h. value-Returns (AddsFirst e) (filled_report order price now) _ (λ _ _. h)))

  -- A touched candle closes at the stop, or at the target where that is allowed.
  touched-RIfAny :
      (p : Position) (candle : Candle) (allow : Bool)
      → R stop_loss
      → (allow ≡ true → R take_profit)
      → RIfAny (touched p candle allow)
  unfolding touched
  touched-RIfAny p candle allow r target =
      if_branches RIfAny (stopped p.side p.stop candle) (λ _. r)
        (λ _.
          if_branches RIfAny (took p.side p.target candle && allow) (λ both. target (ground arith))
            (λ _. tt))

  protect_opened-Adds :
      (e : SimulatedExchange) (symbol : String) (candle : Candle) (reduce_only marketable : Bool)
      → R stop_loss
      → (marketable ≡ true → R take_profit)
      → Returns
          (Adds R e.trades)
          (protect_opened (lookup symbol e.positions) e symbol candle reduce_only marketable)
  protect_opened-Adds e symbol candle reduce_only marketable r target =
      elim (Option-cases (lookup symbol e.positions)) [
        | inl missing ↦ rw missing (none_added e.trades e refl)
        | inr (p, found) ↦ rw found (
            if_branches (Returns (Adds R e.trades)) reduce_only (λ _. none_added e.trades e refl)
              (λ _.
                close_at-Adds e symbol p candle (touched p candle marketable)
                  (touched-RIfAny p candle marketable r target)))
      ]

  fill_resting-Adds :
      (p : PendingOrder) (price : Decimal) (e : SimulatedExchange) (symbol : String)
      (candle : Candle)
      → R stop_loss
      → R model_exit
      → (is_marketable p.order price candle ≡ true → R take_profit)
      → Returns (Adds R e.trades) (fill_resting p price e symbol candle)
  fill_resting-Adds p price e symbol candle r m target =
      if_branches (Returns (Adds R e.trades))
        (p.order.reduce_only && not (contains symbol e.positions))
        (λ _. none_added e.trades (without_pending e symbol) refl)
        (λ _.
          chain-Returns (Adds R e.trades) (AddsFirst e)
            (fill (without_pending e symbol) p.order _ candle.timestamp p.leverage) _
            (fill-Adds (without_pending e symbol) p.order _ candle.timestamp p.leverage m)
            (λ both h.
              chained-Adds both.0 h
                (protect_opened (lookup symbol both.0.positions) both.0 symbol candle
                  p.order.reduce_only (is_marketable p.order price candle))
                (protect_opened-Adds both.0 symbol candle p.order.reduce_only
                  (is_marketable p.order price candle) r target)))
    where
      chained-Adds :
          (mid : SimulatedExchange) (h : Adds R e.trades mid) (rest : Result SimulatedExchange)
          → Returns (Adds R mid.trades) rest
          → Returns (Adds R e.trades) rest
      chained-Adds mid h (Result.err x) k = tt
      chained-Adds mid h (Result.ok after) k = both_added e.trades mid after h k

  pub settle_pending-Adds :
      (e : SimulatedExchange) (symbol : String) (candle : Candle)
      → R stop_loss
      → R model_exit
      → ((p : PendingOrder) (price : Decimal)
          → lookup symbol e.pending ≡ some p
          → p.order.price ≡ some price
          → is_marketable p.order price candle ≡ true
          → R take_profit)
      → Returns (Adds R e.trades) (settle_pending (lookup symbol e.pending) e symbol candle)
  settle_pending-Adds e symbol candle r m target = elim (Option-cases (lookup symbol e.pending)) [
    | inl missing ↦ rw missing (none_added e.trades e refl)
    | inr (p, found) ↦ rw found (
        if_branches (Returns (Adds R e.trades)) (before candle.timestamp p.submitted_at)
          (λ _. none_added e.trades e refl)
          (λ _.
            value-Returns (Adds R e.trades) (require p.order.price assertion_error) _
              (λ price known.
                if_branches (Returns (Adds R e.trades)) (is_touched p.order price candle)
                  (λ _.
                    fill_resting-Adds p price e symbol candle r m (
                      target p price found
                        (require-some p.order.price assertion_error price known)))
                  (λ _. none_added e.trades e refl))))
  ]
