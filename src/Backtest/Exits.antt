-- ===== src/Backtest/Exits.antt =====
-- Which exits one candle can bring about.
use candlepilot.Prelude.{
  String, true, false, none, some, List, ◌∷◌, ◌++◌, ◌≡◌, refl, ap, ◌∙◌, lookup, [],
}
use candlepilot.Decimal.{Decimal}
use candlepilot.Outcome.{div}
use candlepilot.Time.{before}
use candlepilot.Outcome.Returns.{
  map-Returns, Returns, value-Returns, chain-Returns, raise_if-Returns,
}
use candlepilot.Domain.{exit_side}
use candlepilot.Backtest.{
  Candle, Position, PendingOrder, BacktestTrade, SimulatedExchange, ExitReason, stop_loss,
  take_profit,
}
use candlepilot.Backtest.Book.{slipped, book, trade_of}
use candlepilot.Backtest.Exchange.{
  settle_candle, settle_held, settle_pending, stopped, is_marketable, touched,
}
use candlepilot.Backtest.History.{Adds, settle_pending-Adds, append_assoc}

-- The stop of a position takes it all out, before whatever else the candle does.
pub record StoppedOut (e : SimulatedExchange) (symbol : String) (p : Position)
    (after : SimulatedExchange) : Type 0 where
  pub exit : BacktestTrade
  pub others : List BacktestTrade
  pub first : after.trades ≡ e.trades ++ exit ∷ others
  pub at_stop : exit.exit_reason ≡ stop_loss
  pub of_symbol : exit.symbol ≡ symbol
  pub whole : exit.quantity ≡ p.quantity
  pub slipped_stop : exit.exit_price ≡ slipped e p.stop (exit_side p.side)

abbrev Any : ExitReason → Type 0
Any reason = Unit

module _ (e : SimulatedExchange) (symbol : String) (candle : Candle) where
  stopped_then :
      (p : Position) (mid after : SimulatedExchange)
      → (stop : StoppedOut e symbol p mid) → stop.others ≡ []
      → Adds Any mid.trades after
      → StoppedOut e symbol p after
  stopped_then p mid after stop alone more = record {
    exit = stop.exit;
    others = more.new;
    first =
        more.goes_on
        ∙ ap (λ (ts : List BacktestTrade). ts ++ more.new)
            (stop.first ∙ ap (λ (ts : List BacktestTrade). e.trades ++ stop.exit ∷ ts) alone)
        ∙ append_assoc e.trades (stop.exit ∷ []) more.new;
    at_stop = stop.at_stop;
    of_symbol = stop.of_symbol;
    whole = stop.whole;
    slipped_stop = stop.slipped_stop;
  }

  settle_held-StoppedOut :
      (p : Position)
      → stopped p.side p.stop candle ≡ true
      → Returns
          (λ (mid : SimulatedExchange). (stop : StoppedOut e symbol p mid) × (stop.others ≡ []))
          (settle_held (some p) e symbol candle)
  unfolding touched book trade_of slipped
  settle_held-StoppedOut p hit =
      let Goal =
        λ (mid : SimulatedExchange). (stop : StoppedOut e symbol p mid) × (stop.others ≡ []) in
      rw hit (
        raise_if-Returns Goal (before candle.timestamp p.entry_time) _ _ (λ _.
          value-Returns Goal (div p.quantity p.quantity) _ (λ share _. (
            record {
              exit = _;
              others = [];
              first = refl;
              at_stop = refl;
              of_symbol = refl;
              whole = refl;
              slipped_stop = refl;
            },
            refl,
          ))))

  -- If the candle touches the stop of the symbol's position, and whether or not it also touches the
  -- target, the first trade that `settle_candle` records is the exit of the whole position at its
  -- stop, slipped.
  pub settle_candle-StoppedOut :
      (p : Position)
      → lookup symbol e.positions ≡ some p
      → stopped p.side p.stop candle ≡ true
      → Returns (StoppedOut e symbol p) (settle_candle e symbol candle)
  unfolding settle_candle
  settle_candle-StoppedOut p found hit =
      let Goal =
        λ (mid : SimulatedExchange). (stop : StoppedOut e symbol p mid) × (stop.others ≡ []) in
      rw found (
        chain-Returns (StoppedOut e symbol p) Goal (settle_held (some p) e symbol candle) _
          (settle_held-StoppedOut p hit)
          (λ mid h.
            map-Returns (Adds Any mid.trades) (StoppedOut e symbol p)
              (settle_pending (lookup symbol mid.pending) mid symbol candle)
              (λ after more. stopped_then p mid after h.0 h.1 more)
              (settle_pending-Adds Any mid symbol candle tt tt (λ _ _ _ _ _. tt))))

-- Every reason but the target.
abbrev pub NoTarget : ExitReason → Type 0
NoTarget take_profit = ⊥
NoTarget _ = Unit

-- A candle that fills the symbol's resting order inside its range, where the symbol had no
-- position, records no exit at a target.
pub settle_candle-NoTarget :
    (e : SimulatedExchange) (symbol : String) (candle : Candle) (p : PendingOrder) (price : Decimal)
    → lookup symbol e.positions ≡ none
    → lookup symbol e.pending ≡ some p
    → p.order.price ≡ some price
    → is_marketable p.order price candle ≡ false
    → Returns (Adds NoTarget e.trades) (settle_candle e symbol candle)
unfolding settle_candle
settle_candle-NoTarget e symbol candle p price missing found known inside = rw missing (
    settle_pending-Adds NoTarget e symbol candle tt tt
      (λ q price2 found2 known2 at_open. absurd (cc)))
