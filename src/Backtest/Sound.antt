-- ===== src/Backtest/Sound.antt =====
-- What holds of every exchange: its positions, orders, trades and cooldowns.
use candlepilot.Prelude.{
  String, true, false, List, [], ◌∷◌, ◌++◌, All, ◌≡◌, refl, pos, ◌<ℤ◌, ltb_ℤ, leb_ℤ, if_branches,
  arith, ◌&&◌,
}
use candlepilot.Prelude.Assoc.{
  insert-Distinct, erase-Distinct, Distinct, Dict, AllItems, insert-AllItems, erase-AllItems,
  map-AllItems,
}
use candlepilot.Decimal.{Decimal}
use candlepilot.Time.{Datetime, before, shift, seconds}
use candlepilot.Outcome.{div}
use candlepilot.Outcome.Returns.{Returns, any-Returns, chain-Returns, raise_if-Returns}
use candlepilot.Backtest.{
  Position, PendingOrder, ScheduledOrder, BacktestTrade, SimulatedExchange, ExitReason,
}
use candlepilot.Backtest.Book.{
  book, trade_of, rest_of, keep_open, cool_down, is_protective, reentry_cooldown,
}

abbrev pub Held : String → Position → Type 0
Held symbol p = pos 0 <ℤ p.quantity

abbrev pub Resting : String → PendingOrder → Type 0
Resting symbol p = (p.order.symbol ≡ symbol) × (pos 0 <ℤ p.order.quantity)

abbrev pub Waiting : String → ScheduledOrder → Type 0
Waiting symbol s = (s.order.symbol ≡ symbol) × (pos 0 <ℤ s.order.quantity)

-- A trade of a positive quantity that is not closed before its position was opened.
abbrev pub Fair : BacktestTrade → Type 0
Fair t = (pos 0 <ℤ t.quantity) × (before t.exit_time t.entry_time ≡ false)

-- A losing protective exit of the symbol, a cooldown before `until`.
abbrev pub Losing : String → Datetime → BacktestTrade → Type 0
Losing symbol until t =
    (t.symbol ≡ symbol)
    × (is_protective t.exit_reason ≡ true)
    × (ltb_ℤ t.net_pnl (pos 0) ≡ true)
    × (until ≡ shift t.exit_time (seconds reentry_cooldown))

pub data AnyTrade (P : BacktestTrade → Type 0) : List BacktestTrade → Type 0 where
  here : {t : BacktestTrade} {ts : List BacktestTrade} → P t → AnyTrade P (t ∷ ts)
  there : {t : BacktestTrade} {ts : List BacktestTrade} → AnyTrade P ts → AnyTrade P (t ∷ ts)

pub data Among (symbol : String) (until : Datetime) : Dict Datetime → Type 0 where
  head : {d : Dict Datetime} → Among symbol until ((symbol, until) ∷ d)
  tail :
      {other : String × Datetime} {d : Dict Datetime}
      → Among symbol until d
      → Among symbol until (other ∷ d)

-- A cooldown comes with the initial portfolio or from a trade.
pub data Backed (inherited : Dict Datetime) (trades : List BacktestTrade) (symbol : String)
    (until : Datetime) : Type 0 where
  came : Among symbol until inherited → Backed inherited trades symbol until
  lost : AnyTrade (Losing symbol until) trades → Backed inherited trades symbol until

pub record Sound (inherited : Dict Datetime) (e : SimulatedExchange) : Type 0 where
  pub held : AllItems Held e.positions
  pub distinct : Distinct e.positions
  pub resting : AllItems Resting e.pending
  pub waiting : AllItems Waiting e.scheduled
  pub fair : All Fair e.trades
  pub backed : AllItems (Backed inherited e.trades) e.stop_loss_cooldown_until

append-All :
    (P : BacktestTrade → Type 0) (ts : List BacktestTrade) (t : BacktestTrade)
    → All P ts
    → P t
    → All P (ts ++ t ∷ [])
append-All P [] t all p = (p, tt)
append-All P (x ∷ ts) t all p = (all.0, append-All P ts t all.1 p)

append-AnyTrade :
    (P : BacktestTrade → Type 0) (ts : List BacktestTrade) (t : BacktestTrade)
    → AnyTrade P ts
    → AnyTrade P (ts ++ t ∷ [])
append-AnyTrade P [] t any = elim any [ ]
append-AnyTrade P (x ∷ ts) t (here p) = here p
append-AnyTrade P (x ∷ ts) t (there any) = there (append-AnyTrade P ts t any)

newest-AnyTrade :
    (P : BacktestTrade → Type 0) (ts : List BacktestTrade) (t : BacktestTrade)
    → P t
    → AnyTrade P (ts ++ t ∷ [])
newest-AnyTrade P [] t p = here p
newest-AnyTrade P (x ∷ ts) t p = there (newest-AnyTrade P ts t p)

pub all-Among : (d : Dict Datetime) → AllItems (λ symbol until. Among symbol until d) d
all-Among [] = tt
all-Among ((k, v) ∷ d) = (
  head,
  map-AllItems (λ symbol until. Among symbol until d)
      (λ symbol until. Among symbol until ((k, v) ∷ d)) d (λ _ _ a. tail a) (all-Among d),
)

module _ (inherited : Dict Datetime) where
  append-Backed :
      (ts : List BacktestTrade) (t : BacktestTrade) (symbol : String) (until : Datetime)
      → Backed inherited ts symbol until
      → Backed inherited (ts ++ t ∷ []) symbol until
  append-Backed ts t symbol until (came a) = came a
  append-Backed ts t symbol until (lost any) = lost (append-AnyTrade (Losing symbol until) ts t any)

  keep_open-Held :
      (symbol : String) (p : Position) (d : Dict Position)
      → AllItems Held d
      → AllItems Held (keep_open symbol p d)
  keep_open-Held symbol p d all =
      if_branches (AllItems Held) (leb_ℤ p.quantity (pos 0)) (λ _. erase-AllItems Held symbol d all)
        (λ left. insert-AllItems Held symbol p d (ground arith) all)

  keep_open-Distinct :
      (symbol : String) (p : Position) (d : Dict Position)
      → Distinct d
      → Distinct (keep_open symbol p d)
  keep_open-Distinct symbol p d h =
      if_branches Distinct (leb_ℤ p.quantity (pos 0)) (λ _. erase-Distinct symbol d h)
        (λ _. insert-Distinct symbol p d h)

  cool_down-Backed :
      (symbol : String) (t : BacktestTrade) (ts : List BacktestTrade) (d : Dict Datetime)
      → t.symbol ≡ symbol
      → AllItems (Backed inherited ts) d
      → AllItems (Backed inherited (ts ++ t ∷ [])) (cool_down symbol t d)
  cool_down-Backed symbol t ts d e all =
      let Kept = Backed inherited (ts ++ t ∷ []) in
      let kept = map-AllItems (Backed inherited ts) Kept d (append-Backed ts t) all in
      let until = shift t.exit_time (seconds reentry_cooldown) in
      if_branches (AllItems Kept) (is_protective t.exit_reason && ltb_ℤ t.net_pnl (pos 0))
        (λ loss.
          insert-AllItems Kept symbol until d
            (lost
              (newest-AnyTrade (Losing symbol until) ts t (e, ground arith, ground arith, refl)))
            kept)
        (λ _. kept)

  pub book-Sound :
      (e : SimulatedExchange) (symbol : String) (p : Position) (quantity price : Decimal)
      (now : Datetime) (fee : Decimal) (reason : ExitReason)
      → Sound inherited e
      → pos 0 <ℤ quantity
      → Returns (Sound inherited) (book e symbol p quantity price now fee reason)
  unfolding book trade_of rest_of
  book-Sound e symbol p quantity price now fee reason s some_quantity =
      raise_if-Returns (Sound inherited) (before now p.entry_time) _ _ (λ in_order.
        chain-Returns (Sound inherited) (λ _. Unit {0}) (div quantity p.quantity) _
          (any-Returns (div quantity p.quantity))
          (λ share _.
            let t = trade_of symbol p quantity price now fee reason share in
            record {
              distinct =
                  keep_open-Distinct symbol (rest_of p quantity share) e.positions s.distinct;
              held = keep_open-Held symbol (rest_of p quantity share) e.positions s.held;
              resting = s.resting;
              waiting = s.waiting;
              fair = append-All Fair e.trades t s.fair (some_quantity, in_order);
              backed = cool_down-Backed symbol t e.trades e.stop_loss_cooldown_until refl s.backed;
            }))
