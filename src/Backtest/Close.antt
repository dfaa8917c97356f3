-- ===== src/Backtest/Close.antt =====
-- `close_all` always ends with a flat exchange.
use candlepilot.Prelude.{
  inr, inl, Bool-cases, ℕ, suc, ◌+◌, String, true, false, none, some, List, [], ◌∷◌, ◌++◌, ◌≡◌,
  refl, ap, ◌∙◌, sym, lookup, erase, arith, length, All, pos, ◌<ℤ◌, leb_ℤ, ◌-ℤ◌, -ℤ_parts,
}
use candlepilot.Prelude.Assoc.{Dict, AllItems, Distinct, erase_missing, str_refl}
use candlepilot.Decimal.{mul, Decimal, sub, quotient}
use candlepilot.Decimal.Order.{round_nonpos}
use candlepilot.Time.{Datetime, before}
use candlepilot.Outcome.Returns.{Returns, chain-Returns}
use candlepilot.Outcome.{err, ok, div}
use candlepilot.Domain.{exit_side}
use candlepilot.Backtest.{value_error, Position, BacktestTrade, SimulatedExchange, run_end}
use candlepilot.Backtest.Book.{direction, booked, slipped, book, trade_of, rest_of, charged}
use candlepilot.Backtest.Exchange.{close_one, close_each, close_all, symbols_of, mark_of}
use candlepilot.Backtest.Sound.{Sound, Held}
use candlepilot.Backtest.History.{append_nil, append_assoc}

-- The position was opened by then.
abbrev pub OpenedBy : Datetime → String → Position → Type 0
OpenedBy now symbol p = before now p.entry_time ≡ false

sub_self : (q : Decimal) → leb_ℤ (sub q q) (pos 0) ≡ true
unfolding sub
sub_self q = ground (arith, round_nonpos (q -ℤ q) (omega (arith, -ℤ_parts q q)))

positive-div : (a q : Decimal) → pos 0 <ℤ q → div a q ≡ ok (quotient a q)
unfolding div
positive-div a q h = ground arith

-- What closing one position after another leads to.
pub record Flattened (e after : SimulatedExchange) (count : ℕ) : Type 0 where
  pub no_position : after.positions ≡ []
  pub same_pending : after.pending ≡ e.pending
  pub same_scheduled : after.scheduled ≡ e.scheduled
  pub new : List BacktestTrade
  pub goes_on : after.trades ≡ e.trades ++ new
  pub one_each : length new ≡ count
  pub at_end : All (λ (t : BacktestTrade). t.exit_reason ≡ run_end) new

pub record ClosedOne (e after : SimulatedExchange) (rest : Dict Position) : Type 0 where
  pub positions_left : after.positions ≡ rest
  pub same_pending : after.pending ≡ e.pending
  pub same_scheduled : after.scheduled ≡ e.scheduled
  pub trade : BacktestTrade
  pub goes_on : after.trades ≡ e.trades ++ trade ∷ []
  pub at_end : trade.exit_reason ≡ run_end

module _ (marks : Dict Decimal) (now : Datetime) where
  abbrev exit_price_of : SimulatedExchange → String → Position → Decimal
  exit_price_of e k p = slipped e (mark_of marks k p) (exit_side p.side)

  abbrev exit_fee : SimulatedExchange → String → Position → Decimal
  exit_fee e k p = mul (mul (exit_price_of e k p) p.quantity) e.config.fee_rate

  abbrev end_trade : SimulatedExchange → String → Position → BacktestTrade
  end_trade e k p =
      trade_of k p p.quantity (exit_price_of e k p) now (exit_fee e k p) run_end
        (quotient p.quantity p.quantity)

  abbrev closed_one : SimulatedExchange → String → Position → SimulatedExchange
  closed_one e k p =
      booked (charged e (exit_fee e k p)) k (rest_of p p.quantity (quotient p.quantity p.quantity))
        (mul (mul p.quantity (sub (exit_price_of e k p) p.entry_price)) (direction p.side))
        (end_trade e k p)

  close_one-ClosedOne :
      (e : SimulatedExchange) (k : String) (p : Position) (d : Dict Position)
      → e.positions ≡ (k, p) ∷ d
      → lookup k d ≡ none
      → Held k p
      → OpenedBy now k p
      → (after : SimulatedExchange) × (close_one e marks now k p ≡ ok after) × ClosedOne e after d
  unfolding close_one book trade_of rest_of erase
  close_one-ClosedOne e k p d here missing held opened = (
    closed_one e k p,
    rw (opened, positive-div p.quantity p.quantity held) refl,
    record {
      positions_left = rw (sub_self p.quantity, here, str_refl k) (erase_missing k d missing);
      same_pending = refl;
      same_scheduled = refl;
      trade = end_trade e k p;
      goes_on = refl;
      at_end = refl;
    },
  )

  close_each-Flattened :
      (d : Dict Position) (e : SimulatedExchange)
      → e.positions ≡ d
      → Distinct d
      → AllItems Held d
      → AllItems (OpenedBy now) d
      → (after : SimulatedExchange) × (close_each (symbols_of d) e marks now ≡ ok after)
        × Flattened e after (length d)
  unfolding close_each lookup
  close_each-Flattened [] e here distinct held opened = (
    e,
    refl,
    record {
      no_position = here;
      same_pending = refl;
      same_scheduled = refl;
      new = [];
      goes_on = sym (append_nil e.trades);
      one_each = refl;
      at_end = tt;
    },
  )
  close_each-Flattened ((k, p) ∷ d) e here distinct held opened =
      let (mid, run, one) = close_one-ClosedOne e k p d here distinct.0 held.0 opened.0 in
      let (after, run_rest, flat) =
        close_each-Flattened d mid one.positions_left distinct.1 held.1 opened.1 in
      let found : lookup k e.positions ≡ some p = rw (here, str_refl k) refl in
      (
        after,
        rw (found, run) run_rest,
        record {
          no_position = flat.no_position;
          same_pending = flat.same_pending ∙ one.same_pending;
          same_scheduled = flat.same_scheduled ∙ one.same_scheduled;
          new = one.trade ∷ flat.new;
          goes_on =
              flat.goes_on
              ∙ ap (λ (ts : List BacktestTrade). ts ++ flat.new) one.goes_on
              ∙ append_assoc e.trades (one.trade ∷ []) flat.new;
          one_each = ap suc flat.one_each;
          at_end = (one.at_end, flat.at_end);
        },
      )

-- Nothing is held, rests or waits.
abbrev pub Flat : SimulatedExchange → Type 0
Flat e = (e.positions ≡ []) × (e.pending ≡ []) × (e.scheduled ≡ [])

module _ (marks : Dict Decimal) (now : Datetime) where
  -- A position that was opened later raises.
  close_one-refuses :
      (e : SimulatedExchange) (k : String) (p : Position)
      → before now p.entry_time ≡ true
      → close_one e marks now k p ≡ err (value_error "trade exit cannot precede its entry")
  unfolding close_one book
  close_one-refuses e k p late = rw late refl

  close_each-Flat :
      (d : Dict Position) (e : SimulatedExchange)
      → e.positions ≡ d
      → Distinct d
      → AllItems Held d
      → Returns
          (λ (after : SimulatedExchange). after.positions ≡ [])
          (close_each (symbols_of d) e marks now)
  unfolding close_each lookup
  close_each-Flat [] e here distinct held = here
  close_each-Flat ((k, p) ∷ d) e here distinct held =
      let found : lookup k e.positions ≡ some p = rw (here, str_refl k) refl in
      elim (Bool-cases (before now p.entry_time)) [
        | inl late ↦ rw (found, close_one-refuses e k p late) tt
        | inr opened ↦
            let (mid, run, one) =
              close_one-ClosedOne marks now e k p d here distinct.0 held.0 opened in
            rw (found, run) (close_each-Flat d mid one.positions_left distinct.1 held.1)
      ]

  pub close_all-Flat :
      (inherited : Dict Datetime) (e : SimulatedExchange)
      → Sound inherited e
      → Returns (λ (both : SimulatedExchange × ℕ). Flat both.0) (close_all e marks now)
  unfolding close_all
  close_all-Flat inherited e sound =
      chain-Returns (λ (both : SimulatedExchange × ℕ). Flat both.0)
        (λ (after : SimulatedExchange). after.positions ≡ [])
        (close_each (symbols_of e.positions) e marks now) _
        (close_each-Flat e.positions e refl sound.distinct sound.held) (λ flat h. (h, refl, refl))

-- The end of a run: nothing is held, rests or waits, every position became one trade, and the
-- count is that of the orders that were cancelled.
pub record Ended (e after : SimulatedExchange) (cancelled : ℕ) : Type 0 where
  pub no_position : after.positions ≡ []
  pub no_pending : after.pending ≡ []
  pub no_scheduled : after.scheduled ≡ []
  pub counted : cancelled ≡ length e.pending + length e.scheduled
  pub new : List BacktestTrade
  pub goes_on : after.trades ≡ e.trades ++ new
  pub one_each : length new ≡ length e.positions
  pub at_end : All (λ (t : BacktestTrade). t.exit_reason ≡ run_end) new

-- In an exchange with the invariant, at a time before which no position was opened later,
-- `close_all` raises nothing and ends: it leaves no position, no resting and no scheduled order,
-- adds one "run_end" trade for each position, and returns how many orders it cancelled.
pub close_all-Ended :
    (inherited : Dict Datetime) (e : SimulatedExchange) (marks : Dict Decimal) (now : Datetime)
    → Sound inherited e
    → AllItems (OpenedBy now) e.positions
    → (after : SimulatedExchange) × (cancelled : ℕ) × (close_all e marks now
        ≡ ok (after, cancelled))
      × Ended e after cancelled
unfolding close_all
close_all-Ended inherited e marks now sound opened =
    let (flat, run, f) =
      close_each-Flattened marks now e.positions e refl sound.distinct sound.held opened in
    (
      record flat { pending = []; scheduled = [] },
      length flat.pending + length flat.scheduled,
      rw run refl,
      record {
        no_position = f.no_position;
        no_pending = refl;
        no_scheduled = refl;
        counted = rw (f.same_pending, f.same_scheduled) refl;
        new = f.new;
        goes_on = f.goes_on;
        one_each = f.one_each;
        at_end = f.at_end;
      },
    )
