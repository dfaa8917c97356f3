-- ===== src/Backtest/Observed.antt =====
-- What `portfolio_state` returns, and what it changes.
use mathlib.Core.Path.{subst⁻¹}
use candlepilot.Prelude.{
  String, true, some, [], ◌∷◌, ◌≡◌, refl, if_branches, length, pos, ◌≤ℤ◌, arith,
}
use candlepilot.Prelude.Assoc.{Dict, AllItems}
use candlepilot.Decimal.{Decimal, add, sub, max, dec}
use candlepilot.Time.{Datetime, before}
use candlepilot.Outcome.{ok}
use candlepilot.Outcome.Returns.{Returns, value-Returns, chain-Returns}
use candlepilot.Domain.{PortfolioState}
use candlepilot.Backtest.{SimulatedExchange}
use candlepilot.Backtest.Window.{observe, window_start}
use candlepilot.Backtest.Windowed.{Windowed, Ascending, observe-Windowed}
use candlepilot.Backtest.Account.{
  portfolio_state, mark_positions, portfolio_of, valid_portfolio, active_cooldowns, with_window,
}

abbrev pub RunsAt : Datetime → String → Datetime → Type 0
RunsAt now symbol until = before now until ≡ true

pub record Observed (now : Datetime) (e : SimulatedExchange)
    (both : SimulatedExchange × PortfolioState) : Type 0 where
  pub equity : Decimal
  pub worth : both.1.equity ≡ max (dec 1 8) equity
  pub gain : both.1.pnl_24h ≡ sub equity (window_start e.config.initial_equity both.0.equity_window)
  pub windowed : Windowed now equity both.0.equity_window
  pub count : both.1.open_positions ≡ length e.positions
  pub available : pos 0 ≤ℤ both.1.available_balance
  pub cooling : AllItems (RunsAt now) both.1.stop_loss_cooldown_until
  pub rest_same : record both.0 { equity_window = e.equity_window } ≡ e

active_cooldowns-RunsAt :
    (now : Datetime) (d : Dict Datetime) → AllItems (RunsAt now) (active_cooldowns (some now) d)
unfolding active_cooldowns
active_cooldowns-RunsAt now [] = tt
active_cooldowns-RunsAt now ((k, until) ∷ d) =
    if_branches (AllItems (RunsAt now)) (before now until)
      (λ ahead. (ahead, active_cooldowns-RunsAt now d)) (λ _. active_cooldowns-RunsAt now d)

max_nonneg : (a : Decimal) → pos 0 ≤ℤ max (pos 0) a
max_nonneg a = ground arith

pub valid_portfolio-same :
    (p : PortfolioState) → Returns (λ (q : PortfolioState). q ≡ p) (valid_portfolio p)
unfolding valid_portfolio
valid_portfolio-same p = value-Returns (λ (q : PortfolioState). q ≡ p) _ (λ _. ok p) (λ _ _. refl)

-- Asked at a time, an exchange whose window is in ascending order returns a portfolio and changes
-- only its window: the window stays in ascending order, ends with that time and the equity, and
-- only its first point is 24 hours old or older; the gain of 24 hours is measured from that point;
-- the equity returned is at least 10^-8, the available balance not negative; the positions are
-- counted; and only the cooldowns that still run are returned.
pub portfolio_state-Observed :
    (e : SimulatedExchange) (marks : Dict Decimal) (now : Datetime)
    → Ascending e.equity_window
    → Returns (Observed now e) (portfolio_state e marks (some now))
unfolding portfolio_state
portfolio_state-Observed e marks now ascending =
    value-Returns (Observed now e) (mark_positions marks e.positions _) _ (λ m _.
      let worth = add e.cash m.unrealized in
      chain-Returns (Observed now e) (Windowed now worth) (observe now worth e.equity_window) _
        (observe-Windowed now worth e.equity_window ascending)
        (λ w windowed.
          let p = portfolio_of e (some now) m worth w in
          chain-Returns (Observed now e) (λ (q : PortfolioState). q ≡ p) (valid_portfolio p) _
            (valid_portfolio-same p)
            (λ q same.
              subst⁻¹ (λ (x : PortfolioState). Observed now e (with_window e w, x)) same
                (record {
                  equity = worth;
                  worth = refl;
                  gain = refl;
                  windowed = windowed;
                  count = refl;
                  available = max_nonneg (sub worth m.margin_used);
                  cooling = active_cooldowns-RunsAt now e.stop_loss_cooldown_until;
                  rest_same = refl;
                }))))
