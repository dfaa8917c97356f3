-- ===== src/Backtest/Steps.antt =====
-- The exchange as a state machine: the calls that change it, in any order.
use candlepilot.Prelude.{
  arith, lookup, ℕ, String, Option, none, some, [], ◌∷◌, ◌≡◌, refl, pos, ◌<ℤ◌,
}
use candlepilot.Prelude.Assoc.{Distinct, map-AllItems, Dict, AllItems}
use candlepilot.Decimal.{Decimal, add}
use candlepilot.Time.{Datetime}
use candlepilot.Outcome.{ok}
use candlepilot.Outcome.Returns.{Returns, of_value, value-Returns}
use candlepilot.Domain.{OrderPlan, ExecutionReport, PositionState, PortfolioState}
use candlepilot.Backtest.{Candle, BacktestConfig, SimulatedExchange}
use candlepilot.Backtest.Exchange.{execute, activate_scheduled, settle_candle, close_all}
use candlepilot.Backtest.Window.{observe_at}
use candlepilot.Backtest.Account.{
  carry_over, start, carry, portfolio_state, mark_positions, portfolio_of, valid_portfolio,
}
use candlepilot.Backtest.Sound.{Among, Sound, Held, all-Among, Backed, came}
use candlepilot.Backtest.Kept.{SoundFirst, execute-Sound, activate_scheduled-Sound}
use candlepilot.Backtest.Settled.{settle_candle-Sound, close_all-Sound}

-- A call that returned, with the exchange before and after it.
pub data Step (e after : SimulatedExchange) : Type 0 where
  executed :
      (order : OrderPlan) (candle : Candle) (leverage : ℕ) (submitted : Option Datetime)
      (report : ExecutionReport)
      → pos 0 <ℤ order.quantity
      → execute e order candle leverage submitted ≡ ok (after, report)
      → Step e after
  activated :
      (symbol : String) (through : Datetime)
      → activate_scheduled e symbol through ≡ ok after
      → Step e after
  settled :
      (symbol : String) (candle : Candle) → settle_candle e symbol candle ≡ ok after → Step e after
  observed :
      (marks : Dict Decimal) (now : Option Datetime) (portfolio : PortfolioState)
      → portfolio_state e marks now ≡ ok (after, portfolio)
      → Step e after
  closed :
      (marks : Dict Decimal) (now : Datetime) (cancelled : ℕ)
      → close_all e marks now ≡ ok (after, cancelled)
      → Step e after

pub data Reachable (first : SimulatedExchange) : SimulatedExchange → Type 0 where
  initial : Reachable first first
  later : (e after : SimulatedExchange) → Reachable first e → Step e after → Reachable first after

-- The positions and cooldowns that come with an initial portfolio.
abbrev pub inherited_positions : Option PortfolioState → Dict PositionState
inherited_positions none = []
inherited_positions (some p) = p.positions

abbrev pub inherited_cooldowns : Option PortfolioState → Dict Datetime
inherited_cooldowns none = []
inherited_cooldowns (some p) = p.stop_loss_cooldown_until

abbrev pub PositiveQuantity : String → PositionState → Type 0
PositiveQuantity symbol p = pos 0 <ℤ p.quantity

carry-Held :
    (now : Datetime) (d : Dict PositionState)
    → AllItems PositiveQuantity d
    → AllItems Held (carry now d)
unfolding carry
carry-Held now [] all = tt
carry-Held now ((k, p) ∷ d) all = (all.0, carry-Held now d all.1)

carry-lookup :
    (now : Datetime) (k : String) (d : Dict PositionState)
    → lookup k d ≡ none
    → lookup k (carry now d) ≡ none
unfolding carry lookup
carry-lookup now k [] missing = refl
carry-lookup now k ((j, p) ∷ d) missing = ground (arith, carry-lookup now k d)

carry-Distinct : (now : Datetime) (d : Dict PositionState) → Distinct d → Distinct (carry now d)
unfolding carry
carry-Distinct now [] h = tt
carry-Distinct now ((k, p) ∷ d) h = (carry-lookup now k d h.0, carry-Distinct now d h.1)

cooldowns-Backed : (inherited : Dict Datetime) → AllItems (Backed inherited []) inherited
cooldowns-Backed inherited =
    map-AllItems (λ symbol until. Among symbol until inherited) (Backed inherited []) inherited
      (λ symbol until a. came a) (all-Among inherited)

start-Sound :
    (config : BacktestConfig) (portfolio : Option PortfolioState) (now : Option Datetime)
    → AllItems PositiveQuantity (inherited_positions portfolio)
    → Distinct (inherited_positions portfolio)
    → Returns (Sound (inherited_cooldowns portfolio)) (start config portfolio now)
unfolding start
start-Sound config none now all distinct = record {
  held = tt;
  distinct = tt;
  resting = tt;
  waiting = tt;
  fair = tt;
  backed = tt;
}
start-Sound config (some p) none all distinct = tt
start-Sound config (some p) (some now) all distinct =
    value-Returns (Sound p.stop_loss_cooldown_until) _ (λ _. ok (carry_over config p now))
      (λ _ _. record {
        held = carry-Held now p.positions all;
        distinct = carry-Distinct now p.positions distinct;
        resting = tt;
        waiting = tt;
        fair = tt;
        backed = cooldowns-Backed p.stop_loss_cooldown_until;
      })

module _ (inherited : Dict Datetime) (e : SimulatedExchange) (s : Sound inherited e) where
  portfolio_state-Sound :
      (marks : Dict Decimal) (now : Option Datetime)
      → Returns
          (λ (both : SimulatedExchange × PortfolioState). Sound inherited both.0)
          (portfolio_state e marks now)
  unfolding portfolio_state
  portfolio_state-Sound marks now =
      let Goal = λ (both : SimulatedExchange × PortfolioState). Sound inherited both.0 in
      value-Returns Goal (mark_positions marks e.positions _) _ (λ m _.
        value-Returns Goal (observe_at now (add e.cash m.unrealized) e.equity_window) _ (λ w _.
          value-Returns Goal (valid_portfolio (portfolio_of e now m (add e.cash m.unrealized) w)) _
            (λ p _. record {
              held = s.held;
              distinct = s.distinct;
              resting = s.resting;
              waiting = s.waiting;
              fair = s.fair;
              backed = s.backed;
            })))

  step-Sound : (after : SimulatedExchange) → Step e after → Sound inherited after
  step-Sound after (executed order candle leverage submitted report size run) =
      of_value (SoundFirst inherited) _ (after, report) run
        (execute-Sound inherited e order candle leverage submitted s size)
  step-Sound after (activated symbol through run) =
      of_value (Sound inherited) _ after run (activate_scheduled-Sound inherited e symbol through s)
  step-Sound after (settled symbol candle run) =
      of_value (Sound inherited) _ after run (settle_candle-Sound inherited e symbol candle s)
  step-Sound after (observed marks now portfolio run) =
      of_value (λ (both : SimulatedExchange × PortfolioState). Sound inherited both.0) _
        (after, portfolio) run (portfolio_state-Sound marks now)
  step-Sound after (closed marks now cancelled run) =
      of_value (λ (both : SimulatedExchange × ℕ). Sound inherited both.0) _ (after, cancelled) run
        (close_all-Sound inherited e marks now s)

-- Whatever calls that return, in whatever order, lead from a new exchange to this one, with orders
-- of a positive quantity and an initial portfolio (if any) of positive quantities under different
-- symbols: every position has a positive quantity and stands under one symbol; every resting and scheduled order has one and stands under its own
-- symbol; every trade has one and is not closed before its entry; and every cooldown comes with
-- the initial portfolio or stands 90 minutes after a losing stop or target exit of that symbol.
pub reachable-Sound :
    (config : BacktestConfig) (portfolio : Option PortfolioState) (now : Option Datetime)
    (first e : SimulatedExchange)
    → AllItems PositiveQuantity (inherited_positions portfolio)
    → Distinct (inherited_positions portfolio)
    → start config portfolio now ≡ ok first
    → Reachable first e
    → Sound (inherited_cooldowns portfolio) e
reachable-Sound config portfolio now first e sizes distinct started initial =
    of_value (Sound (inherited_cooldowns portfolio)) _ first started
      (start-Sound config portfolio now sizes distinct)
reachable-Sound config portfolio now first e sizes distinct started (later before_it _ path step) =
    step-Sound (inherited_cooldowns portfolio) before_it
      (reachable-Sound config portfolio now first before_it sizes distinct started path) e step
