-- ===== src/Backtest/Account.antt =====
-- `SimulatedExchange.__init__`, `portfolio_state` and `equity`.
use candlepilot.Prelude.{
  Bool, true, false, Option, none, some, List, [], ◌∷◌, ◌++◌, pos, ltb_ℤ, leb_ℤ, if◌then◌else◌, not,
  length, ltb, eqb_ℤ,
}
use candlepilot.Prelude.Assoc.{Dict}
use candlepilot.Decimal.{Decimal, add, sub, mul, dec, of_int, max, is_zero}
use candlepilot.Time.{Datetime, before}
use candlepilot.Outcome.{Result, ok, err, value_error, validation_error, raise_if, div, ◌>>=◌, ◌>>◌}
use candlepilot.Domain.{PositionState, PortfolioState}
use candlepilot.Backtest.{BacktestConfig, Position, EquityPoint, SimulatedExchange}
use candlepilot.Backtest.Book.{direction}
use candlepilot.Backtest.Exchange.{mark_of}
use candlepilot.Backtest.Window.{observe_at, window_start}

-- An exchange without an initial portfolio.
abbrev pub fresh : BacktestConfig → SimulatedExchange
fresh config = record {
  config = config;
  positions = [];
  pending = [];
  scheduled = [];
  stop_loss_cooldown_until = [];
  trades = [];
  equity_window = [];
  cash = config.initial_equity;
}

-- `sum((position.unrealized_pnl for …), Decimal("0"))`
unfoldable pub carried : Decimal → Dict PositionState → Decimal
carried total [] = total
carried total ((k, p) ∷ d) = carried (add total p.unrealized_pnl) d

-- `position.stop_loss or position.entry_price`
abbrev pub stop_or : Option Decimal → Decimal → Decimal
stop_or none entry = entry
stop_or (some stop) entry = if is_zero stop then entry else stop

unfoldable pub carry : Datetime → Dict PositionState → Dict Position
carry now [] = []
carry now ((k, p) ∷ d) =
    (
      k,
      record {
        side = p.side;
        quantity = p.quantity;
        entry_price = p.entry_price;
        entry_time = now;
        leverage = p.leverage;
        stop = stop_or p.stop_loss p.entry_price;
        target = p.take_profit;
        fees = pos 0;
        funding = pos 0;
        carried_pnl = p.unrealized_pnl;
      },
    )
    ∷ carry now d

abbrev pub is_aware : Option Datetime → Bool
is_aware none = false
is_aware (some t) = t.aware

-- `SimulatedExchange(config, initial_portfolio=…, initial_time=…)`
abbrev pub carry_over : BacktestConfig → PortfolioState → Datetime → SimulatedExchange
carry_over config portfolio now = record (fresh config) {
  cash = sub portfolio.equity (carried (pos 0) portfolio.positions);
  stop_loss_cooldown_until = portfolio.stop_loss_cooldown_until;
  positions = carry now portfolio.positions;
}

abbrev pub start_from : BacktestConfig → PortfolioState → Option Datetime → Result SimulatedExchange
start_from config portfolio none =
    err (value_error "an initial portfolio needs a timezone-aware start time")
start_from config portfolio (some now) =
    raise_if (not now.aware) (value_error "an initial portfolio needs a timezone-aware start time")
    >> raise_if (not (eqb_ℤ portfolio.equity config.initial_equity))
        (value_error "initial portfolio equity must match backtest initial equity")
    >> ok (carry_over config portfolio now)

unfoldable pub start :
    BacktestConfig → Option PortfolioState → Option Datetime → Result SimulatedExchange
start config none now = ok (fresh config)
start config (some portfolio) now = start_from config portfolio now

-- The sums of the loop over the positions.
pub record Marked : Type 0 where
  pub unrealized : Decimal
  pub margin_used : Decimal
  pub states : Dict PositionState

-- A field with `gt=0` that may be None.
abbrev pub is_positive_if_any : Option Decimal → Bool
is_positive_if_any none = true
is_positive_if_any (some d) = ltb_ℤ (pos 0) d

-- The constraints of `PositionState`.
unfoldable pub valid_state : PositionState → Result PositionState
valid_state p =
    raise_if (leb_ℤ p.quantity (pos 0)) validation_error
    >> raise_if (leb_ℤ p.entry_price (pos 0)) validation_error
    >> raise_if (ltb p.leverage 1) validation_error
    >> raise_if (ltb_ℤ p.initial_margin (pos 0)) validation_error
    >> raise_if (not (is_positive_if_any p.stop_loss)) validation_error
    >> raise_if (not (is_positive_if_any p.take_profit)) validation_error
    >> ok p

abbrev pub state_of : Position → Decimal → Decimal → PositionState
state_of p pnl margin = record {
  side = p.side;
  quantity = p.quantity;
  entry_price = p.entry_price;
  unrealized_pnl = pnl;
  leverage = p.leverage;
  initial_margin = margin;
  stop_loss = some p.stop;
  take_profit = p.target;
}

unfoldable pub mark_positions : Dict Decimal → Dict Position → Marked → Result Marked
mark_positions marks [] m = ok m
mark_positions marks ((symbol, p) ∷ d) m =
    let mark = mark_of marks symbol p in
    let pnl = mul (mul p.quantity (sub mark p.entry_price)) (direction p.side) in
    div (mul p.quantity mark) (of_int p.leverage) >>= λ margin.
    valid_state (state_of p pnl margin) >>= λ state. mark_positions marks d (record {
      unrealized = add m.unrealized pnl;
      margin_used = add m.margin_used margin;
      states = m.states ++ (symbol, state) ∷ [];
    })

abbrev pub is_ahead : Datetime → Option Datetime → Bool
is_ahead until none = true
is_ahead until (some now) = before now until

unfoldable pub active_cooldowns : Option Datetime → Dict Datetime → Dict Datetime
active_cooldowns now [] = []
active_cooldowns now ((k, until) ∷ d) =
    let rest = active_cooldowns now d in if is_ahead until now then (k, until) ∷ rest else rest

-- The constraints of `PortfolioState` that its fields here can miss.
unfoldable pub valid_portfolio : PortfolioState → Result PortfolioState
valid_portfolio p =
    raise_if (leb_ℤ p.equity (pos 0)) validation_error
    >> raise_if (ltb_ℤ p.available_balance (pos 0)) validation_error
    >> raise_if (ltb_ℤ p.margin_used (pos 0)) validation_error
    >> ok p

abbrev pub portfolio_of :
    SimulatedExchange → Option Datetime → Marked → Decimal → List EquityPoint → PortfolioState
portfolio_of e now m equity w = record {
  equity = max (dec 1 8) equity;
  available_balance = max (pos 0) (sub equity m.margin_used);
  pnl_24h = sub equity (window_start e.config.initial_equity w);
  open_positions = length e.positions;
  margin_used = m.margin_used;
  positions = m.states;
  pending_entry_symbols = [];
  stop_loss_cooldown_until = active_cooldowns now e.stop_loss_cooldown_until;
}

abbrev pub with_window : SimulatedExchange → List EquityPoint → SimulatedExchange
with_window e w = record e { equity_window = w }

unfoldable pub portfolio_state :
    SimulatedExchange → Dict Decimal → Option Datetime → Result (SimulatedExchange × PortfolioState)
portfolio_state e marks now =
    mark_positions marks e.positions
      (record { unrealized = pos 0; margin_used = pos 0; states = [] })
    >>= λ m.
        let equity = add e.cash m.unrealized in
        observe_at now equity e.equity_window >>= λ w.
        valid_portfolio (portfolio_of e now m equity w) >>= λ p. ok (with_window e w, p)

unfoldable pub equity : SimulatedExchange → Dict Decimal → Result Decimal
equity e marks = portfolio_state e marks none >>= λ both. ok both.1.equity
