-- ===== src/Backtest/Summary.antt =====
-- `summarize`: the figures of a run, from its trades and its equity curve.
use Prim.Native.String.{compare}
use Prim.Native.Nat.{Ordering}
use candlepilot.Prelude.{
  ℕ, String, Bool, true, false, Option, none, some, List, [], ◌∷◌, pos, ltb_ℤ, if◌then◌else◌,
  length, str_eq,
}
use candlepilot.Decimal.{Decimal, add, sub, quotient, of_int, max, is_zero}
use candlepilot.Backtest.{BacktestConfig, BacktestTrade, EquityPoint, run_end}
use candlepilot.Backtest.Window.{last}

pub record BacktestSymbolResult : Type 0 where
  pub symbol : String
  pub gross_price_pnl : Decimal
  pub net_pnl : Decimal
  pub contribution_return : Decimal
  pub trade_count : ℕ
  pub total_fees : Decimal
  pub total_funding : Decimal

pub record BacktestResult : Type 0 where
  pub initial_equity : Decimal
  pub final_equity : Decimal
  pub gross_price_pnl : Decimal
  pub net_pnl : Decimal
  pub total_return : Decimal
  pub max_drawdown : Decimal
  pub win_rate : Decimal
  pub profit_factor : Option Decimal
  pub trade_count : ℕ
  pub total_fees : Decimal
  pub total_funding : Decimal
  pub run_end_trade_count : ℕ
  pub cancelled_pending_orders : ℕ
  pub symbol_results : List BacktestSymbolResult
  pub trades : List BacktestTrade
  pub equity_curve : List EquityPoint

-- `sum((f(trade) for trade in trades), total)`
unfoldable pub sum_of : (BacktestTrade → Decimal) → Decimal → List BacktestTrade → Decimal
sum_of f total [] = total
sum_of f total (t ∷ ts) = sum_of f (add total (f t)) ts

-- `[trade for trade in trades if c(trade)]`
unfoldable pub select : (BacktestTrade → Bool) → List BacktestTrade → List BacktestTrade
select c [] = []
select c (t ∷ ts) = let rest = select c ts in if c t then t ∷ rest else rest

abbrev pub is_win : BacktestTrade → Bool
is_win t = ltb_ℤ (pos 0) t.net_pnl

abbrev pub is_loss : BacktestTrade → Bool
is_loss t = ltb_ℤ t.net_pnl (pos 0)

abbrev pub is_run_end : BacktestTrade → Bool
is_run_end t = elim t.exit_reason [ run_end ↦ true | _ ↦ false ]

abbrev pub is_of : String → BacktestTrade → Bool
is_of symbol t = str_eq t.symbol symbol

-- The next peak, and the drawdown with it.
abbrev pub deeper : Decimal → Decimal → Decimal → Decimal
deeper peak equity drawdown =
    if ltb_ℤ (pos 0) peak then max drawdown (quotient (sub peak equity) peak) else drawdown

unfoldable pub drawdown_of : Decimal → Decimal → List EquityPoint → Decimal
drawdown_of peak drawdown [] = drawdown
drawdown_of peak drawdown (point ∷ curve) =
    let top = max peak point.equity in drawdown_of top (deeper top point.equity drawdown) curve

-- `sorted({trade.symbol for trade in trades})`
unfoldable pub insert_symbol : String → List String → List String
insert_symbol s [] = s ∷ []
insert_symbol s (t ∷ ts) =
    let later = t ∷ insert_symbol s ts in
    elim (compare s t) [ Ordering.gt ↦ later | Ordering.eq ↦ t ∷ ts | Ordering.lt ↦ s ∷ t ∷ ts ]

unfoldable pub symbols_in : List BacktestTrade → List String
symbols_in [] = []
symbols_in (t ∷ ts) = insert_symbol t.symbol (symbols_in ts)

-- `a / b if b else Decimal("0")`
abbrev pub ratio_or_zero : Decimal → Decimal → Decimal
ratio_or_zero a b = if is_zero b then pos 0 else quotient a b

unfoldable pub symbol_result : BacktestConfig → List BacktestTrade → String → BacktestSymbolResult
symbol_result config trades symbol =
    let own = select (is_of symbol) trades in
    let net = sum_of (λ t. t.net_pnl) (pos 0) own in
    let fees = sum_of (λ t. t.fees) (pos 0) own in
    let funding = sum_of (λ t. t.funding) (pos 0) own in
    record {
      symbol = symbol;
      gross_price_pnl = add (add net fees) funding;
      net_pnl = net;
      contribution_return = ratio_or_zero net config.initial_equity;
      trade_count = length own;
      total_fees = fees;
      total_funding = funding;
    }

-- One result for each of the symbols.
unfoldable pub symbol_results_of :
    BacktestConfig → List BacktestTrade → List String → List BacktestSymbolResult
symbol_results_of config trades [] = []
symbol_results_of config trades (s ∷ symbols) =
    symbol_result config trades s ∷ symbol_results_of config trades symbols

abbrev pub final_of : BacktestConfig → Option EquityPoint → Decimal
final_of config none = config.initial_equity
final_of config (some point) = point.equity

abbrev pub win_rate_of : ℕ → List BacktestTrade → Decimal
win_rate_of wins [] = pos 0
win_rate_of wins (t ∷ ts) = quotient (of_int wins) (of_int (length (t ∷ ts)))

-- `-sum(…)`
abbrev pub loss_of : List BacktestTrade → Decimal
loss_of trades = sub (pos 0) (sum_of (λ t. t.net_pnl) (pos 0) (select is_loss trades))

abbrev pub profit_factor_of : Decimal → Decimal → Option Decimal
profit_factor_of win loss = if ltb_ℤ (pos 0) loss then some (quotient win loss) else none

unfoldable pub summarize :
    BacktestConfig → List BacktestTrade → List EquityPoint → ℕ → BacktestResult
summarize config trades curve cancelled =
    let final = final_of config (last curve) in
    let wins = select is_win trades in
    record {
      initial_equity = config.initial_equity;
      final_equity = final;
      gross_price_pnl = sum_of (λ t. add (add t.net_pnl t.fees) t.funding) (pos 0) trades;
      net_pnl = sub final config.initial_equity;
      total_return =
          if is_zero config.initial_equity
          then pos 0
          else sub (quotient final config.initial_equity) (of_int 1);
      max_drawdown = drawdown_of config.initial_equity (pos 0) curve;
      win_rate = win_rate_of (length wins) trades;
      profit_factor = profit_factor_of (sum_of (λ t. t.net_pnl) (pos 0) wins) (loss_of trades);
      trade_count = length trades;
      total_fees = sum_of (λ t. t.fees) (pos 0) trades;
      total_funding = sum_of (λ t. t.funding) (pos 0) trades;
      run_end_trade_count = length (select is_run_end trades);
      cancelled_pending_orders = cancelled;
      symbol_results = symbol_results_of config trades (symbols_in trades);
      trades = trades;
      equity_curve = curve;
    }
