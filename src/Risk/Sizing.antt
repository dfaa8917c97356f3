-- ===== src/Risk/Sizing.antt =====
-- The part of `evaluate` that sizes the order: the risk budget, the margin and the venue's limits.
use candlepilot.Prelude.{
  String, Bool, true, false, Option, none, some, ltb_ℤ, leb_ℤ, pos, if◌then◌else◌,
}
use candlepilot.Decimal.{Decimal, of_int, sub, mul, max, min}
use candlepilot.Outcome.{value_error, Result, ok, err, div}
use candlepilot.Flow.{Flow, next, returned, raised, ◌>>=◌, ◌>>◌, return_if, asserted, call}
use candlepilot.Domain.{
  Side, long, short, OrderType, market, limit, MarketSnapshot, TradeIntent, PositionState,
  PortfolioState, is_add,
}
use candlepilot.Risk.{
  SymbolRules, AggressiveRiskPolicy, quantity_limits, round_down, RiskEvaluation, reject,
}
use candlepilot.Risk.Pricing.{effective_entry, effective_loss_per_unit, portfolio_stop_risk}
use candlepilot.Risk.Levels.{EntryLevels}
use candlepilot.Risk.Exit.{exceeds}

-- `except ValueError as exc: return self._reject(str(exc))`
abbrev pub refuse_value_error : Result Decimal → Flow RiskEvaluation Decimal
refuse_value_error (ok a) = next a
refuse_value_error (err (value_error message)) = returned (reject message)
refuse_value_error (err e) = raised e

-- `intent.symbol if intent.action == TradeAction.ADD else None`
abbrev pub replaced_symbol : TradeIntent → Option String
replaced_symbol intent = if is_add intent.action then some intent.symbol else none

module _ (p : AggressiveRiskPolicy) (intent : TradeIntent) (snapshot : MarketSnapshot)
    (portfolio : PortfolioState) (rules : SymbolRules) (existing : Option PositionState)
    (side : Side) (levels : EntryLevels) where
  abbrev pub per_unit_loss : Decimal
  per_unit_loss =
      effective_loss_per_unit p side
        (effective_entry p side levels.entry snapshot intent.order_type) levels.stop

  abbrev pub requested_risk_budget : Decimal
  requested_risk_budget = mul portfolio.equity (min intent.risk_fraction p.max_risk_fraction)

  -- What the position of an ADD already risks at the merged stop.
  abbrev pub position_risk : PositionState → Decimal
  position_risk position =
      mul position.quantity
        (effective_loss_per_unit p position.side position.entry_price levels.stop)

  abbrev pub remaining_hard_risk : Decimal → Decimal
  remaining_hard_risk used = max (pos 0) (sub (mul portfolio.equity p.max_risk_fraction) used)

  -- The budget of the symbol, and the risk that the symbol already uses.
  unfoldable pub symbol_budget : Bool → Flow RiskEvaluation (Decimal × Decimal)
  symbol_budget false = next (requested_risk_budget, pos 0)
  symbol_budget true = do
    position ← asserted existing
    let used = position_risk position
    let budget = min requested_risk_budget (remaining_hard_risk used)
    return_if (leb_ℤ budget (pos 0)) (reject "existing position exhausts the symbol risk limit")
    next (budget, used)

  abbrev pub remaining_portfolio_risk : Decimal → Decimal → Decimal
  remaining_portfolio_risk portfolio_risk used =
      max (pos 0)
        (sub (sub (mul portfolio.equity p.max_portfolio_risk_fraction) portfolio_risk) used)

  -- The least of what the intent asks for, what the symbol has left and what the portfolio has left.
  unfoldable pub risk_budget : Flow RiskEvaluation Decimal
  risk_budget = do
    symbol_part ← symbol_budget (is_add intent.action)
    portfolio_risk ← refuse_value_error (portfolio_stop_risk p portfolio (replaced_symbol intent))
    let budget = min symbol_part.0 (remaining_portfolio_risk portfolio_risk symbol_part.1)
    return_if (leb_ℤ budget (pos 0)) (reject "portfolio stop risk limit is exhausted")
    next budget

  abbrev pub symbol_margin : Option PositionState → Decimal
  symbol_margin none = pos 0
  symbol_margin (some position) = position.initial_margin

  abbrev pub remaining_margin : Decimal
  remaining_margin =
      max (pos 0) (sub (mul portfolio.equity p.max_margin_fraction) portfolio.margin_used)

  abbrev pub remaining_symbol_margin : Decimal
  remaining_symbol_margin =
      max (pos 0) (sub (mul portfolio.equity p.max_symbol_margin_fraction) (symbol_margin existing))

  abbrev pub book_price : Side → Decimal
  book_price long = snapshot.ask
  book_price short = snapshot.bid

  abbrev pub margin_price : OrderType → Decimal
  margin_price limit = max levels.entry (book_price side)
  margin_price market = levels.entry

  abbrev pub usable_margin : Decimal
  usable_margin = min (min remaining_margin remaining_symbol_margin) portfolio.available_balance

  unfoldable pub margin_quantity : Result Decimal
  margin_quantity =
      div (mul usable_margin (of_int intent.leverage)) (margin_price intent.order_type)

  -- `min(uncapped, maximum) if maximum is not None else uncapped`
  abbrev pub cap : Decimal → Option Decimal → Decimal
  cap uncapped none = uncapped
  cap uncapped (some maximum) = min uncapped maximum

  -- The quantity, and whether the venue's maximum cut it.
  unfoldable pub sized_quantity : Flow RiskEvaluation (Decimal × Bool)
  sized_quantity = do
    budget ← risk_budget
    risk_quantity ← call (div budget per_unit_loss)
    by_margin ← call margin_quantity
    let limits = quantity_limits rules intent.order_type
    let uncapped = min risk_quantity by_margin
    quantity ← call (round_down (cap uncapped limits.maximum) limits.step)
    return_if (ltb_ℤ quantity limits.minimum)
        (reject "risk-sized quantity is below the exchange minimum")
    return_if (ltb_ℤ (mul quantity levels.entry) rules.min_notional)
        (reject "risk-sized notional is below the exchange minimum")
    next (quantity, exceeds uncapped limits.maximum)
