-- ===== src/Risk/Pricing.antt =====
-- The policy's prices with slippage and fees, and the risk of the stops of a portfolio.
use candlepilot.Prelude.{
  String, Bool, true, false, Option, none, some, [], ◌∷◌, ltb_ℤ, pos, str_eq, if◌then◌else◌,
}
use Prim.Native.String.{◌++◌ as concat}
use candlepilot.Prelude.Assoc.{Dict}
use candlepilot.Decimal.{Decimal, of_int, one_units, signed, add, sub, mul, max}
use candlepilot.Outcome.{Result, ok, err, value_error, ◌>>=◌, div}
use candlepilot.Domain.{
  Side, long, short, OrderType, market, limit, MarketSnapshot, PositionState, PortfolioState,
}
use candlepilot.Risk.{AggressiveRiskPolicy}

-- `Decimal("1") if side == "LONG" else Decimal("-1")`
abbrev pub direction : Side → Decimal
direction long = of_int 1
direction short = signed true one_units

module _ (p : AggressiveRiskPolicy) where
  unfoldable pub effective_entry : Side → Decimal → MarketSnapshot → OrderType → Decimal
  effective_entry side entry s limit = entry
  effective_entry long entry s market = add s.ask (mul s.ask p.slippage_fraction)
  effective_entry short entry s market = sub s.bid (mul s.bid p.slippage_fraction)

  unfoldable pub effective_exit : Side → Decimal → Decimal
  effective_exit long price = sub price (mul price p.slippage_fraction)
  effective_exit short price = add price (mul price p.slippage_fraction)

  unfoldable pub effective_loss_per_unit : Side → Decimal → Decimal → Decimal
  effective_loss_per_unit side entry stop =
      let exit_price = effective_exit side stop in
      let price_loss = max (pos 0) (mul (sub entry exit_price) (direction side)) in
      let fees = mul (add entry exit_price) p.fee_fraction in add price_loss fees

  -- The message of `_portfolio_stop_risk`.
  abbrev pub no_stop_message : String → String
  no_stop_message symbol =
      concat "cannot measure portfolio stop risk: " (concat symbol " has no stop loss")

  -- `symbol == replacing_symbol`
  abbrev pub is_replaced : Option String → String → Bool
  is_replaced none symbol = false
  is_replaced (some r) symbol = str_eq symbol r

  -- One turn of the loop over the positions.
  unfoldable pub position_stop_risk : String → PositionState → Option Decimal → Result Decimal
  position_stop_risk symbol position none = err (value_error (no_stop_message symbol))
  position_stop_risk symbol position (some stop) =
      ok (mul position.quantity (effective_loss_per_unit position.side position.entry_price stop))

  unfoldable pub stop_risk_from : Option String → Decimal → Dict PositionState → Result Decimal
  stop_risk_from replacing total [] = ok total
  stop_risk_from replacing total ((symbol, position) ∷ rest) = elim (is_replaced replacing symbol) [
    | true ↦ stop_risk_from replacing total rest
    | false ↦ position_stop_risk symbol position position.stop_loss >>= λ risk.
        stop_risk_from replacing (add total risk) rest
  ]

  unfoldable pub portfolio_stop_risk : PortfolioState → Option String → Result Decimal
  unfolding stop_risk_from
  portfolio_stop_risk portfolio replacing = stop_risk_from replacing (pos 0) portfolio.positions

unfoldable pub raw_reward_risk_ratio : Side → Decimal → Decimal → Decimal → Result Decimal
raw_reward_risk_ratio side entry stop take_profit =
    let reward = max (pos 0) (mul (sub take_profit entry) (direction side)) in
    let risk = max (pos 0) (mul (sub entry stop) (direction side)) in
    if ltb_ℤ (pos 0) risk then div reward risk else ok (pos 0)
