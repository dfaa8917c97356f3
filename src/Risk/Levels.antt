-- ===== src/Risk/Levels.antt =====
-- The part of `evaluate` that puts entry, stop and target on the price grid and compares them.
use candlepilot.Prelude.{
  String, Bool, true, false, Option, none, some, not, ltb_ℤ, leb_ℤ, eqb_ℤ, pos, if◌then◌else◌,
}
use candlepilot.Decimal.{Decimal, Rounding, down, up, dec, add, sub, mul, abs, max, min}
use candlepilot.Flow.{Flow, next, ◌>>=◌, ◌>>◌, return_if, return_if_none, asserted, call}
use candlepilot.Domain.{
  Side, long, short, OrderType, limit, MarketSnapshot, TradeIntent, PositionState, is_add,
}
use candlepilot.Risk.{SymbolRules, AggressiveRiskPolicy, RiskEvaluation, to_tick, reject}
use candlepilot.Risk.Structure.{should_buffer_structure_stop}

abbrev pub entry_rounding : Side → Rounding
entry_rounding long = down
entry_rounding short = up

abbrev pub target_rounding : Side → Rounding
target_rounding long = up
target_rounding short = down

-- `a < b` as the side sees it: b is the better price for a position of that side.
abbrev pub worse : Side → Decimal → Decimal → Bool
worse long a b = ltb_ℤ a b
worse short a b = ltb_ℤ b a

abbrev pub per_side : Side → String → String → String
per_side long l s = l
per_side short l s = s

unfoldable pub entry_price :
    OrderType → Option Decimal → MarketSnapshot → SymbolRules → Side → Flow RiskEvaluation Decimal
entry_price limit (some price) snapshot rules side = do
  entry ← call (to_tick (entry_rounding side) price rules.tick_size)
  return_if (leb_ℤ entry (pos 0)) (reject "entry price rounds to zero at the exchange tick size")
  next entry
entry_price _ price snapshot rules side = next snapshot.mark_price

-- SELECTIVE_STRUCTURE_STOP_BUFFER
abbrev pub structure_stop_buffer : Decimal
structure_stop_buffer = dec 115 2

unfoldable pub buffered_stop : Side → Decimal → Decimal → Decimal
buffered_stop long entry stop = sub entry (mul (abs (sub entry stop)) structure_stop_buffer)
buffered_stop short entry stop = add entry (mul (abs (sub entry stop)) structure_stop_buffer)

-- The stop of the intent, beyond the entry, widened where the setup asks for it, on the grid.
unfoldable pub initial_stop :
    TradeIntent → SymbolRules → Side → Decimal → Flow RiskEvaluation Decimal
unfolding buffered_stop
initial_stop intent rules side entry = do
  stop ← return_if_none intent.stop_loss (reject "opening intent has no stop loss")
  return_if (not (worse side stop entry)) (
      reject
        (per_side side "long stop loss must be below entry" "short stop loss must be above entry"))
  let buffered = should_buffer_structure_stop intent
  snapped ← call (
      to_tick (entry_rounding side) (if buffered then buffered_stop side entry stop else stop)
        rules.tick_size)
  return_if (leb_ℤ snapped (pos 0)) (
      reject (
        if buffered
        then "buffered structure stop rounds to zero at the exchange tick size"
        else "stop loss rounds to zero at the exchange tick size"))
  next snapped

-- `max(stop, held) if side == "LONG" else min(stop, held)`
abbrev pub tighter : Side → Decimal → Decimal → Decimal
tighter long stop held = max stop held
tighter short stop held = min stop held

-- An ADD keeps the tighter of its own stop and the position's; the flag says that it kept the latter.
unfoldable pub merge_stop :
    Bool → Option PositionState → Side → Decimal → Decimal → Flow RiskEvaluation (Decimal × Bool)
merge_stop false existing side entry stop = next (stop, false)
merge_stop true existing side entry stop = do
  position ← asserted existing
  held ←
      return_if_none position.stop_loss
        (reject "cannot add while the existing position has no stop loss")
  let tighter_stop = tighter side stop held
  return_if (not (worse side tighter_stop entry)) (
      reject (
        per_side side "cannot add below an existing tightened long stop"
          "cannot add above an existing tightened short stop"))
  next (tighter_stop, not (eqb_ℤ tighter_stop stop))

unfoldable pub check_stop_uncrossed :
    Side → Decimal → MarketSnapshot → Flow RiskEvaluation (Unit {0})
check_stop_uncrossed side stop snapshot = return_if (not (worse side stop snapshot.mark_price)) (
    reject (
      per_side side "latest market price has crossed the long stop loss"
        "latest market price has crossed the short stop loss"))

unfoldable pub take_profit_price :
    AggressiveRiskPolicy
    → Option Decimal
    → MarketSnapshot
    → SymbolRules
    → Side
    → Decimal
    → Flow RiskEvaluation (Option Decimal)
take_profit_price p none snapshot rules side entry = do
  return_if p.require_take_profit (reject "opening intent has no take profit")
  next none
take_profit_price p (some target) snapshot rules side entry = do
  snapped ← call (to_tick (target_rounding side) target rules.tick_size)
  return_if (leb_ℤ snapped (pos 0)) (reject "take profit rounds to zero at the exchange tick size")
  return_if (not (worse side entry snapped)) (
      reject (
        per_side side "long take profit must be above entry"
          "short take profit must be below entry"))
  return_if (not (worse side snapshot.mark_price snapped)) (
      reject (
        per_side side "latest market price has crossed the long take profit"
          "latest market price has crossed the short take profit"))
  next (some snapped)

pub record EntryLevels : Type 0 where
  pub entry : Decimal
  pub stop : Decimal
  pub take_profit : Option Decimal
  pub preserved_tighter_stop : Bool

unfoldable pub entry_levels :
    AggressiveRiskPolicy
    → TradeIntent
    → MarketSnapshot
    → SymbolRules
    → Option PositionState
    → Side
    → Flow RiskEvaluation EntryLevels
entry_levels p intent snapshot rules existing side = do
  entry ← entry_price intent.order_type intent.entry_price snapshot rules side
  first ← initial_stop intent rules side entry
  merged ← merge_stop (is_add intent.action) existing side entry first
  check_stop_uncrossed side merged.0 snapshot
  target ← take_profit_price p intent.take_profit snapshot rules side entry
  next (record {
    entry = entry;
    stop = merged.0;
    take_profit = target;
    preserved_tighter_stop = merged.1;
  })
