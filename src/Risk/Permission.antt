-- ===== src/Risk/Permission.antt =====
-- The first half of `evaluate`: the checks that look at no price. What blocks an intent here is
-- refused before any level or size is worked out.
use candlepilot.Prelude.{
  ℕ, String, Bool, true, false, Option, none, some, List, [], ◌∷◌, ◌&&◌, ◌||◌, not, ltb_ℤ, leb_ℤ,
  pos, negsuc, ltb, ◌==◌, str_eq, lookup, if◌then◌else◌,
}
use candlepilot.Decimal.{sub, mul}
use candlepilot.Outcome.{value_error}
use candlepilot.Time.{Datetime, elapsed, seconds, before}
use candlepilot.Flow.{
  Flow, next, returned, ◌>>=◌, ◌>>◌, return_if, raise_if, return_if_none, call, return_call,
}
use candlepilot.Domain.{
  Side, long, short, TradeAction, hold, open_long, open_short, add, reduce, close, MarketSnapshot,
  TradeIntent, PositionState, PortfolioState, GateMode, enforce, StructureAssessment, same_cadence,
  is_opening,
}
use candlepilot.Risk.{
  SymbolRules, AggressiveRiskPolicy, RiskEvaluation, because, cooldown_until, gate_failed,
  plain_decision, reject, reject_for,
}
use candlepilot.Risk.Exit.{close_order}
use candlepilot.Risk.Structure.{breakout_rejection}
use candlepilot.Risk.Assess.{assess_structure, failed_keys}

abbrev pub held : RiskEvaluation
held = record {
  decision = plain_decision true (because "hold: no order required") none;
  order = none;
}

-- The branch on HOLD, REDUCE and CLOSE, each of which ends the method.
unfoldable pub dispatch_action :
    String
    → TradeIntent
    → SymbolRules
    → Option PositionState
    → TradeAction
    → Flow RiskEvaluation (Unit {0})
dispatch_action order_id intent rules existing hold = returned held
dispatch_action order_id intent rules existing reduce = do
  position ← return_if_none existing (reject "cannot reduce or close a missing position")
  return_call (close_order order_id intent position.side position.quantity rules)
dispatch_action order_id intent rules existing close = do
  position ← return_if_none existing (reject "cannot reduce or close a missing position")
  return_call (close_order order_id intent position.side position.quantity rules)
dispatch_action order_id intent rules existing _ = next tt

-- The intent is for this snapshot, and the clock carries a zone.
unfoldable pub check_request :
    TradeIntent → MarketSnapshot → Datetime → Flow RiskEvaluation (Unit {0})
check_request intent snapshot now = do
  raise_if (not now.aware) (value_error "now must be timezone-aware")
  return_if
      (not (str_eq intent.symbol snapshot.symbol)
        || not (same_cadence intent.cadence snapshot.cadence))
      (reject "intent does not match its market snapshot")

-- `age < -2 or age > max_snapshot_age_seconds`
abbrev pub is_stale : AggressiveRiskPolicy → MarketSnapshot → Datetime → Bool
is_stale p snapshot now =
    let age = elapsed now snapshot.timestamp in
    ltb_ℤ age (negsuc 1999999) || ltb_ℤ (seconds p.max_snapshot_age_seconds) age

-- The rolling 24-hour loss breaker.
abbrev pub breaker_active : AggressiveRiskPolicy → PortfolioState → Bool
breaker_active p portfolio =
    let window_start = sub portfolio.equity portfolio.pnl_24h in
    ltb_ℤ (pos 0) window_start
    && leb_ℤ portfolio.pnl_24h (sub (pos 0) (mul window_start p.daily_loss_fraction))

unfoldable pub check_limits :
    AggressiveRiskPolicy
    → TradeIntent
    → MarketSnapshot
    → PortfolioState
    → Datetime
    → Flow RiskEvaluation (Unit {0})
check_limits p intent snapshot portfolio now = do
  return_if (is_stale p snapshot now) (reject "market snapshot is stale")
  return_if (breaker_active p portfolio) (reject "24-hour loss circuit breaker is active")
  return_if (ltb p.max_leverage intent.leverage)
      (reject "requested leverage exceeds the hard limit")
  return_if (ltb_ℤ p.max_risk_fraction intent.risk_fraction)
      (reject "requested risk exceeds the hard limit")

-- `symbol in symbols`
unfoldable pub is_listed : String → List String → Bool
is_listed symbol [] = false
is_listed symbol (s ∷ rest) = str_eq s symbol || is_listed symbol rest

-- The cooldown after a stop loss of the symbol.
unfoldable pub check_cooldown : Datetime → Option Datetime → Flow RiskEvaluation (Unit {0})
check_cooldown now none = next tt
check_cooldown now (some until) = do
  raise_if (not until.aware) (value_error "stop-loss cooldown timestamps must be timezone-aware")
  return_if (before now until) (reject_for (cooldown_until until))

unfoldable pub check_reentry :
    TradeIntent → PortfolioState → Datetime → Flow RiskEvaluation (Unit {0})
unfolding check_cooldown
check_reentry intent portfolio now = do
  return_if (is_opening intent.action && is_listed intent.symbol portfolio.pending_entry_symbols)
      (reject "a pending entry order already exists for this symbol")
  check_cooldown now (
      if is_opening intent.action
      then lookup intent.symbol portfolio.stop_loss_cooldown_until
      else none)

-- The side that the intent asks for, given the side of the position it meets. Python also gives
-- SHORT to an action that opens nothing, which `dispatch_action` has returned for.
unfoldable pub requested_side : TradeAction → ℕ → Option PositionState → Flow RiskEvaluation Side
requested_side add leverage none = returned (reject "cannot add without an existing position")
requested_side add leverage (some position) =
    if leverage == position.leverage
    then next position.side
    else returned (reject "ADD leverage must match the existing position leverage")
requested_side open_long leverage none = next long
requested_side open_long leverage (some position) = elim position.side [
  | long ↦ returned (reject "existing long position requires an explicit ADD intent")
  | short ↦ returned (reject "opposing position must be closed before opening long")
]
requested_side open_short leverage (some position) = elim position.side [
  | short ↦ returned (reject "existing short position requires an explicit ADD intent")
  | long ↦ returned (reject "opposing position must be closed before opening short")
]
requested_side _ leverage existing = next short

-- A decision against the trade that carries the structure assessment.
abbrev pub reject_assessed : Option StructureAssessment → RiskEvaluation → RiskEvaluation
reject_assessed assessment r = record r {
  decision = record r.decision { structure_assessment = assessment };
}

abbrev pub check_breakout :
    Option StructureAssessment → Option String → Flow RiskEvaluation (Unit {0})
check_breakout assessment none = next tt
check_breakout assessment (some reason) = returned (reject_assessed assessment (reject reason))

-- In `enforce` mode an assessment that failed refuses the trade; in `shadow` it is only recorded.
abbrev pub is_enforced : GateMode → Bool
is_enforced enforce = true
is_enforced _ = false

abbrev pub check_gate : GateMode → Option StructureAssessment → Flow RiskEvaluation (Unit {0})
check_gate mode none = next tt
check_gate mode (some a) =
    return_if (not a.passed && is_enforced mode)
      (reject_assessed (some a) (reject_for (gate_failed (failed_keys a.checks))))

unfoldable pub check_structure :
    AggressiveRiskPolicy
    → TradeIntent
    → MarketSnapshot
    → Side
    → Flow RiskEvaluation (Option StructureAssessment)
check_structure p intent snapshot side = do
  assessment ← call (assess_structure p intent snapshot side)
  check_breakout assessment (breakout_rejection intent snapshot side)
  check_gate p.structure_gate_mode assessment
  next assessment
