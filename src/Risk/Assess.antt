-- ===== src/Risk/Assess.antt =====
-- `_assess_structure`: the checks of a declared structure plan against the snapshot. The texts of
-- the checks' details are left out.
use candlepilot.Prelude.{
  String, Bool, true, false, Option, none, some, List, [], ◌∷◌, ◌&&◌, ◌||◌, not, ltb_ℤ, leb_ℤ, pos,
  if◌then◌else◌,
}
use candlepilot.Decimal.{Decimal, dec, of_int, sub, mul, abs, quotient}
use candlepilot.Outcome.{Result, ok, ◌>>=◌}
use candlepilot.Domain.{
  Side, long, short, Cadence, TriggerType, breakout, rejection, StructureLevelType, MarketSnapshot,
  TradeIntent, GateMode, off, StructureCheck, StructureAssessment, OrderType, limit, is_add,
  is_none,
}
use candlepilot.Risk.{AggressiveRiskPolicy}
use candlepilot.Risk.Pricing.{direction}
use candlepilot.Risk.Structure.{
  keyed, feature_or, is_one, hold_key, boundary_key, structure_reference,
}

-- The fields that `metadata` asks for; what the asserts below it rely on.
pub record Plan : Type 0 where
  pub prefix : Cadence
  pub anchor_price : Decimal
  pub trigger_type : TriggerType
  pub trigger_price : Decimal
  pub invalidation_type : StructureLevelType
  pub invalidation_level : Decimal

abbrev pub complete_plan :
    Option Cadence
    → Option Decimal
    → Option TriggerType
    → Option Decimal
    → Option StructureLevelType
    → Option Decimal
    → Option Plan
complete_plan (some c) (some a) (some t) (some p) (some i) (some l) = some (record {
  prefix = c;
  anchor_price = a;
  trigger_type = t;
  trigger_price = p;
  invalidation_type = i;
  invalidation_level = l;
})
complete_plan _ _ _ _ _ _ = none

-- `metadata`
unfoldable pub plan_of : TradeIntent → Option Plan
plan_of i =
    if i.structure_v1 && not (is_none i.setup_type) && not (is_none i.target_type)
    then complete_plan i.anchor_timeframe i.anchor_price i.trigger_type i.trigger_price
        i.invalidation_type i.invalidation_level
    else none

-- `mark >= level if side == "LONG" else mark <= level`
abbrev pub at_or_beyond : Side → Decimal → Decimal → Bool
at_or_beyond long level mark = leb_ℤ level mark
at_or_beyond short level mark = leb_ℤ mark level

module _ (intent : TradeIntent) (snapshot : MarketSnapshot) (side : Side) (plan : Plan) where
  abbrev pub plan_atr : Decimal
  plan_atr = feature_or snapshot.features (keyed plan.prefix "_atr_14") (pos 0)

  unfoldable pub anchor_ok : Bool
  anchor_ok =
      ltb_ℤ (pos 0) plan_atr
      && leb_ℤ (abs (sub plan.anchor_price snapshot.mark_price)) (quotient plan_atr (of_int 2))

  unfoldable pub extension_ok : Bool
  extension_ok =
      ltb_ℤ
        (mul (direction side)
          (feature_or snapshot.features (keyed plan.prefix "_ema20_distance_atr") (pos 0)))
        (if is_add intent.action then of_int 1 else of_int 2)

  abbrev pub leans : String → Bool
  leans key = ltb_ℤ (pos 0) (mul (direction side) (feature_or snapshot.features key (pos 0)))

  unfoldable pub alignment_ok : Bool
  alignment_ok = leans "5m_ema_spread" && (leans "15m_ema_spread" || leans "30m_ema_spread")

  abbrev pub trigger_crossed : Bool
  trigger_crossed = at_or_beyond side plan.trigger_price snapshot.mark_price

  abbrev pub near_trigger : Decimal → Bool
  near_trigger price = leb_ℤ (abs (sub price plan.trigger_price)) (quotient plan_atr (of_int 4))

  abbrev pub directional_close : Side → Bool
  directional_close long =
      leb_ℤ (dec 6 1)
        (feature_or snapshot.features (keyed plan.prefix "_last_bar_close_position") (dec 5 1))
  directional_close short =
      leb_ℤ (feature_or snapshot.features (keyed plan.prefix "_last_bar_close_position") (dec 5 1))
        (dec 4 1)

  -- The branches on a trigger that is not a breakout, without a pending limit price.
  abbrev pub reaction_ok : TriggerType → Bool
  reaction_ok rejection = trigger_crossed && directional_close side
  reaction_ok _ = trigger_crossed

  abbrev pub quiet_trigger_ok : OrderType → Option Decimal → TriggerType → Bool
  quiet_trigger_ok limit (some entry) trigger = ltb_ℤ (pos 0) plan_atr && near_trigger entry
  quiet_trigger_ok _ _ trigger = reaction_ok trigger

  abbrev pub trigger_ok_for : TriggerType → Bool
  trigger_ok_for breakout =
      trigger_crossed
      && is_one snapshot.features (hold_key side plan.prefix)
      && ltb_ℤ (pos 0) plan_atr
      && leb_ℤ
          (abs (
            sub plan.trigger_price
              (feature_or snapshot.features (boundary_key side plan.prefix) (pos 0))))
          (quotient plan_atr (of_int 4))
  trigger_ok_for trigger = quiet_trigger_ok intent.order_type intent.entry_price trigger

  unfoldable pub trigger_ok : Bool
  trigger_ok = trigger_ok_for plan.trigger_type

  -- `stop <= level if side == "LONG" else stop >= level`, false with no stop.
  abbrev pub stop_beyond : Side → Option Decimal → Bool
  stop_beyond side none = false
  stop_beyond long (some stop) = leb_ℤ stop plan.invalidation_level
  stop_beyond short (some stop) = leb_ℤ plan.invalidation_level stop

  abbrev pub level_matches : Option Decimal → Bool
  level_matches none = false
  level_matches (some reference) =
      ltb_ℤ (pos 0) plan_atr
      && leb_ℤ (abs (sub plan.invalidation_level reference)) (quotient plan_atr (of_int 4))

  unfoldable pub invalidation_ok : Option Decimal → Bool
  invalidation_ok reference = level_matches reference && stop_beyond side intent.stop_loss

  abbrev pub check : String → Bool → StructureCheck
  check key passed = record { key = key; passed = passed }

  -- `checks` when the plan is complete.
  unfoldable pub plan_checks : Option Decimal → List StructureCheck
  plan_checks reference =
      check "metadata" true
      ∷ check "anchor" anchor_ok
      ∷ check "extension" extension_ok
      ∷ check "alignment" alignment_ok
      ∷ check "trigger" trigger_ok
      ∷ check "invalidation" (invalidation_ok reference)
      ∷ []

-- `all(check.passed for check in checks)`, and the keys of the checks that failed.
unfoldable pub all_passed : List StructureCheck → Bool
all_passed [] = true
all_passed (c ∷ cs) = c.passed && all_passed cs

unfoldable pub failed_keys : List StructureCheck → List String
failed_keys [] = []
failed_keys (c ∷ cs) = if c.passed then failed_keys cs else c.key ∷ failed_keys cs

unfoldable pub assess_plan :
    GateMode → TradeIntent → MarketSnapshot → Side → Option Plan → Result StructureAssessment
unfolding plan_checks
assess_plan mode intent snapshot side none = ok (record {
  mode = mode;
  passed = false;
  checks = record { key = "metadata"; passed = false } ∷ [];
})
assess_plan mode intent snapshot side (some plan) =
    structure_reference snapshot.features plan.prefix side plan.invalidation_type
      plan.invalidation_level
    >>= λ reference.
        let checks = plan_checks intent snapshot side plan reference in
        ok (record { mode = mode; passed = all_passed checks; checks = checks })

abbrev pub assess_in_mode :
    GateMode → TradeIntent → MarketSnapshot → Side → Result (Option StructureAssessment)
assess_in_mode off intent snapshot side = ok none
assess_in_mode mode intent snapshot side =
    assess_plan mode intent snapshot side (plan_of intent) >>= λ a. ok (some a)

unfoldable pub assess_structure :
    AggressiveRiskPolicy → TradeIntent → MarketSnapshot → Side → Result (Option StructureAssessment)
assess_structure p intent snapshot side = assess_in_mode p.structure_gate_mode intent snapshot side
