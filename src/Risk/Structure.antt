-- ===== src/Risk/Structure.antt =====
-- The structure gate: `_breakout_rejection`, `_assess_structure` and `_structure_reference`.
use candlepilot.Prelude.{
  String, Bool, true, false, Option, none, some, ◌&&◌, ◌||◌, not, ltb_ℤ, leb_ℤ, eqb_ℤ, pos, lookup,
  if◌then◌else◌,
}
use Prim.Native.String.{◌++◌ as concat}
use candlepilot.Prelude.Assoc.{Dict}
use candlepilot.Decimal.{Decimal, of_int, sub, abs, quotient}
use candlepilot.Outcome.{Result, ok, key_error, ◌>>=◌, require}
use candlepilot.Domain.{
  Side, long, short, Cadence, SetupType, trend_breakout, trend_continuation, TriggerType, breakout,
  StructureLevelType, ema, daily_level, TradeAction, open_long, open_short, MarketSnapshot,
  TradeIntent, cadence_name,
}

abbrev pub is_buffered_setup : Option SetupType → Bool
is_buffered_setup (some trend_breakout) = true
is_buffered_setup (some trend_continuation) = true
is_buffered_setup _ = false

abbrev pub is_buffered_invalidation : Option StructureLevelType → Bool
is_buffered_invalidation (some ema) = true
is_buffered_invalidation (some daily_level) = true
is_buffered_invalidation _ = false

-- `action in {OPEN_LONG, OPEN_SHORT}`
abbrev pub is_fresh_open : TradeAction → Bool
is_fresh_open open_long = true
is_fresh_open open_short = true
is_fresh_open _ = false

unfoldable pub should_buffer_structure_stop : TradeIntent → Bool
should_buffer_structure_stop i =
    is_fresh_open i.action
    && i.structure_v1
    && is_buffered_setup i.setup_type
    && is_buffered_invalidation i.invalidation_type

abbrev pub is_trend_breakout : Option SetupType → Bool
is_trend_breakout (some trend_breakout) = true
is_trend_breakout _ = false

abbrev pub is_breakout_trigger : Option TriggerType → Bool
is_breakout_trigger (some breakout) = true
is_breakout_trigger _ = false

-- `features.get(key, default)`
abbrev pub feature_or : Dict Decimal → String → Decimal → Decimal
feature_or features key default = elim (lookup key features) [ none ↦ default | some v ↦ v ]

-- `features.get(key) == 1.0`
abbrev pub is_one : Dict Decimal → String → Bool
is_one features key = elim (lookup key features) [ none ↦ false | some v ↦ eqb_ℤ v (of_int 1) ]

abbrev pub keyed : Cadence → String → String
keyed c suffix = concat (cadence_name c) suffix

abbrev pub hold_key : Side → Cadence → String
hold_key long c = keyed c "_breakout_hold_above_20"
hold_key short c = keyed c "_breakdown_hold_below_20"

abbrev pub boundary_key : Side → Cadence → String
boundary_key long c = keyed c "_breakout_hold_high_20"
boundary_key short c = keyed c "_breakout_hold_low_20"

-- The checks of `_breakout_rejection` once the anchor and the trigger price are there.
unfoldable pub confirm_breakout :
    Side → Dict Decimal → Option Cadence → Option Decimal → Option String
confirm_breakout side features (some timeframe) (some trigger_price) =
    let atr = feature_or features (keyed timeframe "_atr_14") (pos 0) in
    let boundary = feature_or features (boundary_key side timeframe) (pos 0) in
    if not (is_one features (hold_key side timeframe))
    then some "breakout requires two closed bars beyond the pre-break boundary"
    else if leb_ℤ atr (pos 0) || leb_ℤ boundary (pos 0)
    then some "breakout confirmation is missing its ATR or pre-break boundary"
    else if ltb_ℤ (quotient atr (of_int 4)) (abs (sub trigger_price boundary))
    then some "breakout trigger is not anchored to the pre-break boundary"
    else none
confirm_breakout side features _ _ = some "breakout requires an anchor timeframe and trigger price"

unfoldable pub breakout_rejection : TradeIntent → MarketSnapshot → Side → Option String
unfolding confirm_breakout
breakout_rejection i s side =
    if not (is_trend_breakout i.setup_type) && not (is_breakout_trigger i.trigger_type)
    then none
    else if not (is_breakout_trigger i.trigger_type)
    then some "trend breakout requires a BREAKOUT trigger"
    else confirm_breakout side s.features i.anchor_timeframe i.trigger_price

abbrev pub level_suffix : Side → String
level_suffix long = "low"
level_suffix short = "high"

-- `min(candidates, key=lambda value: abs(value - proposed))`, the first of equals.
abbrev pub nearest : Decimal → Option Decimal → Option Decimal → Option Decimal
nearest proposed (some a) (some b) =
    some (if ltb_ℤ (abs (sub b proposed)) (abs (sub a proposed)) then b else a)
nearest proposed (some a) none = some a
nearest proposed none b = b

unfoldable pub structure_reference :
    Dict Decimal → Cadence → Side → StructureLevelType → Decimal → Result (Option Decimal)
structure_reference features prefix side StructureLevelType.swing proposed =
    let level = keyed prefix (concat "_last_swing_" (level_suffix side)) in
    if is_one features (concat level "_confirmed")
    then require (lookup level features) (key_error level) >>= (λ v. ok (some v))
    else ok none
structure_reference features prefix side StructureLevelType.range proposed =
    ok (lookup (keyed prefix (concat (concat "_prior_range_" (level_suffix side)) "_20")) features)
structure_reference features prefix side StructureLevelType.ema proposed =
    ok (lookup (keyed prefix "_ema_20") features)
structure_reference features prefix side StructureLevelType.daily_level proposed = ok (
    nearest proposed (lookup (concat "1d_previous_" (level_suffix side)) features)
      (lookup (concat (concat "1d_range_" (level_suffix side)) "_20") features))
