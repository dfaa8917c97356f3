-- ===== src/Domain/Tests.antt =====
-- An intent to open a long that the validators let pass.
use candlepilot.Prelude.{◌≡◌, refl, some, none, true, false}
use candlepilot.Decimal.{dec, of_int}
use candlepilot.Outcome.{ok}
use candlepilot.Domain.{TradeIntent, m15, open_long, limit}
use candlepilot.Domain.Validate.{validate_fields, validate_intent, intent_fields, carries_trade}
use candlepilot.Domain.Words.{
  strip, strip_start, strip_end, size, is_symbol, is_alphanumeric, ends_in_usdt,
}
use candlepilot.Domain.Shape.{Valid, validate_intent_shapes}

abbrev intent : TradeIntent
intent = record {
  symbol = "BTCUSDT";
  cadence = m15;
  action = open_long;
  confidence = dec 7 1;
  leverage = 2;
  risk_fraction = dec 1 2;
  order_type = limit;
  entry_price = some (dec 10004 2);
  stop_loss = some (dec 9503 2);
  take_profit = some (of_int 110);
  ttl_seconds = 60;
  structure_v1 = false;
  setup_type = none;
  anchor_timeframe = none;
  anchor_price = none;
  trigger_type = none;
  trigger_price = none;
  invalidation_type = none;
  invalidation_level = none;
  target_type = none;
  rationale = "trend";
}

-- The same, with white space around its texts.
abbrev given : TradeIntent
given = record intent { symbol = " BTCUSDT"; rationale = "trend  " }

validated : validate_intent given ≡ ok intent
unfolding validate_intent validate_fields intent_fields carries_trade strip_start strip_end size
    is_alphanumeric ends_in_usdt
validated = refl

validate_intent_shapes_example :
    (intent.symbol ≡ strip given.symbol) × (intent.rationale ≡ strip given.rationale) × Valid intent
validate_intent_shapes_example = validate_intent_shapes given intent validated

paired : is_symbol "1000PEPEUSDT" ≡ true
unfolding is_alphanumeric ends_in_usdt
paired = refl
