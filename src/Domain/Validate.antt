-- ===== src/Domain/Validate.antt =====
-- The validators of src/candlepilot/domain/models.py: what a model instance has passed. The risk of
-- an intent is given as the decimal that `Decimal(str(value))` makes of it.
use candlepilot.Prelude.{
  Bool, true, Option, none, some, not, ◌||◌, ◌&&◌, ltb_ℤ, leb_ℤ, leb, ◌==◌, pos, if◌then◌else◌,
}
use candlepilot.Decimal.{Decimal, dec, of_int, is_zero}
use candlepilot.Outcome.{Result, ok, err, value_error, validation_error, ◌>>◌, raise_if}
use candlepilot.Domain.Words.{strip, size, is_symbol}
use candlepilot.Domain.{
  MarketSnapshot, TradeIntent, OrderPlan, is_hold, is_limit, is_opening, is_none,
}

abbrev pub is_positive : Decimal → Bool
is_positive a = ltb_ℤ (pos 0) a

-- `Decimal | None` with `gt=0`
abbrev pub none_or_positive : Option Decimal → Bool
none_or_positive none = true
none_or_positive (some a) = is_positive a

-- `MarketSnapshot.validate_market`, after the white space is stripped and the fields' bounds.
unfoldable pub validate_market : MarketSnapshot → Result MarketSnapshot
validate_market given = do
  let s = record given { symbol = strip given.symbol }
  raise_if (not (is_symbol s.symbol)) validation_error
  raise_if (not (is_positive s.mark_price && is_positive s.bid && is_positive s.ask))
      validation_error
  raise_if (ltb_ℤ s.quote_volume_24h (pos 0)) validation_error
  raise_if (not s.timestamp.aware) (value_error "timestamp must be timezone-aware")
  raise_if (ltb_ℤ s.ask s.bid) (value_error "ask cannot be below bid")
  ok s

-- The bounds of the fields of `TradeIntent`, the pattern of its symbol and the length of its rationale.
unfoldable pub intent_fields : TradeIntent → Bool
intent_fields i =
    leb_ℤ (pos 0) i.confidence
    && leb_ℤ i.confidence (of_int 1)
    && leb 1 i.leverage
    && leb i.leverage 10
    && leb_ℤ (pos 0) i.risk_fraction
    && leb_ℤ i.risk_fraction (dec 1 2)
    && none_or_positive i.entry_price
    && none_or_positive i.stop_loss
    && none_or_positive i.take_profit
    && leb 5 i.ttl_seconds
    && leb i.ttl_seconds 900
    && none_or_positive i.anchor_price
    && none_or_positive i.trigger_price
    && none_or_positive i.invalidation_level
    && is_symbol i.symbol
    && leb 1 (size i.rationale)
    && leb (size i.rationale) 1000

-- What a HOLD may not carry.
unfoldable pub carries_trade : TradeIntent → Bool
carries_trade i =
    not (i.leverage == 1)
    || not (is_zero i.risk_fraction)
    || is_limit i.order_type
    || not (is_none i.entry_price)
    || not (is_none i.stop_loss)
    || not (is_none i.take_profit)
    || i.structure_v1
    || not (is_none i.setup_type)
    || not (is_none i.anchor_timeframe)
    || not (is_none i.anchor_price)
    || not (is_none i.trigger_type)
    || not (is_none i.trigger_price)
    || not (is_none i.invalidation_type)
    || not (is_none i.invalidation_level)
    || not (is_none i.target_type)

-- `str_strip_whitespace`
abbrev pub strip_intent : TradeIntent → TradeIntent
strip_intent i = record i { symbol = strip i.symbol; rationale = strip i.rationale }

-- `TradeIntent.validate_order_semantics`, after the fields' bounds.
unfoldable pub validate_fields : TradeIntent → Result TradeIntent
unfolding intent_fields carries_trade
validate_fields i = do
  raise_if (not (intent_fields i)) validation_error
  raise_if (is_hold i.action && carries_trade i) (value_error "HOLD must carry no trade")
  raise_if (is_opening i.action && is_none i.stop_loss)
      (value_error "opening and add intents require stop_loss")
  raise_if (not (is_hold i.action) && is_limit i.order_type && is_none i.entry_price)
      (value_error "limit intents require entry_price")
  ok i

-- An instance of `TradeIntent`, from its fields.
unfoldable pub validate_intent : TradeIntent → Result TradeIntent
validate_intent i = validate_fields (strip_intent i)

-- The bounds of the fields of `OrderPlan`.
unfoldable pub order_plan : OrderPlan → Result OrderPlan
order_plan o =
    if is_positive o.quantity
      && none_or_positive o.price
      && none_or_positive o.stop_price
      && none_or_positive o.take_profit_price
    then ok o
    else err validation_error
