-- ===== src/Domain/Shape.antt =====
-- What an intent that the validators of domain/models.py let pass looks like.
use mathlib.Core.Path.{subst⁻¹}
use candlepilot.Prelude.{
  refl, ap, true, false, Option, none, some, ◌≡◌, arith, pos, ◌≤◌, ◌≤ℤ◌, ◌<ℤ◌, ◌&&◌, not,
}
use candlepilot.Decimal.{Decimal, dec, of_int}
use candlepilot.Outcome.{ok}
use candlepilot.Domain.{
  TradeIntent, TradeAction, hold, reduce, close, open_long, open_short, add, OrderType, market,
  limit, is_hold, is_opening, is_limit, is_none,
}
use candlepilot.Domain.Words.{strip, size, is_symbol}
use candlepilot.Domain.Validate.{
  validate_fields, strip_intent, intent_fields, carries_trade, validate_intent, none_or_positive,
}

abbrev pub Positive : Option Decimal → Type 0
Positive none = ⊥
Positive (some a) = pos 0 <ℤ a

abbrev pub Priced : OrderType → Option Decimal → Type 0
Priced limit price = Positive price
Priced _ price = Unit

-- The fields of a HOLD, and the prices that the other actions need.
abbrev pub Shape : TradeAction → TradeIntent → Type 0
Shape hold i =
    (i.leverage ≡ 1)
    × (i.risk_fraction ≡ pos 0)
    × (i.order_type ≡ market)
    × (i.entry_price ≡ none)
    × (i.stop_loss ≡ none)
    × (i.take_profit ≡ none)
    × (i.structure_v1 ≡ false)
    × (i.setup_type ≡ none)
    × (i.anchor_timeframe ≡ none)
    × (i.anchor_price ≡ none)
    × (i.trigger_type ≡ none)
    × (i.trigger_price ≡ none)
    × (i.invalidation_type ≡ none)
    × (i.invalidation_level ≡ none)
    × (i.target_type ≡ none)
Shape reduce i = Priced i.order_type i.entry_price
Shape close i = Priced i.order_type i.entry_price
Shape _ i = Positive i.stop_loss × Priced i.order_type i.entry_price

-- The tests that the validators make, at an action.
abbrev Passed : TradeAction → TradeIntent → Type 0
Passed a i =
    ((is_hold a && carries_trade i) ≡ false)
    × ((is_opening a && is_none i.stop_loss) ≡ false)
    × ((not (is_hold a) && is_limit i.order_type && is_none i.entry_price) ≡ false)

Positive-there : (x : Option Decimal) → none_or_positive x ≡ true → is_none x ≡ false → Positive x
Positive-there none h k = absurd (cc)
Positive-there (some a) h k = ground arith

Priced-there :
    (t : OrderType) (x : Option Decimal)
    → none_or_positive x ≡ true
    → (is_limit t && is_none x) ≡ false
    → Priced t x
Priced-there limit x h k = Positive-there x h k
Priced-there market x h k = tt

none-there : {A : Type 0} (o : Option A) → is_none o ≡ true → o ≡ none
none-there none h = refl
none-there (some a) h = absurd (cc)

hold-Shape : (i : TradeIntent) → carries_trade i ≡ false → Shape hold i
unfolding carries_trade
hold-Shape i h = (
  ground arith,
  ground arith,
  ground arith,
  ground arith,
  ground arith,
  ground arith,
  ground arith,
  none-there i.setup_type (ground arith),
  none-there i.anchor_timeframe (ground arith),
  none-there i.anchor_price (ground arith),
  none-there i.trigger_type (ground arith),
  none-there i.trigger_price (ground arith),
  none-there i.invalidation_type (ground arith),
  none-there i.invalidation_level (ground arith),
  none-there i.target_type (ground arith),
)

Passed-Shape :
    (a : TradeAction) (i : TradeIntent)
    → none_or_positive i.entry_price ≡ true
    → none_or_positive i.stop_loss ≡ true
    → Passed a i
    → Shape a i
Passed-Shape hold i e st h = hold-Shape i h.0
Passed-Shape reduce i e st h = Priced-there i.order_type i.entry_price e h.2
Passed-Shape close i e st h = Priced-there i.order_type i.entry_price e h.2
Passed-Shape open_long i e st h =
    (Positive-there i.stop_loss st h.1, Priced-there i.order_type i.entry_price e h.2)
Passed-Shape open_short i e st h =
    (Positive-there i.stop_loss st h.1, Priced-there i.order_type i.entry_price e h.2)
Passed-Shape add i e st h =
    (Positive-there i.stop_loss st h.1, Priced-there i.order_type i.entry_price e h.2)

validate_fields-Passed :
    (i j : TradeIntent)
    → validate_fields i ≡ ok j
    → (j ≡ i) × (intent_fields i ≡ true) × Passed i.action i
unfolding validate_fields
validate_fields-Passed i j h =
    (ground arith, ground arith, (ground arith, ground arith, ground arith))

abbrev pub PositiveIfAny : Option Decimal → Type 0
PositiveIfAny none = Unit
PositiveIfAny (some a) = pos 0 <ℤ a

PositiveIfAny-there : (x : Option Decimal) → none_or_positive x ≡ true → PositiveIfAny x
PositiveIfAny-there none h = tt
PositiveIfAny-there (some a) h = ground arith

-- What an instance of `TradeIntent` is.
pub record Valid (i : TradeIntent) : Type 0 where
  pub confidence_from : pos 0 ≤ℤ i.confidence
  pub confidence_to : i.confidence ≤ℤ of_int 1
  pub leverage_from : 1 ≤ i.leverage
  pub leverage_to : i.leverage ≤ 10
  pub risk_from : pos 0 ≤ℤ i.risk_fraction
  pub risk_to : i.risk_fraction ≤ℤ dec 1 2
  pub entry_pos : PositiveIfAny i.entry_price
  pub stop_pos : PositiveIfAny i.stop_loss
  pub target_pos : PositiveIfAny i.take_profit
  pub ttl_from : 5 ≤ i.ttl_seconds
  pub ttl_to : i.ttl_seconds ≤ 900
  pub anchor_pos : PositiveIfAny i.anchor_price
  pub trigger_pos : PositiveIfAny i.trigger_price
  pub level_pos : PositiveIfAny i.invalidation_level
  pub named : is_symbol i.symbol ≡ true
  pub explained : 1 ≤ size i.rationale
  pub not_too_long : size i.rationale ≤ 1000
  pub shape : Shape i.action i

fields-Valid : (i j : TradeIntent) → validate_fields i ≡ ok j → Valid j
unfolding intent_fields
fields-Valid i j h =
    let (same, fields, passed) = validate_fields-Passed i j h in
    let valid : Valid i = record {
      confidence_from = ground arith;
      confidence_to = ground arith;
      leverage_from = ground arith;
      leverage_to = ground arith;
      risk_from = ground arith;
      risk_to = ground arith;
      entry_pos = PositiveIfAny-there i.entry_price (ground arith);
      stop_pos = PositiveIfAny-there i.stop_loss (ground arith);
      target_pos = PositiveIfAny-there i.take_profit (ground arith);
      ttl_from = ground arith;
      ttl_to = ground arith;
      anchor_pos = PositiveIfAny-there i.anchor_price (ground arith);
      trigger_pos = PositiveIfAny-there i.trigger_price (ground arith);
      level_pos = PositiveIfAny-there i.invalidation_level (ground arith);
      named = ground arith;
      explained = ground arith;
      not_too_long = ground arith;
      shape = Passed-Shape i.action i (ground arith) (ground arith) passed;
    } in
    subst⁻¹ Valid same valid

-- An instance that comes out of validation has its symbol and its rationale stripped of white space,
-- the symbol of capital letters and digits before a final USDT, the rationale of 1 to 1000
-- characters; its numbers in their ranges (a confidence up to 1, a leverage of 1 to 10, a risk
-- of at most 1%, a life of 5 to 900 seconds, prices that are positive where there are any); and the
-- shape of its action: a HOLD has leverage 1, no risk, a MARKET order and neither a price nor a
-- field of a plan; whatever opens or adds has a stop; a LIMIT order that is no HOLD has a price.
pub validate_intent_shapes :
    (i j : TradeIntent)
    → validate_intent i ≡ ok j
    → (j.symbol ≡ strip i.symbol) × (j.rationale ≡ strip i.rationale) × Valid j
unfolding validate_intent
validate_intent_shapes i j h =
    let same = (validate_fields-Passed (strip_intent i) j h).0 in
    (
      ap (λ (x : TradeIntent). x.symbol) same,
      ap (λ (x : TradeIntent). x.rationale) same,
      fields-Valid (strip_intent i) j h,
    )
