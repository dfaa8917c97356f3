-- ===== src/Outcome.antt =====
-- Python's control flow as values: a call that may raise, and one that may also return early.
pub mod Returns
use candlepilot.Prelude.{Bool, true, false, String, Option, none, some, if◌then◌else◌}
use candlepilot.Decimal.{Decimal, quotient, is_zero}

-- The exceptions that the modelled code raises. `key_error` carries the key, and
-- `validation_error` is pydantic's refusal of a field; `runtime_error` is Python's `RuntimeError`; `request_error` stands for what a request to
-- the venue raises.
pub data Error : Type 0 where
  value_error : String → Error
  key_error : String → Error
  validation_error : Error
  assertion_error : Error
  division_by_zero : Error
  reconciliation_error : String → Error
  request_error : String → Error
  runtime_error : String → Error

-- What a method gives back to its caller: an exception, or its value.
pub data Result {κ} (V : Type κ) : Type κ where
  err : Error → Result V
  ok : V → Result V

infixl 5 ◌>>◌ ◌>>=◌
-- A statement whose value the next one uses, and one without a value.
abbrev pub ◌>>=◌ {κ μ} :
    {V : Type κ} {W : Type μ} (first : Result V) (rest : V → Result W) → Result W
err problem >>= rest = err problem
ok value >>= rest = rest value

abbrev pub ◌>>◌ {κ} : {W : Type κ} (first : Result (Unit {0})) (rest : Result W) → Result W
first >> rest = first >>= (λ done. rest)

-- `if c: raise e`
abbrev pub raise_if : Bool → Error → Result (Unit {0})
raise_if true e = err e
raise_if false e = ok tt

-- `assert x is not None`
abbrev pub require {ℓ} : {A : Type ℓ} → Option A → Error → Result A
require none e = err e
require (some a) e = ok a

-- `a / b` of two decimals.
unfoldable pub div : Decimal → Decimal → Result Decimal
div a b = if is_zero b then err division_by_zero else ok (quotient a b)
