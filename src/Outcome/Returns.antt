-- ===== src/Outcome/Returns.antt =====
-- What holds of the value of a call, if it raises nothing.
use mathlib.Core.Path.{subst}
use candlepilot.Prelude.{inr, inl, ◌⊎◌, Bool, true, false, Option, none, some, ◌≡◌, refl}
use candlepilot.Outcome.{Error, Result, err, ok, ◌>>=◌, ◌>>◌, raise_if, require}

abbrev pub Returns {κ μ} : {V : Type κ} → (V → Type μ) → Result V → Type μ
Returns P (err problem) = Unit
Returns P (ok value) = P value

pub any-Returns {κ} : {V : Type κ} (r : Result V) → Returns (λ _. Unit {0}) r
any-Returns (err problem) = tt
any-Returns (ok value) = tt

pub of_value {κ μ} :
    {V : Type κ} (P : V → Type μ) (r : Result V) (value : V) → r ≡ ok value → Returns P r → P value
of_value P r value e h = subst (Returns P) e h

pub map-Returns {κ μ ν} :
    {V : Type κ} (P : V → Type μ) (Q : V → Type ν) (r : Result V)
    → ((value : V) → P value → Q value)
    → Returns P r
    → Returns Q r
map-Returns P Q (err problem) f h = tt
map-Returns P Q (ok value) f h = f value h

pub both-Returns {κ μ ν} :
    {V : Type κ} (P : V → Type μ) (Q : V → Type ν) (r : Result V)
    → Returns P r
    → Returns Q r
    → Returns (λ value. P value × Q value) r
both-Returns P Q (err problem) h k = tt
both-Returns P Q (ok value) h k = (h, k)

pub each-Returns {κ μ} :
    {V : Type κ} (P : V → Type μ) (r : Result V)
    → ((value : V) → r ≡ ok value → P value)
    → Returns P r
each-Returns P (err problem) f = tt
each-Returns P (ok value) f = f value refl

module _ {κ μ ν} {V : Type κ} {W : Type μ} (P : W → Type ν) where
  -- A chain returns P if its rest does whatever the first call returns.
  pub chain-Returns {ρ} :
      (Q : V → Type ρ) (r : Result V) (rest : V → Result W)
      → Returns Q r
      → ((value : V) → Q value → Returns P (rest value))
      → Returns P (r >>= rest)
  chain-Returns Q (err problem) rest h then_rest = tt
  chain-Returns Q (ok value) rest h then_rest = then_rest value h

  pub value-Returns :
      (r : Result V) (rest : V → Result W)
      → ((value : V) → r ≡ ok value → Returns P (rest value))
      → Returns P (r >>= rest)
  value-Returns (err problem) rest then_rest = tt
  value-Returns (ok value) rest then_rest = then_rest value refl

module _ {μ ν} {W : Type μ} (P : W → Type ν) where
  pub raise_if-Returns :
      (b : Bool) (problem : Error) (rest : Result W)
      → (b ≡ false → Returns P rest)
      → Returns P (raise_if b problem >> rest)
  raise_if-Returns true problem rest h = tt
  raise_if-Returns false problem rest h = h refl

pub require-some {κ} :
    {V : Type κ} (o : Option V) (problem : Error) (value : V)
    → require o problem ≡ ok value
    → o ≡ some value
require-some none problem value e = absurd (cc)
require-some (some v) problem value e = cc

-- To split on a call and keep the equation.
pub Result-cases {κ} :
    {V : Type κ} (r : Result V) → ((value : V) × (r ≡ ok value)) ⊎ ((e : Error) × (r ≡ err e))
Result-cases (ok value) = inl (value, refl)
Result-cases (err e) = inr (e, refl)
