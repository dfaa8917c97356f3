-- ===== src/Flow.antt =====
-- The body of a Python method with early `return`s: it goes on with a value, has returned, or has
-- raised.
pub mod Inversion
use candlepilot.Prelude.{Bool, true, false, Option, none, some}
use candlepilot.Outcome.{Error, Result}

pub data Flow (R : Type 0) (A : Type 0) : Type 0 where
  next : A → Flow R A
  returned : R → Flow R A
  raised : Error → Flow R A

infixl 5 ◌>>=◌ ◌>>◌
abbrev pub ◌>>=◌ : {R A B : Type 0} → Flow R A → (A → Flow R B) → Flow R B
next a >>= f = f a
returned r >>= f = returned r
raised e >>= f = raised e

abbrev pub ◌>>◌ : {R B : Type 0} → Flow R (Unit {0}) → Flow R B → Flow R B
m >> k = m >>= λ _. k

module _ {R : Type 0} where
  -- `if c: return r`
  abbrev pub return_if : Bool → R → Flow R (Unit {0})
  return_if true r = returned r
  return_if false r = next tt

  -- `if c: raise e`
  abbrev pub raise_if : Bool → Error → Flow R (Unit {0})
  raise_if true e = raised e
  raise_if false e = next tt

  module _ {A : Type 0} where
    -- A call that may raise.
    abbrev pub call : Result A → Flow R A
    call (Result.ok a) = next a
    call (Result.err e) = raised e

    -- `if x is None: return r`
    abbrev pub return_if_none : Option A → R → Flow R A
    return_if_none none r = returned r
    return_if_none (some a) r = next a

    -- `assert x is not None`
    abbrev pub asserted : Option A → Flow R A
    asserted none = raised Error.assertion_error
    asserted (some a) = next a

    -- `return` of what the rest of the body computes.
    abbrev pub return_call : Result R → Flow R A
    return_call (Result.ok r) = returned r
    return_call (Result.err e) = raised e

-- The call of the method, whose last step gives its result.
abbrev pub run : {R : Type 0} → Flow R R → Result R
run (next r) = Result.ok r
run (returned r) = Result.ok r
run (raised e) = Result.err e
