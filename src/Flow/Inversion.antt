-- ===== src/Flow/Inversion.antt =====
-- What the result of a body tells of its parts.
use candlepilot.Prelude.{Bool, true, false, ◌≡◌, refl, ◌⊎◌, inl, inr}
use candlepilot.Outcome.{Result, ok, err}
use candlepilot.Flow.{Flow, next, returned, raised, ◌>>=◌, run, call, return_call, return_if}

pub >>=-eq-next :
    {R A B : Type 0} (m : Flow R A) (f : A → Flow R B) {b : B}
    → (m >>= f) ≡ next b
    → (a : A) × (m ≡ next a) × (f a ≡ next b)
>>=-eq-next (next a) f h = (a, refl, h)
>>=-eq-next (returned r) f h = cc
>>=-eq-next (raised e) f h = cc

-- A body that returned did so in its first part, or went on and returned in the rest.
pub >>=-eq-returned :
    {R A B : Type 0} (m : Flow R A) (f : A → Flow R B) {r : R}
    → (m >>= f) ≡ returned r
    → (m ≡ returned r) ⊎ ((a : A) × (m ≡ next a) × (f a ≡ returned r))
>>=-eq-returned (next a) f h = inr (a, refl, h)
>>=-eq-returned (returned r) f h = inl (cc)
>>=-eq-returned (raised e) f h = cc

-- The result of a call comes from an early return, or from the rest of the body.
pub stage :
    {R A C : Type 0} (m : Flow R A) (f : A → Flow R R) {r : R}
    → run (m >>= f) ≡ ok r
    → (m ≡ returned r → C)
    → ((a : A) → m ≡ next a → run (f a) ≡ ok r → C)
    → C
stage (next a) f h early late = late a refl h
stage (returned r) f h early late = early (cc)
stage (raised e) f h early late = absurd (cc)

-- `>>=-eq-next` for a proof that goes on with the parts.
pub after :
    {R A B C : Type 0} (m : Flow R A) (f : A → Flow R B) {b : B}
    → (m >>= f) ≡ next b
    → ((a : A) → m ≡ next a → f a ≡ next b → C)
    → C
after (next a) f h k = k a refl h
after (returned r) f h k = absurd (cc)
after (raised e) f h k = absurd (cc)

pub returned-injective :
    {R A : Type 0} {a b : R} → ◌≡◌ {A = Flow R A} (returned a) (returned b) → a ≡ b
returned-injective e = cc

-- A guard that went on.
pub return_if-eq-next : {R : Type 0} (b : Bool) (r : R) → return_if b r ≡ next tt → b ≡ false
return_if-eq-next true r e = absurd (cc)
return_if-eq-next false r e = refl

pub next-injective : {R A : Type 0} {a b : A} → ◌≡◌ {A = Flow R A} (next a) (next b) → a ≡ b
next-injective e = cc

-- A call that may raise, at a place where the body has not returned.
pub run-call :
    {R A C : Type 0} (m : Result A) (f : A → Flow R R) {r : R}
    → run (call m >>= f) ≡ ok r
    → ((a : A) → m ≡ ok a → run (f a) ≡ ok r → C)
    → C
run-call (ok a) f h k = k a refl h
run-call (err e) f h k = absurd (cc)

pub return_call-eq-returned :
    {R A : Type 0} (m : Result R) {r : R} → return_call {A = A} m ≡ returned r → m ≡ ok r
return_call-eq-returned (ok a) h = cc
return_call-eq-returned (err e) h = cc

pub call-eq-next : {R A : Type 0} (m : Result A) {a : A} → call {R = R} m ≡ next a → m ≡ ok a
call-eq-next (ok a) h = cc
call-eq-next (err e) h = cc
