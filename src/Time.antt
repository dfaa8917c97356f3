-- ===== src/Time.antt =====
-- `datetime`: an instant in microseconds since the epoch, and whether it carries a time zone.
use candlepilot.Prelude.{ℕ, ◌*◌, ℤ, pos, ◌+ℤ◌, ◌-ℤ◌, Bool, ltb_ℤ, leb_ℤ, eqb_ℤ}

pub record Datetime : Type 0 where
  pub micros : ℤ
  pub aware : Bool

abbrev pub before : Datetime → Datetime → Bool
before a b = ltb_ℤ a.micros b.micros

abbrev pub not_after : Datetime → Datetime → Bool
not_after a b = leb_ℤ a.micros b.micros

abbrev pub same_instant : Datetime → Datetime → Bool
same_instant a b = eqb_ℤ a.micros b.micros

-- `timedelta(seconds=n)`
abbrev pub seconds : ℕ → ℤ
seconds n = pos (n * 1000000)

-- `a - b`, and `t + delta`.
abbrev pub elapsed : Datetime → Datetime → ℤ
elapsed a b = a.micros -ℤ b.micros

abbrev pub shift : Datetime → ℤ → Datetime
shift t delta = record t { micros = t.micros +ℤ delta }
