-- ===== src/Replay/Settle.antt =====
-- `_next_candle`, `_marks` and `_settle_until`. `bisect_left` and `bisect_right` are the number of
-- the first times that are before, or not after, the given one: the lists are in ascending order.
use candlepilot.Prelude.{
  ℕ, zero, suc, ◌-◌, String, Option, none, some, List, [], ◌∷◌, if◌then◌else◌, ltb, lookup, insert,
}
use candlepilot.Prelude.Assoc.{Dict}
use candlepilot.Decimal.{Decimal}
use candlepilot.Time.{Datetime, before, not_after, seconds, shift}
use candlepilot.Outcome.{Result, ok, key_error, require, ◌>>=◌}
use candlepilot.Backtest.{Candle, SimulatedExchange}
use candlepilot.Backtest.Exchange.{activate_scheduled, settle_candle}
use candlepilot.Replay.{BacktestRunner}

-- When a 5m bar closes.
abbrev pub closed_at : Candle → Datetime
closed_at c = shift c.timestamp (seconds 300)

unfoldable pub next_candle : List Candle → Datetime → Option Candle
next_candle [] after = none
next_candle (c ∷ cs) after =
    let rest = next_candle cs after in if before c.timestamp after then rest else some c

-- The last candle that is closed by then, or the one before them all.
unfoldable pub last_closed : Option Candle → List Candle → Datetime → Option Candle
last_closed found [] now = found
last_closed found (c ∷ cs) now =
    let later = last_closed (some c) cs now in if not_after (closed_at c) now then later else found

-- `marks[symbol] = candles["5m"][index].close`
abbrev pub with_mark : String → Option Candle → Dict Decimal → Dict Decimal
with_mark symbol none marks = marks
with_mark symbol (some c) marks = insert symbol c.close marks

unfoldable pub marks_from : Dict Decimal → Dict (List Candle) → Datetime → Dict Decimal
marks_from marks [] now = marks
marks_from marks ((symbol, candles) ∷ series) now =
    marks_from (with_mark symbol (last_closed none candles now) marks) series now

abbrev pub marks_at : BacktestRunner → Datetime → Dict Decimal
marks_at r now = marks_from [] r.series now

-- `bisect_left(timestamps, start)` and `bisect_right(closed_at, through)`
unfoldable pub count_before : List Candle → Datetime → ℕ
count_before [] start = 0
count_before (c ∷ cs) start =
    let rest = count_before cs start in if before c.timestamp start then suc rest else 0

unfoldable pub count_closed : List Candle → Datetime → ℕ
count_closed [] through = 0
count_closed (c ∷ cs) through =
    let rest = count_closed cs through in if not_after (closed_at c) through then suc rest else 0

-- `xs[start:end]`
abbrev pub drop {ℓ} : {A : Type ℓ} → ℕ → List A → List A
drop zero xs = xs
drop (suc n) [] = []
drop (suc n) (x ∷ xs) = drop n xs

abbrev pub take {ℓ} : {A : Type ℓ} → ℕ → List A → List A
take zero xs = []
take (suc n) [] = []
take (suc n) (x ∷ xs) = x ∷ take n xs

abbrev pub slice {ℓ} : {A : Type ℓ} → ℕ → ℕ → List A → List A
slice start end xs = take (end - start) (drop start xs)

-- The loop over the candles of a symbol.
unfoldable pub settle_each : SimulatedExchange → String → List Candle → Result SimulatedExchange
settle_each e symbol [] = ok e
settle_each e symbol (c ∷ cs) = activate_scheduled e symbol c.timestamp >>= λ active.
    settle_candle active symbol c >>= λ settled. settle_each settled symbol cs

abbrev pub first_open : Option ℕ → List Candle → Datetime → ℕ
first_open none candles start = count_before candles start
first_open (some n) candles start = n

unfoldable pub settle_candles :
    List Candle
    → Datetime
    → SimulatedExchange
    → String
    → Datetime
    → Dict ℕ
    → Result (SimulatedExchange × Dict ℕ)
settle_candles candles start e symbol through settled_next =
    let first = first_open (lookup symbol settled_next) candles start in
    let end = count_closed candles through in
    settle_each e symbol (slice first end candles) >>= λ settled.
    activate_scheduled settled symbol through >>= λ active.
    ok (active, insert symbol (if ltb first end then end else first) settled_next)

unfoldable pub settle_until :
    BacktestRunner
    → SimulatedExchange
    → String
    → Datetime
    → Dict ℕ
    → Result (SimulatedExchange × Dict ℕ)
settle_until r e symbol through settled_next =
    require (lookup symbol r.series) (key_error symbol) >>= λ candles.
    settle_candles candles r.spec.start e symbol through settled_next

-- `for symbol in symbols: self._settle_until(…)`
unfoldable pub settle_all :
    BacktestRunner
    → List String
    → SimulatedExchange
    → Datetime
    → Dict ℕ
    → Result (SimulatedExchange × Dict ℕ)
settle_all r [] e through settled_next = ok (e, settled_next)
settle_all r (symbol ∷ symbols) e through settled_next =
    settle_until r e symbol through settled_next >>= λ both.
    settle_all r symbols both.0 through both.1
