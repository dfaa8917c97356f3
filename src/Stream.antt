-- ===== src/Stream.antt =====
-- src/candlepilot/market/stream.py: `MarketEventSequencer`, and the events that the stream yields.
pub mod Order
pub mod Pairwise
mod Tests
use candlepilot.Prelude.{
  ℕ, ◌+◌, String, Bool, true, false, Option, none, some, List, [], ◌∷◌, ℤ, ltb_ℤ, leb_ℤ, eqb_ℤ,
  lookup, insert, str_eq, if◌then◌else◌,
}
use candlepilot.Prelude.Assoc.{Dict}
use candlepilot.Outcome.{Error, key_error, Result, ok, err}

-- The numbers of a payload that the sequencer reads: a field may be absent, and `int` of it may
-- raise. `kline_start` is "t" of "k".
pub record Payload : Type 0 where
  pub update_id : Option (Result ℤ)
  pub kline_start : Option (Result ℤ)
  pub event_ms : Result ℤ

pub record MarketStreamEvent : Type 0 where
  pub stream : String
  pub event_type : String
  pub symbol : String
  pub payload : Payload

-- A Python tuple of ints, and `<=` of two.
abbrev pub Sequence : Type 0
Sequence = List ℤ

unfoldable pub tuple_le : Sequence → Sequence → Bool
tuple_le [] b = true
tuple_le (x ∷ a) [] = false
tuple_le (x ∷ a) (y ∷ b) = let rest = tuple_le a b in if eqb_ℤ x y then rest else ltb_ℤ x y

pub record MarketEventSequencer : Type 0 where
  pub last_sequence : Dict Sequence
  pub dropped : ℕ

abbrev pub one_number : Result ℤ → Result Sequence
one_number (ok n) = ok (n ∷ [])
one_number (err e) = err e

abbrev pub two_numbers : Result ℤ → Result ℤ → Result Sequence
two_numbers (err e) b = err e
two_numbers (ok n) (err e) = err e
two_numbers (ok n) (ok k) = ok (n ∷ k ∷ [])

abbrev pub book_sequence : Payload → Option (Result ℤ) → Result Sequence
book_sequence p none = one_number p.event_ms
book_sequence p (some u) = one_number u

abbrev pub kline_sequence : Payload → Option (Result ℤ) → Result Sequence
kline_sequence p none = one_number p.event_ms
kline_sequence p (some t) = two_numbers t p.event_ms

unfoldable pub sequence_of : MarketStreamEvent → Result Sequence
sequence_of event =
    let p = event.payload in
    if str_eq event.event_type "bookTicker"
    then book_sequence p p.update_id
    else if str_eq event.event_type "kline"
    then kline_sequence p p.kline_start
    else one_number p.event_ms

abbrev pub is_old : Sequence → Option Sequence → Bool
is_old sequence none = false
is_old sequence (some previous) = tuple_le sequence previous

abbrev pub accept_sequence :
    MarketEventSequencer → MarketStreamEvent → Sequence → MarketEventSequencer × Bool
accept_sequence m event sequence =
    if is_old sequence (lookup event.stream m.last_sequence)
    then (record m { dropped = m.dropped + 1 }, false)
    else (record m { last_sequence = insert event.stream sequence m.last_sequence }, true)

-- An exception leaves the sequencer as it was.
unfoldable pub accept :
    MarketEventSequencer → MarketStreamEvent → Result (MarketEventSequencer × Bool)
accept m event = elim (sequence_of event) [
  | ok sequence ↦ ok (accept_sequence m event sequence)
  | err e ↦ err e
]

abbrev pub yield_if : Bool → MarketStreamEvent → List MarketStreamEvent → List MarketStreamEvent
yield_if true event rest = event ∷ rest
yield_if false event rest = rest

abbrev pub after_accept :
    MarketEventSequencer → Result (MarketEventSequencer × Bool) → MarketEventSequencer × Bool
after_accept m (ok r) = r
after_accept m (err e) = (m, false)

-- What `events` yields of the events that it has parsed, over all its connections: an event whose
-- `accept` raises is lost with its connection.
unfoldable pub events :
    MarketEventSequencer → List MarketStreamEvent → MarketEventSequencer × List MarketStreamEvent
events m [] = (m, [])
events m (event ∷ rest) =
    let r = after_accept m (accept m event) in
    let yielded = events r.0 rest in (yielded.0, yield_if r.1 event yielded.1)
