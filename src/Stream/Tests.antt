-- ===== src/Stream/Tests.antt =====
-- A run of the sequencer over a late update, and its theorem at it.
use candlepilot.Prelude.{none, some, List, [], ◌∷◌, ◌≡◌, refl, ℤ, pos, lookup, insert}
use candlepilot.Outcome.{ok}
use candlepilot.Stream.{
  MarketStreamEvent, MarketEventSequencer, sequence_of, tuple_le, accept, events,
}
use candlepilot.Stream.Pairwise.{Pairwise, events-Pairwise}

abbrev start : MarketEventSequencer
start = record { last_sequence = []; dropped = 0 }

abbrev book : ℤ → MarketStreamEvent
book n = record {
  stream = "btcusdt@bookTicker";
  event_type = "bookTicker";
  symbol = "BTCUSDT";
  payload = record { update_id = some (ok n); kline_start = none; event_ms = ok (pos 1000) };
}

abbrev bar : ℤ → MarketStreamEvent
bar n = record {
  stream = "btcusdt@kline_1m";
  event_type = "kline";
  symbol = "BTCUSDT";
  payload = record { update_id = none; kline_start = some (ok (pos 60000)); event_ms = ok n };
}

abbrev parsed : List MarketStreamEvent
parsed = book (pos 5) ∷ bar (pos 7) ∷ book (pos 4) ∷ bar (pos 8) ∷ book (pos 6) ∷ []

-- The late book update is dropped; the second reading of the bar is not.
yields : (events start parsed).1 ≡ book (pos 5) ∷ bar (pos 7) ∷ bar (pos 8) ∷ book (pos 6) ∷ []
unfolding events accept sequence_of tuple_le lookup insert
yields = refl

events-Pairwise_example : Pairwise (events start parsed).1
events-Pairwise_example = events-Pairwise start parsed
