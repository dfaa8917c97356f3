-- ===== src/Stream/Pairwise.antt =====
-- The sequences of the events that the stream yields.
use mathlib.Core.Path.{subst}
use candlepilot.Prelude.{
  ◌+◌, Bool, true, false, String, some, List, [], ◌∷◌, All, ◌≡◌, refl, sym, ◌∙◌, ap, ◌⊎◌, inl, inr,
  lookup, insert, lookup-insert, str_eq, eq_iff, Bool-cases, if_branches,
}
use candlepilot.Prelude.Assoc.{Dict}
use candlepilot.Outcome.{ok}
use candlepilot.Outcome.Returns.{Result-cases}
use candlepilot.Stream.{
  MarketStreamEvent, MarketEventSequencer, Sequence, tuple_le, sequence_of, is_old, accept_sequence,
  accept, after_accept, events, yield_if,
}
use candlepilot.Stream.Order.{tuple_le_trans}

-- The event's sequence comes after another.
abbrev pub Newer : Sequence → MarketStreamEvent → Type 0
Newer previous event = (s : Sequence) × (sequence_of event ≡ ok s) × (tuple_le s previous ≡ false)

abbrev pub NewerIfSame : String → Sequence → MarketStreamEvent → Type 0
NewerIfSame stream previous event = (str_eq event.stream stream ≡ false) ⊎ Newer previous event

-- Every event has a sequence, and the later ones of its stream are newer.
abbrev pub Pairwise : List MarketStreamEvent → Type 0
Pairwise [] = Unit
Pairwise (event ∷ rest) =
    (s : Sequence) × (sequence_of event ≡ ok s)
    × All (NewerIfSame event.stream s) rest
    × Pairwise rest

-- What one event does to the sequencer.
data Taken (m : MarketEventSequencer) (event : MarketStreamEvent) (r : MarketEventSequencer × Bool)
    : Type 0 where
  skipped : r.0.last_sequence ≡ m.last_sequence → r.1 ≡ false → Taken m event r
  taken :
      (s : Sequence)
      → sequence_of event ≡ ok s
      → is_old s (lookup event.stream m.last_sequence) ≡ false
      → r.0.last_sequence ≡ insert event.stream s m.last_sequence
      → r.1 ≡ true
      → Taken m event r

accept_sequence-Taken :
    (m : MarketEventSequencer) (event : MarketStreamEvent) (s : Sequence)
    → sequence_of event ≡ ok s
    → Taken m event (accept_sequence m event s)
accept_sequence-Taken m event s e =
    if_branches (Taken m event) (is_old s (lookup event.stream m.last_sequence))
      {x = (record m { dropped = m.dropped + 1 }, false)}
      {y = (record m { last_sequence = insert event.stream s m.last_sequence }, true)}
      (λ old. skipped refl refl) (λ fresh. taken s e fresh refl refl)

accept-Taken :
    (m : MarketEventSequencer) (event : MarketStreamEvent)
    → Taken m event (after_accept m (accept m event))
unfolding accept
accept-Taken m event = elim (Result-cases (sequence_of event)) [
  | inl (s, e) ↦ rw (accept, e) (accept_sequence-Taken m event s e)
  | inr (x, e) ↦ rw (accept, e) (skipped refl refl)
]

-- The same, or a newer one.
abbrev AtLeast : Sequence → Sequence → Type 0
AtLeast p q = (q ≡ p) ⊎ (tuple_le q p ≡ false)

AtLeast-newer : (p q s : Sequence) → AtLeast p q → tuple_le s q ≡ false → tuple_le s p ≡ false
AtLeast-newer p q s (inl same) h = subst (λ (x : Sequence). tuple_le s x ≡ false) same h
AtLeast-newer p q s (inr newer) h = tuple_le_trans p q s newer h

-- One event, for a stream that the sequencer has seen up to q.
Taken-NewerIfSame :
    (stream : String) (p q : Sequence) (m : MarketEventSequencer) (event : MarketStreamEvent)
    (r : MarketEventSequencer × Bool) (later : List MarketStreamEvent)
    → Taken m event r
    → lookup stream m.last_sequence ≡ some q
    → AtLeast p q
    → ((x : Sequence)
        → lookup stream r.0.last_sequence ≡ some x
        → AtLeast p x
        → All (NewerIfSame stream p) later)
    → All (NewerIfSame stream p) (yield_if r.1 event later)
Taken-NewerIfSame stream p q m event r later (skipped same dropped) h k ih =
    rw dropped (ih q (ap (λ (d : Dict Sequence). lookup stream d) same ∙ h) k)
Taken-NewerIfSame stream p q m event r later (taken s e fresh put kept) h k ih =
    let seen =
      ap (λ (d : Dict Sequence). lookup stream d) put
      ∙ lookup-insert event.stream stream s m.last_sequence in
    elim (Bool-cases (str_eq event.stream stream)) [
      | inl same ↦
          let names : event.stream ≡ stream = (eq_iff event.stream stream).0 same in
          let newer : tuple_le s q ≡ false =
            ap (is_old s) (sym (ap (λ (k : String). lookup k m.last_sequence) names ∙ h)) ∙ fresh in
          let after = AtLeast-newer p q s k newer in
          rw kept (inr (s, e, after), ih s (rw same at seen) (inr after))
      | inr other ↦ rw kept (inl other, ih q ((rw other at seen) ∙ h) k)
    ]

-- From a sequencer that has seen a stream up to q, everything that follows of it is newer than p.
events-NewerIfSame :
    (stream : String) (p q : Sequence) (m : MarketEventSequencer) (es : List MarketStreamEvent)
    → lookup stream m.last_sequence ≡ some q
    → AtLeast p q
    → All (NewerIfSame stream p) (events m es).1
unfolding events
events-NewerIfSame stream p q m [] h k = tt
events-NewerIfSame stream p q m (event ∷ rest) h k =
    let r = after_accept m (accept m event) in
    Taken-NewerIfSame stream p q m event r (events r.0 rest).1 (accept-Taken m event) h k
      (λ x. events-NewerIfSame stream p x r.0 rest)

Taken-Pairwise :
    (m : MarketEventSequencer) (event : MarketStreamEvent) (r : MarketEventSequencer × Bool)
    (later : List MarketStreamEvent)
    → Taken m event r
    → Pairwise later
    → ((s : Sequence)
        → lookup event.stream r.0.last_sequence ≡ some s
        → All (NewerIfSame event.stream s) later)
    → Pairwise (yield_if r.1 event later)
Taken-Pairwise m event r later (skipped same dropped) h k = rw dropped h
Taken-Pairwise m event r later (taken s e fresh put kept) h k =
    let seen =
      ap (λ (d : Dict Sequence). lookup event.stream d) put
      ∙ lookup-insert event.stream event.stream s m.last_sequence in
    rw kept (s, e, k s (rw ((eq_iff event.stream event.stream).1 refl) at seen), h)

-- Of any events, over any reconnections, those that the stream yields have a sequence, and of two
-- with the same stream name the later one has the strictly greater sequence.
pub events-Pairwise :
    (m : MarketEventSequencer) (es : List MarketStreamEvent) → Pairwise (events m es).1
unfolding events
events-Pairwise m [] = tt
events-Pairwise m (event ∷ rest) =
    let r = after_accept m (accept m event) in
    Taken-Pairwise m event r (events r.0 rest).1 (accept-Taken m event) (events-Pairwise r.0 rest)
      (λ s at. events-NewerIfSame event.stream s s r.0 rest at (inl refl))
