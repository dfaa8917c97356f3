-- ===== src/Replay/Schedule.antt =====
-- The schedule of `run`: the batches of slots in the order of their times.
use Prim.Native.String.{compare}
use Prim.Native.Nat.{Ordering}
use candlepilot.Prelude.{
  ℕ, ◌+◌, String, Bool, true, false, List, [], ◌∷◌, ◌++◌, if◌then◌else◌, lookup, insert, length,
}
use candlepilot.Prelude.Assoc.{Dict}
use candlepilot.Time.{Datetime, before}
use candlepilot.Domain.{Cadence, cadence_name}
use candlepilot.Backtest.Book.{or_kept}
use candlepilot.Replay.{BacktestRunner, BacktestSpec, ReplayInput}
use candlepilot.Replay.Spec.{decision_times}

pub record Slot : Type 0 where
  pub decided_at : Datetime
  pub symbol : String
  pub cadence : Cadence

-- The order of the tuples `(when, symbol, cadence)`, whose times are compared as instants.
abbrev pub slot_le : Slot → Slot → Bool
slot_le a b =
    if before a.decided_at b.decided_at
    then true
    else if before b.decided_at a.decided_at
    then false
    else elim (compare a.symbol b.symbol) [
      | Ordering.lt ↦ true
      | Ordering.gt ↦ false
      | Ordering.eq ↦ elim (compare (cadence_name a.cadence) (cadence_name b.cadence)) [
        | Ordering.gt ↦ false
        | _ ↦ true
      ]
    ]

-- By the first slot of each batch; `sorted` is stable.
abbrev pub batch_le : List Slot → List Slot → Bool
batch_le [] b = true
batch_le (x ∷ xs) [] = false
batch_le (x ∷ xs) (y ∷ ys) = slot_le x y

unfoldable pub insert_batch : List Slot → List (List Slot) → List (List Slot)
insert_batch b [] = b ∷ []
insert_batch b (c ∷ cs) =
    let later = insert_batch b cs in if batch_le b c then b ∷ c ∷ cs else c ∷ later

unfoldable pub sorted_batches : List (List Slot) → List (List Slot)
sorted_batches [] = []
sorted_batches (b ∷ bs) = insert_batch b (sorted_batches bs)

-- `replay_batches.setdefault(batch_id, []).append(…)`
unfoldable pub group_batches : Dict (List Slot) → List ReplayInput → Dict (List Slot)
group_batches d [] = d
group_batches d (i ∷ inputs) =
    let slot : Slot = record {
      decided_at = i.decided_at;
      symbol = i.symbol;
      cadence = i.cadence;
    } in
    group_batches (insert i.batch_id (or_kept (lookup i.batch_id d) [] ++ slot ∷ []) d) inputs

abbrev pub values_of {ℓ} : {V : Type ℓ} → Dict V → List V
values_of [] = []
values_of ((k, v) ∷ d) = v ∷ values_of d

abbrev pub slots_at : Cadence → Datetime → List String → List (List Slot)
slots_at cadence now [] = []
slots_at cadence now (s ∷ symbols) =
    (record { decided_at = now; symbol = s; cadence = cadence } ∷ []) ∷ slots_at cadence now symbols

abbrev pub slots_of : Cadence → List Datetime → List String → List (List Slot)
slots_of cadence [] symbols = []
slots_of cadence (t ∷ times) symbols = slots_at cadence t symbols ++ slots_of cadence times symbols

abbrev pub spec_slots : BacktestSpec → List Cadence → List (List Slot)
spec_slots spec [] = []
spec_slots spec (c ∷ cs) = slots_of c (decision_times spec c) spec.symbols ++ spec_slots spec cs

abbrev pub schedule_from : List ReplayInput → BacktestSpec → List (List Slot)
schedule_from [] spec = sorted_batches (spec_slots spec spec.cadences)
schedule_from (i ∷ inputs) spec = sorted_batches (values_of (group_batches [] (i ∷ inputs)))

abbrev pub schedule : BacktestRunner → List (List Slot)
schedule r = schedule_from r.replay_snapshots r.spec

unfoldable pub count_slots : List (List Slot) → ℕ
count_slots [] = 0
count_slots (b ∷ bs) = length b + count_slots bs
