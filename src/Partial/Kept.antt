-- ===== src/Partial/Kept.antt =====
-- The phases of all profiles over `maintain`, in memory and in the store.
use mathlib.Core.Path.{subst}
use candlepilot.Prelude.{
  String, Bool, Option, none, some, List, [], ◌∷◌, ◌≡◌, refl, sym, ap, lookup, if_branches,
  Option-cases, inl, inr,
}
use candlepilot.Prelude.Assoc.{Dict, AllValues, insert-AllValues, lookup-AllValues}
use candlepilot.Risk.{SymbolRules}
use candlepilot.Risk.Permission.{is_listed}
use candlepilot.Trailing.{TrailingPosition}
use candlepilot.Trailing.Store.{map_values}
use candlepilot.Trailing.Manager.{sorted_items, observed_symbols}
use candlepilot.Partial.{PartialTakeProfitProgress, PartialTakeProfitState}
use candlepilot.Partial.Position.{maintain_position}
use candlepilot.Partial.Manager.{
  PartialTakeProfitManager, StoredState, load_progress, load_state, load, save_progress, save_state,
  save,
}
use candlepilot.Partial.Upkeep.{
  open_states, keep_state, maintain_open, maintain, PartialProblem, with_run,
}
use candlepilot.Partial.Sound.{SoundState, SoundIfAny, maintain_position-SoundIfAny}

abbrev pub SoundStore : Option (Dict StoredState) → Type 0
SoundStore none = Unit
SoundStore (some d) = AllValues (λ (s : StoredState). SoundState (load_state s)) d

-- Every profile of every state stands in a phase that leaves a rest of the position.
pub record AllSound (m : PartialTakeProfitManager) : Type 0 where
  pub in_memory : AllValues SoundState m.states
  pub in_store : SoundStore m.stored

saved_progress :
    (d : Dict PartialTakeProfitProgress) → map_values load_progress (map_values save_progress d) ≡ d
unfolding map_values load_progress save_progress
saved_progress [] = refl
saved_progress ((k, p) ∷ d) =
    ap (λ (x : Dict PartialTakeProfitProgress). (k, p) ∷ x) (saved_progress d)

-- A state that was saved is loaded as it was.
pub load_state-save_state : (s : PartialTakeProfitState) → load_state (save_state s) ≡ s
unfolding load_state save_state
load_state-save_state s =
    ap (λ (x : Dict PartialTakeProfitProgress). record s { profiles = x })
      (saved_progress s.profiles)

saved-SoundState :
    (d : Dict PartialTakeProfitState)
    → AllValues SoundState d
    → AllValues (λ (s : StoredState). SoundState (load_state s)) (map_values save_state d)
unfolding map_values
saved-SoundState [] h = tt
saved-SoundState ((k, s) ∷ d) h =
    (subst SoundState (sym (load_state-save_state s)) h.0, saved-SoundState d h.1)

save-AllSound : (m : PartialTakeProfitManager) → AllSound m → AllSound (save m)
unfolding save
save-AllSound m h = record {
  in_memory = h.in_memory;
  in_store = saved-SoundState m.states h.in_memory;
}

loaded-SoundState :
    (d : Dict StoredState)
    → AllValues (λ (s : StoredState). SoundState (load_state s)) d
    → AllValues SoundState (map_values load_state d)
unfolding map_values
loaded-SoundState [] h = tt
loaded-SoundState ((k, s) ∷ d) h = (h.0, loaded-SoundState d h.1)

load-AllSound : (m : PartialTakeProfitManager) → AllSound m → AllSound (load m)
unfolding load
load-AllSound m h = elim (Option-cases m.stored) [
  | inl nothing ↦
      if_branches AllSound m.loaded (λ _. h)
        (λ _. record { in_memory = rw nothing h.in_memory; in_store = h.in_store })
  | inr (d, found) ↦
      if_branches AllSound m.loaded (λ _. h)
        (λ _. record {
          in_memory = rw found (loaded-SoundState d (subst SoundStore found h.in_store));
          in_store = h.in_store;
        })
]

open_states-SoundState :
    (observed : List String) (d : Dict PartialTakeProfitState)
    → AllValues SoundState d
    → AllValues SoundState (open_states observed d)
unfolding open_states
open_states-SoundState observed [] h = tt
open_states-SoundState observed ((k, s) ∷ d) h =
    if_branches (AllValues SoundState) (is_listed k observed)
      (λ _. (h.0, open_states-SoundState observed d h.1))
      (λ _. open_states-SoundState observed d h.1)

keep_state-SoundState :
    (symbol : String) (x : Option PartialTakeProfitState) (d : Dict PartialTakeProfitState)
    → SoundIfAny x
    → AllValues SoundState d
    → AllValues SoundState (keep_state symbol x d)
keep_state-SoundState symbol none d h k = k
keep_state-SoundState symbol (some s) d h k = insert-AllValues SoundState symbol s d h k

lookup-SoundIfAny :
    (symbol : String) (d : Dict PartialTakeProfitState)
    → AllValues SoundState d
    → SoundIfAny (lookup symbol d)
lookup-SoundIfAny symbol d h = elim (Option-cases (lookup symbol d)) [
  | inl missing ↦ rw missing tt
  | inr (s, found) ↦ rw found (lookup-AllValues SoundState symbol s d h found)
]

maintain_open-AllSound :
    (rules : Dict SymbolRules) (positions : Dict TrailingPosition) (m : PartialTakeProfitManager)
    (problems : List PartialProblem) (changed : Bool)
    → AllSound m
    → AllSound (maintain_open rules positions m problems changed).0
unfolding maintain_open
maintain_open-AllSound rules [] m problems changed h =
    if_branches AllSound changed (λ _. save-AllSound m h) (λ _. h)
maintain_open-AllSound rules ((symbol, position) ∷ rest) m problems changed h =
    elim (Option-cases (lookup symbol rules)) [
      | inl missing ↦ rw (maintain_open, missing) (maintain_open-AllSound rules rest m _ changed h)
      | inr (rule, found) ↦
          let existing = lookup position.symbol m.states in
          let run = maintain_position position rule existing in
          rw (maintain_open, found)
            (maintain_open-AllSound rules rest (with_run m position run) _ _ (record {
              in_memory =
                  keep_state-SoundState position.symbol run.state m.states
                    (maintain_position-SoundIfAny position rule existing
                      (lookup-SoundIfAny position.symbol m.states h.in_memory))
                    h.in_memory;
              in_store = h.in_store;
            }))
    ]

-- If every profile in memory and in the store stands in a phase, with a partial fill that is less
-- than the position, `maintain` leaves it so: no run fills at breakeven without a partial fill, calls
-- a filled profile unviable, or fills as much as the position.
pub maintain_keeps_phases :
    (m : PartialTakeProfitManager) (positions : Dict TrailingPosition) (rules : Dict SymbolRules)
    (open_symbols : Option (List String))
    → AllSound m
    → AllSound (maintain m positions rules open_symbols).0
unfolding maintain
maintain_keeps_phases m positions rules open_symbols h =
    let loaded = load-AllSound m h in
    maintain_open-AllSound rules (sorted_items positions) _ [] _ (record {
      in_memory =
          open_states-SoundState (observed_symbols open_symbols positions) _ loaded.in_memory;
      in_store = loaded.in_store;
    })
