-- ===== src/Trailing/Critical.antt =====
-- A run of `maintain` that the emergency lock ends.
use candlepilot.Prelude.{
  String, Bool, Option, none, some, List, [], ◌∷◌, ◌++◌, ◌||◌, ◌≡◌, refl, ◌∙◌, lookup, if_branches,
  Option-cases, inl, inr,
}
use candlepilot.Prelude.Assoc.{Dict}
use candlepilot.Risk.{SymbolRules}
use candlepilot.Trailing.{
  Ending, done, raised, replacement_refused, critical, TrailingPosition, TrailingStopState, Broker,
}
use candlepilot.Trailing.Position.{maintain_position, changed_by}
use candlepilot.Trailing.Store.{TrailingStopManager, Stored, load, load_stored}
use candlepilot.Trailing.Manager.{
  Problem, MaintainResult, critical_stop, maintain_all, maintain, unless_critical, problems_of,
  log_ending, with_symbol, sorted_items, is_off, no_tick_rule,
}

load_stored-stored :
    (m : TrailingStopManager) (stored : Option Stored) → (load_stored m stored).stored ≡ m.stored
load_stored-stored m none = refl
load_stored-stored m (some stored) = refl

load-stored : (m : TrailingStopManager) → (load m).stored ≡ m.stored
unfolding load
load-stored m =
    if_branches (λ (x : TrailingStopManager). x.stored ≡ m.stored) m.loaded (λ _. refl)
      (λ _. load_stored-stored m m.stored)

log_ending-stored :
    (m : TrailingStopManager) (position : TrailingPosition) (state : Option TrailingStopState)
    (e : Ending)
    → (log_ending m position state e).stored ≡ m.stored
log_ending-stored m position state (done c) = refl
log_ending-stored m position state (raised e) = refl
log_ending-stored m position state replacement_refused = refl
log_ending-stored m position state critical = refl

module _ (stored : Option Stored) where
  abbrev Unsaved : TrailingStopManager × MaintainResult → Type 0
  Unsaved r = r.1 ≡ critical_stop → r.0.stored ≡ stored

  unless_critical-Unsaved :
      (e : Ending) (onward stop : TrailingStopManager × MaintainResult)
      → Unsaved onward
      → Unsaved stop
      → Unsaved (unless_critical e onward stop)
  unless_critical-Unsaved (done c) onward stop h k = h
  unless_critical-Unsaved (raised e) onward stop h k = h
  unless_critical-Unsaved replacement_refused onward stop h k = h
  unless_critical-Unsaved critical onward stop h k = k

  maintain_all-Unsaved :
      (broker : Broker) (rules : Dict SymbolRules) (positions : Dict TrailingPosition)
      (m : TrailingStopManager) (problems : List Problem) (changed : Bool)
      → m.stored ≡ stored
      → Unsaved (maintain_all broker rules positions m problems changed)
  unfolding maintain_all
  maintain_all-Unsaved broker rules [] m problems changed h = λ e. absurd (cc)
  maintain_all-Unsaved broker rules ((symbol, position) ∷ rest) m problems changed h =
      elim (Option-cases (lookup symbol rules)) [
        | inl missing ↦
            rw (maintain_all, missing)
              (maintain_all-Unsaved broker rules rest m (problems ++ no_tick_rule symbol ∷ [])
                changed h)
        | inr (rule, found) ↦
            let step =
              maintain_position m.mode broker position rule.tick_size
                (lookup position.symbol m.states) in
            let after = with_symbol m position step in
            rw (maintain_all, found)
              (unless_critical-Unsaved step.ending _ _
                (maintain_all-Unsaved broker rules rest _
                  (problems ++ problems_of symbol step.ending) (changed || changed_by step.ending)
                  (log_ending-stored after position step.state step.ending ∙ h))
                (λ e. h))
      ]

-- A run that the emergency lock ends leaves the store as it was before it, whatever it has changed in
-- memory.
pub maintain_leaves_store :
    (m : TrailingStopManager) (broker : Broker) (positions : Dict TrailingPosition)
    (rules : Dict SymbolRules) (open_symbols : Option (List String))
    → (maintain m broker positions rules open_symbols).1 ≡ critical_stop
    → (maintain m broker positions rules open_symbols).0.stored ≡ m.stored
unfolding maintain
maintain_leaves_store m broker positions rules open_symbols =
    if_branches (Unsaved m.stored) (is_off m.mode) (λ _ e. absurd (cc))
      (λ _.
        maintain_all-Unsaved m.stored broker rules (sorted_items positions) _ [] _ (load-stored m))
