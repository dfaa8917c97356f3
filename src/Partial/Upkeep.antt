-- ===== src/Partial/Upkeep.antt =====
-- `PartialTakeProfitManager.maintain`: closed positions, then every open one.
use candlepilot.Prelude.{
  String, Bool, true, false, Option, none, some, List, [], ◌∷◌, ◌++◌, ◌&&◌, ◌||◌, not, lookup,
  insert, if◌then◌else◌,
}
use candlepilot.Prelude.Assoc.{Dict}
use candlepilot.Outcome.{Error, Result, ok, err}
use candlepilot.Risk.{SymbolRules}
use candlepilot.Risk.Permission.{is_listed}
use candlepilot.Trailing.{TrailingPosition}
use candlepilot.Trailing.Manager.{sorted_items, observed_symbols}
use candlepilot.Partial.{
  PartialTakeProfitProfile, PartialTakeProfitProgress, PartialTakeProfitState,
  partial_take_profit_profiles, position_closed, PartialEvent,
}
use candlepilot.Partial.Position.{PartialSymbol, maintain_position}
use candlepilot.Partial.Manager.{PartialTakeProfitManager, load, save}

abbrev pub closing_event :
    String
    → PartialTakeProfitState
    → PartialTakeProfitProfile
    → PartialTakeProfitProgress
    → PartialEvent
closing_event symbol state profile progress = record {
  symbol = symbol;
  state = state;
  profile = profile;
  progress = progress;
  status = position_closed;
  target_price = none;
  simulated_fill = none;
  fill_quantity = none;
  fill_gross_pnl = none;
  strategy_gross_pnl = none;
}

abbrev pub is_open_split : Option PartialTakeProfitProgress → Bool
is_open_split none = false
is_open_split (some p) = p.partial_triggered && not p.breakeven_triggered

abbrev pub closing_events_of :
    String
    → PartialTakeProfitState
    → PartialTakeProfitProfile
    → Option PartialTakeProfitProgress
    → List PartialEvent
closing_events_of symbol state p none = []
closing_events_of symbol state p (some progress) =
    if is_open_split (some progress) then closing_event symbol state p progress ∷ [] else []

unfoldable pub closing_events :
    String → PartialTakeProfitState → List PartialTakeProfitProfile → List PartialEvent
closing_events symbol state [] = []
closing_events symbol state (p ∷ ps) =
    closing_events_of symbol state p (lookup p.profile_id state.profiles)
    ++ closing_events symbol state ps

-- The states whose symbol is not observed any more, and the others.
unfoldable pub closed_states :
    List String → Dict PartialTakeProfitState → Dict PartialTakeProfitState
closed_states observed [] = []
closed_states observed ((symbol, state) ∷ states) =
    let rest = closed_states observed states in
    if is_listed symbol observed then rest else (symbol, state) ∷ rest

unfoldable pub open_states : List String → Dict PartialTakeProfitState → Dict PartialTakeProfitState
open_states observed [] = []
open_states observed ((symbol, state) ∷ states) =
    let rest = open_states observed states in
    if is_listed symbol observed then (symbol, state) ∷ rest else rest

unfoldable pub record_closed : Dict PartialTakeProfitState → List PartialEvent
unfolding closing_events
record_closed [] = []
record_closed ((symbol, state) ∷ states) =
    closing_events symbol state partial_take_profit_profiles ++ record_closed states

pub data PartialProblem : Type 0 where
  no_venue_rule : String → PartialProblem
  caught_error : String → Error → PartialProblem

abbrev pub errors_of : String → Result Bool → List PartialProblem
errors_of symbol (ok c) = []
errors_of symbol (err e) = caught_error symbol e ∷ []

abbrev pub is_changed : Result Bool → Bool
is_changed (ok c) = c
is_changed (err e) = false

abbrev pub keep_state :
    String
    → Option PartialTakeProfitState
    → Dict PartialTakeProfitState
    → Dict PartialTakeProfitState
keep_state symbol none states = states
keep_state symbol (some state) states = insert symbol state states

abbrev pub with_run :
    PartialTakeProfitManager → TrailingPosition → PartialSymbol → PartialTakeProfitManager
with_run m position run = record m {
  states = keep_state position.symbol run.state m.states;
  events = m.events ++ run.events;
}

module _ (rules : Dict SymbolRules) where
  -- The loop over the open positions; an exception of one does not set the changed flag.
  unfoldable pub maintain_open :
      Dict TrailingPosition
      → PartialTakeProfitManager
      → List PartialProblem
      → Bool
      → PartialTakeProfitManager × List PartialProblem
  maintain_open [] m problems changed = (if changed then save m else m, problems)
  maintain_open ((symbol, position) ∷ rest) m problems changed = elim (lookup symbol rules) [
    | none ↦ maintain_open rest m (problems ++ no_venue_rule symbol ∷ []) changed
    | some rule ↦
        let run = maintain_position position rule (lookup position.symbol m.states) in
        maintain_open rest (with_run m position run) (problems ++ errors_of symbol run.ending)
          (is_changed run.ending || changed)
  ]

abbrev pub is_any : Dict PartialTakeProfitState → Bool
is_any [] = false
is_any (s ∷ d) = true

unfoldable pub maintain :
    PartialTakeProfitManager
    → Dict TrailingPosition
    → Dict SymbolRules
    → Option (List String)
    → PartialTakeProfitManager × List PartialProblem
maintain m positions rules open_symbols =
    let loaded = load m in
    let observed = observed_symbols open_symbols positions in
    let closed = sorted_items (closed_states observed loaded.states) in
    let left = record loaded {
      states = open_states observed loaded.states;
      events = loaded.events ++ record_closed closed;
    } in
    maintain_open rules (sorted_items positions) left [] (is_any closed)
