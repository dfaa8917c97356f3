-- ===== src/Trailing/Shadow.antt =====
-- `maintain` in shadow mode, under two brokers.
use candlepilot.Prelude.{
  ◌||◌, ap, if_branches, ◌∙◌, inr, inl, Option-cases, String, Bool, true, false, Option, none, some,
  List, [], ◌∷◌, ◌++◌, ◌≡◌, refl, lookup, if_equal,
}
use candlepilot.Prelude.Assoc.{Dict}
use candlepilot.Decimal.{Decimal}
use candlepilot.Outcome.{Result, ok, err}
use candlepilot.Risk.{SymbolRules}
use candlepilot.Trailing.{
  Ending, raised, done, replacement_refused, critical, shadow, TrailingPosition,
  TrailingStopProfile, TrailingProfileState, TrailingStopState, Broker, Event, profiles_of,
}
use candlepilot.Trailing.Profile.{
  Decision, keep, miss, move, act, trail, trail_to, activate, activates, crosses, maintain_profile,
}
use candlepilot.Trailing.Position.{
  changed_by, profile_step, run_profiles, run_state, maintain_measured, maintain_stopped,
  maintain_position,
}
use candlepilot.Trailing.Store.{load_stored, Stored, load, TrailingStopManager}
use candlepilot.Trailing.Manager.{
  problems_of, critical_stop, MaintainResult, with_symbol, log_ending, unless_critical,
  sorted_items, is_off, Problem, maintain_all, maintain,
}

load_stored-mode :
    (m : TrailingStopManager) (stored : Option Stored) → (load_stored m stored).mode ≡ m.mode
load_stored-mode m none = refl
load_stored-mode m (some stored) = refl

pub load-mode : (m : TrailingStopManager) → (load m).mode ≡ m.mode
unfolding load
load-mode m =
    if_branches (λ (x : TrailingStopManager). x.mode ≡ m.mode) m.loaded (λ _. refl)
      (λ _. load_stored-mode m m.stored)

pub log_ending-mode :
    (m : TrailingStopManager) (position : TrailingPosition) (state : Option TrailingStopState)
    (e : Ending)
    → (log_ending m position state e).mode ≡ m.mode
log_ending-mode m position state (done c) = refl
log_ending-mode m position state (raised e) = refl
log_ending-mode m position state replacement_refused = refl
log_ending-mode m position state critical = refl

module _ (first second : Broker) where
  module _ (position : TrailingPosition) (tick stop : Decimal) where
    module _ (state : TrailingStopState) (profile : TrailingStopProfile) where
      act-shadow :
          (progress : TrailingProfileState) (changed : Bool) (d : Decision position state)
          → act shadow first position tick state profile progress changed d
            ≡ act shadow second position tick state profile progress changed d
      unfolding act
      act-shadow progress changed keep = refl
      act-shadow progress changed (miss c) = refl
      act-shadow progress changed (move c) = refl

      trail_to-shadow :
          (progress : TrailingProfileState) (changed : Bool) (r : Result Decimal)
          → trail_to shadow first position tick state profile progress changed stop r
            ≡ trail_to shadow second position tick state profile progress changed stop r
      trail_to-shadow progress changed (err e) = refl
      trail_to-shadow progress changed (ok candidate) = act-shadow progress changed _

      maintain_profile-shadow :
          (progress : TrailingProfileState)
          → maintain_profile shadow first position tick state profile progress stop
            ≡ maintain_profile shadow second position tick state profile progress stop
      unfolding maintain_profile activate trail
      maintain_profile-shadow progress = if_equal progress.simulated_triggered refl (
          if_equal (crosses shadow first position tick state profile shadow progress.last_candidate)
            refl
            (if_equal progress.active (trail_to-shadow progress false _) (
              if_equal (activates shadow first position tick state profile)
                (trail_to-shadow (record progress { active = true }) true _) refl)))

    profile_step-shadow :
        (p : TrailingStopProfile) (state : TrailingStopState) (progress : TrailingProfileState)
        → profile_step shadow first position tick stop p state progress
          ≡ profile_step shadow second position tick stop p state progress
    unfolding profile_step
    profile_step-shadow p state progress = maintain_profile-shadow state p progress

    run_profiles-shadow :
        (ps : List TrailingStopProfile) (state : TrailingStopState) (events : List Event)
        (changed : Bool)
        → run_profiles shadow first position tick stop ps state events changed
          ≡ run_profiles shadow second position tick stop ps state events changed
    unfolding run_profiles
    run_profiles-shadow [] state events changed = refl
    run_profiles-shadow (p ∷ ps) state events changed =
        elim (Option-cases (lookup p.profile_id state.profiles)) [
          | inl e ↦ rw (run_profiles, e) refl
          | inr (progress, e) ↦
              rw (run_profiles, e, profile_step-shadow p state progress, run_profiles-shadow ps)
                refl
        ]

    run_state-shadow :
        (measured : TrailingStopState × Bool)
        → run_state shadow first position tick stop measured
          ≡ run_state shadow second position tick stop measured
    unfolding run_state
    run_state-shadow measured = run_profiles-shadow (profiles_of shadow) _ _ _

  maintain_measured-shadow :
      (position : TrailingPosition) (tick stop : Decimal) (existing : Option TrailingStopState)
      (r : Result (TrailingStopState × Bool))
      → maintain_measured shadow first position tick stop existing r
        ≡ maintain_measured shadow second position tick stop existing r
  unfolding maintain_measured
  maintain_measured-shadow position tick stop existing (err e) = refl
  maintain_measured-shadow position tick stop existing (ok measured) =
      rw (run_state-shadow position tick stop measured) refl

  maintain_stopped-shadow :
      (position : TrailingPosition) (tick : Decimal) (existing : Option TrailingStopState)
      (stop : Option Decimal)
      → maintain_stopped shadow first position tick existing stop
        ≡ maintain_stopped shadow second position tick existing stop
  unfolding maintain_stopped
  maintain_stopped-shadow position tick existing none = refl
  maintain_stopped-shadow position tick existing (some stop) =
      maintain_measured-shadow position tick stop existing _

  maintain_position-shadow :
      (position : TrailingPosition) (tick : Decimal) (existing : Option TrailingStopState)
      → maintain_position shadow first position tick existing
        ≡ maintain_position shadow second position tick existing
  unfolding maintain_position
  maintain_position-shadow position tick existing =
      maintain_stopped-shadow position tick existing position.stop_loss

  module _ (rules : Dict SymbolRules) where
    maintain_all-shadow :
        (positions : Dict TrailingPosition) (m : TrailingStopManager) (problems : List Problem)
        (changed : Bool)
        → m.mode ≡ shadow
        → maintain_all first rules positions m problems changed
          ≡ maintain_all second rules positions m problems changed
    unfolding maintain_all
    maintain_all-shadow [] m problems changed e = refl
    maintain_all-shadow ((symbol, position) ∷ rest) m problems changed e =
        elim (Option-cases (lookup symbol rules)) [
          | inl none_of ↦ rw (maintain_all, none_of) (maintain_all-shadow rest m _ changed e)
          | inr (rule, found) ↦
              let step =
                maintain_position shadow second position rule.tick_size
                  (lookup position.symbol m.states) in
              let after = with_symbol (record m { mode = shadow }) position step in
              rw
                (
                  maintain_all,
                  found,
                  e,
                  maintain_position-shadow position rule.tick_size
                      (lookup position.symbol m.states),
                )
                (ap
                  (λ (x : TrailingStopManager × MaintainResult).
                    unless_critical step.ending x (after, critical_stop))
                  (maintain_all-shadow rest (log_ending after position step.state step.ending)
                    (problems ++ problems_of symbol step.ending) (changed || changed_by step.ending)
                    (log_ending-mode after position step.state step.ending)))
        ]

  -- In shadow mode `maintain` has the same result, states, events and stored text whatever the
  -- broker would answer.
  pub maintain_ignores_broker :
      (m : TrailingStopManager) (positions : Dict TrailingPosition) (rules : Dict SymbolRules)
      (open_symbols : Option (List String))
      → m.mode ≡ shadow
      → maintain m first positions rules open_symbols
        ≡ maintain m second positions rules open_symbols
  unfolding maintain
  maintain_ignores_broker m positions rules open_symbols e =
      if_equal (is_off m.mode) refl
        (maintain_all-shadow rules (sorted_items positions) _ [] _ (load-mode m ∙ e))
