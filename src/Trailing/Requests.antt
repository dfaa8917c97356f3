-- ===== src/Trailing/Requests.antt =====
-- What `_maintain_profile` asks of the broker.
use candlepilot.Prelude.{if_equal, Bool, true, false, Option, ◌≡◌, refl, arith, pos, ◌<ℤ◌}
use candlepilot.Decimal.{Decimal}
use candlepilot.Outcome.{Result, ok, err}
use candlepilot.Risk.{value_or}
use candlepilot.Risk.Facts.{LossSide}
use candlepilot.Trailing.{
  failed, refused, replaced, Replacement, Mode, off, shadow, live, TrailingPosition,
  TrailingStopProfile, TrailingProfileState, TrailingStopState, Broker,
}
use candlepilot.Trailing.Profile.{
  Decision, keep, miss, move, decide, settle_replacement, act, move_stop, trail, trail_to, activate,
  activates, crosses, maintain_profile, valid_side,
}
use candlepilot.Trailing.Ratchet.{improves-LossSide}

module _ (position : TrailingPosition) (state : TrailingStopState) (tick : Decimal)
    (profile : TrailingStopProfile) (stop : Decimal) where
  -- Two brokers that answer alike to a price that is a tick off the mark and tighter than the
  -- reference stop.
  abbrev pub Agree : Broker → Broker → Option Decimal → Type 0
  Agree first second last =
      (c : Decimal)
      → valid_side position state position.side tick c ≡ true
      → LossSide position.side (value_or last stop) c
      → first position.symbol position.side c ≡ second position.symbol position.side c

  -- The price of a decision to move the stop.
  abbrev Asks : Decision position state → Decimal → Type 0
  Asks (move c') c = c' ≡ c
  Asks _ c = ⊥

  decide-Asks :
      (progress : TrailingProfileState) (candidate c : Decimal)
      → pos 0 <ℤ tick
      → Asks (decide position state tick profile progress stop candidate) c
      → (c ≡ candidate)
        × (valid_side position state position.side tick candidate ≡ true)
        × LossSide position.side (value_or progress.last_candidate stop) candidate
  unfolding decide
  decide-Asks progress candidate c h w = ground (
    arith,
    improves-LossSide position state position.side tick candidate
        (value_or progress.last_candidate stop) h,
  )

  module _ (mode : Mode) (first second : Broker) where
    settle-Agree :
        (progress : TrailingProfileState) (c : Decimal) (r : Replacement)
        → settle_replacement mode first position tick state profile progress c r
          ≡ settle_replacement mode second position tick state profile progress c r
    unfolding settle_replacement
    settle-Agree progress c (replaced previous current) = refl
    settle-Agree progress c (refused true) = refl
    settle-Agree progress c (refused false) = refl
    settle-Agree progress c (failed x) = refl

    move_stop-Agree :
        (m : Mode) (progress : TrailingProfileState) (c : Decimal)
        → first position.symbol position.side c ≡ second position.symbol position.side c
        → move_stop mode first position tick state profile m progress c
          ≡ move_stop mode second position tick state profile m progress c
    move_stop-Agree shadow progress c e = refl
    move_stop-Agree off progress c e = rw e (settle-Agree progress c _)
    move_stop-Agree live progress c e = rw e (settle-Agree progress c _)

    act-Agree :
        (progress : TrailingProfileState) (changed : Bool) (d : Decision position state)
        → ((c : Decimal)
            → Asks d c
            → first position.symbol position.side c ≡ second position.symbol position.side c)
        → act mode first position tick state profile progress changed d
          ≡ act mode second position tick state profile progress changed d
    unfolding act
    act-Agree progress changed keep h = refl
    act-Agree progress changed (miss c) h = refl
    act-Agree progress changed (move c) h = move_stop-Agree mode progress c (h c refl)

    trail_to-Agree :
        (progress : TrailingProfileState) (changed : Bool) (r : Result Decimal)
        → pos 0 <ℤ tick
        → Agree first second progress.last_candidate
        → trail_to mode first position tick state profile progress changed stop r
          ≡ trail_to mode second position tick state profile progress changed stop r
    trail_to-Agree progress changed (err e) h agree = refl
    trail_to-Agree progress changed (ok candidate) h agree = act-Agree progress changed _ (λ c asks.
        let f = decide-Asks progress candidate c h asks in agree c (rw f.0 f.1) (rw f.0 f.2))

    trail-Agree :
        (progress : TrailingProfileState) (changed : Bool)
        → pos 0 <ℤ tick
        → Agree first second progress.last_candidate
        → trail mode first position tick state profile progress changed stop
          ≡ trail mode second position tick state profile progress changed stop
    unfolding trail
    trail-Agree progress changed h agree = trail_to-Agree progress changed _ h agree

    -- With a positive tick, a step of a profile asks of the broker at most a price that is at least
    -- a tick off the mark, on the stop's side, and strictly tighter than the reference stop: two
    -- brokers that answer alike to those prices of the position's symbol give the same step.
    pub maintain_profile_asks :
        (progress : TrailingProfileState)
        → pos 0 <ℤ tick
        → Agree first second progress.last_candidate
        → maintain_profile mode first position tick state profile progress stop
          ≡ maintain_profile mode second position tick state profile progress stop
    unfolding maintain_profile activate
    maintain_profile_asks progress h agree = if_equal progress.simulated_triggered refl (
        if_equal (crosses mode first position tick state profile mode progress.last_candidate) refl
          (if_equal progress.active (trail-Agree progress false h agree) (
            if_equal (activates mode first position tick state profile)
              (trail-Agree (record progress { active = true }) true h agree) refl)))
