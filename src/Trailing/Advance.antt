-- ===== src/Trailing/Advance.antt =====
-- `_maintain_profile`: the stop, the activation and the simulated fill over one step of a profile.
use candlepilot.Prelude.{if_branches, ◌∙◌, Bool, true, false, Option, some, ◌≡◌, refl, pos, ◌<ℤ◌}
use candlepilot.Decimal.{Decimal}
use candlepilot.Risk.{value_or}
use candlepilot.Trailing.{
  Mode, shadow, TrailingPosition, TrailingStopProfile, TrailingProfileState, TrailingStopState,
  Broker, trigger_crossed,
}
use candlepilot.Trailing.Profile.{ProfileStep, activate, activates, crosses, maintain_profile}
use candlepilot.Trailing.Ratchet.{Tightens, Ratcheted, stays, Moved, stays_put, trail-Moved}

module _ (mode : Mode) (broker : Broker) (position : TrailingPosition) (tick : Decimal)
    (state : TrailingStopState) (profile : TrailingStopProfile) (stop : Decimal)
    (honest : Tightens broker) (tick_pos : pos 0 <ℤ tick) where
  -- A profile is activated only by an excursion of `activation_r` times R.
  pub data Activated (before after : Bool) : Type 0 where
    same : after ≡ before → Activated before after
    activated :
        before ≡ false
        → after ≡ true
        → activates mode broker position tick state profile ≡ true
        → Activated before after

  -- A simulated fill is final, and comes only in shadow mode, when the mark crosses the candidate.
  pub data Filled (before after : TrailingProfileState) : Type 0 where
    final : before.simulated_triggered ≡ true → after ≡ before → Filled before after
    unfilled :
        before.simulated_triggered ≡ false → after.simulated_triggered ≡ false → Filled before after
    filled :
        (last : Decimal)
        → mode ≡ shadow
        → before.last_candidate ≡ some last
        → trigger_crossed position.side position.mark_price last ≡ true
        → after ≡ record before { simulated_triggered = true }
        → Filled before after

  pub record Advanced (before after : TrailingProfileState) : Type 0 where
    pub ratchets :
        Ratcheted position.side
          (value_or before.last_candidate stop)
          before.last_candidate
          after.last_candidate
    pub activation : Activated before.active after.active
    pub fill : Filled before after

  from_Moved :
      (before after : TrailingProfileState)
      → before.simulated_triggered ≡ false
      → Moved position stop before after
      → Advanced before after
  from_Moved before after e m = record {
    ratchets = m.ratchets;
    activation = same m.same_active;
    fill = unfilled e (m.same_fill ∙ e);
  }

  -- A profile that the step activates goes on as an active one.
  from_activated :
      (progress after : TrailingProfileState)
      → progress.simulated_triggered ≡ false
      → progress.active ≡ false
      → activates mode broker position tick state profile ≡ true
      → Moved position stop (record progress { active = true }) after
      → Advanced progress after
  from_activated progress after e idles up m = record {
    ratchets = m.ratchets;
    activation = activated idles m.same_active up;
    fill = unfilled e (m.same_fill ∙ e);
  }

  activate-Advanced :
      (progress : TrailingProfileState)
      → progress.simulated_triggered ≡ false
      → Advanced progress (activate mode broker position tick state profile progress stop).progress
  unfolding activate
  activate-Advanced progress e =
      let Goal = λ (s : ProfileStep). Advanced progress s.progress in
      if_branches Goal progress.active
        (λ on.
          from_Moved progress _ e (
            trail-Moved mode broker position tick state profile stop honest tick_pos progress
              false))
        λ idles.
          if_branches Goal (activates mode broker position tick state profile)
            (λ up. from_activated progress _ e idles up (
              trail-Moved mode broker position tick state profile stop honest tick_pos
                (record progress { active = true }) true))
            (λ down. from_Moved progress _ e (stays_put position stop progress))

  crosses_filled :
      (m : Mode) (last : Option Decimal)
      → crosses mode broker position tick state profile m last ≡ true
      → (m ≡ shadow)
        × (c : Decimal) × (last ≡ some c)
        × (trigger_crossed position.side position.mark_price c ≡ true)
  crosses_filled shadow (some c) e = (refl, c, refl, e)
  crosses_filled _ _ e = absurd (cc)

  -- One step of a profile, with a broker that does not loosen what it is asked for and a positive
  -- tick: the candidate stays or becomes strictly tighter than the reference stop; the profile is
  -- activated only by an excursion of its multiple of R and stays active; a simulated fill comes
  -- only in shadow mode at a mark that crosses the candidate, and nothing changes after it.
  pub maintain_profile_advances :
      (progress : TrailingProfileState)
      → Advanced progress
          (maintain_profile mode broker position tick state profile progress stop).progress
  unfolding maintain_profile
  maintain_profile_advances progress =
      let Goal = λ (s : ProfileStep). Advanced progress s.progress in
      if_branches Goal progress.simulated_triggered
        (λ past. record { ratchets = stays refl; activation = same refl; fill = final past refl })
        λ e.
          if_branches Goal
            (crosses mode broker position tick state profile mode progress.last_candidate)
            (λ crossed.
              let (in_shadow, last, at, over) =
                crosses_filled mode progress.last_candidate crossed in
              record {
                ratchets = stays refl;
                activation = same refl;
                fill = filled last in_shadow at over refl;
              })
            (λ ahead. activate-Advanced progress e)
