-- ===== src/Trailing/Ratchet.antt =====
-- What one step of a profile does to its trailing stop.
use candlepilot.Prelude.{
  String, Bool, true, false, Option, some, ◌≡◌, refl, arith, pos, ◌<ℤ◌, ltb_ℤ,
}
use candlepilot.Decimal.{Decimal}
use candlepilot.Decimal.Order.{sub_pos-lt}
use candlepilot.Outcome.{Result, ok, err}
use candlepilot.Domain.{Side, long, short}
use candlepilot.Risk.{value_or}
use candlepilot.Risk.Facts.{LossSide, Tightened}
use candlepilot.Trailing.{
  Mode, off, shadow, live, TrailingPosition, TrailingStopProfile, TrailingProfileState,
  TrailingStopState, Broker, Replacement, replaced, refused, failed,
}
use candlepilot.Trailing.Profile.{
  trail_to, move_stop, Decision, keep, miss, move, decide, settle_replacement, act, trail,
  improvement, minimum_step,
}

module _ (position : TrailingPosition) (state : TrailingStopState) where
  -- The two decisions that change the candidate, at a candidate.
  abbrev pub Wants : Decision position state → Decimal → Type 0
  Wants keep c = ⊥
  Wants (miss c') c = c' ≡ c
  Wants (move c') c = c' ≡ c

  pub improves-LossSide :
      (side : Side) (tick candidate reference : Decimal)
      → pos 0 <ℤ tick
      → ltb_ℤ
          (improvement position state side candidate reference)
          (minimum_step position state tick)
        ≡ false
      → LossSide side reference candidate
  improves-LossSide long tick candidate reference h e =
      sub_pos-lt reference candidate (ground arith)
  improves-LossSide short tick candidate reference h e =
      sub_pos-lt candidate reference (ground arith)

  -- A candidate that a profile goes for improves on the reference stop.
  pub decide-LossSide :
      (tick : Decimal) (profile : TrailingStopProfile) (progress : TrailingProfileState)
      (stop candidate c : Decimal)
      → pos 0 <ℤ tick
      → Wants (decide position state tick profile progress stop candidate) c
      → (c ≡ candidate) × LossSide position.side (value_or progress.last_candidate stop) candidate
  unfolding decide
  decide-LossSide tick profile progress stop candidate c h w = ground (
    arith,
    improves-LossSide position.side tick candidate (value_or progress.last_candidate stop) h,
  )

-- What the manager relies on: a replacement that succeeds leaves a stop that is at least as tight as
-- the price that was asked for.
abbrev pub Tightens : Broker → Type 0
Tightens broker =
    (symbol : String) (side : Side) (c previous current : Decimal)
    → broker symbol side c ≡ replaced previous current
    → Tightened side c current

-- The candidate stays, or the new one is strictly tighter than the reference stop.
pub data Ratcheted (side : Side) (reference : Decimal) (before after : Option Decimal)
    : Type 0 where
  stays : after ≡ before → Ratcheted side reference before after
  tightens :
      (c : Decimal)
      → after ≡ some c
      → LossSide side reference c
      → Ratcheted side reference before after

Tightened-LossSide :
    (side : Side) (a b c : Decimal) → LossSide side a b → Tightened side b c → LossSide side a c
Tightened-LossSide long a b c h t = omega arith
Tightened-LossSide short a b c h t = omega arith

module _ (position : TrailingPosition) (stop : Decimal) where
  -- A step that only moves the candidate, and only to tighten it.
  pub record Moved (progress after : TrailingProfileState) : Type 0 where
    pub ratchets :
        Ratcheted position.side
          (value_or progress.last_candidate stop)
          progress.last_candidate
          after.last_candidate
    pub same_active : after.active ≡ progress.active
    pub same_fill : after.simulated_triggered ≡ progress.simulated_triggered

  pub stays_put : (progress : TrailingProfileState) → Moved progress progress
  stays_put progress = record { ratchets = stays refl; same_active = refl; same_fill = refl }

  moves_to :
      (progress : TrailingProfileState) (c : Decimal)
      → LossSide position.side (value_or progress.last_candidate stop) c
      → Moved progress (record progress { last_candidate = some c })
  moves_to progress c h = record {
    ratchets = tightens c refl h;
    same_active = refl;
    same_fill = refl;
  }

module _ (mode : Mode) (broker : Broker) (position : TrailingPosition) (tick : Decimal)
    (state : TrailingStopState) (profile : TrailingStopProfile) (stop : Decimal)
    (honest : Tightens broker) (tick_pos : pos 0 <ℤ tick) where
  settle-Moved :
      (progress : TrailingProfileState) (c : Decimal) (r : Replacement)
      → broker position.symbol position.side c ≡ r
      → LossSide position.side (value_or progress.last_candidate stop) c
      → Moved position stop progress
          (settle_replacement mode broker position tick state profile progress c r).progress
  unfolding settle_replacement
  settle-Moved progress c (replaced previous current) e h =
      moves_to position stop progress current (
        Tightened-LossSide position.side _ c current h
          (honest position.symbol position.side c previous current e))
  settle-Moved progress c (refused true) e h = stays_put position stop progress
  settle-Moved progress c (refused false) e h = stays_put position stop progress
  settle-Moved progress c (failed x) e h = stays_put position stop progress

  move_stop-Moved :
      (m : Mode) (progress : TrailingProfileState) (c : Decimal)
      → LossSide position.side (value_or progress.last_candidate stop) c
      → Moved position stop progress
          (move_stop mode broker position tick state profile m progress c).progress
  move_stop-Moved shadow progress c h = moves_to position stop progress c h
  move_stop-Moved off progress c h = settle-Moved progress c _ refl h
  move_stop-Moved live progress c h = settle-Moved progress c _ refl h

  act-Moved :
      (progress : TrailingProfileState) (changed : Bool) (d : Decision position state)
      (candidate : Decimal)
      → ((c : Decimal)
          → Wants position state d c
          → (c ≡ candidate)
            × LossSide position.side (value_or progress.last_candidate stop) candidate)
      → Moved position stop progress
          (act mode broker position tick state profile progress changed d).progress
  unfolding act
  act-Moved progress changed keep candidate h = stays_put position stop progress
  act-Moved progress changed (miss c) candidate h =
      let f = h c refl in moves_to position stop progress c (rw f.0 f.1)
  act-Moved progress changed (move c) candidate h =
      let f = h c refl in move_stop-Moved mode progress c (rw f.0 f.1)

  trail_to-Moved :
      (progress : TrailingProfileState) (changed : Bool) (r : Result Decimal)
      → Moved position stop progress
          (trail_to mode broker position tick state profile progress changed stop r).progress
  trail_to-Moved progress changed (err e) = stays_put position stop progress
  trail_to-Moved progress changed (ok candidate) =
      act-Moved progress changed _ candidate
        (λ c. decide-LossSide position state tick profile progress stop candidate c tick_pos)

  pub trail-Moved :
      (progress : TrailingProfileState) (changed : Bool)
      → Moved position stop progress
          (trail mode broker position tick state profile progress changed stop).progress
  unfolding trail
  trail-Moved progress changed = trail_to-Moved progress changed _
