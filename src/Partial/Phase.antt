-- ===== src/Partial/Phase.antt =====
-- The phases of a partial-profit profile, and the steps that `_maintain_profile` takes between them.
use mathlib.Core.Path.{subst}
use candlepilot.Prelude.{
  sym, true, false, some, ◌≡◌, refl, arith, pos, ◌<ℤ◌, ◌≤ℤ◌, ltb_ℤ, leb_ℤ, ◌||◌, if_branches,
}
use candlepilot.Decimal.{Decimal, sub}
use candlepilot.Decimal.Order.{sub_pos-lt}
use candlepilot.Outcome.{Result, ok, err}
use candlepilot.Risk.{SymbolRules}
use candlepilot.Trailing.{TrailingPosition}
use candlepilot.Partial.{
  PartialTakeProfitProfile, PartialTakeProfitProgress, PartialTakeProfitState, fresh_progress,
}
use candlepilot.Partial.Profile.{
  PartialStep, quiet, minimum, take_partial, split_position, close_rest, close_at_breakeven,
  maintain_profile, breakeven_crossed, target_price,
}

pub data Phase : Type 0 where
  watching : Phase
  unviable : Phase
  split : Decimal → Phase
  closed : Decimal → Phase

abbrev pub split_progress : Decimal → Decimal → PartialTakeProfitProgress
split_progress q pnl = record {
  partial_triggered = true;
  breakeven_triggered = false;
  unviable = false;
  partial_quantity = some q;
  partial_gross_pnl = pnl;
}

abbrev pub closed_progress : Decimal → Decimal → PartialTakeProfitProgress
closed_progress q pnl = record (split_progress q pnl) { breakeven_triggered = true }

-- A progress that stands in a phase: only the partial fill's profit is free, once there is one.
abbrev pub InPhase : PartialTakeProfitProgress → Phase → Type 0
InPhase p watching = p ≡ fresh_progress
InPhase p unviable = p ≡ record fresh_progress { unviable = true }
InPhase p (split q) = p ≡ split_progress q p.partial_gross_pnl
InPhase p (closed q) = p ≡ closed_progress q p.partial_gross_pnl

-- The steps of a profile on a position of a quantity, at a venue's minimum: a partial fill is at
-- least the minimum and leaves a rest, only a split position closes at breakeven, and two phases are
-- final.
pub data Steps (minimum quantity : Decimal) : Phase → Phase → Type 0 where
  rests : (phase : Phase) → Steps minimum quantity phase phase
  gives_up : Steps minimum quantity watching unviable
  splits : (q : Decimal) → minimum ≤ℤ q → q <ℤ quantity → Steps minimum quantity watching (split q)
  closes : (q : Decimal) → Steps minimum quantity (split q) (closed q)

module _ (position : TrailingPosition) (rules : SymbolRules) (state : PartialTakeProfitState)
    (profile : PartialTakeProfitProfile) where
  abbrev pub Reaches : Phase → PartialTakeProfitProgress → Type 0
  Reaches before after =
      (phase : Phase) × InPhase after phase
      × Steps (minimum position rules state profile) state.quantity before phase

  splits_enough :
      (q : Decimal)
      → (ltb_ℤ q (minimum position rules state profile) || leb_ℤ (sub state.quantity q) (pos 0))
        ≡ false
      → (minimum position rules state profile ≤ℤ q) × (q <ℤ state.quantity)
  splits_enough q h = (ground arith, sub_pos-lt q state.quantity (ground arith))

  take_partial-Reaches :
      (q : Decimal) (target : Result Decimal)
      → minimum position rules state profile ≤ℤ q
      → q <ℤ state.quantity
      → Reaches watching
          (take_partial position rules state profile fresh_progress q target).progress
  take_partial-Reaches q (err e) enough less = (watching, refl, rests watching)
  take_partial-Reaches q (ok target) enough less =
      if_branches (λ (s : PartialStep). Reaches watching s.progress) _
        (λ _. (split q, refl, splits q enough less)) (λ _. (watching, refl, rests watching))

  split_position-Reaches :
      (r : Result Decimal)
      → Reaches watching (split_position position rules state profile fresh_progress r).progress
  split_position-Reaches (err e) = (watching, refl, rests watching)
  split_position-Reaches (ok q) =
      if_branches (λ (s : PartialStep). Reaches watching s.progress) _
        (λ _. (unviable, refl, gives_up))
        (λ large. let f = splits_enough q large in take_partial-Reaches q _ f.0 f.1)

  close_rest-Reaches :
      (after : PartialTakeProfitProgress) (q pnl : Decimal) (target : Result Decimal)
      → InPhase after (closed q)
      → Reaches (split q) (close_rest position rules state profile after pnl target).progress
  close_rest-Reaches after q pnl (err e) h = (closed q, h, closes q)
  close_rest-Reaches after q pnl (ok target) h = (closed q, h, closes q)

  close_at_breakeven-Reaches :
      (q pnl : Decimal)
      → Reaches
          (split q)
          (close_at_breakeven position rules state profile (split_progress q pnl)).progress
  close_at_breakeven-Reaches q pnl =
      close_rest-Reaches (closed_progress q pnl) q _ (target_price state profile rules.tick_size)
        refl

  split_progress-Reaches :
      (q pnl : Decimal)
      → Reaches
          (split q)
          (maintain_profile position rules state profile (split_progress q pnl)).progress
  unfolding maintain_profile
  split_progress-Reaches q pnl =
      if_branches (λ (s : PartialStep). Reaches (split q) s.progress)
        (breakeven_crossed position.side position.mark_price state.entry_price)
        {x = close_at_breakeven position rules state profile (split_progress q pnl)}
        {y = quiet (split_progress q pnl) (ok false)} (λ _. close_at_breakeven-Reaches q pnl)
        (λ _. (split q, refl, rests (split q)))

  closed_progress-Reaches :
      (q pnl : Decimal)
      → Reaches
          (closed q)
          (maintain_profile position rules state profile (closed_progress q pnl)).progress
  unfolding maintain_profile
  closed_progress-Reaches q pnl = (closed q, refl, rests (closed q))

  -- A profile's step from a phase is one of these steps, whatever the mark and the venue's rules:
  -- a partial fill reaches the venue's minimum and is less than the position, a fill at breakeven
  -- follows a partial one, and a profile that is unviable or closed stays as it is.
  pub maintain_profile_steps :
      (progress : PartialTakeProfitProgress) (phase : Phase)
      → InPhase progress phase
      → Reaches phase (maintain_profile position rules state profile progress).progress
  unfolding maintain_profile
  maintain_profile_steps progress watching h = rw h (split_position-Reaches _)
  maintain_profile_steps progress unviable h = rw h (unviable, refl, rests unviable)
  maintain_profile_steps progress (split q) h =
      subst
        (λ (p : PartialTakeProfitProgress).
          Reaches (split q) (maintain_profile position rules state profile p).progress)
        (sym h) (split_progress-Reaches q progress.partial_gross_pnl)
  maintain_profile_steps progress (closed q) h =
      subst
        (λ (p : PartialTakeProfitProgress).
          Reaches (closed q) (maintain_profile position rules state profile p).progress)
        (sym h) (closed_progress-Reaches q progress.partial_gross_pnl)
