-- ===== src/Rejected/Bars.antt =====
-- About one bar in `evaluate_rejected_decision`.
use mathlib.Core.Path.{subst, subst⁻¹}
use candlepilot.Prelude.{
  Option, ℕ, ◌≡◌, refl, arith, Bool, true, false, some, ◌||◌, ◌&&◌, not, if_branches, inl, inr,
  if◌then◌else◌,
}
use candlepilot.Decimal.{Decimal}
use candlepilot.Time.{Datetime, before}
use candlepilot.Outcome.{ok, assertion_error, require, ◌>>=◌}
use candlepilot.Outcomes.{Kline}
use candlepilot.Outcomes.Evaluate.{touches}
use candlepilot.Rejected.{PriceBasis, RejectedDecisionPlan, State, is_limit}
use candlepilot.Rejected.Evaluate.{expiry, end_of, unentered_bar, active_bar, rejected_bar}
use candlepilot.Rejected.Sure.{
  Gives, require-Gives, expired_by, decided_by, entered_by, Idle, Held, HeldStep, Priced,
}

pub late_limit : (now_active late : Bool) → (not now_active && late) ≡ true → now_active ≡ false
late_limit true late h = absurd (cc)
late_limit false late h = refl

crossed : (a b c : Bool) → (a && (b || c)) ≡ true → (a ≡ true) × ((b || c) ≡ true)
crossed true b c h = (refl, h)
crossed false b c h = absurd (cc)

both_exits : (a b c : Bool) → (not a && b && c) ≡ true → (b && c) ≡ true
both_exits a b c h = ground arith

stop_first :
    (a b c : Bool)
    → (not a && b && c) ≡ false
    → (not a && b) ≡ true
    → (a ≡ false) × (b ≡ true) × (c ≡ false)
stop_first a b c h k = (ground arith, ground arith, ground arith)

target_first :
    (a b c : Bool)
    → (not a && b) ≡ false
    → (not a && c) ≡ true
    → (a ≡ false) × (b ≡ false) × (c ≡ true)
target_first a b c h k = (ground arith, ground arith, ground arith)

not_target : (b c : Bool) → (b && c) ≡ false → b ≡ true → c ≡ false
not_target b c h k = ground arith

pub late_bar : (now_active late : Bool) → (not now_active && late) ≡ true → late ≡ true
late_bar true late h = absurd (cc)
late_bar false late h = h

module _ (B : Bool → Kline → Type 0) (plan : RejectedDecisionPlan) (started : Datetime)
    (basis : PriceBasis) (observation_end : Option Datetime) where
  unentered_bar-HeldStep :
      (price : Decimal) (is_minute : Bool) (s : State) (bar : Kline) (n : ℕ)
      → plan.entry_price ≡ some price
      → before (expiry plan) (end_of is_minute bar) ≡ false
      → B is_minute bar
      → (Held B plan observation_end) s
      → (HeldStep B plan observation_end) (unentered_bar plan started basis price s bar n)
  unfolding unentered_bar
  unentered_bar-HeldStep price is_minute s bar n named in_time b h =
      let a = touches bar price in
      let stop = touches bar plan.stop_loss in
      let target = touches bar plan.take_profit in
      if_branches (HeldStep B plan observation_end) (a && (stop || target))
        (λ c.
          let parts = crossed a stop target c in
          (h, (decided_by bar is_minute b refl (inr ((price, named, parts.0), parts.1)), h.1)))
        (λ _.
          if_branches (HeldStep B plan observation_end) (not a && stop && target)
            (λ c. (h, (decided_by bar is_minute b refl (inl (both_exits a stop target c)), h.1)))
            (λ one.
              if_branches (HeldStep B plan observation_end) (not a && stop)
                (λ c.
                  let parts = stop_first a stop target one c in
                  (
                    h,
                    (
                      decided_by bar is_minute b refl ((price, named, parts.0), parts.1, parts.2),
                      h.1,
                    ),
                  ))
                (λ no_stop.
                  if_branches (HeldStep B plan observation_end) (not a && target)
                    (λ c.
                      let parts = target_first a stop target no_stop c in
                      (
                        h,
                        (
                          decided_by bar is_minute b refl
                              ((price, named, parts.0), parts.1, parts.2),
                          h.1,
                        ),
                      ))
                    (λ _.
                      if_branches (HeldStep B plan observation_end) a
                        (λ c. ((tt, entered_by bar is_minute b (price, named, c) in_time refl), tt))
                        (λ _. (h, tt))))))

  active_bar-HeldStep :
      (is_minute : Bool) (s : State) (bar : Kline) (n : ℕ)
      → B is_minute bar
      → (Held B plan observation_end) s
      → (HeldStep B plan observation_end) (active_bar plan started basis s bar n)
  unfolding active_bar
  active_bar-HeldStep is_minute s bar n b h =
      let stop = touches bar plan.stop_loss in
      let target = touches bar plan.take_profit in
      if_branches (HeldStep B plan observation_end) (stop && target)
        (λ c. (h, (decided_by bar is_minute b refl (inl c), h.1)))
        (λ one.
          if_branches (HeldStep B plan observation_end) stop
            (λ c. (h, (decided_by bar is_minute b refl (c, not_target stop target one c), h.1)))
            (λ no_stop.
              if_branches (HeldStep B plan observation_end) target
                (λ c. (h, (decided_by bar is_minute b refl (no_stop, c), h.1))) (λ _. (h, tt))))

  idle_price :
      (Priced B plan observation_end)
      → is_limit plan.order_type ≡ true
      → (price : Decimal) × (plan.entry_price ≡ some price)
  idle_price (inl at_market) idle = absurd (cc)
  idle_price (inr named) idle = named

  entered_or_not :
      (is_minute now_active : Bool) (s : State) (bar : Kline) (n : ℕ)
      → (Priced B plan observation_end)
      → now_active ≡ s.active
      → (not now_active && before (expiry plan) (end_of is_minute bar)) ≡ false
      → B is_minute bar
      → (Held B plan observation_end) s
      → Gives (HeldStep B plan observation_end) (
          if now_active
          then ok (active_bar plan started basis s bar n)
          else (require plan.entry_price assertion_error >>= λ price.
              ok (unentered_bar plan started basis price s bar n)))
  entered_or_not is_minute true s bar n priced e in_time b h =
      active_bar-HeldStep is_minute s bar n b h
  entered_or_not is_minute false s bar n priced e in_time b h =
      let named = idle_price priced (subst⁻¹ (Idle B plan observation_end) e h.0) in
      require-Gives (HeldStep B plan observation_end) plan.entry_price named.0
        (λ price. ok (unentered_bar plan started basis price s bar n)) named.1
        (unentered_bar-HeldStep named.0 is_minute s bar n named.1 in_time b h)

  pub rejected_bar-HeldStep :
      (is_minute : Bool) (s : State) (bar : Kline) (n : ℕ)
      → (Priced B plan observation_end)
      → B is_minute bar
      → (Held B plan observation_end) s
      → Gives (HeldStep B plan observation_end) (rejected_bar plan started basis is_minute s bar n)
  unfolding rejected_bar
  rejected_bar-HeldStep is_minute s bar n priced b h =
      let bar_end = end_of is_minute bar in
      let late = before (expiry plan) bar_end in
      if_branches (Gives (HeldStep B plan observation_end)) (not s.active && late)
        (λ c.
          let told =
            expired_by bar is_minute b (late_bar s.active late c) refl refl
              (subst (Idle B plan observation_end) (late_limit s.active late c) h.0) in
          (h, (told, h.1)))
        (λ in_time.
          entered_or_not is_minute s.active (record s { observed_until = some bar_end }) bar n
            priced refl in_time b h)
