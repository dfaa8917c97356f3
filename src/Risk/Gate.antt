-- ===== src/Risk/Gate.antt =====
-- About the structure gate of `evaluate`: `_assess_structure` where the policy enforces it.
use mathlib.Core.Path.{subst}
use candlepilot.Prelude.{
  true, Option, none, some, List, [], ◌∷◌, ◌≡◌, refl, sym, ◌∙◌, both_true, All, arith,
}
use candlepilot.Decimal.{Decimal}
use candlepilot.Outcome.{Result, ok, err, ◌>>=◌}
use candlepilot.Flow.{next, call}
use candlepilot.Flow.Inversion.{after, call-eq-next, next-injective}
use candlepilot.Domain.{
  TradeIntent, MarketSnapshot, Side, StructureAssessment, StructureCheck, GateMode, enforce,
}
use candlepilot.Risk.{AggressiveRiskPolicy}
use candlepilot.Risk.Structure.{breakout_rejection, structure_reference}
use candlepilot.Risk.Assess.{
  Plan, plan_of, anchor_ok, extension_ok, alignment_ok, trigger_ok, invalidation_ok, plan_checks,
  all_passed, assess_plan, assess_in_mode, assess_structure,
}
use candlepilot.Risk.Permission.{check_structure, check_gate, check_breakout}

chain-ok :
    {V W : Type 0} (r : Result V) (f : V → Result W) {w : W}
    → (r >>= f) ≡ ok w
    → (v : V) × (r ≡ ok v) × (f v ≡ ok w)
chain-ok (ok v) f h = (v, refl, h)
chain-ok (err problem) f h = absurd (cc)

ok_injective : {V : Type 0} {v w : V} → ok v ≡ ok w → v ≡ w
ok_injective h = cc

abbrev pub HasPassed : StructureCheck → Type 0
HasPassed c = c.passed ≡ true

-- The plan of an intent is complete and meets each of the five tests.
pub record GateMet (i : TradeIntent) (s : MarketSnapshot) (side : Side) (a : StructureAssessment)
    : Type 0 where
  pub plan : Plan
  pub reference : Option Decimal
  pub complete : plan_of i ≡ some plan
  pub referred :
      structure_reference s.features plan.prefix side plan.invalidation_type plan.invalidation_level
      ≡ ok reference
  pub anchored : anchor_ok i s side plan ≡ true
  pub not_extended : extension_ok i s side plan ≡ true
  pub aligned : alignment_ok i s side plan ≡ true
  pub triggered : trigger_ok i s side plan ≡ true
  pub invalidated : invalidation_ok i s side plan reference ≡ true
  pub passed : a.passed ≡ true
  pub each_passed : All HasPassed a.checks

-- Where the gate is enforced there is an assessment, and its gate is met.
abbrev pub GatePassed :
    GateMode → TradeIntent → MarketSnapshot → Side → Option StructureAssessment → Type 0
GatePassed enforce i s side none = ⊥
GatePassed enforce i s side (some a) = GateMet i s side a
GatePassed _ i s side a = Unit

all_passed-All : (checks : List StructureCheck) → all_passed checks ≡ true → All HasPassed checks
unfolding all_passed
all_passed-All [] h = tt
all_passed-All (c ∷ checks) h =
    let both = both_true c.passed (all_passed checks) h in (both.0, all_passed-All checks both.1)

module _ (i : TradeIntent) (s : MarketSnapshot) (side : Side) where
  checks-GateMet :
      (plan : Plan) (reference : Option Decimal) (a : StructureAssessment)
      → plan_of i ≡ some plan
      → structure_reference s.features plan.prefix side plan.invalidation_type
          plan.invalidation_level
        ≡ ok reference
      → a.passed ≡ all_passed a.checks
      → a.checks ≡ plan_checks i s side plan reference
      → a.passed ≡ true
      → GateMet i s side a
  unfolding plan_checks
  checks-GateMet plan reference a complete referred told listed passed =
      let each = all_passed-All a.checks (sym told ∙ passed) in
      let known = subst (All HasPassed) listed each in
      record {
        plan = plan;
        reference = reference;
        complete = complete;
        referred = referred;
        anchored = known.1.0;
        not_extended = known.1.1.0;
        aligned = known.1.1.1.0;
        triggered = known.1.1.1.1.0;
        invalidated = known.1.1.1.1.1.0;
        passed = passed;
        each_passed = each;
      }

  plan-GateMet :
      (o : Option Plan) (a : StructureAssessment)
      → plan_of i ≡ o
      → assess_plan enforce i s side o ≡ ok a
      → a.passed ≡ true
      → GateMet i s side a
  unfolding assess_plan
  plan-GateMet none a complete h passed = absurd (ground arith)
  plan-GateMet (some plan) a complete h passed =
      let found =
        chain-ok
          (structure_reference s.features plan.prefix side plan.invalidation_type
            plan.invalidation_level)
          _ h in
      let same = ok_injective found.2 in
      checks-GateMet plan found.0 a complete found.1
        (subst (λ (x : StructureAssessment). x.passed ≡ all_passed x.checks) same refl)
        (subst (λ (x : StructureAssessment). x.checks ≡ plan_checks i s side plan found.0) same
          refl)
        passed

  gate-GatePassed :
      (mode : GateMode) (o : Option StructureAssessment)
      → assess_in_mode mode i s side ≡ ok o
      → check_gate mode o ≡ next tt
      → GatePassed mode i s side o
  gate-GatePassed enforce none h g =
      let found = chain-ok (assess_plan enforce i s side (plan_of i)) (λ a. ok (some a)) h in
      absurd (cc)
  gate-GatePassed enforce (some a) h g =
      let found = chain-ok (assess_plan enforce i s side (plan_of i)) (λ a. ok (some a)) h in
      let same : found.0 ≡ a = cc in
      plan-GateMet (plan_of i) a refl
        (subst (λ (x : StructureAssessment). assess_plan enforce i s side (plan_of i) ≡ ok x) same
          found.1)
        (ground arith)
  gate-GatePassed _ o h g = tt

pub check_structure-GatePassed :
    (p : AggressiveRiskPolicy) (i : TradeIntent) (s : MarketSnapshot) (side : Side)
    (a : Option StructureAssessment)
    → check_structure p i s side ≡ next a
    → GatePassed p.structure_gate_mode i s side a
unfolding check_structure assess_structure
check_structure-GatePassed p i s side a h =
    after (call (assess_structure p i s side)) _ h λ first e1 h1.
      after (check_breakout first (breakout_rejection i s side)) _ h1 λ _ e2 h2.
        after (check_gate p.structure_gate_mode first) _ h2 λ _ e3 h3.
          subst (GatePassed p.structure_gate_mode i s side) (next-injective h3) (
            gate-GatePassed i s side p.structure_gate_mode first
              (call-eq-next (assess_structure p i s side) e1) e3)
