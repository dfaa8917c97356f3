-- ===== src/Risk/Trace.antt =====
-- An evaluation that returns, taken apart into what each stage of `evaluate` returned.
use candlepilot.Prelude.{String, Bool, Option, ◌≡◌, lookup}
use candlepilot.Decimal.{Decimal}
use candlepilot.Time.{Datetime}
use candlepilot.Outcome.{ok}
use candlepilot.Flow.{returned, next, run}
use candlepilot.Flow.Inversion.{stage}
use candlepilot.Domain.{
  TradeIntent, MarketSnapshot, PortfolioState, PositionState, Side, StructureAssessment, is_add,
}
use candlepilot.Risk.{AggressiveRiskPolicy, RiskEvaluation, SymbolRules}
use candlepilot.Risk.Permission.{
  check_request, dispatch_action, check_limits, check_reentry, requested_side, check_structure,
}
use candlepilot.Risk.Levels.{entry_levels, EntryLevels}
use candlepilot.Risk.Sizing.{sized_quantity}
use candlepilot.Risk.Evaluate.{reward_risk_entry, check_reward, accept, plan_entry, evaluate}
use candlepilot.Risk.Refusals.{
  Refused, check_request-Refuses, check_limits-Refuses, check_reentry-Refuses,
  requested_side-Refuses, check_structure-Refuses, entry_levels-Refuses, sized_quantity-Refuses,
  reward_risk_entry-Refuses, check_reward-Refuses,
}

module _ (p : AggressiveRiskPolicy) (order_id : String) (i : TradeIntent) (s : MarketSnapshot)
    (f : PortfolioState) (rules : SymbolRules) (now : Datetime) where
  abbrev pub held_position : Option PositionState
  held_position = lookup i.symbol f.positions

  -- The stages of an entry up to its side, and those that plan the order.
  pub record Permitted (side : Side) (assessment : Option StructureAssessment) : Type 0 where
    pub requested : check_request i s now ≡ next tt
    pub dispatched : dispatch_action order_id i rules held_position i.action ≡ next tt
    pub limited : check_limits p i s f now ≡ next tt
    pub reentered : check_reentry i f now ≡ next tt
    pub sided : requested_side i.action i.leverage held_position ≡ next side
    pub structured : check_structure p i s side ≡ next assessment

  pub record Planned (side : Side) (assessment : Option StructureAssessment) (ev : RiskEvaluation)
      : Type 0 where
    pub levels : EntryLevels
    pub size : Decimal × Bool
    pub measured : Decimal
    pub ratio : Option Decimal
    pub leveled : entry_levels p i s rules held_position side ≡ next levels
    pub sized : sized_quantity p i s f rules held_position side levels ≡ next size
    pub averaged :
        reward_risk_entry (is_add i.action) held_position levels.entry size.0 ≡ next measured
    pub rewarded :
        check_reward p side measured levels.stop levels.take_profit assessment ≡ next ratio
    pub accepted :
        run (accept order_id i s rules side levels size measured ratio assessment) ≡ ok ev

  -- How an evaluation ends: refused at some stage, ended by its action, or planned to the end.
  pub data Ending (ev : RiskEvaluation) : Type 0 where
    refused : Refused ev → Ending ev
    ended : dispatch_action order_id i rules held_position i.action ≡ returned ev → Ending ev
    entered :
        (side : Side) (assessment : Option StructureAssessment)
        → Permitted side assessment
        → Planned side assessment ev
        → Ending ev

  plan_ending :
      (side : Side) (assessment : Option StructureAssessment) (ev : RiskEvaluation)
      → Permitted side assessment
      → run (plan_entry p order_id i s f rules held_position side assessment) ≡ ok ev
      → Ending ev
  unfolding plan_entry
  plan_ending side a ev permitted h =
      stage (entry_levels p i s rules held_position side) _ h
        (λ e. refused (entry_levels-Refuses p i s rules held_position side ev e))
        λ levels e1 h1.
          stage (sized_quantity p i s f rules held_position side levels) _ h1
            (λ e. refused (sized_quantity-Refuses p i s f rules held_position side levels ev e))
            λ size e2 h2.
              stage (reward_risk_entry (is_add i.action) held_position levels.entry size.0) _ h2
                (λ e. refused (reward_risk_entry-Refuses _ held_position levels.entry size.0 ev e))
                λ measured e3 h3.
                  stage (check_reward p side measured levels.stop levels.take_profit a) _ h3
                    (λ e. refused (check_reward-Refuses p side measured levels.stop _ a ev e))
                    λ ratio e4 h4. entered side a permitted (record {
                      levels = levels;
                      size = size;
                      measured = measured;
                      ratio = ratio;
                      leveled = e1;
                      sized = e2;
                      averaged = e3;
                      rewarded = e4;
                      accepted = h4;
                    })

  -- Every evaluation that returns has one of the three endings.
  pub evaluate_ending :
      (ev : RiskEvaluation) → evaluate p order_id i s f rules now ≡ ok ev → Ending ev
  unfolding evaluate
  evaluate_ending ev h =
      stage (check_request i s now) _ h (λ e. refused (check_request-Refuses i s now ev e))
        λ _ e1 h1.
          stage (dispatch_action order_id i rules held_position i.action) _ h1 (λ e. ended e)
            λ _ e2 h2.
              stage (check_limits p i s f now) _ h2
                (λ e. refused (check_limits-Refuses p i s f now ev e))
                λ _ e3 h3.
                  stage (check_reentry i f now) _ h3
                    (λ e. refused (check_reentry-Refuses i f now ev e))
                    λ _ e4 h4.
                      stage (requested_side i.action i.leverage held_position) _ h4
                        (λ e. refused (requested_side-Refuses _ _ held_position ev e))
                        λ side e5 h5.
                          stage (check_structure p i s side) _ h5
                            (λ e. refused (check_structure-Refuses p i s side ev e))
                            λ a e6 h6.
                              plan_ending side a ev
                                (record {
                                  requested = e1;
                                  dispatched = e2;
                                  limited = e3;
                                  reentered = e4;
                                  sided = e5;
                                  structured = e6;
                                })
                                h6
