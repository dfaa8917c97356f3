-- ===== src/Risk/Tests.antt =====
-- The theorems on `AggressiveRiskPolicy.evaluate` at runs of it.
use candlepilot.Prelude.{◌⊎◌, negsuc, ◌≤◌, ◌≤ℤ◌, ◌<ℤ◌}
use candlepilot.Time.{elapsed}
use candlepilot.Domain.{Side, is_opening, entry_side}
use candlepilot.Risk.Gate.{GatePassed}
use candlepilot.Risk.Facts.{SideFits}
use candlepilot.Risk.Entry.{
  CooledDown, evaluate_permits, evaluate-SideFits, SizeFits, evaluate_sizes, evaluate_gate,
}
use candlepilot.Risk.Protection.{
  Rewarded, Bracket, evaluate_brackets, Tightens, evaluate_add_tightens, evaluate_reward_floor,
  StopBelowEntry, evaluate_target_risk,
}
use candlepilot.Risk.Verdict.{Verdict, evaluate_verdict}
use candlepilot.Prelude.{true, false, some, ◌≡◌, refl, pos, lookup, arith}
use candlepilot.Decimal.{of_int, sub, mul}
use candlepilot.Time.{seconds}
use candlepilot.Domain.{enforce}
use candlepilot.Risk.Permission.{is_listed}
use candlepilot.Risk.Inputs.{
  policy, rules, at, snapshot, intent, flat, opening_order, opening, holding, more, added_order,
  added, enforcing, planned, mapped, gated_order, gated, half, halved,
}
use candlepilot.Risk.Scenarios.{opens, adds, gates, run-halved}

evaluate_permits_example :
    let age = elapsed (at 910) snapshot.timestamp in
    let window_start = sub flat.equity flat.pnl_24h in
    (is_opening intent.action ≡ true)
    × (negsuc 1999999 ≤ℤ age)
    × (age ≤ℤ seconds policy.max_snapshot_age_seconds)
    × ((window_start ≤ℤ pos 0)
        ⊎ (sub (pos 0) (mul window_start policy.daily_loss_fraction) <ℤ flat.pnl_24h))
    × (intent.leverage ≤ policy.max_leverage)
    × (intent.risk_fraction ≤ℤ policy.max_risk_fraction)
    × (is_listed intent.symbol flat.pending_entry_symbols ≡ false)
    × CooledDown policy "cp-1" intent snapshot flat rules
        (at 910)
        (lookup intent.symbol flat.stop_loss_cooldown_until)
evaluate_permits_example =
    evaluate_permits policy "cp-1" intent snapshot flat rules (at 910) opening opening_order opens

evaluate-SideFits_example :
    (side : Side) × (added_order.side ≡ entry_side side)
    × SideFits more.action more.leverage (lookup more.symbol holding.positions) side
evaluate-SideFits_example =
    evaluate-SideFits policy "cp-2" more snapshot holding rules (at 910) added added_order adds

evaluate_brackets_example : Bracket policy "cp-1" intent snapshot flat rules (at 910) opening_order
evaluate_brackets_example =
    evaluate_brackets policy "cp-1" intent snapshot flat rules (at 910) opening opening_order opens

evaluate_sizes_example : SizeFits policy "cp-1" intent snapshot flat rules (at 910) opening_order
evaluate_sizes_example =
    evaluate_sizes policy "cp-1" intent snapshot flat rules (at 910) opening opening_order opens

evaluate_add_tightens_example :
    Tightens policy "cp-2" more snapshot holding rules (at 910) added_order
evaluate_add_tightens_example =
    evaluate_add_tightens policy "cp-2" more snapshot holding rules (at 910) added added_order adds
      refl

evaluate_reward_floor_example :
    Rewarded policy "cp-1" intent snapshot flat rules (at 910) opening_order (some (of_int 2))
evaluate_reward_floor_example =
    evaluate_reward_floor policy "cp-1" intent snapshot flat rules (at 910) opening opening_order
      opens (omega arith)

evaluate_target_risk_example :
    StopBelowEntry policy "cp-1" intent snapshot flat rules (at 910) opening_order
evaluate_target_risk_example =
    evaluate_target_risk policy "cp-1" intent snapshot flat rules (at 910) opening opening_order
      (of_int 110) opens refl refl (omega arith)

evaluate_gate_example :
    (side : Side) × (gated_order.side ≡ entry_side side)
    × GatePassed enforce planned mapped side gated.decision.structure_assessment
evaluate_gate_example =
    evaluate_gate enforcing "cp-3" planned mapped flat rules (at 910) gated gated_order gates

evaluate_verdict_example : Verdict half holding rules halved
evaluate_verdict_example =
    evaluate_verdict policy "cp-4" half snapshot holding rules (at 910) halved run-halved
