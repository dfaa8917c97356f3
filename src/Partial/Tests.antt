-- ===== src/Partial/Tests.antt =====
-- A run of the partial-profit profiles, and their theorems at it.
use candlepilot.Prelude.{true, none, some, [], ◌∷◌, ◌≡◌, refl, ◌+ℤ◌, ◌-ℤ◌}
use candlepilot.Decimal.{
  dec, of_int, add, sub, mul, quotient, to_integral_value, integral, round, round_ratio, half_even,
  ulp,
}
use candlepilot.Outcome.{div}
use candlepilot.Domain.{long}
use candlepilot.Risk.{SymbolRules, round_down, to_tick, snap}
use candlepilot.Trailing.{TrailingPosition}
use candlepilot.Partial.{PartialTakeProfitProfile, PartialTakeProfitState, fresh_progress}
use candlepilot.Partial.Profile.{PartialStep, target_price, gross_pnl, maintain_profile}
use candlepilot.Partial.Phase.{watching, split_progress, Reaches, maintain_profile_steps}
use candlepilot.Partial.Manager.{PartialTakeProfitManager}
use candlepilot.Partial.Upkeep.{maintain}
use candlepilot.Partial.Kept.{AllSound, maintain_keeps_phases}

abbrev position : TrailingPosition
position = record {
  symbol = "BTCUSDT";
  side = long;
  quantity = of_int 2;
  entry_price = of_int 100;
  mark_price = of_int 111;
  stop_loss = some (of_int 90);
}

abbrev rule : SymbolRules
rule = record {
  quantity_step = dec 1 3;
  min_quantity = dec 1 3;
  min_notional = of_int 5;
  tick_size = dec 1 1;
  max_quantity = none;
  market_quantity_step = none;
  market_min_quantity = none;
  market_max_quantity = none;
}

abbrev quarter : PartialTakeProfitProfile
quarter = record { profile_id = "1R / 25% + BE"; target_r = of_int 1; fraction = dec 25 2 }

abbrev state : PartialTakeProfitState
state = record {
  side = long;
  quantity = of_int 2;
  entry_price = of_int 100;
  original_stop = of_int 90;
  risk_distance = of_int 10;
  last_mark = of_int 111;
  profiles = (quarter.profile_id, fresh_progress) ∷ [];
}

abbrev step : PartialStep
step = maintain_profile position rule state quarter fresh_progress

-- Half a unit is filled at 110.
fills : step.progress ≡ split_progress (dec 5 1) (of_int 5)
unfolding maintain_profile round_down snap div quotient to_integral_value integral add sub mul round
    round_ratio half_even ulp target_price to_tick gross_pnl ◌+ℤ◌ ◌-ℤ◌
fills = refl

maintain_profile_steps_example : Reaches position rule state quarter watching step.progress
maintain_profile_steps_example =
    maintain_profile_steps position rule state quarter fresh_progress watching refl

abbrev manager : PartialTakeProfitManager
manager = record { states = ("BTCUSDT", state) ∷ []; loaded = true; events = []; stored = none }

maintain_keeps_phases_example :
    AllSound (maintain manager (("BTCUSDT", position) ∷ []) (("BTCUSDT", rule) ∷ []) none).0
maintain_keeps_phases_example =
    maintain_keeps_phases manager (("BTCUSDT", position) ∷ []) (("BTCUSDT", rule) ∷ []) none
      (record { in_memory = (((watching, refl, tt), tt), tt); in_store = tt })
