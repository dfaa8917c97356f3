-- ===== src/Partial/Manager.antt =====
-- `PartialTakeProfitManager`, its `_load` and `_save`. The
-- store holds what `json.loads` gives of what `json.dumps` wrote; a number stands for the text that
-- `str` and `Decimal` spell and read it by.
use candlepilot.Prelude.{Bool, true, false, Option, none, some, List, pos, if◌then◌else◌}
use candlepilot.Prelude.Assoc.{Dict}
use candlepilot.Decimal.{Decimal}
use candlepilot.Domain.{Side}
use candlepilot.Trailing.Store.{map_values}
use candlepilot.Partial.{PartialTakeProfitProgress, PartialTakeProfitState, PartialEvent}

-- A stored progress; two of its fields may be absent.
pub record StoredProgress : Type 0 where
  pub partial_triggered : Bool
  pub breakeven_triggered : Bool
  pub unviable : Option Bool
  pub partial_quantity : Option Decimal
  pub partial_gross_pnl : Option Decimal

pub record StoredState : Type 0 where
  pub side : Side
  pub quantity : Decimal
  pub entry_price : Decimal
  pub original_stop : Decimal
  pub risk_distance : Decimal
  pub last_mark : Decimal
  pub profiles : Dict StoredProgress

pub record PartialTakeProfitManager : Type 0 where
  pub states : Dict PartialTakeProfitState
  pub loaded : Bool
  pub events : List PartialEvent  -- the audit's events, the last one last
  pub stored : Option (Dict StoredState)

abbrev pub or_default {ℓ} : {A : Type ℓ} → Option A → A → A
or_default none a = a
or_default (some b) a = b

unfoldable pub load_progress : StoredProgress → PartialTakeProfitProgress
load_progress p = record {
  partial_triggered = p.partial_triggered;
  breakeven_triggered = p.breakeven_triggered;
  unviable = or_default p.unviable false;
  partial_quantity = p.partial_quantity;
  partial_gross_pnl = or_default p.partial_gross_pnl (pos 0);
}

unfoldable pub load_state : StoredState → PartialTakeProfitState
load_state s = record {
  side = s.side;
  quantity = s.quantity;
  entry_price = s.entry_price;
  original_stop = s.original_stop;
  risk_distance = s.risk_distance;
  last_mark = s.last_mark;
  profiles = map_values load_progress s.profiles;
}

unfoldable pub load : PartialTakeProfitManager → PartialTakeProfitManager
load m = if m.loaded then m else record m {
  states = elim m.stored [ none ↦ m.states | some stored ↦ map_values load_state stored ];
  loaded = true;
}

unfoldable pub save_progress : PartialTakeProfitProgress → StoredProgress
save_progress p = record {
  partial_triggered = p.partial_triggered;
  breakeven_triggered = p.breakeven_triggered;
  unviable = some p.unviable;
  partial_quantity = p.partial_quantity;
  partial_gross_pnl = some p.partial_gross_pnl;
}

unfoldable pub save_state : PartialTakeProfitState → StoredState
save_state s = record {
  side = s.side;
  quantity = s.quantity;
  entry_price = s.entry_price;
  original_stop = s.original_stop;
  risk_distance = s.risk_distance;
  last_mark = s.last_mark;
  profiles = map_values save_progress s.profiles;
}

unfoldable pub save : PartialTakeProfitManager → PartialTakeProfitManager
save m = record m { stored = some (map_values save_state m.states) }
