-- ===== src/Trailing/Tests.antt =====
-- Runs of the trailing stops, and their theorems at them.
use candlepilot.Prelude.{
  ◌+ℤ◌, ◌-ℤ◌, String, Bool, true, false, Option, none, some, List, [], ◌∷◌, ◌≡◌, refl, arith, pos,
  lookup, str_eq, if◌then◌else◌, ◌<ℤ◌,
}
use candlepilot.Prelude.Assoc.{Dict}
use candlepilot.Decimal.{
  mul, add, integral, to_integral_value, quotient, ulp, half_even, round_ratio, round, sub, abs,
  Decimal, dec, of_int,
}
use candlepilot.Outcome.{div, Result, ok, err, request_error}
use candlepilot.Domain.{long, OrderSide}
use candlepilot.Risk.{snap, to_tick, SymbolRules}
use candlepilot.Trailing.{
  live, shadow, TrailingPosition, TrailingStopState, Broker, refused, live_profile, idle,
}
use candlepilot.Trailing.Profile.{
  settle_replacement, act, decide, trail, activate, maintain_profile, ProfileStep,
}
use candlepilot.Trailing.Replace.{
  install, after_cancel, replace_from, replace_only, stops_of, after_listing, after_sync,
  ProtectiveOrder, stop_market, replace_stop_loss,
}
use candlepilot.Trailing.Venue.{
  Safe, replace_stop_loss_never_loosens, broker_at, broker_at-Tightens,
}
use candlepilot.Trailing.Advance.{Advanced, maintain_profile_advances}
use candlepilot.Trailing.Requests.{maintain_profile_asks}
use candlepilot.Trailing.Shadow.{maintain_ignores_broker}
use candlepilot.Trailing.Measure.{Measured}
use candlepilot.Trailing.Critical.{maintain_leaves_store}
use candlepilot.Trailing.Manager.{
  critical_stop, maintain_all, drop_closed, sorted_items, insert_sorted,
}
use candlepilot.Risk.Permission.{is_listed}
use candlepilot.Trailing.Position.{
  maintain_position, maintain_stopped, maintain_measured, measure_state, run_state, fill_profiles,
  observe, run_profiles, profile_step,
}
use candlepilot.Prelude.{contains, insert}
use candlepilot.Trailing.Upkeep.{AllMeasured, maintain_measures}
use candlepilot.Trailing.Persist.{AllRestarted, load-AllRestarted}
use candlepilot.Trailing.Store.{Stored, StoredItem, TrailingStopManager, load}
use candlepilot.Trailing.Manager.{maintain}

-- A venue with one stop.
abbrev Venue : Type 0
Venue = Option Decimal

abbrev stop_order : Venue → ProtectiveOrder
stop_order x = record { client_order_id = "cp-1"; order_type = stop_market; trigger_price = x }

abbrev sync : Venue → Venue × Result (Unit {0})
sync x = (x, ok tt)

abbrev orders : Venue → String → Venue × Result (List ProtectiveOrder)
orders x symbol = (x, ok (stop_order x ∷ []))

abbrev cancel : Venue → String → Venue × Result Bool
cancel x id = (none, ok true)

abbrev place : Venue → String → OrderSide → Decimal → String → Venue × Result (Unit {0})
place x symbol side price id = (some price, ok tt)

-- One that takes no order.
abbrev no_place : Venue → String → OrderSide → Decimal → String → Venue × Result (Unit {0})
no_place x symbol side price id = (x, err (request_error "filter"))

abbrev venue_broker : Broker
venue_broker = broker_at sync orders cancel place (some (of_int 90))

-- A long from 100 with its stop at 90, which is at 125 now.
abbrev position : TrailingPosition
position = record {
  symbol = "BTCUSDT";
  side = long;
  quantity = of_int 1;
  entry_price = of_int 100;
  mark_price = of_int 125;
  stop_loss = some (of_int 90);
}

abbrev state : TrailingStopState
state = record {
  side = long;
  quantity = of_int 1;
  entry_price = of_int 100;
  original_stop = of_int 90;
  risk_distance = of_int 10;
  best_mark = of_int 125;
  profiles = (live_profile.profile_id, idle) ∷ [];
}

abbrev after : ProfileStep
after = maintain_profile live venue_broker position (dec 1 1) state live_profile idle (of_int 90)

tick_pos : pos 0 <ℤ dec 1 1
tick_pos = omega arith

maintain_profile_advances_example :
    Advanced live venue_broker position
      (dec 1 1)
      state
      live_profile
      (of_int 90)
      (broker_at-Tightens sync orders cancel place (some (of_int 90)))
      tick_pos
      idle
      after.progress
maintain_profile_advances_example =
    maintain_profile_advances live venue_broker position (dec 1 1) state live_profile (of_int 90)
      (broker_at-Tightens sync orders cancel place (some (of_int 90))) tick_pos idle

replace_stop_loss_never_loosens_example :
    Safe sync orders cancel no_place "BTCUSDT" long
      (of_int 115)
      (replace_stop_loss sync orders cancel no_place "BTCUSDT" long (of_int 115) (some (of_int 90)))
replace_stop_loss_never_loosens_example =
    replace_stop_loss_never_loosens sync orders cancel no_place "BTCUSDT" long (of_int 115)
      (some (of_int 90))

-- The run: the stop goes to 115, one R behind the mark.
moved :
    after.progress
    ≡ record { active = true; last_candidate = some (of_int 115); simulated_triggered = false }
unfolding maintain_profile activate trail decide act settle_replacement replace_stop_loss after_sync
    after_listing stops_of replace_only replace_from after_cancel install to_tick snap div quotient
    to_integral_value integral add sub mul round round_ratio half_even ulp ◌+ℤ◌ ◌-ℤ◌
moved = refl

-- A broker that answers as the venue does for this symbol only.
abbrev other_broker : Broker
other_broker symbol side c =
    if str_eq symbol "BTCUSDT" then venue_broker symbol side c else refused true

maintain_profile_asks_example :
    maintain_profile live venue_broker position (dec 1 1) state live_profile idle (of_int 90)
    ≡ maintain_profile live other_broker position (dec 1 1) state live_profile idle (of_int 90)
maintain_profile_asks_example =
    maintain_profile_asks position state (dec 1 1) live_profile (of_int 90) live venue_broker
      other_broker idle tick_pos (λ c valid tighter. refl)

-- A manager that follows this position, and one in shadow mode that a process starts after it.
abbrev manager : TrailingStopManager
manager = record {
  mode = live;
  states = ("BTCUSDT", state) ∷ [];
  loaded = true;
  events = [];
  stored = none;
}

abbrev rules : Dict SymbolRules
rules =
    (
      "BTCUSDT",
      record {
        quantity_step = dec 1 3;
        min_quantity = dec 1 3;
        min_notional = of_int 5;
        tick_size = dec 1 1;
        max_quantity = none;
        market_quantity_step = none;
        market_min_quantity = none;
        market_max_quantity = none;
      },
    )
    ∷ []

abbrev positions : Dict TrailingPosition
positions = ("BTCUSDT", position) ∷ []

state-Measured : Measured state
unfolding abs sub round round_ratio half_even ulp ◌-ℤ◌
state-Measured = record { stop_at_loss = omega arith; distance = refl; distance_pos = omega arith }

maintain_measures_example : AllMeasured (maintain manager venue_broker positions rules none).0
maintain_measures_example =
    maintain_measures manager venue_broker positions rules none
      (record { in_memory = (state-Measured, tt); in_store = tt })

abbrev watching : TrailingStopManager
watching = record manager { mode = shadow }

maintain_ignores_broker_example :
    maintain watching venue_broker positions rules none
    ≡ maintain watching (λ symbol side c. refused true) positions rules none
maintain_ignores_broker_example =
    maintain_ignores_broker venue_broker (λ symbol side c. refused true) watching positions rules
      none refl

-- A state that was stored before there were profiles.
abbrev old_item : StoredItem
old_item = record {
  side = state.side;
  quantity = state.quantity;
  entry_price = state.entry_price;
  original_stop = state.original_stop;
  risk_distance = state.risk_distance;
  best_mark = state.best_mark;
  profiles = none;
  active = true;
  last_candidate = some (of_int 101);
}

abbrev left : Stored
left = record { mode = some live; states = ("BTCUSDT", old_item) ∷ [] }

abbrev restarted : TrailingStopManager
restarted = record { mode = shadow; states = []; loaded = false; events = []; stored = some left }

load-AllRestarted_example : AllRestarted left.states (load restarted).states
load-AllRestarted_example = load-AllRestarted restarted left refl refl refl

-- A venue that refuses both placements ends the run, and the store stays as it was.
abbrev lock_broker : Broker
lock_broker symbol side c = refused true

locks : (maintain manager lock_broker positions rules none).1 ≡ critical_stop
unfolding maintain maintain_all drop_closed sorted_items insert_sorted load lookup is_listed
    maintain_position maintain_stopped maintain_measured measure_state run_state fill_profiles
    contains observe run_profiles profile_step insert maintain_profile activate trail decide act
    settle_replacement to_tick snap div quotient to_integral_value integral add sub mul round
    round_ratio half_even ulp ◌+ℤ◌ ◌-ℤ◌
locks = refl

maintain_leaves_store_example :
    (maintain manager lock_broker positions rules none).0.stored ≡ manager.stored
maintain_leaves_store_example = maintain_leaves_store manager lock_broker positions rules none locks
