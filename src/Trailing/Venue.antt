-- ===== src/Trailing/Venue.antt =====
-- What `replace_stop_loss` does to the stop, and the broker that it makes for the trailing manager.
use mathlib.Core.Path.{subst}
use candlepilot.Prelude.{
  String, Bool, true, false, Option, none, some, List, [], ◌∷◌, ◌≡◌, refl, arith, pos, leb_ℤ,
  if_branches, ◌⊎◌, inl, inr,
}
use candlepilot.Decimal.{Decimal}
use candlepilot.Outcome.{Error, Result, ok, err}
use candlepilot.Domain.{Side, long, short, OrderSide, exit_side}
use candlepilot.Risk.Facts.{Tightened}
use candlepilot.Trailing.{Replacement, replaced, refused, failed, Broker}
use candlepilot.Trailing.Ratchet.{Tightens}
use candlepilot.Trailing.Replace.{
  ProtectiveOrder, stops_of, is_tighter, restore, install, after_cancel, replace_from, replace_only,
  after_listing, after_sync, replace_stop_loss,
}

Tightened-refl : (side : Side) (a : Decimal) → Tightened side a a
Tightened-refl long a = omega arith
Tightened-refl short a = omega arith

is_tighter-Tightened :
    (side : Side) (trigger previous : Decimal)
    → is_tighter side trigger previous ≡ true
    → Tightened side previous trigger
is_tighter-Tightened long trigger previous h = ground arith
is_tighter-Tightened short trigger previous h = ground arith

not_tighter-Tightened :
    (side : Side) (trigger previous : Decimal)
    → is_tighter side trigger previous ≡ false
    → Tightened side trigger previous
not_tighter-Tightened long trigger previous h = ground arith
not_tighter-Tightened short trigger previous h = ground arith

module _ {X : Type 0} (sync_time : X → X × Result (Unit {0}))
    (protective_orders : X → String → X × Result (List ProtectiveOrder))
    (cancel : X → String → X × Result Bool)
    (place : X → String → OrderSide → Decimal → String → X × Result (Unit {0})) where
  module _ (symbol : String) (side : Side) (trigger : Decimal) where
    -- The new stop was refused by the venue, and then the old one.
    pub record BothRefused (last : X) : Type 0 where
      pub before : X
      pub between : X
      pub id : String
      pub previous : Decimal
      pub first_error : Error
      pub second_error : Error
      pub first : place before symbol (exit_side side) trigger id ≡ (between, err first_error)
      pub second : place between symbol (exit_side side) previous id ≡ (last, err second_error)

    -- A replacement leaves the price asked for or the old stop, whichever is tighter; the emergency
    -- lock is asked for only at a venue that refused both the new stop and then the old one.
    abbrev pub Safe : X × Replacement → Type 0
    Safe (x, replaced previous current) =
        Tightened side trigger current
        × Tightened side previous current
        × ((current ≡ trigger) ⊎ (current ≡ previous))
    Safe (x, refused true) = BothRefused x
    Safe (x, refused false) = Unit
    Safe (x, failed e) = Unit

    restore-Safe :
        (x y : X) (id : String) (previous : Decimal) (e : Error) (r : X × Result (Unit {0}))
        → place x symbol (exit_side side) trigger id ≡ (y, err e)
        → place y symbol (exit_side side) previous id ≡ r
        → Safe (restore sync_time protective_orders cancel place symbol side trigger r)
    unfolding restore
    restore-Safe x y id previous e (z, ok u) h k = tt
    restore-Safe x y id previous e (z, err e2) h k = record {
      before = x;
      between = y;
      id = id;
      previous = previous;
      first_error = e;
      second_error = e2;
      first = h;
      second = k;
    }

    install-Safe :
        (x : X) (id : String) (previous : Decimal) (r : X × Result (Unit {0}))
        → place x symbol (exit_side side) trigger id ≡ r
        → Tightened side previous trigger
        → Safe (install sync_time protective_orders cancel place symbol side trigger id previous r)
    unfolding install
    install-Safe x id previous (y, ok u) h t = (Tightened-refl side trigger, t, inl refl)
    install-Safe x id previous (y, err e) h t = restore-Safe x y id previous e _ h refl

    after_cancel-Safe :
        (id : String) (previous : Decimal) (r : X × Result Bool)
        → Tightened side previous trigger
        → Safe (
            after_cancel sync_time protective_orders cancel place symbol side trigger id previous r)
    unfolding after_cancel
    after_cancel-Safe id previous (x, err e) t = tt
    after_cancel-Safe id previous (x, ok false) t = tt
    after_cancel-Safe id previous (x, ok true) t = install-Safe x id previous _ refl t

    replace_from-Safe :
        (x : X) (id : String) (previous : Option Decimal)
        → Safe (
            replace_from sync_time protective_orders cancel place symbol side trigger x id previous)
    unfolding replace_from
    replace_from-Safe x id none = tt
    replace_from-Safe x id (some previous) =
        if_branches Safe (is_tighter side trigger previous)
          (λ t.
            after_cancel-Safe id previous (cancel x id)
              (is_tighter-Tightened side trigger previous t))
          (λ t.
            (not_tighter-Tightened side trigger previous t, Tightened-refl side previous, inr refl))

    replace_only-Safe :
        (x : X) (stops : List ProtectiveOrder)
        → Safe (replace_only sync_time protective_orders cancel place symbol side trigger x stops)
    unfolding replace_only
    replace_only-Safe x [] = tt
    replace_only-Safe x (o ∷ []) = replace_from-Safe x o.client_order_id o.trigger_price
    replace_only-Safe x (o ∷ p ∷ rest) = tt

    after_listing-Safe :
        (r : X × Result (List ProtectiveOrder))
        → Safe (after_listing sync_time protective_orders cancel place symbol side trigger r)
    unfolding after_listing
    after_listing-Safe (x, err e) = tt
    after_listing-Safe (x, ok orders) = replace_only-Safe x (stops_of orders)

    after_sync-Safe :
        (r : X × Result (Unit {0}))
        → Safe (after_sync sync_time protective_orders cancel place symbol side trigger r)
    unfolding after_sync
    after_sync-Safe (x, err e) = tt
    after_sync-Safe (x, ok u) = after_listing-Safe (protective_orders x symbol)

    -- Whatever the venue answers: a replacement that succeeds leaves the price asked for or the old
    -- stop, and is at least as tight as both; the emergency lock is asked for only when the venue
    -- refused the new stop and then, from the state that this left, the old one.
    pub replace_stop_loss_never_loosens :
        (x : X)
        → Safe (replace_stop_loss sync_time protective_orders cancel place symbol side trigger x)
    unfolding replace_stop_loss
    replace_stop_loss_never_loosens x =
        if_branches Safe (leb_ℤ trigger (pos 0)) (λ _. tt) (λ _. after_sync-Safe (sync_time x))

    Safe-current :
        (r : X × Replacement) (previous current : Decimal)
        → Safe r
        → r.1 ≡ replaced previous current
        → Tightened side trigger current
    Safe-current (x, replaced p q) previous current safe e =
        let same : q ≡ current = cc in subst (Tightened side trigger) same safe.0
    Safe-current (x, refused b) previous current safe e = absurd (cc)
    Safe-current (x, failed problem) previous current safe e = absurd (cc)

  -- The broker at a state of the venue. The manager asks it at most once for each symbol in a run.
  abbrev pub broker_at : X → Broker
  broker_at x symbol side c =
      (replace_stop_loss sync_time protective_orders cancel place symbol side c x).1

  -- It never leaves a stop that is looser than the price asked for.
  pub broker_at-Tightens : (x : X) → Tightens (broker_at x)
  broker_at-Tightens x symbol side c previous current h =
      Safe-current symbol side c _ previous current
        (replace_stop_loss_never_loosens symbol side c x) h
