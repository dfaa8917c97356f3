-- ===== src/Backtest/Windowed.antt =====
-- What the window of the last 24 hours holds.
use candlepilot.Prelude.{
  true, false, some, List, [], ◌∷◌, ◌++◌, ◌≡◌, refl, All, not, if_branches, arith,
}
use candlepilot.Decimal.{Decimal}
use candlepilot.Time.{Datetime, before, not_after}
use candlepilot.Outcome.Returns.{Returns, raise_if-Returns}
use candlepilot.Backtest.{EquityPoint}
use candlepilot.Backtest.Window.{
  last, set_last, is_backwards, is_same_time, trim, day_before, observe,
}

-- Every point is later than the one before it.
abbrev pub Ascending : List EquityPoint → Type 0
Ascending [] = Unit
Ascending (x ∷ []) = Unit
Ascending (x ∷ y ∷ w) = (before x.timestamp y.timestamp ≡ true) × Ascending (y ∷ w)

-- Only the first point may be as old as the cutoff.
abbrev pub Recent : Datetime → List EquityPoint → Type 0
Recent cutoff [] = Unit
Recent cutoff (x ∷ w) = All (λ (p : EquityPoint). not_after p.timestamp cutoff ≡ false) w

pub record Windowed (now : Datetime) (equity : Decimal) (w : List EquityPoint) : Type 0 where
  pub ascending : Ascending w
  pub recent : Recent (day_before now) w
  pub newest : last w ≡ some (record { timestamp = now; equity = equity })

module _ (now : Datetime) (equity : Decimal) where
  abbrev point : EquityPoint
  point = record { timestamp = now; equity = equity }

  append-Ascending :
      (w : List EquityPoint)
      → Ascending w
      → is_backwards w now ≡ false
      → is_same_time w now ≡ false
      → Ascending (w ++ point ∷ [])
  append-Ascending [] h forward fresh = tt
  append-Ascending (x ∷ []) h forward fresh = (ground arith, tt)
  append-Ascending (x ∷ y ∷ w) h forward fresh = (h.0, append-Ascending (y ∷ w) h.1 forward fresh)

  append-last : (w : List EquityPoint) → last (w ++ point ∷ []) ≡ some point
  append-last [] = refl
  append-last (x ∷ []) = refl
  append-last (x ∷ y ∷ w) = append-last (y ∷ w)

  set_last-Ascending :
      (w : List EquityPoint)
      → Ascending w
      → is_same_time w now ≡ true
      → Ascending (set_last point w)
  set_last-Ascending [] h same = tt
  set_last-Ascending (x ∷ []) h same = tt
  set_last-Ascending (x ∷ y ∷ []) h same = (ground arith, tt)
  set_last-Ascending (x ∷ y ∷ z ∷ w) h same = (h.0, set_last-Ascending (y ∷ z ∷ w) h.1 same)

  set_last-last :
      (w : List EquityPoint) → is_same_time w now ≡ true → last (set_last point w) ≡ some point
  set_last-last [] same = absurd (cc)
  set_last-last (x ∷ []) same = refl
  set_last-last (x ∷ y ∷ []) same = refl
  set_last-last (x ∷ y ∷ z ∷ w) same = set_last-last (y ∷ z ∷ w) same

-- A point later than the cutoff makes all after it so.
Ascending-Recent :
    (cutoff : Datetime) (y : EquityPoint) (w : List EquityPoint)
    → Ascending (y ∷ w)
    → not_after y.timestamp cutoff ≡ false
    → All (λ (p : EquityPoint). not_after p.timestamp cutoff ≡ false) (y ∷ w)
Ascending-Recent cutoff y [] h late = (late, tt)
Ascending-Recent cutoff y (z ∷ w) h late =
    (late, Ascending-Recent cutoff z w h.1 (later_still y.timestamp z.timestamp cutoff h.0 late))
  where
    later_still :
        (a b c : Datetime) → before a b ≡ true → not_after a c ≡ false → not_after b c ≡ false
    later_still a b c h k = ground arith

module _ (now : Datetime) (equity : Decimal) where
  trim-Windowed :
      (w : List EquityPoint)
      → Ascending w
      → last w ≡ some (point now equity)
      → Windowed now equity (trim (day_before now) w)
  unfolding trim
  trim-Windowed [] h e = absurd (cc)
  trim-Windowed (x ∷ []) h e = record { ascending = tt; recent = tt; newest = e }
  trim-Windowed (x ∷ y ∷ w) h e =
      if_branches (Windowed now equity) (not_after y.timestamp (day_before now))
        (λ _. trim-Windowed (y ∷ w) h.1 e)
        (λ late. record {
          ascending = h;
          recent = Ascending-Recent (day_before now) y w h.1 late;
          newest = e;
        })

  -- From a window in ascending order, `observe` keeps one in ascending order that ends with the
  -- given time and equity, in which only the first point may be 24 hours old or older.
  pub observe-Windowed :
      (w : List EquityPoint) → Ascending w → Returns (Windowed now equity) (observe now equity w)
  unfolding observe
  observe-Windowed w h =
      let Goal = Windowed now equity in
      raise_if-Returns Goal (not now.aware) _ _ (λ _.
        raise_if-Returns Goal (is_backwards w now) _ _ (λ forward.
          if_branches (λ (x : List EquityPoint). Goal (trim (day_before now) x))
            (is_same_time w now)
            (λ same.
              trim-Windowed (set_last (point now equity) w) (set_last-Ascending now equity w h same)
                (set_last-last now equity w same))
            (λ fresh.
              trim-Windowed (w ++ point now equity ∷ [])
                (append-Ascending now equity w h forward fresh) (append-last now equity w))))
