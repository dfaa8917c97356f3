-- ===== src/Stream/Order.antt =====
-- The order of tuples: what is not at most another is after it, and that is transitive.
use candlepilot.Prelude.{true, false, [], ◌∷◌, ◌≡◌, refl, arith}
use candlepilot.Stream.{Sequence, tuple_le}

pub tuple_le_refl : (a : Sequence) → tuple_le a a ≡ true
unfolding tuple_le
tuple_le_refl [] = refl
tuple_le_refl (x ∷ a) = ground (arith, tuple_le_refl a)

-- If b is not at most a, and c is not at most b, c is not at most a.
pub tuple_le_trans :
    (a b c : Sequence) → tuple_le b a ≡ false → tuple_le c b ≡ false → tuple_le c a ≡ false
unfolding tuple_le
tuple_le_trans a [] c h k = absurd (cc)
tuple_le_trans a b [] h k = absurd (cc)
tuple_le_trans [] (y ∷ b) (z ∷ c) h k = refl
tuple_le_trans (x ∷ a) (y ∷ b) (z ∷ c) h k = ground (arith, tuple_le_trans a b c)
