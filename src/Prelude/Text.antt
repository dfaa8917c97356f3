-- ===== src/Prelude/Text.antt =====
-- The order of texts, by the numbers of their characters.
use Prim.Native.Nat.{ℕ, Ordering, compare as compare_ℕ}
use Prim.Native.Char.{code}
use Prim.Native.String.compare
use Prim.Native.String.{String, [], ◌∷◌, compare, then}
use mathlib.Core.Path.{◌≡◌, sym, ◌∙◌}
use native.Mathlib.Omega.{arith}

then_trans :
    (x y z : ℕ) (o p q : Ordering)
    → (o ≡ Ordering.lt → p ≡ Ordering.lt → q ≡ Ordering.lt)
    → then (compare_ℕ x y) o ≡ Ordering.lt
    → then (compare_ℕ y z) p ≡ Ordering.lt
    → then (compare_ℕ x z) q ≡ Ordering.lt
then_trans x y z o p q f h k = ground arith

pub compare_trans :
    (s t u : String)
    → compare s t ≡ Ordering.lt
    → compare t u ≡ Ordering.lt
    → compare s u ≡ Ordering.lt
compare_trans [] [] u h k = absurd (ground (arith, compare.nil-nil))
compare_trans [] (d ∷ t) [] h k = absurd (ground (arith, compare.cons-nil d t))
compare_trans [] (d ∷ t) (e ∷ u) h k = compare.nil-cons e u
compare_trans (c ∷ s) [] u h k = absurd (ground (arith, compare.cons-nil c s))
compare_trans (c ∷ s) (d ∷ t) [] h k = absurd (ground (arith, compare.cons-nil d t))
compare_trans (c ∷ s) (d ∷ t) (e ∷ u) h k = rw (compare.cons-cons c e s u) (
    then_trans (code c) (code d) (code e) (compare s t) (compare t u) (compare s u)
      (compare_trans s t u) (sym (compare.cons-cons c d s t) ∙ h)
      (sym (compare.cons-cons d e t u) ∙ k))

then_flip :
    (x y : ℕ) (o p : Ordering)
    → (o ≡ Ordering.gt → p ≡ Ordering.lt)
    → then (compare_ℕ x y) o ≡ Ordering.gt
    → then (compare_ℕ y x) p ≡ Ordering.lt
then_flip x y o p f h = ground arith

pub compare_flip : (s t : String) → compare s t ≡ Ordering.gt → compare t s ≡ Ordering.lt
compare_flip [] [] h = absurd (ground (arith, compare.nil-nil))
compare_flip [] (d ∷ t) h = absurd (ground (arith, compare.nil-cons d t))
compare_flip (c ∷ s) [] h = compare.nil-cons c s
compare_flip (c ∷ s) (d ∷ t) h = rw (compare.cons-cons d c t s) (
    then_flip (code c) (code d) (compare s t) (compare t s) (compare_flip s t)
      (sym (compare.cons-cons c d s t) ∙ h))
