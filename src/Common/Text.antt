-- ===== src/Common/Text.antt =====
-- Python's `==` and `<` on texts: equality, and the order by code points.
use Prim.Native.Nat.{ℕ, Ordering, compare as compare_ℕ}
use Prim.Native.Char.{code}
use Prim.Native.String.compare
use Prim.Native.String.{String, [], ◌∷◌, compare, then}
use mathlib.Core.Path.{◌≡◌, refl}
use mathlib.Core.Logic.{◌≢◌, ◌↔◌}
use mathlib.Core.Bool.{Bool, true, false, not}
use native.Mathlib.Omega.{arith}
use text.Mathlib.Text.{◌==◌ as text_eq}
use text.Mathlib.TextEquality.{eq_iff, path_by_compare}

abbrev pub str_eq : String → String → Bool
str_eq s t = text_eq s t

abbrev is_less : Ordering → Bool
is_less Ordering.lt = true
is_less _ = false

-- `s < t`
unfoldable pub str_lt : String → String → Bool
str_lt s t = is_less (compare s t)

abbrev swap : Ordering → Ordering
swap Ordering.lt = Ordering.gt
swap Ordering.eq = Ordering.eq
swap Ordering.gt = Ordering.lt

compare_ℕ-swap : (m n : ℕ) → compare_ℕ n m ≡ swap (compare_ℕ m n)
compare_ℕ-swap m n = ground arith

then-swap : (o p : Ordering) → then (swap o) (swap p) ≡ swap (then o p)
then-swap Ordering.lt p = refl
then-swap Ordering.eq p = refl
then-swap Ordering.gt p = refl

compare-swap : (s t : String) → compare t s ≡ swap (compare s t)
compare-swap [] [] = refl
compare-swap [] (d ∷ t) = rw (compare.cons-nil, compare.nil-cons)
compare-swap (c ∷ s) [] = rw (compare.cons-nil, compare.nil-cons)
compare-swap (c ∷ s) (d ∷ t) =
    rw
      (
        compare.cons-cons d c,
        compare.cons-cons c d,
        compare_ℕ-swap (code c) (code d),
        compare-swap s t,
      )
      (then-swap (compare_ℕ (code c) (code d)) (compare s t))

-- The order is total and antisymmetric: of two different texts exactly one is below the other.
pub str_lt-flip : (s t : String) → s ≢ t → str_lt t s ≡ not (str_lt s t)
unfolding str_lt
str_lt-flip s t ne = rw (compare-swap s t) (go (compare s t) (λ e. ne (path_by_compare s t e)))
  where
    go : (o : Ordering) → o ≢ Ordering.eq → is_less (swap o) ≡ not (is_less o)
    go Ordering.lt h = refl
    go Ordering.eq h = absurd (h refl)
    go Ordering.gt h = refl

pub str_eq_iff : (s t : String) → (str_eq s t ≡ true) ↔ (s ≡ t)
str_eq_iff s t = eq_iff s t
