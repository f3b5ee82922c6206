-- ===== src/Common/Float.antt =====
-- Single-precision floats by their bit patterns, numbers below 2 ^ 32, and their comparisons.
use Prim.Native.Nat.{ℕ, ◌+◌, ◌-◌, ◌/◌, ◌%◌, ◌^◌, ◌≤◌, ◌<◌}
use mathlib.Core.Path.{◌≡◌, refl, ap, ◌∙◌}
use mathlib.Core.Bool.{Bool, true, false, not, ◌&&◌}
use native.Mathlib.Omega.{arith}
use quixi_core_xpu.Common.Tests.{ltb, ◌==◌, if◌then◌else◌}

abbrev pub neg_infinity : ℕ
neg_infinity = 0xff800000

unfoldable pub is_nan : ℕ → Bool
is_nan x = ltb 0x7f800000 (x % 2 ^ 31)

-- Where a number stands among the numbers: the magnitude counted up from the middle, or down for a
-- negative one, so that both zeros stand together. A NaN stands below all of them.
unfoldable pub rank : ℕ → ℕ
unfolding is_nan
rank x =
    if is_nan x then 0 else if x / 2 ^ 31 % 2 == 1 then 2 ^ 31 - x % 2 ^ 31 else 2 ^ 31 + x % 2 ^ 31

-- The comparisons x > y and x == y, false on a NaN.
unfoldable pub float_gt : ℕ → ℕ → Bool
unfolding is_nan rank
float_gt x y = (not (is_nan x) && not (is_nan y)) && ltb (rank y) (rank x)

unfoldable pub float_eq : ℕ → ℕ → Bool
unfolding is_nan rank
float_eq x y = (not (is_nan x) && not (is_nan y)) && rank x == rank y

abbrev pub lowest : ℕ
lowest = 0x800000

pub rank-neg_infinity : rank neg_infinity ≡ lowest
unfolding rank
rank-neg_infinity = refl

-- Every number stands at -infinity or above, and a NaN below it.
pub rank-number : (x : ℕ) → is_nan x ≡ false → lowest ≤ rank x
unfolding rank is_nan
rank-number x h = ground (arith, h)

pub rank-nan : (x : ℕ) → is_nan x ≡ true → rank x ≡ 0
unfolding rank
rank-nan x h = rw h refl

pub float_gt-rank : (x y : ℕ) → is_nan y ≡ false → float_gt x y ≡ ltb (rank y) (rank x)
unfolding float_gt
float_gt-rank x y h = ground (arith, h, rank-nan x)

pub float_gt-number : (x y : ℕ) → float_gt x y ≡ true → is_nan x ≡ false
unfolding float_gt
float_gt-number x y h = ground (arith, h)

pub float_eq-rank :
    (x y : ℕ) → is_nan x ≡ false → is_nan y ≡ false → float_eq x y ≡ (rank x == rank y)
unfolding float_eq
float_eq-rank x y h k = ground (arith, h, k)

pub eq_rank : (x y : ℕ) → float_eq x y ≡ true → rank x ≡ rank y
unfolding float_eq
eq_rank x y h = ground (arith, h)

-- Only a number stands above -infinity.
pub rank-is_number : (x : ℕ) → lowest < rank x → is_nan x ≡ false
unfolding rank
rank-is_number x h = ground (arith, h)

pub gt_neg_infinity : (x : ℕ) → float_gt x neg_infinity ≡ ltb lowest (rank x)
unfolding is_nan
gt_neg_infinity x = float_gt-rank x neg_infinity number ∙ ap (λ r. ltb r (rank x)) rank-neg_infinity
  where
    number : is_nan neg_infinity ≡ false
    number = refl
