-- ===== src/Argmax/Tests.antt =====
-- A row of five logits with a tie, in vectors of four.
use quixi_core_xpu.Common.{ℕ, zero, suc, ◌≤◌, ◌<◌, ◌≡◌, refl, true, false, arith}
use quixi_core_xpu.Common.Float.{float_gt, float_eq, is_nan, neg_infinity}
use quixi_core_xpu.Common.Launch.{Buffer}
use quixi_core_xpu.Argmax.{argmax}
use quixi_core_xpu.Argmax.Result.{argmax_lem}

-- -1.0, 2.0, 0.0, a NaN, 2.0
abbrev row : Buffer ℕ
row zero = 0xbf800000
row (suc zero) = 0x40000000
row (suc (suc zero)) = 0
row (suc (suc (suc zero))) = 0x7fc00000
row (suc (suc (suc (suc _)))) = 0x40000000

argmax_lem_example :
    ((k : ℕ)
      → k < 5
      → float_gt (row k) neg_infinity ≡ true
      → (argmax 4 row 5 < 5)
        × (is_nan (row (argmax 4 row 5)) ≡ false)
        × ((j : ℕ) → j < 5 → float_gt (row j) (row (argmax 4 row 5)) ≡ false)
        × ((j : ℕ) → j < 5 → float_eq (row j) (row (argmax 4 row 5)) ≡ true → argmax 4 row 5 ≤ j))
    × (((k : ℕ) → k < 5 → float_gt (row k) neg_infinity ≡ false) → argmax 4 row 5 ≡ 0)
argmax_lem_example = argmax_lem 4 row 5 (omega arith)

first_two : argmax 4 row 5 ≡ 1
unfolding argmax float_gt float_eq
first_two = refl
