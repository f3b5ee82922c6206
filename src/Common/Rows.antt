-- ===== src/Common/Rows.antt =====
-- Row-major indices: element `j` of row `t`, for rows of `w` elements.
use Prim.Native.Nat.{ℕ, zero, suc, ◌+◌, ◌-◌, ◌*◌, ◌/◌, ◌%◌, ◌<◌, ◌≤◌}
use mathlib.Core.Path.{◌≡◌, sym, ap, ◌∙◌}
use native.Mathlib.Omega.{arith}
use native.Mathlib.Nat.{
  div-eq_of_lt-le, mul-le-mul_right, mul-add-mod_self_right, mod-eq_of_lt, div-add-mod', mod-lt,
}

-- Row `t` of width `w` ends before row `n` begins.
pub row_fits : (t n j w : ℕ) → t < n → j < w → t * w + j < n * w
row_fits t n j w p q =
    let next : (t + 1) * w ≤ n * w = mul-le-mul_right w (omega arith) in omega (arith, next)

pub row_div : (t j w : ℕ) → j < w → (t * w + j) / w ≡ t
row_div t j w h = div-eq_of_lt-le w (omega arith) (omega arith)

pub row_mod : (t j w : ℕ) → j < w → (t * w + j) % w ≡ j
row_mod t j w h = rw mul-add-mod_self_right (mod-eq_of_lt h)

-- A remainder as the source writes it.
pub column_lt : (g w n : ℕ) → g < n * w → g - g / w * w < w
column_lt g zero n h = absurd (omega (arith, h))
column_lt g (suc v) n h = omega (arith, div-add-mod' g (suc v), mod-lt g {m = suc v} (omega arith))

pub row_join : (g w : ℕ) → g / w * w + (g - g / w * w) ≡ g
row_join g w = omega (arith, div-add-mod' g w)

pub row_unique : (s t i j w : ℕ) → i < w → j < w → s * w + i ≡ t * w + j → (s ≡ t) × (i ≡ j)
row_unique s t i j w p q e =
    let rows : s ≡ t = sym (row_div s i w p) ∙ ap (λ (x : ℕ). x / w) e ∙ row_div t j w q in
    (rows, omega (arith, rows, e, ap (λ (x : ℕ). x * w) rows))

pub row_lt : (g w n : ℕ) → g < n * w → g / w < n
row_lt g w n h = grind arith
