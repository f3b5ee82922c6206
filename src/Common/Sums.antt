-- ===== src/Common/Sums.antt =====
-- Sums over the numbers below a bound.
use Prim.Native.Nat.{ℕ, zero, suc, ◌+◌, ◌*◌, ◌≤◌, ◌<◌}
use mathlib.Core.Logic.{◌≢◌}
use native.Mathlib.Decide.{ℕ_discrete}
use mathlib.Core.Path.{◌≡◌, refl, ◌∙◌}
use native.Mathlib.Omega.{arith}
use quixi_core_xpu.Common.Tests.{ltb, ◌==◌, if◌then◌else◌}
use quixi_core_xpu.Common.Launch.{sum_below, sum_below-ext}

pub sum_below_next : (f : ℕ → ℕ) (e : ℕ) → sum_below f (e + 1) ≡ sum_below f e + f e
unfolding sum_below
sum_below_next f e = let at : e + 1 ≡ suc e = omega arith in rw at refl

pub sum_below_plus :
    (f g : ℕ → ℕ) (n : ℕ) → sum_below (λ i. f i + g i) n ≡ sum_below f n + sum_below g n
unfolding sum_below
sum_below_plus f g zero = omega arith
sum_below_plus f g (suc n) = omega (arith, sum_below_plus f g n)

pub sum_below_append :
    (f : ℕ → ℕ) (m n : ℕ) → sum_below f (m + n) ≡ sum_below f m + sum_below (λ i. f (m + i)) n
unfolding sum_below
sum_below_append f m zero = let here : m + 0 ≡ m = omega arith in rw here (omega arith)
sum_below_append f m (suc n) =
    let next : m + suc n ≡ suc (m + n) = omega arith in
    rw next (omega (arith, sum_below_append f m n))

pub sum_gap :
    (f : ℕ → ℕ) (m n : ℕ) → ((i : ℕ) → i < n → f (m + i) ≡ 0) → sum_below f (m + n) ≡ sum_below f m
unfolding sum_below
sum_gap f m zero h = let here : m + 0 ≡ m = omega arith in rw here refl
sum_gap f m (suc n) h =
    let next : m + suc n ≡ suc (m + n) = omega arith in
    rw next (omega (arith, sum_gap f m n (λ i p. h i (omega (arith, p))), h n (omega arith)))

-- A sum with one term that counts.
pub pick_one : (c v n : ℕ) → sum_below (λ i. if c == i then v else 0) n ≡ (if ltb c n then v else 0)
unfolding sum_below
pick_one c v zero = ground arith
pick_one c v (suc n) = ground (arith, pick_one c v n)

-- A sum over `n` chunks of `m`.
pub sum_below_chunks :
    (f : ℕ → ℕ) (m n : ℕ)
    → sum_below f (n * m) ≡ sum_below (λ i. sum_below (λ j. f (i * m + j)) m) n
unfolding sum_below
sum_below_chunks f m zero = let none : 0 * m ≡ 0 = omega arith in rw none refl
sum_below_chunks f m (suc n) =
    let more : suc n * m ≡ n * m + m = omega arith in
    rw more (sum_below_append f (n * m) m ∙ omega (arith, sum_below_chunks f m n))

-- A step at one place.
pub sum_below_bump :
    (f g : ℕ → ℕ) (i n : ℕ)
    → i < n
    → g i ≡ f i + 1
    → ((j : ℕ) → j ≢ i → g j ≡ f j)
    → sum_below g n ≡ sum_below f n + 1
unfolding sum_below
sum_below_bump f g i zero h e other = absurd (omega arith)
sum_below_bump f g i (suc n) h e other = elim (ℕ_discrete n i) [
  | yes same ↦
      let below = sum_below-ext g f n (λ j p. other j (λ x. absurd (omega arith))) in
      ground (arith, below, e, same)
  | no ne ↦ omega (arith, sum_below_bump f g i n (omega arith) e other, other n ne)
]

pub sum_below_bound : (f : ℕ → ℕ) (b n : ℕ) → ((i : ℕ) → i < n → f i ≤ b) → sum_below f n ≤ n * b
unfolding sum_below
sum_below_bound f b zero h = omega arith
sum_below_bound f b (suc n) h =
    omega (arith, sum_below_bound f b n (λ i p. h i (omega arith)), h n (omega arith))
