-- ===== src/Common/Launch.antt =====
-- A SYCL `parallel_for`: work-items that run in no stated order. A launch is a list of work-items,
-- the order in which they happen to run; each may store one element into a buffer.
use Prim.Native.Nat.{ℕ, zero, suc, ◌+◌, ◌*◌, ◌≤◌, ◌<◌}
use mathlib.Core.Path.{◌≡◌, refl, sym, ap, ◌∙◌}
use mathlib.Core.Logic.{◌⊎◌, inl, inr}
use mathlib.Core.Option.{Option, none, some}
use mathlib.Core.List.{List, [], ◌∷◌}
use native.Mathlib.Omega.{arith}
use quixi_core_xpu.Common.Tests.{ltb, ◌==◌, if◌then◌else◌, Bool-cases}

-- How often item `i` runs.
unfoldable pub count : ℕ → List ℕ → ℕ
count i [] = 0
count i (j ∷ s) = if i == j then count i s + 1 else count i s

-- Every item below `n` runs exactly once, in any order.
abbrev pub IsSchedule : ℕ → List ℕ → Type 0
IsSchedule n s = (i : ℕ) → count i s ≡ (if ltb i n then 1 else 0)

-- A buffer in device memory, as the element at each index.
abbrev pub Buffer {ℓ} : Type ℓ → Type ℓ
Buffer A = ℕ → A

module _ {ℓ} {A : Type ℓ} where
  unfoldable pub store : Buffer A → ℕ → A → Buffer A
  store m c v = λ a. if a == c then v else m a

  -- What one work-item does to the buffer.
  unfoldable pub item_effect : Option (ℕ × A) → Buffer A → Buffer A
  unfolding store
  item_effect none m = m
  item_effect (some (c, v)) m = store m c v

  unfoldable pub run : (ℕ → Option (ℕ × A)) → List ℕ → Buffer A → Buffer A
  unfolding item_effect
  run w [] m = m
  run w (i ∷ s) m = run w s (item_effect (w i) m)

pub count-head : (i : ℕ) (s : List ℕ) → 0 < count i (i ∷ s)
unfolding count
count-head i s = ground arith

pub count-tail : (i j : ℕ) (s : List ℕ) → 0 < count i s → 0 < count i (j ∷ s)
unfolding count
count-tail i j s h = ground arith

pub count-split : (i j : ℕ) (s : List ℕ) → 0 < count i (j ∷ s) → (i ≡ j) ⊎ (0 < count i s)
unfolding count
count-split i j s h = ground arith

pub schedule-runs : (n : ℕ) (s : List ℕ) → IsSchedule n s → (i : ℕ) → i < n → 0 < count i s
schedule-runs n s h i p = ground (arith, h i)

pub schedule-bound : (n : ℕ) (s : List ℕ) → IsSchedule n s → (i : ℕ) → 0 < count i s → i < n
schedule-bound n s h i p = ground (arith, h i)

module _ {ℓ} {A : Type ℓ} (w : ℕ → Option (ℕ × A)) (c : ℕ) where
  -- Every store to `c` in the launch stores `v`.
  abbrev pub Stores : A → List ℕ → Type ℓ
  Stores v s = (j : ℕ) (u : A) → 0 < count j s → w j ≡ some (c, u) → u ≡ v

  item_effect-at :
      (o : Option (ℕ × A)) (m : Buffer A) (v : A)
      → ((u : A) → o ≡ some (c, u) → u ≡ v)
      → m c ≡ v
      → item_effect o m c ≡ v
  unfolding item_effect store
  item_effect-at none m v h e = e
  item_effect-at (some (d, u)) m v h e = elim (Bool-cases (c == d)) [
    | inl same ↦ rw same (h u (let d_is_c : d ≡ c = ground arith in ap (λ k. some (k, u)) d_is_c))
    | inr other ↦ rw other e
  ]

  item_effect-store : (m : Buffer A) (v : A) → item_effect (some (c, v)) m c ≡ v
  unfolding item_effect store
  item_effect-store m v = ground arith

  -- A cell that already holds `v` keeps it.
  pub run-keep : (v : A) (s : List ℕ) (m : Buffer A) → Stores v s → m c ≡ v → run w s m c ≡ v
  unfolding run
  run-keep v [] m h e = e
  run-keep v (i ∷ s) m h e =
      run-keep v s (item_effect (w i) m) (λ j u p. h j u (count-tail j i s p))
        (item_effect-at (w i) m v (λ u. h i u (count-head i s)) e)

  -- A cell to which nothing is stored keeps its value.
  pub run-miss :
      (s : List ℕ) (m : Buffer A)
      → ((j : ℕ) (u : A) → 0 < count j s → ¬ (w j ≡ some (c, u)))
      → run w s m c ≡ m c
  run-miss s m h = run-keep (m c) s m (λ j u p q. absurd (h j u p q)) refl

  -- A cell to which an item stores `v`, and no item anything else, holds `v` at the end.
  pub run-hit :
      (v : A) (s : List ℕ) (m : Buffer A) (i : ℕ)
      → 0 < count i s
      → w i ≡ some (c, v)
      → Stores v s
      → run w s m c ≡ v
  unfolding run
  run-hit v [] m i p e h = absurd (unfold count in omega arith)
  run-hit v (j ∷ s) m i p e h = elim (count-split i j s p) [
    | inl here ↦
        run-keep v s (item_effect (w j) m) (λ k u q. h k u (count-tail k j s q)) (landed here)
    | inr later ↦ run-hit v s (item_effect (w j) m) i later e (λ k u q. h k u (count-tail k j s q))
  ]
    where
      landed : i ≡ j → item_effect (w j) m c ≡ v
      landed here = rw (← here, e) (item_effect-store m v)

-- When every item stores to the cell of its own number.
pub run_own {ℓ} :
    {A : Type ℓ}
    → (f : ℕ → A) (s : List ℕ) (m : Buffer A) (i : ℕ) → 0 < count i s
    → run (λ j. some (j, f j)) s m i ≡ f i
run_own f s m i ran =
    run-hit (λ j. some (j, f j)) i (f i) s m i ran refl (λ j u _ e. grind (arith, e))

-- The sum of `f` over the items of a launch, and over the numbers below `n`.
unfoldable pub total : (ℕ → ℕ) → List ℕ → ℕ
total f [] = 0
total f (i ∷ s) = f i + total f s

unfoldable pub sum_below : (ℕ → ℕ) → ℕ → ℕ
sum_below f zero = 0
sum_below f (suc n) = sum_below f n + f n

pub sum_below-ext :
    (f g : ℕ → ℕ) (n : ℕ) → ((i : ℕ) → i < n → f i ≡ g i) → sum_below f n ≡ sum_below g n
unfolding sum_below
sum_below-ext f g zero h = refl
sum_below-ext f g (suc n) h =
    omega (arith, sum_below-ext f g n (λ i p. h i (omega arith)), h n (omega arith))

pub sum_below_mono : (f : ℕ → ℕ) (m n : ℕ) → m ≤ n → sum_below f m ≤ sum_below f n
unfolding sum_below
sum_below_mono f m zero h = let e : m ≡ 0 = omega arith in rw e (omega arith)
sum_below_mono f m (suc n) h = elim (eq_or_le m n h) [
  | inl e ↦ rw e (omega arith)
  | inr below ↦ omega (arith, sum_below_mono f m n below)
]
  where
    eq_or_le : (m n : ℕ) → m ≤ suc n → (m ≡ suc n) ⊎ (m ≤ n)
    eq_or_le m n h = omega arith

-- One more run of item `j` adds `f j` to the weighted sum.
weighted-cons :
    (f : ℕ → ℕ) (j : ℕ) (s : List ℕ) (n : ℕ)
    → sum_below (λ i. count i (j ∷ s) * f i) n
      ≡ sum_below (λ i. count i s * f i) n + (if ltb j n then f j else 0)
unfolding sum_below count
weighted-cons f j s zero = ground arith
weighted-cons f j s (suc n) = elim (Bool-cases (n == j)) [
  | inl here ↦
      let e : j ≡ n = ground arith in
      let more : (count n s + 1) * f n ≡ count n s * f n + f n = grind arith in
      let same : f j ≡ f n = ap f e in
      rw here (ground (arith, weighted-cons f j s n, e, more, same))
  | inr other ↦ rw other (ground (arith, weighted-cons f j s n))
]

total-weighted :
    (f : ℕ → ℕ) (n : ℕ) (s : List ℕ)
    → ((i : ℕ) → 0 < count i s → i < n)
    → total f s ≡ sum_below (λ i. count i s * f i) n
unfolding total sum_below count
total-weighted f n [] h = sym (nothing n)
  where
    nothing : (n : ℕ) → sum_below (λ i. count i [] * f i) n ≡ 0
    nothing zero = refl
    nothing (suc n) = omega (arith, nothing n)
total-weighted f n (j ∷ s) h = ground (
  arith,
  weighted-cons f j s n,
  h j (count-head j s),
  total-weighted f n s (λ i p. h i (count-tail i j s p)),
)

-- In whatever order the items run, a sum over them is the sum over their numbers.
pub total-schedule : (f : ℕ → ℕ) (n : ℕ) (s : List ℕ) → IsSchedule n s → total f s ≡ sum_below f n
total-schedule f n s h =
    total-weighted f n s (schedule-bound n s h)
    ∙ sum_below-ext (λ i. count i s * f i) f n (λ i p. ground (arith, h i))
