-- ===== src/Common/Search.antt =====
-- Searches among the numbers below a bound.
use Prim.Native.Nat.{ℕ, zero, suc, ◌≤◌, ◌<◌}
use mathlib.Core.Path.{◌≡◌}
use mathlib.Core.Logic.{◌≢◌, ◌⊎◌, inl, inr}
use native.Mathlib.Omega.{arith}
use native.Mathlib.Decide.{ℕ_discrete, dec_le}

-- A function has one value throughout, or another one somewhere.
pub same_or_other :
    (f : ℕ → ℕ) (v n : ℕ) → ((i : ℕ) → i < n → f i ≡ v) ⊎ ((i : ℕ) × (i < n) × (f i ≢ v))
same_or_other f v zero = inl (λ i p. absurd (omega arith))
same_or_other f v (suc n) = elim (ℕ_discrete (f n) v) [
  | no ne ↦ inr (n, omega arith, ne)
  | yes e ↦ elim (same_or_other f v n) [
    | inr (i, p, ne) ↦ inr (i, omega arith, ne)
    | inl all ↦ inl (λ i p. last i p all e)
  ]
]
  where
    last : (i : ℕ) → i < suc n → ((j : ℕ) → j < n → f j ≡ v) → f n ≡ v → f i ≡ v
    last i p all e = elim (ℕ_discrete i n) [ yes same ↦ rw same e | no other ↦ all i (omega arith) ]

-- A function is least somewhere.
pub least : (f : ℕ → ℕ) (n : ℕ) → 0 < n → (i : ℕ) × (i < n) × ((j : ℕ) → j < n → f i ≤ f j)
least f zero h = absurd (omega arith)
least f (suc zero) h = (0, omega arith, λ j p. first j p)
  where
    first : (j : ℕ) → j < 1 → f 0 ≤ f j
    first j p = let e : j ≡ 0 = omega arith in rw e (omega arith)
least f (suc (suc n)) h =
    let (i, p, low) = least f (suc n) (omega arith) in
    elim (dec_le (f i) (f (suc n))) [
      | yes le ↦ (i, omega arith, λ j q. keep i low le j q)
      | no gt ↦ (suc n, omega arith, λ j q. replace i low gt j q)
    ]
  where
    keep :
        (i : ℕ)
        → ((j : ℕ) → j < suc n → f i ≤ f j)
        → f i ≤ f (suc n)
        → (j : ℕ) → j < suc (suc n)
        → f i ≤ f j
    keep i low le j q = elim (ℕ_discrete j (suc n)) [
      | yes same ↦ rw same le
      | no other ↦ low j (omega arith)
    ]

    replace :
        (i : ℕ)
        → ((j : ℕ) → j < suc n → f i ≤ f j)
        → ¬ (f i ≤ f (suc n))
        → (j : ℕ) → j < suc (suc n)
        → f (suc n) ≤ f j
    replace i low gt j q = elim (ℕ_discrete j (suc n)) [
      | yes same ↦ rw same (omega arith)
      | no other ↦ omega (arith, low j (omega arith))
    ]
