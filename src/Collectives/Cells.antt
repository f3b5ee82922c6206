-- ===== src/Collectives/Cells.antt =====
-- Cells of the memory of all ranks, before and after a change.
use quixi_core_xpu.Common.{
  ℕ, zero, suc, ◌<◌, ◌≡◌, refl, ap₂, Bool, true, false, ◌==◌, ◌&&◌, arith, ◌⊎◌, inl, inr,
  Bool-cases,
}
use quixi_core_xpu.Common.Launch.{Buffer}
use quixi_core_xpu.Collectives.{SumUnit, accumulate, put}

module _ {A : Type 0} (f : ℕ → ℕ → A) (r i : ℕ) (a : A) (s j : ℕ) where
  -- A cell after a change is the changed one or as before.
  pub put-eq :
      (v : A) → (s ≡ r → j ≡ i → a ≡ v) → (¬ ((s ≡ r) × (j ≡ i)) → f s j ≡ v) → put f r i a s j ≡ v
  put-eq v here there = elim (Bool-cases ((s == r) && (j == i))) [
    | inl same ↦ rw same (here (ground arith) (ground arith))
    | inr other ↦ rw other (there (ground arith))
  ]

pub put-flag :
    (f : ℕ → ℕ → Bool) (r i s j : ℕ)
    → put f r i true s j ≡ true
    → ((s ≡ r) × (j ≡ i)) ⊎ (f s j ≡ true)
put-flag f r i s j h = ground arith

pub put-flag-kept : (f : ℕ → ℕ → Bool) (r i s j : ℕ) → f s j ≡ true → put f r i true s j ≡ true
put-flag-kept f r i s j h = ground arith

pub put-flag-false :
    (f : ℕ → ℕ → Bool) (r i s j : ℕ)
    → put f r i true s j ≡ false
    → (f s j ≡ false) × ¬ ((s ≡ r) × (j ≡ i))
put-flag-false f r i s j h = ground arith

module _ {T : Type 0} (u : SumUnit T) where
  pub accumulate-ext :
      (f g : ℕ → Buffer T) (n i : ℕ)
      → ((s : ℕ) → s < n → f s i ≡ g s i)
      → accumulate u f n i ≡ accumulate u g n i
  unfolding accumulate
  accumulate-ext f g zero i h = refl
  accumulate-ext f g (suc n) i h =
      ap₂ (λ x y. u.add x (u.to_float y)) (accumulate-ext f g n i (λ s p. h s (omega arith)))
        (h n (omega arith))
