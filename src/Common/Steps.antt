-- ===== src/Common/Steps.antt =====
-- A launch whose items each run as one step on the memory, in the order of the list.
use Prim.Native.Nat.{ℕ, ◌<◌}
use mathlib.Core.Path.{◌≡◌}
use mathlib.Core.Logic.{◌≢◌}
use mathlib.Core.List.{List, [], ◌∷◌}
use native.Mathlib.Omega.{arith}
use native.Mathlib.Decide.{ℕ_discrete}
use quixi_core_xpu.Common.Launch.{count, count-head, count-tail}

unfoldable pub run_steps {ℓ} : {M : Type ℓ} → (ℕ → M → M) → List ℕ → M → M
run_steps step [] mem = mem
run_steps step (i ∷ rest) mem = run_steps step rest (step i mem)

module _ {ℓ} {M : Type ℓ} (step : ℕ → M → M) where
  -- What every item of the launch keeps, the launch keeps.
  pub run_steps-keep {ℓ'} :
      (P : M → Type ℓ') (s : List ℕ)
      → ((j : ℕ) → 0 < count j s → (mem : M) → P mem → P (step j mem))
      → (mem : M) → P mem
      → P (run_steps step s mem)
  unfolding run_steps
  run_steps-keep P [] keep mem p = p
  run_steps-keep P (j ∷ s) keep mem p =
      run_steps-keep P s (λ k h. keep k (count-tail k j s h)) (step j mem)
        (keep j (count-head j s) mem p)

  -- Item `i` runs once and makes `Q` of `P`; the others keep both.
  pub run_steps-once {ℓ'} :
      (P Q : M → Type ℓ') (i : ℕ)
      → ((mem : M) → P mem → Q (step i mem))
      → (s : List ℕ) → ((j : ℕ) → 0 < count j s → j ≢ i → (mem : M) → P mem → P (step j mem))
      → ((j : ℕ) → 0 < count j s → j ≢ i → (mem : M) → Q mem → Q (step j mem))
      → count i s ≡ 1
      → (mem : M) → P mem
      → Q (run_steps step s mem)
  unfolding run_steps count
  run_steps-once P Q i makes [] keep_p keep_q once mem p = absurd (omega (arith, once))
  run_steps-once P Q i makes (j ∷ s) keep_p keep_q once mem p = elim (ℕ_discrete j i) [
    | yes e ↦
        let gone : count i s ≡ 0 = ground (arith, once, e) in
        run_steps-keep Q s
          (λ k h. keep_q k (count-tail k j s h) (λ same. absurd (ground (arith, gone, h, same))))
          (step j mem) (rw e (makes mem p))
    | no ne ↦
        run_steps-once P Q i makes s (λ k h. keep_p k (count-tail k j s h))
          (λ k h. keep_q k (count-tail k j s h)) (ground (arith, once, ne)) (step j mem)
          (keep_p j (count-head j s) ne mem p)
  ]
