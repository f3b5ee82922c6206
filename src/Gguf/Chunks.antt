-- ===== src/Gguf/Chunks.antt =====
-- Loops over the chunks of a block, as sums.
use quixi_core_xpu.Common.{ℕ, zero, suc, ◌+◌, ◌*◌, ◌<◌, ◌≡◌, sym, ap, ◌∙◌, arith}
use quixi_core_xpu.Common.Launch.{sum_below, sum_below-ext}
use quixi_core_xpu.Common.Sums.{sum_below_plus, sum_below_append, sum_below_chunks}
use quixi_core_xpu.Gguf.{repeat}

pub repeat_below :
    (body : ℕ → ℕ → ℕ) (g : ℕ → ℕ) (n : ℕ)
    → ((i a : ℕ) → i < n → body i a ≡ a + g i)
    → (acc : ℕ) → repeat body n acc ≡ acc + sum_below g n
unfolding repeat sum_below
repeat_below body g zero adds acc = omega arith
repeat_below body g (suc n) adds acc = omega (
  arith,
  adds n (repeat body n acc) (omega arith),
  repeat_below body g n (λ i a p. adds i a (omega arith)) acc,
)

-- Every round adds a chunk of `m`.
pub repeat_chunks :
    (body : ℕ → ℕ → ℕ) (g : ℕ → ℕ) (m n : ℕ)
    → ((i a : ℕ) → i < n → body i a ≡ a + sum_below (λ j. g (i * m + j)) m)
    → (acc : ℕ) → repeat body n acc ≡ acc + sum_below g (n * m)
repeat_chunks body g m n adds acc =
    repeat_below body (λ i. sum_below (λ j. g (i * m + j)) m) n adds acc
    ∙ ap (λ (t : ℕ). acc + t) (sym (sum_below_chunks g m n))

-- Every round adds one element of each half.
pub repeat_pairs :
    (low high g : ℕ → ℕ) (n : ℕ)
    → ((j : ℕ) → j < n → g j ≡ low j)
    → ((j : ℕ) → j < n → g (n + j) ≡ high j)
    → (acc : ℕ) → repeat (λ j a. a + low j + high j) n acc ≡ acc + sum_below g (n + n)
repeat_pairs low high g n is_low is_high acc = omega (
  arith,
  repeat_below (λ j a. a + low j + high j) (λ j. low j + high j) n (λ j a p. omega arith) acc,
  sum_below_plus low high n,
  sum_below_append g n n,
  sum_below-ext g low n is_low,
  sum_below-ext (λ j. g (n + j)) high n is_high,
)
