-- ===== src/Gguf/Loops.antt =====
-- The loops of the block decoders, as sums.
use quixi_core_xpu.Common.{ℕ, zero, suc, ◌+◌, ◌*◌, ◌<◌, ◌≡◌, sym, ap, ◌∙◌, arith}
use quixi_core_xpu.Common.Launch.{sum_below, sum_below-ext}
use quixi_core_xpu.Common.Sums.{sum_below_plus, sum_below_append, sum_below_chunks}
use quixi_core_xpu.Gguf.{repeat}

pub repeat_sum :
    (body : ℕ → ℕ → ℕ) (g : ℕ → ℕ)
    → ((i acc : ℕ) → body i acc ≡ acc + g i)
    → (n acc : ℕ) → repeat body n acc ≡ acc + sum_below g n
unfolding repeat sum_below
repeat_sum body g adds zero acc = omega arith
repeat_sum body g adds (suc n) acc =
    omega (arith, adds n (repeat body n acc), repeat_sum body g adds n acc)

-- Two halves of 32 in each of four steps.
pub halves_sum :
    (g : ℕ → ℕ) (low high : ℕ → ℕ → ℕ)
    → ((iter l : ℕ) → iter < 4 → l < 32 → g (iter * 64 + l) ≡ low iter l)
    → ((iter l : ℕ) → iter < 4 → l < 32 → g (iter * 64 + (32 + l)) ≡ high iter l)
    → (acc : ℕ)
    → repeat (λ iter a. repeat (λ l a. a + low iter l + high iter l) 32 a) 4 acc
      ≡ acc + sum_below g 256
halves_sum g low high is_low is_high acc =
    repeat_sum (λ iter a. repeat (λ l a. a + low iter l + high iter l) 32 a)
      (λ iter. sum_below (λ l. low iter l + high iter l) 32)
      (λ iter a.
        repeat_sum (λ l a. a + low iter l + high iter l) (λ l. low iter l + high iter l)
          (λ l a. omega arith) 32 a)
      4 acc
    ∙ ap (λ (n : ℕ). acc + n)
        (sum_below-ext _ (λ iter. sum_below (λ j. g (iter * 64 + j)) 64) 4 chunk
          ∙ sym (sum_below_chunks g 64 4))
  where
    chunk :
        (iter : ℕ)
        → iter < 4
        → sum_below (λ l. low iter l + high iter l) 32 ≡ sum_below (λ j. g (iter * 64 + j)) 64
    chunk iter h = omega (
      arith,
      sum_below_plus (low iter) (high iter) 32,
      sum_below_append (λ j. g (iter * 64 + j)) 32 32,
      sum_below-ext (λ l. g (iter * 64 + l)) (low iter) 32 (λ l p. is_low iter l h p),
      sum_below-ext (λ l. g (iter * 64 + (32 + l))) (high iter) 32 (λ l p. is_high iter l h p),
    )

pub four_terms : (u : ℕ → ℕ) → sum_below u 4 ≡ u 0 + u 1 + u 2 + u 3
unfolding sum_below
four_terms u = omega arith

-- Four quarters of 32 in each of two steps.
pub quarters_sum :
    (g : ℕ → ℕ) (t : ℕ → ℕ → ℕ → ℕ)
    → ((half p l : ℕ) → half < 2 → p < 4 → l < 32 → g (half * 128 + (p * 32 + l)) ≡ t half p l)
    → (acc : ℕ)
    → repeat
        (λ half a. repeat (λ l a. a + t half 0 l + t half 1 l + t half 2 l + t half 3 l) 32 a)
        2
        acc
      ≡ acc + sum_below g 256
quarters_sum g t is_t acc =
    repeat_sum
      (λ half a. repeat (λ l a. a + t half 0 l + t half 1 l + t half 2 l + t half 3 l) 32 a)
      (λ half. sum_below (four half) 32)
      (λ half a.
        repeat_sum (λ l a. a + t half 0 l + t half 1 l + t half 2 l + t half 3 l) (four half)
          (λ l a. omega arith) 32 a)
      2 acc
    ∙ ap (λ (n : ℕ). acc + n)
        (sum_below-ext _ (λ half. sum_below (λ j. g (half * 128 + j)) 128) 2 chunk
          ∙ sym (sum_below_chunks g 128 2))
  where
    four : ℕ → ℕ → ℕ
    four half l = t half 0 l + t half 1 l + t half 2 l + t half 3 l

    apart : (half : ℕ) → sum_below (four half) 32 ≡ sum_below (λ p. sum_below (t half p) 32) 4
    apart half = omega (
      arith,
      sum_below_plus (λ l. t half 0 l + t half 1 l + t half 2 l) (t half 3) 32,
      sum_below_plus (λ l. t half 0 l + t half 1 l) (t half 2) 32,
      sum_below_plus (t half 0) (t half 1) 32,
      four_terms (λ p. sum_below (t half p) 32),
    )

    chunk :
        (half : ℕ) → half < 2 → sum_below (four half) 32 ≡ sum_below (λ j. g (half * 128 + j)) 128
    chunk half h =
        apart half
        ∙ sum_below-ext (λ p. sum_below (t half p) 32)
            (λ p. sum_below (λ l. g (half * 128 + (p * 32 + l))) 32) 4
            (λ p hp.
              sum_below-ext (t half p) (λ l. g (half * 128 + (p * 32 + l))) 32
                (λ l hl. sym (is_t half p l h hp hl)))
        ∙ sym (sum_below_chunks (λ j. g (half * 128 + j)) 32 4)

-- Two rows of 16 in each of four steps, twice.
pub eighths_sum :
    (g : ℕ → ℕ) (low high : ℕ → ℕ → ℕ → ℕ)
    → ((h j l : ℕ) → h < 2 → j < 4 → l < 16 → g (h * 128 + (j * 32 + l)) ≡ low h j l)
    → ((h j l : ℕ) → h < 2 → j < 4 → l < 16 → g (h * 128 + (j * 32 + (16 + l))) ≡ high h j l)
    → (acc : ℕ)
    → repeat (λ h a. repeat (λ j a. repeat (λ l a. a + low h j l + high h j l) 16 a) 4 a) 2 acc
      ≡ acc + sum_below g 256
eighths_sum g low high is_low is_high acc =
    repeat_sum (λ h a. repeat (λ j a. repeat (λ l a. a + low h j l + high h j l) 16 a) 4 a)
      (λ h. sum_below (λ j. sum_below (λ l. low h j l + high h j l) 16) 4)
      (λ h a.
        repeat_sum (λ j a. repeat (λ l a. a + low h j l + high h j l) 16 a)
          (λ j. sum_below (λ l. low h j l + high h j l) 16)
          (λ j a.
            repeat_sum (λ l a. a + low h j l + high h j l) (λ l. low h j l + high h j l)
              (λ l a. omega arith) 16 a)
          4 a)
      2 acc
    ∙ ap (λ (n : ℕ). acc + n)
        (sum_below-ext _ (λ h. sum_below (λ i. g (h * 128 + i)) 128) 2 half
          ∙ sym (sum_below_chunks g 128 2))
  where
    chunk :
        (h j : ℕ)
        → h < 2
        → j < 4
        → sum_below (λ l. low h j l + high h j l) 16
          ≡ sum_below (λ i. g (h * 128 + (j * 32 + i))) 32
    chunk h j p q = omega (
      arith,
      sum_below_plus (low h j) (high h j) 16,
      sum_below_append (λ i. g (h * 128 + (j * 32 + i))) 16 16,
      sum_below-ext (λ l. g (h * 128 + (j * 32 + l))) (low h j) 16 (λ l r. is_low h j l p q r),
      sum_below-ext (λ l. g (h * 128 + (j * 32 + (16 + l)))) (high h j) 16
          (λ l r. is_high h j l p q r),
    )

    half :
        (h : ℕ)
        → h < 2
        → sum_below (λ j. sum_below (λ l. low h j l + high h j l) 16) 4
          ≡ sum_below (λ i. g (h * 128 + i)) 128
    half h p =
        sum_below-ext _ (λ j. sum_below (λ i. g (h * 128 + (j * 32 + i))) 32) 4
          (λ j q. chunk h j p q)
        ∙ sym (sum_below_chunks (λ i. g (h * 128 + i)) 32 4)

-- Two rows of 16.
pub rows_sum :
    (g low high : ℕ → ℕ)
    → ((i : ℕ) → i < 16 → g i ≡ low i)
    → ((i : ℕ) → i < 16 → g (16 + i) ≡ high i)
    → (acc : ℕ) → repeat (λ i a. a + low i + high i) 16 acc ≡ acc + sum_below g 32
rows_sum g low high is_low is_high acc = omega (
  arith,
  repeat_sum (λ i a. a + low i + high i) (λ i. low i + high i) (λ i a. omega arith) 16 acc,
  sum_below_plus low high 16,
  sum_below_append g 16 16,
  sum_below-ext g low 16 is_low,
  sum_below-ext (λ i. g (16 + i)) high 16 is_high,
)
