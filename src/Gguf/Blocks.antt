-- ===== src/Gguf/Blocks.antt =====
-- A block decoder adds every element of its block once, with the quant and the scale that the format
-- gives it.
use native.Mathlib.Nat.{pow-suc, pow-zero}
use quixi_core_xpu.Common.{
  ℕ, zero, suc, ◌+◌, ◌-◌, ◌*◌, ◌/◌, ◌%◌, ◌^◌, ◌<◌, ◌≡◌, refl, ap, ◌∙◌, true, false, ltb, ◌==◌,
  if◌then◌else◌, arith,
}
use quixi_core_xpu.Common.Launch.{Buffer, sum_below}
use quixi_core_xpu.Gguf.Loops.{repeat_sum, halves_sum, quarters_sum, eighths_sum, rows_sum}
use quixi_core_xpu.Gguf.{
  Term, q2_term, iq4_term, q2_k_block, iq4_nl_block, scale_min_k4, fifth_bit, k_term, nibble_term,
  q6_term, q8_0_block, q4_0_block, q4_k_block, q5_k_block, q6_k_block,
}
use quixi_core_xpu.Gguf.Grids.{Grids}
use quixi_core_xpu.Gguf.Formats.{BlockFormat, q8_0, q4_0, q4_k, q5_k, q6_k, q2_k, iq4_nl}
use quixi_core_xpu.Gguf.Reference.{reference}

two_pow : (i j : ℕ) → 2 ^ (i * 2 + j) ≡ 2 ^ j * 4 ^ i
two_pow zero j = let here : 0 * 2 + j ≡ j = omega arith in rw (here, pow-zero 4) (omega arith)
two_pow (suc i) j =
    let next : suc i * 2 + j ≡ suc (suc (i * 2 + j)) = omega arith in
    rw (next, pow-suc, pow-suc, pow-suc 4 i, two_pow i j) (grind arith)

module _ (grids : Grids) (f : Term → ℕ) (blk : Buffer ℕ) where
  abbrev pub counting : Term → ℕ → ℕ
  counting t acc = acc + f t

  abbrev pub element : BlockFormat → ℕ → ℕ
  element format e = f (reference grids format blk e)

  pub q8_0_block_sum : (acc : ℕ) → q8_0_block counting blk acc ≡ acc + sum_below (element q8_0) 32
  unfolding q8_0_block reference
  q8_0_block_sum acc = repeat_sum (λ i a. a + element q8_0 i) (element q8_0) (λ i a. refl) 32 acc

  pub q4_0_block_sum : (acc : ℕ) → q4_0_block counting blk acc ≡ acc + sum_below (element q4_0) 32
  unfolding q4_0_block reference
  q4_0_block_sum acc =
      rows_sum (element q4_0) (λ i. f (nibble_term counting blk i (blk (2 + i) % 16)))
        (λ i. f (nibble_term counting blk (16 + i) (blk (2 + i) / 16)))
        (λ i h. let first : ltb i 16 ≡ true = ground (arith, h) in rw first refl)
        (λ i h.
          let second : ltb (16 + i) 16 ≡ false = ground arith in
          let back : 16 + i - 16 ≡ i = omega arith in rw (second, back) refl)
        acc

  pub iq4_nl_block_sum :
      (acc : ℕ) → iq4_nl_block counting blk acc ≡ acc + sum_below (element iq4_nl) 32
  unfolding iq4_nl_block reference
  iq4_nl_block_sum acc =
      rows_sum (element iq4_nl) (λ i. f (iq4_term counting blk i (blk (2 + i) % 16)))
        (λ i. f (iq4_term counting blk (16 + i) (blk (2 + i) / 16)))
        (λ i h. let first : ltb i 16 ≡ true = ground (arith, h) in rw first refl)
        (λ i h.
          let second : ltb (16 + i) 16 ≡ false = ground arith in
          let back : 16 + i - 16 ≡ i = omega arith in rw (second, back) refl)
        acc

  pub q2_k_block_sum : (acc : ℕ) → q2_k_block counting blk acc ≡ acc + sum_below (element q2_k) 256
  unfolding q2_k_block reference
  q2_k_block_sum acc =
      eighths_sum (element q2_k)
        (λ h j l. f (
          q2_term counting blk (h * 128 + j * 32 + l) (blk (16 + h * 32 + l) / 4 ^ j)
            (blk (h * 8 + j * 2))))
        (λ h j l. f (
          q2_term counting blk (h * 128 + j * 32 + 16 + l) (blk (16 + h * 32 + (l + 16)) / 4 ^ j)
            (blk (h * 8 + j * 2 + 1))))
        (λ h j l p q r.
          let at : h * 128 + (j * 32 + l) ≡ h * 128 + j * 32 + l = omega arith in
          let a : (h * 128 + j * 32 + l) / 128 ≡ h = omega (arith, q, r) in
          let b : (h * 128 + j * 32 + l) % 32 ≡ l = omega (arith, r) in
          let c : (h * 128 + j * 32 + l) / 32 % 4 ≡ j = omega (arith, q, r) in
          let d : (h * 128 + j * 32 + l) / 16 ≡ h * 8 + j * 2 = omega (arith, r) in
          rw (at, a, b, c, d) refl)
        (λ h j l p q r.
          let at : h * 128 + (j * 32 + (16 + l)) ≡ h * 128 + j * 32 + 16 + l = omega arith in
          let a : (h * 128 + j * 32 + 16 + l) / 128 ≡ h = omega (arith, q, r) in
          let b : (h * 128 + j * 32 + 16 + l) % 32 ≡ l + 16 = omega (arith, r) in
          let c : (h * 128 + j * 32 + 16 + l) / 32 % 4 ≡ j = omega (arith, q, r) in
          let d : (h * 128 + j * 32 + 16 + l) / 16 ≡ h * 8 + j * 2 + 1 = omega (arith, r) in
          rw (at, a, b, c, d) refl)
        acc

  pub q4_k_block_sum : (acc : ℕ) → q4_k_block counting blk acc ≡ acc + sum_below (element q4_k) 256
  unfolding q4_k_block reference
  q4_k_block_sum acc =
      halves_sum (element q4_k)
        (λ iter l. f (
          k_term (iter * 64 + l) (blk (16 + iter * 32 + l) % 16)
            (scale_min_k4 (iter * 2 + 0) (λ i. blk (4 + i)))))
        (λ iter l. f (
          k_term (iter * 64 + 32 + l) (blk (16 + iter * 32 + l) / 16)
            (scale_min_k4 (iter * 2 + 1) (λ i. blk (4 + i)))))
        (λ iter l h p.
          let a : (iter * 64 + l) / 64 ≡ iter = omega (arith, p) in
          let b : (iter * 64 + l) % 32 ≡ l = omega (arith, p) in
          let c : (iter * 64 + l) / 32 ≡ iter * 2 + 0 = omega (arith, p) in
          let d : ((iter * 2 + 0) % 2 == 0) ≡ true = ground arith in rw (a, b, c, d) refl)
        (λ iter l h p.
          let at : iter * 64 + (32 + l) ≡ iter * 64 + 32 + l = omega arith in
          let a : (iter * 64 + 32 + l) / 64 ≡ iter = omega (arith, p) in
          let b : (iter * 64 + 32 + l) % 32 ≡ l = omega (arith, p) in
          let c : (iter * 64 + 32 + l) / 32 ≡ iter * 2 + 1 = omega (arith, p) in
          let d : ((iter * 2 + 1) % 2 == 0) ≡ false = ground arith in rw (at, a, b, c, d) refl)
        acc

  pub q5_k_block_sum : (acc : ℕ) → q5_k_block counting blk acc ≡ acc + sum_below (element q5_k) 256
  unfolding q5_k_block reference
  q5_k_block_sum acc =
      halves_sum (element q5_k)
        (λ iter l. f (
          k_term (iter * 64 + l)
            (blk (48 + iter * 32 + l) % 16 + fifth_bit (blk (16 + l)) (4 ^ iter))
            (scale_min_k4 (iter * 2 + 0) (λ i. blk (4 + i)))))
        (λ iter l. f (
          k_term (iter * 64 + 32 + l)
            (blk (48 + iter * 32 + l) / 16 + fifth_bit (blk (16 + l)) (2 * 4 ^ iter))
            (scale_min_k4 (iter * 2 + 1) (λ i. blk (4 + i)))))
        (λ iter l h p.
          let a : (iter * 64 + l) / 64 ≡ iter = omega (arith, p) in
          let b : (iter * 64 + l) % 32 ≡ l = omega (arith, p) in
          let c : (iter * 64 + l) / 32 ≡ iter * 2 + 0 = omega (arith, p) in
          let d : ((iter * 2 + 0) % 2 == 0) ≡ true = ground arith in
          let u : 2 ^ (iter * 2 + 0) ≡ 4 ^ iter = two_pow iter 0 ∙ omega (arith, pow-zero 2) in
          rw (a, b, c, d, u) refl)
        (λ iter l h p.
          let at : iter * 64 + (32 + l) ≡ iter * 64 + 32 + l = omega arith in
          let a : (iter * 64 + 32 + l) / 64 ≡ iter = omega (arith, p) in
          let b : (iter * 64 + 32 + l) % 32 ≡ l = omega (arith, p) in
          let c : (iter * 64 + 32 + l) / 32 ≡ iter * 2 + 1 = omega (arith, p) in
          let d : ((iter * 2 + 1) % 2 == 0) ≡ false = ground arith in
          let u : 2 ^ (iter * 2 + 1) ≡ 2 * 4 ^ iter = two_pow iter 1 ∙ omega arith in
          rw (at, a, b, c, d, u) refl)
        acc

  -- Quarter `p` of a half, from the nibble and the byte of qh.
  abbrev quarter : ℕ → ℕ → ℕ → ℕ → ℕ → ℕ
  quarter half l p nibble high = f (q6_term counting blk half l p nibble high)

  quarter_at :
      (half p l : ℕ)
      → half < 2
      → p < 4
      → l < 32
      → element q6_k (half * 128 + (p * 32 + l))
        ≡ quarter half l p
            (if ltb p 2
              then blk (half * 64 + (l + p % 2 * 32)) % 16
              else blk (half * 64 + (l + p % 2 * 32)) / 16)
            (blk (128 + half * 32 + l) / 4 ^ p)
  unfolding reference
  quarter_at half p l h hp hl =
      let at : half * 128 + (p * 32 + l) ≡ half * 128 + l + 32 * p = omega arith in
      let a : (half * 128 + l + 32 * p) / 128 ≡ half = omega (arith, hp, hl) in
      let b : (half * 128 + l + 32 * p) % 32 ≡ l = omega (arith, hl) in
      let c : (half * 128 + l + 32 * p) / 32 % 4 ≡ p = omega (arith, hp, hl) in
      rw (at, a, b, c) refl

  abbrev term_of : ℕ → ℕ → ℕ → ℕ
  term_of half zero l = quarter half l 0 (blk (half * 64 + l) % 16) (blk (128 + half * 32 + l) / 1)
  term_of half (suc zero) l =
      quarter half l 1 (blk (half * 64 + (l + 32)) % 16) (blk (128 + half * 32 + l) / 4)
  term_of half (suc (suc zero)) l =
      quarter half l 2 (blk (half * 64 + l) / 16) (blk (128 + half * 32 + l) / 16)
  term_of half (suc (suc (suc _))) l =
      quarter half l 3 (blk (half * 64 + (l + 32)) / 16) (blk (128 + half * 32 + l) / 64)

  term_of_lem :
      (half p l : ℕ)
      → half < 2
      → p < 4
      → l < 32
      → element q6_k (half * 128 + (p * 32 + l)) ≡ term_of half p l
  term_of_lem half zero l h hp hl =
      let same : l + 0 ≡ l = omega arith in
      quarter_at half 0 l h hp hl
      ∙ ap (λ (i : ℕ). quarter half l 0 (blk (half * 64 + i) % 16) (blk (128 + half * 32 + l) / 1))
          same
  term_of_lem half (suc zero) l h hp hl = quarter_at half 1 l h hp hl
  term_of_lem half (suc (suc zero)) l h hp hl =
      let same : l + 0 ≡ l = omega arith in
      quarter_at half 2 l h hp hl
      ∙ ap (λ (i : ℕ). quarter half l 2 (blk (half * 64 + i) / 16) (blk (128 + half * 32 + l) / 16))
          same
  term_of_lem half (suc (suc (suc zero))) l h hp hl = quarter_at half 3 l h hp hl
  term_of_lem half (suc (suc (suc (suc p)))) l h hp hl = absurd (omega (arith, hp))

  pub q6_k_block_sum : (acc : ℕ) → q6_k_block counting blk acc ≡ acc + sum_below (element q6_k) 256
  unfolding q6_k_block
  q6_k_block_sum acc = quarters_sum (element q6_k) term_of term_of_lem acc
