-- ===== src/Gguf/LegacyBlocks.antt =====
-- The decoders of q3_K, q4_1, q5_0, q5_1 and iq4_xs add every element of their block once.
use native.Mathlib.Nat.{pow-suc, div-div-eq-div-mul}
use quixi_core_xpu.Common.{
  ℕ, suc, ◌+◌, ◌-◌, ◌*◌, ◌/◌, ◌%◌, ◌^◌, ◌<◌, ◌≡◌, refl, ap, ◌∙◌, true, false, ltb, bit_and, bit_or,
  arith,
}
use quixi_core_xpu.Common.Launch.{Buffer, sum_below}
use quixi_core_xpu.Common.Words.{bit_or-shl}
use quixi_core_xpu.Gguf.Loops.{rows_sum, eighths_sum}
use quixi_core_xpu.Gguf.Chunks.{repeat_chunks, repeat_pairs}
use quixi_core_xpu.Gguf.{Term}
use quixi_core_xpu.Gguf.Legacy.{
  rd_u32, scl, q3_term, q3_k_block, affine_term, q4_1_block, q5_block, iq4_xs_term, iq4_xs_scale,
  iq4_xs_block,
}
use quixi_core_xpu.Gguf.Grids.{Grids}
use quixi_core_xpu.Gguf.Scales.{IsBytes, scl-q3_scale, fifth-bit_or}
use quixi_core_xpu.Gguf.Formats.{q3_k, q4_1, q5_0, q5_1, iq4_xs}
use quixi_core_xpu.Gguf.Reference.{reference}
use quixi_core_xpu.Gguf.Blocks.{counting, element}

-- The quants of q5_0 and q5_1: a nibble and digit `j` or `16 + j` of the word of high bits.
low_quant :
    (byte qh j : ℕ)
    → bit_or (byte % 16) (bit_and (qh / 2 ^ j * 16) 0x10) ≡ byte % 16 + 16 * (qh / 2 ^ j % 2)
low_quant byte qh j = omega (arith, fifth-bit_or (byte % 16) (qh / 2 ^ j * 16) (omega arith))

high_quant :
    (byte qh j : ℕ)
    → byte < 256
    → bit_or (byte / 16) (bit_and (qh / 2 ^ (j + 12)) 0x10)
      ≡ byte / 16 + 16 * (qh / 2 ^ (16 + j) % 2)
high_quant byte qh j h =
    let power : 2 ^ (j + 12) * 16 ≡ 2 ^ (16 + j) =
      let top : 16 + j ≡ suc (suc (suc (suc (j + 12)))) = omega arith in
      let k = j + 12 in
      rw
        (
          top,
          pow-suc 2 (suc (suc (suc k))),
          pow-suc 2 (suc (suc k)),
          pow-suc 2 (suc k),
          pow-suc 2 k,
        )
        (omega arith) in
    let down : qh / 2 ^ (j + 12) / 16 ≡ qh / 2 ^ (16 + j) =
      div-div-eq-div-mul qh (2 ^ (j + 12)) 16 ∙ ap (λ (t : ℕ). qh / t) power in
    omega (
      arith,
      fifth-bit_or (byte / 16) (qh / 2 ^ (j + 12)) (omega (arith, h)),
      ap (λ (t : ℕ). t % 2) down,
    )

module _ (grids : Grids) (f : Term → ℕ) (blk : Buffer ℕ) (small : IsBytes blk) where
  pub q3_k_block_sum :
      (acc : ℕ)
      → q3_k_block (counting grids f blk) blk acc ≡ acc + sum_below (element grids f blk q3_k) 256
  unfolding q3_k_block reference
  q3_k_block_sum acc =
      eighths_sum (element grids f blk q3_k)
        (λ h j l. f (
          q3_term (counting grids f blk) blk (h * 128 + j * 32 + l) (blk (32 + h * 32 + l)) j
            (blk l) (h * 4 + j) (scl (λ i. blk (96 + i)) (h * 8 + j * 2))))
        (λ h j l. f (
          q3_term (counting grids f blk) blk (h * 128 + j * 32 + 16 + l)
            (blk (32 + h * 32 + (l + 16))) j (blk (l + 16)) (h * 4 + j)
            (scl (λ i. blk (96 + i)) (h * 8 + j * 2 + 1))))
        (λ h j l p q r.
          let at : h * 128 + (j * 32 + l) ≡ h * 128 + j * 32 + l = omega arith in
          let a : (h * 128 + j * 32 + l) / 128 ≡ h = omega (arith, q, r) in
          let b : (h * 128 + j * 32 + l) % 32 ≡ l = omega (arith, r) in
          let c : (h * 128 + j * 32 + l) / 32 ≡ h * 4 + j = omega (arith, r) in
          let d : (h * 4 + j) % 4 ≡ j = omega (arith, q) in
          let e : (h * 128 + j * 32 + l) / 16 ≡ h * 8 + j * 2 = omega (arith, r) in
          rw
            (
              at,
              a,
              b,
              c,
              d,
              e,
              scl-q3_scale (λ i. blk (96 + i)) (λ i. small (96 + i)) (h * 8 + j * 2)
                  (omega (arith, p, q)),
            )
            refl)
        (λ h j l p q r.
          let at : h * 128 + (j * 32 + (16 + l)) ≡ h * 128 + j * 32 + 16 + l = omega arith in
          let a : (h * 128 + j * 32 + 16 + l) / 128 ≡ h = omega (arith, q, r) in
          let b : (h * 128 + j * 32 + 16 + l) % 32 ≡ l + 16 = omega (arith, r) in
          let c : (h * 128 + j * 32 + 16 + l) / 32 ≡ h * 4 + j = omega (arith, r) in
          let d : (h * 4 + j) % 4 ≡ j = omega (arith, q) in
          let e : (h * 128 + j * 32 + 16 + l) / 16 ≡ h * 8 + j * 2 + 1 = omega (arith, r) in
          rw
            (
              at,
              a,
              b,
              c,
              d,
              e,
              scl-q3_scale (λ i. blk (96 + i)) (λ i. small (96 + i)) (h * 8 + j * 2 + 1)
                  (omega (arith, p, q)),
            )
            refl)
        acc

  pub q4_1_block_sum :
      (acc : ℕ)
      → q4_1_block (counting grids f blk) blk acc ≡ acc + sum_below (element grids f blk q4_1) 32
  unfolding q4_1_block reference
  q4_1_block_sum acc =
      rows_sum (element grids f blk q4_1)
        (λ j. f (affine_term (counting grids f blk) blk j (blk (4 + j) % 16) 0 1))
        (λ j. f (affine_term (counting grids f blk) blk (16 + j) (blk (4 + j) / 16) 0 1))
        (λ j h. let first : ltb j 16 ≡ true = ground (arith, h) in rw first refl)
        (λ j h.
          let second : ltb (16 + j) 16 ≡ false = ground arith in
          let back : 16 + j - 16 ≡ j = omega arith in rw (second, back) refl)
        acc

  pub q5_0_block_sum :
      (acc : ℕ)
      → q5_block (counting grids f blk) blk false acc
        ≡ acc + sum_below (element grids f blk q5_0) 32
  unfolding q5_block reference
  q5_0_block_sum acc =
      rows_sum (element grids f blk q5_0)
        (λ j. f (
          affine_term (counting grids f blk) blk j
            (bit_or (blk (6 + j) % 16) (bit_and (rd_u32 blk 2 / 2 ^ j * 16) 0x10)) 16 0))
        (λ j. f (
          affine_term (counting grids f blk) blk (16 + j)
            (bit_or (blk (6 + j) / 16) (bit_and (rd_u32 blk 2 / 2 ^ (j + 12)) 0x10)) 16 0))
        (λ j h.
          let first : ltb j 16 ≡ true = ground (arith, h) in
          rw (first, low_quant (blk (6 + j)) (rd_u32 blk 2) j) refl)
        (λ j h.
          let second : ltb (16 + j) 16 ≡ false = ground arith in
          let back : 16 + j - 16 ≡ j = omega arith in
          rw (second, back, high_quant (blk (6 + j)) (rd_u32 blk 2) j (small (6 + j))) refl)
        acc

  pub q5_1_block_sum :
      (acc : ℕ)
      → q5_block (counting grids f blk) blk true acc ≡ acc + sum_below (element grids f blk q5_1) 32
  unfolding q5_block reference
  q5_1_block_sum acc =
      rows_sum (element grids f blk q5_1)
        (λ j. f (
          affine_term (counting grids f blk) blk j
            (bit_or (blk (8 + j) % 16) (bit_and (rd_u32 blk 4 / 2 ^ j * 16) 0x10)) 0 1))
        (λ j. f (
          affine_term (counting grids f blk) blk (16 + j)
            (bit_or (blk (8 + j) / 16) (bit_and (rd_u32 blk 4 / 2 ^ (j + 12)) 0x10)) 0 1))
        (λ j h.
          let first : ltb j 16 ≡ true = ground (arith, h) in
          rw (first, low_quant (blk (8 + j)) (rd_u32 blk 4) j) refl)
        (λ j h.
          let second : ltb (16 + j) 16 ≡ false = ground arith in
          let back : 16 + j - 16 ≡ j = omega arith in
          rw (second, back, high_quant (blk (8 + j)) (rd_u32 blk 4) j (small (8 + j))) refl)
        acc

  pub iq4_xs_block_sum :
      (acc : ℕ)
      → iq4_xs_block (counting grids f blk) blk acc
        ≡ acc + sum_below (element grids f blk iq4_xs) 256
  unfolding iq4_xs_block reference
  iq4_xs_block_sum acc =
      repeat_chunks _ (element grids f blk iq4_xs) 32 8
        (λ ib a p.
          repeat_pairs
            (λ j. f (
              iq4_xs_term (counting grids f blk) blk (ib * 32 + j) (blk (8 + ib * 16 + j) % 16)
                (iq4_xs_scale (counting grids f blk) blk ib)))
            (λ j. f (
              iq4_xs_term (counting grids f blk) blk (ib * 32 + 16 + j) (blk (8 + ib * 16 + j) / 16)
                (iq4_xs_scale (counting grids f blk) blk ib)))
            (λ j. element grids f blk iq4_xs (ib * 32 + j)) 16
            (λ j q.
              let c : (ib * 32 + j) / 32 ≡ ib = omega (arith, q) in
              let d : (ib * 32 + j) % 16 ≡ j = omega (arith, q) in
              let e : ltb ((ib * 32 + j) % 32) 16 ≡ true = ground (arith, q) in
              rw (c, d, e, scale_bytes ib) refl)
            (λ j q.
              let at : ib * 32 + (16 + j) ≡ ib * 32 + 16 + j = omega arith in
              let c : (ib * 32 + 16 + j) / 32 ≡ ib = omega (arith, q) in
              let d : (ib * 32 + 16 + j) % 16 ≡ j = omega (arith, q) in
              let e : ltb ((ib * 32 + 16 + j) % 32) 16 ≡ false = ground (arith, q) in
              rw (at, c, d, e, scale_bytes ib) refl)
            a)
        acc
    where
      scale_bytes :
          (ib : ℕ)
          → iq4_xs_scale (counting grids f blk) blk ib
            ≡ blk (4 + ib / 2) / 2 ^ (4 * (ib % 2)) % 16
              + 16 * ((blk 2 + 256 * blk 3) / 2 ^ (2 * ib) % 4)
      scale_bytes ib =
          let both : bit_or (blk 2) (blk 3 * 2 ^ 8) ≡ blk 2 + 256 * blk 3 =
            omega (arith, bit_or-shl 8 (blk 2) (blk 3) (small 2)) in
          ap
            (λ (w : ℕ).
              bit_or (blk (4 + ib / 2) / 2 ^ (4 * (ib % 2)) % 16) (w / 2 ^ (2 * ib) % 4 * 16))
            both
          ∙ omega (
            arith,
            bit_or-shl 4 (blk (4 + ib / 2) / 2 ^ (4 * (ib % 2)) % 16)
                ((blk 2 + 256 * blk 3) / 2 ^ (2 * ib) % 4) (omega arith),
          )
