-- ===== src/Gguf/GridBlocks.antt =====
-- The decoders of iq2_xxs, iq2_xs, iq3_xxs and iq1_s add every element of their block once.
use quixi_core_xpu.Common.{
  ℕ, ◌+◌, ◌*◌, ◌/◌, ◌%◌, ◌^◌, ◌<◌, ◌≡◌, refl, ap, ◌∙◌, not, ltb, leb, ◌==◌, if◌then◌else◌, bit_and,
  bit_or, arith,
}
use quixi_core_xpu.Common.Launch.{Buffer, sum_below}
use quixi_core_xpu.Common.Words.{bit_or-shl, bit_and-join, bit_and-zero, low_one}
use quixi_core_xpu.Gguf.Chunks.{repeat_below, repeat_chunks, repeat_pairs}
use quixi_core_xpu.Gguf.{Term}
use quixi_core_xpu.Gguf.Legacy.{rd_u32}
use quixi_core_xpu.Gguf.Grids.{
  Grids, grid_byte, signed_term, iq2_xxs_block, iq2_xs_block, iq3_xxs_block, iq1_s_block,
}
use quixi_core_xpu.Gguf.Scales.{IsBytes}
use quixi_core_xpu.Gguf.Formats.{iq2_xxs, iq2_xs, iq3_xxs, iq1_s}
use quixi_core_xpu.Gguf.Reference.{reference}
use quixi_core_xpu.Gguf.Blocks.{counting, element}

module _ (grids : Grids) (f : Term → ℕ) (blk : Buffer ℕ) where
  pub iq2_xxs_block_sum :
      (acc : ℕ)
      → iq2_xxs_block grids (counting grids f blk) blk acc
        ≡ acc + sum_below (element grids f blk iq2_xxs) 256
  unfolding iq2_xxs_block reference
  iq2_xxs_block_sum acc =
      repeat_chunks _ (element grids f blk iq2_xxs) 32 8
        (λ ib a p.
          repeat_chunks _ (λ i. element grids f blk iq2_xxs (ib * 32 + i)) 8 4
            (λ l b q.
              repeat_below
                (λ j c.
                  c
                  + f (
                      signed_term grids (counting grids f blk) blk (ib * 32 + l * 8 + j)
                        (grid_byte (grids.iq2xxs (blk (2 + 8 * ib + l))) j)
                        (rd_u32 blk (2 + 8 * ib + 4) / 2 ^ 28)
                        (grids.ksigns (rd_u32 blk (2 + 8 * ib + 4) / 2 ^ (7 * l) % 128)) j))
                (λ j. element grids f blk iq2_xxs (ib * 32 + (l * 8 + j))) 8
                (λ j c r.
                  let at : ib * 32 + (l * 8 + j) ≡ ib * 32 + l * 8 + j = omega arith in
                  let d : (ib * 32 + l * 8 + j) / 32 ≡ ib = omega (arith, q, r) in
                  let e : (ib * 32 + l * 8 + j) / 8 % 4 ≡ l = omega (arith, q, r) in
                  let k : (ib * 32 + l * 8 + j) % 8 ≡ j = omega (arith, r) in rw (at, d, e, k) refl)
                b)
            a)
        acc

  pub iq3_xxs_block_sum :
      (acc : ℕ)
      → iq3_xxs_block grids (counting grids f blk) blk acc
        ≡ acc + sum_below (element grids f blk iq3_xxs) 256
  unfolding iq3_xxs_block reference
  iq3_xxs_block_sum acc =
      repeat_chunks _ (element grids f blk iq3_xxs) 32 8
        (λ ib a p.
          repeat_chunks _ (λ i. element grids f blk iq3_xxs (ib * 32 + i)) 8 4
            (λ l b q.
              let word = rd_u32 blk (66 + 4 * ib) in
              let signs = grids.ksigns (word / 2 ^ (7 * l) % 128) in
              repeat_pairs
                (λ j. f (
                  signed_term grids (counting grids f blk) blk (ib * 32 + l * 8 + j)
                    (grid_byte (grids.iq3xxs (blk (2 + 8 * ib + (2 * l + 0)))) j) (word / 2 ^ 28)
                    signs (j + 0)))
                (λ j. f (
                  signed_term grids (counting grids f blk) blk (ib * 32 + l * 8 + 4 + j)
                    (grid_byte (grids.iq3xxs (blk (2 + 8 * ib + (2 * l + 1)))) j) (word / 2 ^ 28)
                    signs (j + 4)))
                (λ j. element grids f blk iq3_xxs (ib * 32 + (l * 8 + j))) 4
                (λ j r.
                  let at : ib * 32 + (l * 8 + j) ≡ ib * 32 + l * 8 + j = omega arith in
                  let d : (ib * 32 + l * 8 + j) / 32 ≡ ib = omega (arith, q, r) in
                  let e : (ib * 32 + l * 8 + j) / 8 % 4 ≡ l = omega (arith, q, r) in
                  let k : (ib * 32 + l * 8 + j) % 8 ≡ j + 0 = omega (arith, r) in
                  let m : (ib * 32 + l * 8 + j) % 4 ≡ j = omega (arith, r) in
                  let n : 2 + (ib * 32 + l * 8 + j) / 4 ≡ 2 + 8 * ib + (2 * l + 0) =
                    omega (arith, r) in
                  rw (at, d, e, k, m, n) refl)
                (λ j r.
                  let at : ib * 32 + (l * 8 + (4 + j)) ≡ ib * 32 + l * 8 + 4 + j = omega arith in
                  let d : (ib * 32 + l * 8 + 4 + j) / 32 ≡ ib = omega (arith, q, r) in
                  let e : (ib * 32 + l * 8 + 4 + j) / 8 % 4 ≡ l = omega (arith, q, r) in
                  let k : (ib * 32 + l * 8 + 4 + j) % 8 ≡ j + 4 = omega (arith, r) in
                  let m : (ib * 32 + l * 8 + 4 + j) % 4 ≡ j = omega (arith, r) in
                  let n : 2 + (ib * 32 + l * 8 + 4 + j) / 4 ≡ 2 + 8 * ib + (2 * l + 1) =
                    omega (arith, r) in
                  rw (at, d, e, k, m, n) refl)
                b)
            a)
        acc

  module _ (small : IsBytes blk) where
    -- Two bytes make a half-word.
    half_word : (o : ℕ) → bit_or (blk o) (blk (o + 1) * 2 ^ 8) ≡ blk o + 256 * blk (o + 1)
    half_word o = omega (arith, bit_or-shl 8 (blk o) (blk (o + 1)) (small o))

    pub iq2_xs_block_sum :
        (acc : ℕ)
        → iq2_xs_block grids (counting grids f blk) blk acc
          ≡ acc + sum_below (element grids f blk iq2_xs) 256
    unfolding iq2_xs_block reference
    iq2_xs_block_sum acc =
        repeat_chunks _ (element grids f blk iq2_xs) 32 8
          (λ ib a p.
            repeat_chunks _ (λ i. element grids f blk iq2_xs (ib * 32 + i)) 8 4
              (λ l b q.
                let q2 = bit_or (blk (2 + 8 * ib + 2 * l)) (blk (2 + 8 * ib + 2 * l + 1) * 2 ^ 8) in
                repeat_below
                  (λ j c.
                    c
                    + f (
                        signed_term grids (counting grids f blk) blk (ib * 32 + l * 8 + j)
                          (grid_byte (grids.iq2xs (q2 % 512)) j)
                          (if ltb l 2 then blk (66 + ib) % 16 else blk (66 + ib) / 16)
                          (grids.ksigns (q2 / 2 ^ 9)) j))
                  (λ j. element grids f blk iq2_xs (ib * 32 + (l * 8 + j))) 8
                  (λ j c r.
                    let at : ib * 32 + (l * 8 + j) ≡ ib * 32 + l * 8 + j = omega arith in
                    let d : (ib * 32 + l * 8 + j) / 32 ≡ ib = omega (arith, q, r) in
                    let e : 2 + (ib * 32 + l * 8 + j) / 8 * 2 ≡ 2 + 8 * ib + 2 * l =
                      omega (arith, r) in
                    let k : (ib * 32 + l * 8 + j) % 8 ≡ j = omega (arith, r) in
                    let m : ((ib * 32 + l * 8 + j) / 16 % 2 == 0) ≡ ltb l 2 =
                      ground (arith, q, r) in
                    rw (at, d, e, k, m, half_word (2 + 8 * ib + 2 * l)) refl)
                  b)
              a)
          acc

    -- The top bit of a half-word.
    sign_bit : (x : ℕ) → x < 65536 → not (bit_and x 0x8000 == 0) ≡ leb 32768 x
    sign_bit x h =
        let whole : x / 32768 * 2 ^ 15 + x % 32768 ≡ x = omega arith in
        let split =
          bit_and-join 15 (x % 32768) (x / 32768) 0 1 (omega arith) (omega arith)
          ∙ ap (λ (t : ℕ). bit_and (x / 32768) 1 * 2 ^ 15 + t) (bit_and-zero (x % 32768)) in
        ground (arith, ap (λ (t : ℕ). bit_and t 0x8000) whole, split, low_one (x / 32768), h)

    pub iq1_s_block_sum :
        (acc : ℕ)
        → iq1_s_block grids (counting grids f blk) blk acc
          ≡ acc + sum_below (element grids f blk iq1_s) 256
    unfolding iq1_s_block reference
    iq1_s_block_sum acc =
        repeat_chunks _ (element grids f blk iq1_s) 32 8
          (λ ib a p.
            repeat_chunks _ (λ i. element grids f blk iq1_s (ib * 32 + i)) 8 4
              (λ l b q.
                let qh = bit_or (blk (34 + 2 * ib)) (blk (34 + (2 * ib + 1)) * 2 ^ 8) in
                let byte = λ (j : ℕ).
                  grid_byte
                    (grids.iq1s (bit_or (blk (2 + (4 * ib + l))) (qh / 2 ^ (3 * l) % 8 * 2 ^ 8)))
                    j in
                repeat_below
                  (λ j c.
                    c
                    + f (record {
                      at = ib * 32 + l * 8 + j;
                      quant = byte j;
                      bias = if leb 128 (byte j) then 256 else 0;
                      scale = 2 * (qh / 2 ^ 12 % 8) + 1;
                      minimum = 0;
                      negative = not (bit_and qh 0x8000 == 0);
                    }))
                  (λ j. element grids f blk iq1_s (ib * 32 + (l * 8 + j))) 8
                  (λ j c r.
                    let at : ib * 32 + (l * 8 + j) ≡ ib * 32 + l * 8 + j = omega arith in
                    let d : (ib * 32 + l * 8 + j) / 32 ≡ ib = omega (arith, q, r) in
                    let e : 2 + (ib * 32 + l * 8 + j) / 8 ≡ 2 + (4 * ib + l) = omega (arith, r) in
                    let g : (ib * 32 + l * 8 + j) / 8 % 4 ≡ l = omega (arith, q, r) in
                    let k : (ib * 32 + l * 8 + j) % 8 ≡ j = omega (arith, r) in
                    let sum = blk (34 + 2 * ib) + 256 * blk (34 + (2 * ib + 1)) in
                    let word : qh ≡ sum = omega (
                      arith,
                      bit_or-shl 8 (blk (34 + 2 * ib)) (blk (34 + (2 * ib + 1)))
                          (small (34 + 2 * ib)),
                    ) in
                    let index : bit_or (blk (2 + (4 * ib + l))) (sum / 2 ^ (3 * l) % 8 * 2 ^ 8)
                        ≡ blk (2 + (4 * ib + l)) + 256 * (sum / 2 ^ (3 * l) % 8) =
                      omega (
                        arith,
                        bit_or-shl 8 (blk (2 + (4 * ib + l))) (sum / 2 ^ (3 * l) % 8)
                            (small (2 + (4 * ib + l))),
                      ) in
                    let top =
                      sign_bit sum
                        (omega (arith, small (34 + 2 * ib), small (34 + (2 * ib + 1)))) in
                    rw (at, d, e, g, k, word, index, top) refl)
                  b)
              a)
          acc
