-- ===== src/Gguf/Grids.antt =====
-- The blocks whose quants are indices into a grid of values:
-- kernels/quantization/gguf_gemv/variants/xpu_sycl/gguf_gemv.sycl.cpp. The grids, the rows of signs and the
-- mask of each sign are tables, an argument here.
use quixi_core_xpu.Common.{
  ℕ, ◌+◌, ◌*◌, ◌/◌, ◌%◌, ◌^◌, leb, ltb, ◌==◌, not, if◌then◌else◌, bit_and, bit_or,
}
use quixi_core_xpu.Common.Launch.{Buffer}
use quixi_core_xpu.Gguf.{Term, repeat}
use quixi_core_xpu.Gguf.Legacy.{rd_u32}

pub record Grids : Type 0 where
  pub iq2xxs : Buffer ℕ
  pub iq2xs : Buffer ℕ
  pub iq3xxs : Buffer ℕ
  pub iq1s : Buffer ℕ
  pub ksigns : Buffer ℕ
  pub kmask : Buffer ℕ

-- Byte `j` of a word of a grid.
abbrev pub grid_byte : ℕ → ℕ → ℕ
grid_byte g j = g / 2 ^ (8 * j) % 256

module _ (grids : Grids) {F : Type 0} (add : Term → F → F) (blk : Buffer ℕ) where
  -- A term from a byte of a grid, a scale and a row of signs.
  abbrev pub signed_term : ℕ → ℕ → ℕ → ℕ → ℕ → Term
  signed_term at byte scale signs k = record {
    at = at;
    quant = byte;
    bias = if leb 128 byte then 256 else 0;
    scale = scale;
    minimum = 0;
    negative = not (bit_and signs (grids.kmask k) == 0);
  }

  unfoldable pub iq2_xxs_block : F → F
  unfolding repeat rd_u32
  iq2_xxs_block acc =
      repeat
        (λ ib acc.
          let a1 = rd_u32 blk (2 + 8 * ib + 4) in
          repeat
            (λ l acc.
              let g = grids.iq2xxs (blk (2 + 8 * ib + l)) in
              let signs = grids.ksigns (a1 / 2 ^ (7 * l) % 128) in
              let yb = ib * 32 + l * 8 in
              repeat (λ j acc. add (signed_term (yb + j) (grid_byte g j) (a1 / 2 ^ 28) signs j) acc)
                8 acc)
            4 acc)
        8 acc

  unfoldable pub iq2_xs_block : F → F
  unfolding repeat
  iq2_xs_block acc =
      repeat
        (λ ib acc.
          let ls1 = blk (66 + ib) % 16 in
          let ls2 = blk (66 + ib) / 16 in
          repeat
            (λ l acc.
              let p = 2 + 8 * ib + 2 * l in
              let q2 = bit_or (blk p) (blk (p + 1) * 2 ^ 8) in
              let g = grids.iq2xs (q2 % 512) in
              let signs = grids.ksigns (q2 / 2 ^ 9) in
              let db = if ltb l 2 then ls1 else ls2 in
              let yb = ib * 32 + l * 8 in
              repeat (λ j acc. add (signed_term (yb + j) (grid_byte g j) db signs j) acc) 8 acc)
            4 acc)
        8 acc

  unfoldable pub iq3_xxs_block : F → F
  unfolding repeat rd_u32
  iq3_xxs_block acc =
      repeat
        (λ ib acc.
          let a = rd_u32 blk (66 + 4 * ib) in
          repeat
            (λ l acc.
              let signs = grids.ksigns (a / 2 ^ (7 * l) % 128) in
              let g1 = grids.iq3xxs (blk (2 + 8 * ib + (2 * l + 0))) in
              let g2 = grids.iq3xxs (blk (2 + 8 * ib + (2 * l + 1))) in
              let yb = ib * 32 + l * 8 in
              repeat
                (λ j acc.
                  add (signed_term (yb + 4 + j) (grid_byte g2 j) (a / 2 ^ 28) signs (j + 4))
                    (add (signed_term (yb + j) (grid_byte g1 j) (a / 2 ^ 28) signs (j + 0)) acc))
                4 acc)
            4 acc)
        8 acc

  unfoldable pub iq1_s_block : F → F
  unfolding repeat
  iq1_s_block acc =
      repeat
        (λ ib acc.
          let qh = bit_or (blk (34 + 2 * ib)) (blk (34 + (2 * ib + 1)) * 2 ^ 8) in
          repeat
            (λ l acc.
              let gi = bit_or (blk (2 + (4 * ib + l))) (qh / 2 ^ (3 * l) % 8 * 2 ^ 8) in
              let g = grids.iq1s gi in
              let yb = ib * 32 + l * 8 in
              repeat
                (λ j acc.
                  add
                    (record {
                      at = yb + j;
                      quant = grid_byte g j;
                      bias = if leb 128 (grid_byte g j) then 256 else 0;
                      scale = 2 * (qh / 2 ^ 12 % 8) + 1;
                      minimum = 0;
                      negative = not (bit_and qh 0x8000 == 0);
                    })
                    acc)
                8 acc)
            4 acc)
        8 acc
