-- ===== src/Gguf/Reference.antt =====
-- What each element of a block is, one by one, as the formats lay it out.
use quixi_core_xpu.Common.{
  ℕ, ◌+◌, ◌-◌, ◌*◌, ◌/◌, ◌%◌, ◌^◌, false, not, ltb, leb, ◌==◌, if◌then◌else◌, bit_and, bit_or,
}
use quixi_core_xpu.Common.Launch.{Buffer}
use quixi_core_xpu.Gguf.{Term, iq4_value, scale_min_k4, fifth_bit, k_term}
use quixi_core_xpu.Gguf.Legacy.{rd_u32}
use quixi_core_xpu.Gguf.Grids.{Grids, grid_byte}
use quixi_core_xpu.Gguf.Scales.{q3_scale}
use quixi_core_xpu.Gguf.Formats.{
  BlockFormat, q8_0, q4_0, q4_k, q5_k, q6_k, q2_k, iq4_nl, q3_k, q4_1, q5_0, q5_1, iq4_xs, iq2_xxs,
  iq2_xs, iq3_xxs, iq1_s,
}

-- A value of a grid with the sign of element `e`.
abbrev pub grid_term : Grids → ℕ → ℕ → ℕ → ℕ → Term
grid_term grids e byte scale signs = record {
  at = e;
  quant = byte;
  bias = if leb 128 byte then 256 else 0;
  scale = scale;
  minimum = 0;
  negative = not (bit_and signs (grids.kmask (e % 8)) == 0);
}

-- Element `e` of a block, as the format lays it out.
unfoldable pub reference : Grids → BlockFormat → Buffer ℕ → ℕ → Term
unfolding scale_min_k4 fifth_bit iq4_value rd_u32 q3_scale
reference grids q8_0 blk e = record {
  at = e;
  quant = blk (2 + e);
  bias = if leb 128 (blk (2 + e)) then 256 else 0;
  scale = 1;
  minimum = 0;
  negative = false;
}
reference grids q4_0 blk e = record {
  at = e;
  quant = if ltb e 16 then blk (2 + e) % 16 else blk (2 + (e - 16)) / 16;
  bias = 8;
  scale = 1;
  minimum = 0;
  negative = false;
}
reference grids q4_k blk e =
    let byte = blk (16 + e / 64 * 32 + e % 32) in
    k_term e (if e / 32 % 2 == 0 then byte % 16 else byte / 16)
      (scale_min_k4 (e / 32) (λ i. blk (4 + i)))
reference grids q5_k blk e =
    let byte = blk (48 + e / 64 * 32 + e % 32) in
    k_term e
      ((if e / 32 % 2 == 0 then byte % 16 else byte / 16)
        + fifth_bit (blk (16 + e % 32)) (2 ^ (e / 32)))
      (scale_min_k4 (e / 32) (λ i. blk (4 + i)))
reference grids q6_k blk e =
    let p = e / 32 % 4 in
    let byte = blk (e / 128 * 64 + (e % 32 + p % 2 * 32)) in
    let high = blk (128 + e / 128 * 32 + e % 32) in
    record {
      at = e;
      quant = bit_or (if ltb p 2 then byte % 16 else byte / 16) (high / 4 ^ p % 4 * 16);
      bias = 32;
      scale = blk (192 + e / 128 * 8 + (e % 32 / 16 + 2 * p));
      minimum = 0;
      negative = false;
    }
reference grids q2_k blk e = record {
  at = e;
  quant = blk (16 + e / 128 * 32 + e % 32) / 4 ^ (e / 32 % 4) % 4;
  bias = 0;
  scale = blk (e / 16) % 16;
  minimum = blk (e / 16) / 16;
  negative = false;
}
reference grids iq4_nl blk e = record {
  at = e;
  quant = iq4_value (if ltb e 16 then blk (2 + e) % 16 else blk (2 + (e - 16)) / 16);
  bias = 127;
  scale = 1;
  minimum = 0;
  negative = false;
}
reference grids q3_k blk e = record {
  at = e;
  quant = blk (32 + e / 128 * 32 + e % 32) / 4 ^ (e / 32 % 4) % 4;
  bias = if blk (e % 32) / 2 ^ (e / 32) % 2 == 1 then 0 else 4;
  scale = q3_scale (λ i. blk (96 + i)) (e / 16);
  minimum = 0;
  negative = false;
}
reference grids q4_1 blk e = record {
  at = e;
  quant = if ltb e 16 then blk (4 + e) % 16 else blk (4 + (e - 16)) / 16;
  bias = 0;
  scale = 1;
  minimum = 1;
  negative = false;
}
reference grids q5_0 blk e = record {
  at = e;
  quant =
      (if ltb e 16 then blk (6 + e) % 16 else blk (6 + (e - 16)) / 16)
      + 16 * (rd_u32 blk 2 / 2 ^ e % 2);
  bias = 16;
  scale = 1;
  minimum = 0;
  negative = false;
}
reference grids q5_1 blk e = record {
  at = e;
  quant =
      (if ltb e 16 then blk (8 + e) % 16 else blk (8 + (e - 16)) / 16)
      + 16 * (rd_u32 blk 4 / 2 ^ e % 2);
  bias = 0;
  scale = 1;
  minimum = 1;
  negative = false;
}
reference grids iq4_xs blk e =
    let byte = blk (8 + e / 32 * 16 + e % 16) in
    record {
      at = e;
      quant = iq4_value (if ltb (e % 32) 16 then byte % 16 else byte / 16);
      bias = 127;
      scale =
          blk (4 + e / 32 / 2) / 2 ^ (4 * (e / 32 % 2)) % 16
          + 16 * ((blk 2 + 256 * blk 3) / 2 ^ (2 * (e / 32)) % 4);
      minimum = 0;
      negative = false;
    }
reference grids iq2_xxs blk e =
    let a1 = rd_u32 blk (2 + 8 * (e / 32) + 4) in
    grid_term grids e (grid_byte (grids.iq2xxs (blk (2 + 8 * (e / 32) + e / 8 % 4))) (e % 8))
      (a1 / 2 ^ 28) (grids.ksigns (a1 / 2 ^ (7 * (e / 8 % 4)) % 128))
reference grids iq2_xs blk e =
    let q2 = blk (2 + e / 8 * 2) + 256 * blk (2 + e / 8 * 2 + 1) in
    let scales = blk (66 + e / 32) in
    grid_term grids e (grid_byte (grids.iq2xs (q2 % 512)) (e % 8))
      (if e / 16 % 2 == 0 then scales % 16 else scales / 16) (grids.ksigns (q2 / 512))
reference grids iq3_xxs blk e =
    let a = rd_u32 blk (66 + 4 * (e / 32)) in
    grid_term grids e (grid_byte (grids.iq3xxs (blk (2 + e / 4))) (e % 4)) (a / 2 ^ 28)
      (grids.ksigns (a / 2 ^ (7 * (e / 8 % 4)) % 128))
reference grids iq1_s blk e =
    let qh = blk (34 + 2 * (e / 32)) + 256 * blk (34 + (2 * (e / 32) + 1)) in
    let byte =
      grid_byte (grids.iq1s (blk (2 + e / 8) + 256 * (qh / 2 ^ (3 * (e / 8 % 4)) % 8))) (e % 8) in
    record {
      at = e;
      quant = byte;
      bias = if leb 128 byte then 256 else 0;
      scale = 2 * (qh / 4096 % 8) + 1;
      minimum = 0;
      negative = leb 32768 qh;
    }
