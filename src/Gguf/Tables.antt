-- ===== src/Gguf/Tables.antt =====
-- No decoder reads past the end of a table.
use quixi_core_xpu.Common.{ℕ, ◌+◌, ◌*◌, ◌/◌, ◌%◌, ◌^◌, ◌<◌, ◌≡◌, refl, sym, ap, ◌∙◌, arith}
use quixi_core_xpu.Common.Launch.{Buffer, sum_below, sum_below-ext}
use quixi_core_xpu.Gguf.{Term}
use quixi_core_xpu.Gguf.Legacy.{rd_u32}
use quixi_core_xpu.Gguf.Grids.{Grids}
use quixi_core_xpu.Gguf.Formats.{
  BlockFormat, q8_0, q4_0, q4_k, q5_k, q6_k, q2_k, iq4_nl, q3_k, q4_1, q5_0, q5_1, iq4_xs, iq2_xxs,
  iq2_xs, iq3_xxs, iq1_s, block_bytes, block_size, lanes, lane_acc,
}
use quixi_core_xpu.Gguf.Scales.{IsBytes}
use quixi_core_xpu.Gguf.Reference.{reference}
use quixi_core_xpu.Gguf.Rows.{row_element, lanes-reference}

-- Two sets of tables agree as far as the tables of the source reach.
pub record Agree (g h : Grids) : Type 0 where
  pub iq2xxs : (i : ℕ) → i < 256 → g.iq2xxs i ≡ h.iq2xxs i
  pub iq2xs : (i : ℕ) → i < 512 → g.iq2xs i ≡ h.iq2xs i
  pub iq3xxs : (i : ℕ) → i < 256 → g.iq3xxs i ≡ h.iq3xxs i
  pub iq1s : (i : ℕ) → i < 2048 → g.iq1s i ≡ h.iq1s i
  pub ksigns : (i : ℕ) → i < 128 → g.ksigns i ≡ h.ksigns i
  pub kmask : (i : ℕ) → i < 8 → g.kmask i ≡ h.kmask i

reference-Agree :
    (g h : Grids)
    → Agree g h
    → (format : BlockFormat) (blk : Buffer ℕ) → IsBytes blk
    → (e : ℕ) → reference g format blk e ≡ reference h format blk e
unfolding reference
reference-Agree g h same q8_0 blk small e = refl
reference-Agree g h same q4_0 blk small e = refl
reference-Agree g h same q4_k blk small e = refl
reference-Agree g h same q5_k blk small e = refl
reference-Agree g h same q6_k blk small e = refl
reference-Agree g h same q2_k blk small e = refl
reference-Agree g h same iq4_nl blk small e = refl
reference-Agree g h same q3_k blk small e = refl
reference-Agree g h same q4_1 blk small e = refl
reference-Agree g h same q5_0 blk small e = refl
reference-Agree g h same q5_1 blk small e = refl
reference-Agree g h same iq4_xs blk small e = refl
reference-Agree g h same iq2_xxs blk small e =
    let a1 = rd_u32 blk (2 + 8 * (e / 32) + 4) in
    rw
      (
        same.iq2xxs (blk (2 + 8 * (e / 32) + e / 8 % 4)) (small (2 + 8 * (e / 32) + e / 8 % 4)),
        same.ksigns (a1 / 2 ^ (7 * (e / 8 % 4)) % 128) (omega arith),
        same.kmask (e % 8) (omega arith),
      )
      refl
reference-Agree g h same iq2_xs blk small e =
    let p = 2 + e / 8 * 2 in
    let q2 = blk p + 256 * blk (p + 1) in
    rw
      (
        same.iq2xs (q2 % 512) (omega arith),
        same.ksigns (q2 / 512) (omega (arith, small p, small (p + 1))),
        same.kmask (e % 8) (omega arith),
      )
      refl
reference-Agree g h same iq3_xxs blk small e =
    let a = rd_u32 blk (66 + 4 * (e / 32)) in
    rw
      (
        same.iq3xxs (blk (2 + e / 4)) (small (2 + e / 4)),
        same.ksigns (a / 2 ^ (7 * (e / 8 % 4)) % 128) (omega arith),
        same.kmask (e % 8) (omega arith),
      )
      refl
reference-Agree g h same iq1_s blk small e =
    let qh = blk (34 + 2 * (e / 32)) + 256 * blk (34 + (2 * (e / 32) + 1)) in
    rw
      (same.iq1s (blk (2 + e / 8) + 256 * (qh / 2 ^ (3 * (e / 8 % 4)) % 8))
        (omega (arith, small (2 + e / 8))))
      refl

-- For two sets of tables that agree on the 256, 512, 256 and 2048 entries of their grids, the 128 rows
-- of signs and the 8 masks: whatever is counted of the terms that the lanes of a row of bytes add, the
-- counts are equal, in every format. So no entry past the end of a table has a part in the result.
pub lanes-tables :
    (g h : Grids) (format : BlockFormat) (f : ℕ → Term → ℕ) (row : Buffer ℕ) (blocks : ℕ)
    → Agree g h
    → IsBytes row
    → sum_below (λ lane. lane_acc g format (λ b t acc. acc + f b t) 0 row blocks lane) lanes
      ≡ sum_below (λ lane. lane_acc h format (λ b t acc. acc + f b t) 0 row blocks lane) lanes
lanes-tables g h format f row blocks same small =
    lanes-reference g format f row blocks small
    ∙ sum_below-ext (row_element g format f row) (row_element h format f row) _ (λ k _.
      ap (λ t. f (k / block_size format) t)
        (reference-Agree g h same format (λ i. row (k / block_size format * block_bytes format + i))
          (λ i. small (k / block_size format * block_bytes format + i)) (k % block_size format)))
    ∙ sym (lanes-reference h format f row blocks small)
