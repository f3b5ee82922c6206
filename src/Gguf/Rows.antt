-- ===== src/Gguf/Rows.antt =====
-- A row of blocks: the 32 lanes add every element of the row once.
use quixi_core_xpu.Common.{
  ℕ, zero, suc, ◌+◌, ◌*◌, ◌/◌, ◌%◌, ◌≤◌, ◌≡◌, refl, sym, ◌∙◌, false, ltb, arith,
}
use quixi_core_xpu.Common.Launch.{Buffer, sum_below, sum_below-ext}
use quixi_core_xpu.Common.Sums.{sum_below_chunks}
use quixi_core_xpu.Common.Rows.{row_div, row_mod}
use quixi_core_xpu.Gguf.{Term}
use quixi_core_xpu.Gguf.Grids.{Grids}
use quixi_core_xpu.Gguf.Formats.{
  BlockFormat, q8_0, q4_0, q4_k, q5_k, q6_k, q2_k, iq4_nl, q3_k, q4_1, q5_0, q5_1, iq4_xs, iq2_xxs,
  iq2_xs, iq3_xxs, iq1_s, block_bytes, block_size, block_acc, lanes, lane_loop, lane_acc,
}
use quixi_core_xpu.Gguf.Lanes.{lane_sum, lanes_sum}
use quixi_core_xpu.Gguf.Scales.{IsBytes}
use quixi_core_xpu.Gguf.Reference.{reference}
use quixi_core_xpu.Gguf.Blocks.{
  q8_0_block_sum, q4_0_block_sum, q4_k_block_sum, q5_k_block_sum, q6_k_block_sum, q2_k_block_sum,
  iq4_nl_block_sum,
}
use quixi_core_xpu.Gguf.LegacyBlocks.{
  q3_k_block_sum, q4_1_block_sum, q5_0_block_sum, q5_1_block_sum, iq4_xs_block_sum,
}
use quixi_core_xpu.Gguf.GridBlocks.{
  iq2_xxs_block_sum, iq2_xs_block_sum, iq3_xxs_block_sum, iq1_s_block_sum,
}

-- A lane's loop ends: once the fuel is as much as the blocks that are left, whatever is added, more
-- fuel changes nothing.
pub lane_loop_ends :
    {F : Type 0} (step : ℕ → F → F) (blocks fuel more b : ℕ) (acc : F)
    → blocks ≤ b + fuel
    → lane_loop step blocks (fuel + more) b acc ≡ lane_loop step blocks fuel b acc
unfolding lane_loop
lane_loop_ends step blocks zero zero b acc enough = refl
lane_loop_ends step blocks zero (suc more) b acc enough =
    let past : ltb b blocks ≡ false = ground (arith, enough) in
    let fuel : 0 + suc more ≡ suc more = omega arith in rw (fuel, past) refl
lane_loop_ends step blocks (suc fuel) more b acc enough =
    let next : suc fuel + more ≡ suc (fuel + more) = omega arith in
    rw (next, lane_loop_ends step blocks fuel more (b + lanes) (step b acc) (omega (arith, enough)))
      refl

-- A block decoder adds each element of the block.
block_acc_sum :
    (grids : Grids) (f : Term → ℕ) (blk : Buffer ℕ)
    → IsBytes blk
    → (format : BlockFormat) (acc : ℕ)
    → block_acc grids format (λ t a. a + f t) blk acc
      ≡ acc + sum_below (λ e. f (reference grids format blk e)) (block_size format)
unfolding block_acc block_size
block_acc_sum grids f blk small q8_0 acc = q8_0_block_sum grids f blk acc
block_acc_sum grids f blk small q4_0 acc = q4_0_block_sum grids f blk acc
block_acc_sum grids f blk small q4_k acc = q4_k_block_sum grids f blk acc
block_acc_sum grids f blk small q5_k acc = q5_k_block_sum grids f blk acc
block_acc_sum grids f blk small q6_k acc = q6_k_block_sum grids f blk acc
block_acc_sum grids f blk small q2_k acc = q2_k_block_sum grids f blk acc
block_acc_sum grids f blk small iq4_nl acc = iq4_nl_block_sum grids f blk acc
block_acc_sum grids f blk small q3_k acc = q3_k_block_sum grids f blk small acc
block_acc_sum grids f blk small q4_1 acc = q4_1_block_sum grids f blk small acc
block_acc_sum grids f blk small q5_0 acc = q5_0_block_sum grids f blk small acc
block_acc_sum grids f blk small q5_1 acc = q5_1_block_sum grids f blk small acc
block_acc_sum grids f blk small iq4_xs acc = iq4_xs_block_sum grids f blk small acc
block_acc_sum grids f blk small iq2_xxs acc = iq2_xxs_block_sum grids f blk acc
block_acc_sum grids f blk small iq2_xs acc = iq2_xs_block_sum grids f blk small acc
block_acc_sum grids f blk small iq3_xxs acc = iq3_xxs_block_sum grids f blk acc
block_acc_sum grids f blk small iq1_s acc = iq1_s_block_sum grids f blk small acc

-- Element `k` of a row, in its block.
abbrev pub row_element : Grids → BlockFormat → (ℕ → Term → ℕ) → Buffer ℕ → ℕ → ℕ
row_element grids format f row k = f (k / block_size format) (
    reference grids format (λ i. row (k / block_size format * block_bytes format + i))
      (k % block_size format))

-- Whatever is counted of the terms that the 32 lanes of a row add, in every block: the count over all
-- lanes is the count over the elements of the row, each once, with the quant, the bias, the scale
-- and the minimum that the block format gives it.
pub lanes-reference :
    (grids : Grids) (format : BlockFormat) (f : ℕ → Term → ℕ) (row : Buffer ℕ) (blocks : ℕ)
    → IsBytes row
    → sum_below (λ lane. lane_acc grids format (λ b t acc. acc + f b t) 0 row blocks lane) lanes
      ≡ sum_below (row_element grids format f row) (blocks * block_size format)
unfolding lane_acc
lanes-reference grids format f row blocks small =
    sum_below-ext (λ lane. lane_acc grids format (λ b t acc. acc + f b t) 0 row blocks lane) _ lanes
      (λ lane in_group. omega (
        arith,
        lane_sum block_sum
            (λ b acc.
              block_acc grids format (λ t acc. acc + f b t) (λ i. row (b * block_bytes format + i))
                acc)
            (λ b acc.
              block_acc_sum grids (f b) (λ i. row (b * block_bytes format + i))
                (λ i. small (b * block_bytes format + i)) format acc)
            blocks blocks lane 0 in_group (omega arith),
      ))
    ∙ lanes_sum block_sum blocks
    ∙ sum_below-ext block_sum _ blocks (λ b h.
      sum_below-ext _ (λ e. row_element grids format f row (b * block_size format + e))
        (block_size format)
        (λ e p. rw (row_div b e (block_size format) p, row_mod b e (block_size format) p) refl))
    ∙ sym (sum_below_chunks (row_element grids format f row) (block_size format) blocks)
  where
    block_sum : ℕ → ℕ
    block_sum b =
        sum_below (λ e. f b (reference grids format (λ i. row (b * block_bytes format + i)) e))
          (block_size format)
