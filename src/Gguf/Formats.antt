-- ===== src/Gguf/Formats.antt =====
-- The formats of a row and the loop of a lane over its blocks:
-- kernels/quantization/gguf_gemv/variants/xpu_sycl/gguf_gemv.sycl.cpp.
use quixi_core_xpu.Common.{ℕ, zero, suc, ◌+◌, ◌*◌, true, false, ltb, ◌==◌, if◌then◌else◌}
use quixi_core_xpu.Common.Launch.{Buffer}
use quixi_core_xpu.Gguf.{
  Term, q8_0_block, q4_0_block, q4_k_block, q5_k_block, q6_k_block, q2_k_block, iq4_nl_block,
}
use quixi_core_xpu.Gguf.Legacy.{q3_k_block, q4_1_block, q5_block, iq4_xs_block}
use quixi_core_xpu.Gguf.Grids.{Grids, iq2_xxs_block, iq2_xs_block, iq3_xxs_block, iq1_s_block}

pub data BlockFormat : Type 0 where
  q8_0 : BlockFormat
  q4_0 : BlockFormat
  q4_k : BlockFormat
  q5_k : BlockFormat
  q6_k : BlockFormat
  q2_k : BlockFormat
  iq4_nl : BlockFormat
  q3_k : BlockFormat
  q4_1 : BlockFormat
  q5_0 : BlockFormat
  q5_1 : BlockFormat
  iq4_xs : BlockFormat
  iq2_xxs : BlockFormat
  iq2_xs : BlockFormat
  iq3_xxs : BlockFormat
  iq1_s : BlockFormat

-- The bytes and the elements of a block.
unfoldable pub block_bytes : BlockFormat → ℕ
block_bytes q8_0 = 34
block_bytes q4_0 = 18
block_bytes q4_k = 144
block_bytes q5_k = 176
block_bytes q6_k = 210
block_bytes q2_k = 84
block_bytes iq4_nl = 18
block_bytes q3_k = 110
block_bytes q4_1 = 20
block_bytes q5_0 = 22
block_bytes q5_1 = 24
block_bytes iq4_xs = 136
block_bytes iq2_xxs = 66
block_bytes iq2_xs = 74
block_bytes iq3_xxs = 98
block_bytes iq1_s = 50

unfoldable pub block_size : BlockFormat → ℕ
block_size q8_0 = 32
block_size q4_0 = 32
block_size q4_k = 256
block_size q5_k = 256
block_size q6_k = 256
block_size q2_k = 256
block_size iq4_nl = 32
block_size q3_k = 256
block_size q4_1 = 32
block_size q5_0 = 32
block_size q5_1 = 32
block_size iq4_xs = 256
block_size iq2_xxs = 256
block_size iq2_xs = 256
block_size iq3_xxs = 256
block_size iq1_s = 256

-- dispatch_type: the format that the kernel for a type number decodes.
unfoldable pub format_of : ℕ → BlockFormat
format_of type =
    if type == 12
    then iq2_xxs
    else if type == 13
    then iq2_xs
    else if type == 14
    then iq3_xxs
    else if type == 15
    then iq1_s
    else if type == 7
    then iq4_nl
    else if type == 8
    then q4_1
    else if type == 9
    then q5_0
    else if type == 10
    then q5_1
    else if type == 11
    then iq4_xs
    else if type == 2
    then q6_k
    else if type == 3
    then q4_k
    else if type == 4
    then q5_k
    else if type == 5
    then q2_k
    else if type == 6
    then q3_k
    else if type == 0
    then q8_0
    else q4_0

unfoldable pub block_acc : {F : Type 0} → Grids → BlockFormat → (Term → F → F) → Buffer ℕ → F → F
unfolding q8_0_block q4_0_block q4_k_block q5_k_block q6_k_block q2_k_block iq4_nl_block q3_k_block
    q4_1_block q5_block iq4_xs_block iq2_xxs_block iq2_xs_block iq3_xxs_block iq1_s_block
block_acc grids q8_0 add blk acc = q8_0_block add blk acc
block_acc grids q4_0 add blk acc = q4_0_block add blk acc
block_acc grids q4_k add blk acc = q4_k_block add blk acc
block_acc grids q5_k add blk acc = q5_k_block add blk acc
block_acc grids q6_k add blk acc = q6_k_block add blk acc
block_acc grids q2_k add blk acc = q2_k_block add blk acc
block_acc grids iq4_nl add blk acc = iq4_nl_block add blk acc
block_acc grids q3_k add blk acc = q3_k_block add blk acc
block_acc grids q4_1 add blk acc = q4_1_block add blk acc
block_acc grids q5_0 add blk acc = q5_block add blk false acc
block_acc grids q5_1 add blk acc = q5_block add blk true acc
block_acc grids iq4_xs add blk acc = iq4_xs_block add blk acc
block_acc grids iq2_xxs add blk acc = iq2_xxs_block grids add blk acc
block_acc grids iq2_xs add blk acc = iq2_xs_block grids add blk acc
block_acc grids iq3_xxs add blk acc = iq3_xxs_block grids add blk acc
block_acc grids iq1_s add blk acc = iq1_s_block grids add blk acc

-- kSG
abbrev pub lanes : ℕ
lanes = 32

-- for (b = lane; b < blocks; b += kSG), with a step on each block. A round passes 32 blocks.
unfoldable pub lane_loop : {F : Type 0} → (ℕ → F → F) → ℕ → ℕ → ℕ → F → F
lane_loop step blocks zero b acc = acc
lane_loop step blocks (suc fuel) b acc =
    let rest = lane_loop step blocks fuel (b + lanes) (step b acc) in
    if ltb b blocks then rest else acc

-- acc of a lane at the end of its loop. The terms of block `b` are added by `add b`.
unfoldable pub lane_acc :
    {F : Type 0} → Grids → BlockFormat → (ℕ → Term → F → F) → F → Buffer ℕ → ℕ → ℕ → F
unfolding block_acc lane_loop block_bytes
lane_acc grids format add zero_acc row blocks lane =
    lane_loop (λ b acc. block_acc grids format (add b) (λ i. row (b * block_bytes format + i)) acc)
      blocks blocks lane zero_acc
