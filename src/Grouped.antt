-- ===== src/Grouped.antt =====
-- The grouped GEMM of kernels/moe/grouped_qgemm/variants/xpu_sycl/grouped_qgemm.sycl.cpp over the
-- tiles of kernels/common/xmx_tile.hpp: a static grid of tiles, each of which finds its expert in
-- the prefix sums of the experts' row tiles, stages its operands, and stores the rows and columns
-- that exist. Rows are sorted by expert. A work-group runs as one step; the multiply-add of the
-- matrix engine and the dequantization's products are an argument.
pub mod Tiles
pub mod Product
mod Tests
use quixi_core_xpu.Common.{
  ℕ, zero, suc, ◌+◌, ◌-◌, ◌*◌, ◌/◌, ◌%◌, Bool, true, false, not, ltb, leb, ◌&&◌, ◌||◌, ◌==◌,
  if◌then◌else◌, Option, none, some, List,
}
use quixi_core_xpu.Common.Launch.{Buffer, store, sum_below}
use quixi_core_xpu.Common.Steps.{run_steps}
use quixi_core_xpu.Runtime.{DType, f32, f16, bf16}

-- kTM, kTN and kTK
abbrev pub tile_m : ℕ
tile_m = 8

abbrev pub tile_n : ℕ
tile_n = 16

abbrev pub tile_k : ℕ
tile_k = 16

abbrev pub max_experts : ℕ
max_experts = 256

unfoldable pub tiles_of : ℕ → ℕ
tiles_of rows = (rows + tile_m - 1) / tile_m

-- The loop of lane 0 over the experts: tile0 and seg.
unfoldable pub fill_seg : Buffer ℕ → ℕ → Buffer ℕ → ℕ × Buffer ℕ
unfolding store tiles_of
fill_seg rows zero seg = (0, seg)
fill_seg rows (suc e) seg =
    let (tile0, filled) = fill_seg rows e seg in (tile0 + tiles_of (rows e), store filled e tile0)

unfoldable pub segments : Buffer ℕ → ℕ → Buffer ℕ → Buffer ℕ
unfolding fill_seg store
segments rows n_experts seg =
    let (tile0, filled) = fill_seg rows n_experts seg in store filled n_experts tile0

-- while (e + 1 < E && mt >= seg[e + 1]) ++e
unfoldable pub locate : ℕ → Buffer ℕ → ℕ → ℕ → ℕ → ℕ
locate n_experts seg mt zero e = e
locate n_experts seg mt (suc fuel) e =
    let further = locate n_experts seg mt fuel (e + 1) in
    if ltb (e + 1) n_experts && leb (seg (e + 1)) mt then further else e

-- A tile of rows: its expert, the expert's first row, and the tile's first row within the expert.
pub record RowTile : Type 0 where
  pub expert : ℕ
  pub row0 : ℕ
  pub rlocal0 : ℕ

abbrev pub tile_at : Buffer ℕ → Buffer ℕ → ℕ → ℕ → RowTile
tile_at rows seg mt e = record {
  expert = e;
  row0 = sum_below rows e;
  rlocal0 = (mt - seg e) * tile_m;
}

-- The tile of index `mt`, if the grid is not past the last one.
unfoldable pub map_tile : Buffer ℕ → ℕ → Buffer ℕ → ℕ → Option RowTile
unfolding segments locate
map_tile rows n_experts fresh mt =
    let seg = segments rows n_experts fresh in
    if leb (seg n_experts) mt
    then none
    else some (tile_at rows seg mt (locate n_experts seg mt n_experts 0))

-- Fmt: how the weights are stored.
pub data WeightFormat : Type 0 where
  w16 : WeightFormat
  int4 : WeightFormat
  nvfp4 : WeightFormat

-- The arithmetic on elements T, half-precision scales H and accumulators F. `mad a b acc` adds the
-- products of a row of 16 and a column of 16.
pub record GemmOps (T H F : Type 0) : Type 0 where
  pub zero_element : T
  pub zero_acc : F
  pub mad : (ℕ → T) → (ℕ → T) → F → F
  pub decode_int4 : ℕ → H → T
  pub decode_nvfp4 : ℕ → ℕ → T
  pub one_float : F
  pub scaled : F → F → T

-- The arguments of a call. `seg_before` is what seg holds before it is filled.
pub record Call (T H F : Type 0) : Type 0 where
  pub format : WeightFormat
  pub a : Buffer T
  pub w_elements : Buffer T
  pub w_bytes : Buffer ℕ
  pub s16 : Buffer H
  pub s8 : Buffer ℕ
  pub global_scales : Option (Buffer F)
  pub rows_per_expert : Buffer ℕ
  pub m_total : ℕ
  pub n : ℕ
  pub k : ℕ
  pub n_experts : ℕ
  pub group : ℕ
  pub seg_before : Buffer ℕ

module _ {T H F : Type 0} (ops : GemmOps T H F) (call : Call T H F) where
  -- The nibble of element `i` of a row: the low one of a byte is the even element.
  unfoldable pub nibble : ℕ → ℕ → ℕ
  nibble byte i = if i % 2 == 1 then byte / 16 % 16 else byte % 16

  -- Element `i` of column `col` of an expert's weights.
  unfoldable pub weight_of : WeightFormat → ℕ → ℕ → ℕ → T
  unfolding nibble
  weight_of w16 e col i = call.w_elements (e * (call.n * call.k) + col * call.k + i)
  weight_of int4 e col i =
      ops.decode_int4
        (nibble (call.w_bytes (e * (call.n * (call.k / 2)) + col * (call.k / 2) + i / 2)) i)
        (call.s16
          (e * (call.n * (call.k / call.group)) + col * (call.k / call.group) + i / call.group))
  weight_of nvfp4 e col i =
      ops.decode_nvfp4
        (nibble (call.w_bytes (e * (call.n * (call.k / 2)) + col * (call.k / 2) + i / 2)) i)
        (call.s8 (e * (call.n * (call.k / 16)) + col * (call.k / 16) + i / 16))

  -- The operands as staged: zero outside the rows of the expert and the columns.
  unfoldable pub staged_a : RowTile → ℕ → ℕ → ℕ → T
  staged_a tile k0 r c =
      let rl = tile.rlocal0 + r in
      if ltb rl (call.rows_per_expert tile.expert)
      then call.a ((tile.row0 + rl) * call.k + k0 + c)
      else ops.zero_element

  unfoldable pub staged_b : RowTile → ℕ → ℕ → ℕ → ℕ → T
  unfolding weight_of
  staged_b tile col0 k0 r c =
      let col = col0 + c in
      if leb call.n col then ops.zero_element else weight_of call.format tile.expert col (k0 + r)

  -- The accumulator of element (r, c) after the first steps of depth 16.
  unfoldable pub tile_acc : RowTile → ℕ → ℕ → ℕ → ℕ → F
  unfolding staged_a staged_b
  tile_acc tile col0 r c zero = ops.zero_acc
  tile_acc tile col0 r c (suc kt) =
      ops.mad (λ i. staged_a tile (kt * tile_k) r i) (λ i. staged_b tile col0 (kt * tile_k) i c)
        (tile_acc tile col0 r c kt)

  unfoldable pub scale_of : WeightFormat → Option (Buffer F) → ℕ → F
  scale_of w16 scales e = ops.one_float
  scale_of int4 scales e = ops.one_float
  scale_of nvfp4 none e = ops.one_float
  scale_of nvfp4 (some scales) e = scales e

  -- The masked stores of a tile: element (row, col) of C is at row * N + col.
  unfoldable pub store_rows : ℕ → Option RowTile → Buffer T → Buffer T
  unfolding tile_acc scale_of
  store_rows col0 none out = out
  store_rows col0 (some tile) out = λ at.
      let row = at / call.n in
      let col = at % call.n in
      let top = tile.row0 + tile.rlocal0 in
      if (leb top row
          && ltb row (top + tile_m)
          && ltb row (tile.row0 + call.rows_per_expert tile.expert))
        && (leb col0 col && ltb col (col0 + tile_n))
      then ops.scaled (tile_acc tile col0 (row - top) (col - col0) (call.k / tile_k))
          (scale_of call.format call.global_scales tile.expert)
      else out at

  abbrev pub mtiles_max : ℕ
  mtiles_max = (call.m_total + tile_m - 1) / tile_m + call.n_experts

  abbrev pub ntiles : ℕ
  ntiles = (call.n + tile_n - 1) / tile_n

  -- Work-group `idx` of the grid of mtiles_max by ntiles.
  unfoldable pub group_item : ℕ → Buffer T → Buffer T
  unfolding map_tile store_rows
  group_item idx out =
      store_rows (idx % ntiles * tile_n)
        (map_tile call.rows_per_expert call.n_experts call.seg_before (idx / ntiles)) out

  unfoldable pub misfit : WeightFormat → Bool
  misfit w16 = false
  misfit int4 = call.group == 0 || not (call.k % call.group == 0)
  misfit nvfp4 = false

  unfoldable pub outside : DType → Bool
  unfolding misfit
  outside f32 = true
  outside f16 = ltb max_experts call.n_experts || not (call.k % tile_k == 0) || misfit call.format
  outside bf16 = ltb max_experts call.n_experts || not (call.k % tile_k == 0) || misfit call.format

  -- moe_grouped_qgemm_sycl, with the order of its work-groups.
  unfoldable pub moe_grouped_qgemm : DType → List ℕ → Buffer T → Buffer T
  unfolding outside group_item run_steps
  moe_grouped_qgemm act_dt order out =
      if outside act_dt then out else run_steps group_item order out
