-- ===== src/Moe/Tests.antt =====
-- Three pairs for two experts, one pair of no expert.
use quixi_core_xpu.Common.{
  refl, ap, false, none, ℕ, zero, suc, ◌+◌, ◌*◌, ◌/◌, ◌<◌, ◌≤◌, ◌≡◌, ◌≢◌, List, [], ◌∷◌, arith,
}
use quixi_core_xpu.Common.Int.{ℤ, pos, negsuc}
use quixi_core_xpu.Common.Launch.{Buffer, count, IsSchedule}
use quixi_core_xpu.Moe.{Buffers, moe_permute}
use quixi_core_xpu.Moe.Invariant.{Skipped, pairs_of, first_row}
use quixi_core_xpu.Moe.Permute.{moe_permute_lem}
use quixi_core_xpu.Moe.Unpermute.{Reducer, unpermute, mixture}
use quixi_core_xpu.Moe.Layer.{ReadsRow, moe_layer}
use quixi_core_xpu.Runtime.{f16}
use quixi_core_xpu.Grouped.{GemmOps, Call, w16, outside, moe_grouped_qgemm}
use quixi_core_xpu.Grouped.Product.{expert_product}
use quixi_core_xpu.Moe.Compose.{unpermute-moe_permute}

abbrev expert_ids : ℕ → ℤ
expert_ids zero = pos 1
expert_ids (suc zero) = negsuc 0
expert_ids (suc (suc _)) = pos 0

abbrev rows : Buffer ℕ
rows i = i + 100

abbrev order : List ℕ
order = 2 ∷ 0 ∷ 1 ∷ []

order-IsSchedule : IsSchedule 3 order
unfolding count
order-IsSchedule i = ground arith

abbrev dirty : Buffers ℕ
dirty = record {
  rows_per_expert = λ e. 9;
  cursors = λ e. 9;
  row_map = λ i. pos 9;
  permuted = λ a. 9;
}

abbrev sorted : Buffers ℕ
sorted = moe_permute rows expert_ids 1 2 2 order order order dirty

moe_permute_lem_example :
    ((e : ℕ) → e < 2 → sorted.rows_per_expert e ≡ pairs_of rows expert_ids 1 2 2 3 e)
    × ((i : ℕ) → i < 3 → Skipped 2 (expert_ids i) → sorted.row_map i ≡ negsuc 0)
    × ((i e : ℕ)
        → i < 3
        → expert_ids i ≡ pos e
        → e < 2
        → (d : ℕ) × (sorted.row_map i ≡ pos d)
          × (first_row rows expert_ids 1 2 2 3 e ≤ d)
          × (d < first_row rows expert_ids 1 2 2 3 e + pairs_of rows expert_ids 1 2 2 3 e)
          × ((j : ℕ) → j < 2 → sorted.permuted (d * 2 + j) ≡ rows (i / 1 * 2 + j)))
    × ((i j e k d : ℕ)
        → i < 3
        → j < 3
        → i ≢ j
        → expert_ids i ≡ pos e
        → expert_ids j ≡ pos k
        → e < 2
        → k < 2
        → sorted.row_map i ≡ pos d
        → sorted.row_map j ≢ pos d)
moe_permute_lem_example =
    moe_permute_lem rows expert_ids 1 2 2 3 order order order dirty order-IsSchedule
      order-IsSchedule order-IsSchedule

-- Sums in which products are numbers.
abbrev natural : Reducer ℕ ℕ
natural = record {
  zero_acc = 0;
  accumulate = λ acc w x. acc + w * x;
  widen = λ x. x;
  narrow = λ x. x;
}

abbrev order_6 : List ℕ
order_6 = 4 ∷ 0 ∷ 5 ∷ 1 ∷ 3 ∷ 2 ∷ []

order_6-IsSchedule : IsSchedule 6 order_6
unfolding count
order_6-IsSchedule i = ground arith

unpermute-moe_permute_example :
    unpermute natural (λ j. j + 1) 1 2 sorted.row_map sorted.permuted order_6 (λ a. 9) (2 * 2 + 1)
    ≡ mixture natural (λ j. j + 1) 1 2 expert_ids 2 (λ e. rows (2 * 2 + 1)) 2 1
unpermute-moe_permute_example =
    unpermute-moe_permute natural (λ j. j + 1) rows expert_ids 3 1 2 2 order order order dirty
      order-IsSchedule order-IsSchedule order-IsSchedule order_6 order_6-IsSchedule (λ a. 9) 2 1
      (omega arith) (omega arith)

abbrev first_product : GemmOps ℕ ℕ ℕ
first_product = record {
  zero_element = 0;
  zero_acc = 0;
  mad = λ f g acc. acc + f 0 * g 0;
  decode_int4 = λ nib s. nib * s;
  decode_nvfp4 = λ nib s. nib * s;
  one_float = 1;
  scaled = λ v s. v * s;
}

first_product-ReadsRow : ReadsRow first_product
first_product-ReadsRow = record {
  same_row = λ f h g acc same. ap (λ (v : ℕ). acc + v * g 0) (same 0 (omega arith));
}

-- One column for rows of sixteen elements.
abbrev experts_call : Call ℕ ℕ ℕ
experts_call = record {
  format = w16;
  a = λ i. 0;
  w_elements = λ i. i + 1;
  w_bytes = λ i. 0;
  s16 = λ i. 0;
  s8 = λ i. 0;
  global_scales = none;
  rows_per_expert = λ e. 0;
  m_total = 3;
  n = 1;
  k = 16;
  n_experts = 2;
  group = 16;
  seg_before = λ e. 77;
}

abbrev layer_rows : Buffers ℕ
layer_rows = moe_permute rows expert_ids 1 16 2 order order order dirty

not_outside : outside first_product experts_call f16 ≡ false
unfolding outside
not_outside = refl

moe_layer_example :
    unpermute natural
      (λ j. j + 1)
      1
      1
      layer_rows.row_map
      (moe_grouped_qgemm first_product
        (record experts_call {
          a = layer_rows.permuted;
          rows_per_expert = layer_rows.rows_per_expert;
        })
        f16
        order
        (λ i. 5))
      order
      (λ i. 9)
      (2 * 1 + 0)
    ≡ mixture natural
        (λ j. j + 1)
        1
        1
        expert_ids
        2
        (λ e. expert_product first_product (record experts_call { a = rows }) e 2 0)
        2
        1
moe_layer_example =
    moe_layer first_product natural experts_call (λ j. j + 1) rows expert_ids 3 1
      first_product-ReadsRow f16 order order order order order dirty (λ i. 5) (λ i. 9) not_outside
      refl order-IsSchedule order-IsSchedule order-IsSchedule order-IsSchedule order-IsSchedule 2 0
      (omega arith) (omega arith)
