-- ===== src/Grouped/Tests.antt =====
-- Two experts with nine rows and one, of sixteen columns each.
use quixi_core_xpu.Common.{
  ℕ, zero, suc, ◌+◌, ◌*◌, ◌≤◌, ◌≡◌, refl, false, none, some, List, [], ◌∷◌, arith,
}
use quixi_core_xpu.Common.Launch.{Buffer, count, IsSchedule, sum_below}
use quixi_core_xpu.Runtime.{f16}
use quixi_core_xpu.Grouped.{
  map_tile, w16, GemmOps, Call, mtiles_max, ntiles, outside, moe_grouped_qgemm,
}
use quixi_core_xpu.Grouped.Product.{expert_product, moe_grouped_qgemm_lem}

abbrev pub first_product : GemmOps ℕ ℕ ℕ
first_product = record {
  zero_element = 0;
  zero_acc = 0;
  mad = λ f g acc. acc + f 0 * g 0;
  decode_int4 = λ nib s. nib * s;
  decode_nvfp4 = λ nib s. nib * s;
  one_float = 1;
  scaled = λ v s. v * s;
}

abbrev rows : Buffer ℕ
rows zero = 9
rows (suc _) = 1

abbrev call : Call ℕ ℕ ℕ
call = record {
  format = w16;
  a = λ i. i;
  w_elements = λ i. i + 1;
  w_bytes = λ i. 0;
  s16 = λ i. 0;
  s8 = λ i. 0;
  global_scales = none;
  rows_per_expert = rows;
  m_total = 10;
  n = 16;
  k = 16;
  n_experts = 2;
  group = 16;
  seg_before = λ e. 77;
}

-- The second tile of the first expert, and the tile of the second.
second_tile : map_tile rows 2 (λ e. 77) 1 ≡ some (record { expert = 0; row0 = 0; rlocal0 = 8 })
unfolding map_tile sum_below
second_tile = refl

third_tile : map_tile rows 2 (λ e. 77) 2 ≡ some (record { expert = 1; row0 = 9; rlocal0 = 0 })
unfolding map_tile sum_below
third_tile = refl

abbrev order : List ℕ
order = 3 ∷ 1 ∷ 0 ∷ 2 ∷ []

order-IsSchedule : IsSchedule (mtiles_max first_product call * ntiles first_product call) order
unfolding count
order-IsSchedule i = ground arith

enough_rows : sum_below rows 2 ≤ 10
unfolding sum_below
enough_rows = omega arith

not_outside : outside first_product call f16 ≡ false
unfolding outside
not_outside = refl

moe_grouped_qgemm_lem_example :
    moe_grouped_qgemm first_product call f16 order (λ i. 5) ((sum_below rows 1 + 0) * 16 + 3)
    ≡ expert_product first_product call 1 (sum_below rows 1 + 0) 3
moe_grouped_qgemm_lem_example =
    (moe_grouped_qgemm_lem first_product call f16 order (λ i. 5) order-IsSchedule enough_rows).1
      not_outside 1 0 3 (omega arith) (omega arith) (omega arith)
