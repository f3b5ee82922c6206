-- ===== src/Moe/Layer.antt =====
-- A layer of experts: the rows of the tokens are sorted by expert (moe_permute), multiplied by the
-- experts' weights (moe_grouped_qgemm) and added up for each token (moe_unpermute_weighted_reduce).
use native.Mathlib.Nat.{div-add-mod'}
use quixi_core_xpu.Common.{
  ℕ, zero, suc, ◌+◌, ◌-◌, ◌*◌, ◌/◌, ◌<◌, ◌≤◌, ◌≡◌, refl, sym, ap, ◌∙◌, ltb, if◌then◌else◌, false,
  List, arith, max,
}
use quixi_core_xpu.Common.Int.{ℤ, pos, negsuc}
use quixi_core_xpu.Common.Launch.{Buffer, IsSchedule, sum_below, sum_below-ext}
use quixi_core_xpu.Common.Rows.{row_fits, row_div}
use quixi_core_xpu.Runtime.{DType}
use quixi_core_xpu.Moe.{Buffers, hit, moe_permute}
use quixi_core_xpu.Moe.Invariant.{pairs_of, first_row}
use quixi_core_xpu.Moe.Permute.{moe_permute_lem}
use quixi_core_xpu.Moe.Unpermute.{Reducer, unpermute, mixture}
use quixi_core_xpu.Moe.Compose.{unpermuted}
use quixi_core_xpu.Common.Sums.{sum_below_plus}
use quixi_core_xpu.Grouped.{
  tile_k, GemmOps, Call, weight_of, scale_of, mtiles_max, ntiles, outside, moe_grouped_qgemm,
}
use quixi_core_xpu.Grouped.Product.{dot, expert_product, moe_grouped_qgemm_lem}

-- The multiply-add reads the 16 elements of its row.
pub record ReadsRow {T H G : Type 0} (gemm : GemmOps T H G) : Type 0 where
  pub same_row :
      (f h g : ℕ → T) (acc : G)
      → ((i : ℕ) → i < tile_k → f i ≡ h i)
      → gemm.mad f g acc ≡ gemm.mad h g acc

module _ {T H G : Type 0} (gemm : GemmOps T H G) (reads : ReadsRow gemm) (call : Call T H G) where
  -- A row of another matrix with the same elements has the same products.
  dot_same_row :
      (other : Buffer T) (e d t col : ℕ)
      → ((i : ℕ) → i < call.k → call.a (d * call.k + i) ≡ other (t * call.k + i))
      → (kt : ℕ) → kt * tile_k ≤ call.k
      → dot gemm call e d col kt ≡ dot gemm (record call { a = other }) e t col kt
  unfolding dot weight_of
  dot_same_row other e d t col same zero h = refl
  dot_same_row other e d t col same (suc kt) h =
      let moved = record call { a = other } in
      let weight : ℕ → T = λ i. weight_of gemm call call.format e col (kt * tile_k + i) in
      let row : ℕ → T = λ i. call.a (d * call.k + kt * tile_k + i) in
      let other_row : ℕ → T = λ i. other (t * call.k + kt * tile_k + i) in
      ap (λ acc. gemm.mad row weight acc) (dot_same_row other e d t col same kt (omega (arith, h)))
      ∙ reads.same_row row other_row weight (dot gemm moved e t col kt) (λ i hi.
        let here : d * call.k + kt * tile_k + i ≡ d * call.k + (kt * tile_k + i) = omega arith in
        let there : t * call.k + (kt * tile_k + i) ≡ t * call.k + kt * tile_k + i = omega arith in
        ap call.a here ∙ same (kt * tile_k + i) (omega (arith, hi, h)) ∙ ap other there)

-- A pair is of one expert at most, so there are no more rows than pairs.
hit_once : (z : ℤ) (n : ℕ) → sum_below (λ e. hit e z) n ≤ 1
unfolding sum_below
hit_once (negsuc k) zero = omega arith
hit_once (negsuc k) (suc n) = omega (arith, hit_once (negsuc k) n)
hit_once (pos k) n = ground (arith, exactly n)
  where
    exactly : (n : ℕ) → sum_below (λ e. hit e (pos k)) n ≡ (if ltb k n then 1 else 0)
    exactly zero = ground arith
    exactly (suc n) = ground (arith, exactly n)

rows_bound :
    (ids : ℕ → ℤ) (n pairs : ℕ) → sum_below (λ e. sum_below (λ i. hit e (ids i)) pairs) n ≤ pairs
unfolding sum_below
rows_bound ids n zero = nothing n
  where
    nothing : (n : ℕ) → sum_below (λ e. 0) n ≤ 0
    nothing zero = omega arith
    nothing (suc n) = omega (arith, nothing n)
rows_bound ids n (suc pairs) = omega (
  arith,
  rows_bound ids n pairs,
  hit_once (ids pairs) n,
  sum_below_plus (λ e. sum_below (λ i. hit e (ids i)) pairs) (λ e. hit e (ids pairs)) n,
)

module _ {T H G F : Type 0} (gemm : GemmOps T H G) (reducer : Reducer T F) (call : Call T H G)
    (weights : Buffer F) (hidden : Buffer T) (ids : ℕ → ℤ) (n_tokens top_k : ℕ) where
  -- The buffers after moe_permute, and the call of the GEMM on them.
  abbrev sorted : List ℕ → List ℕ → List ℕ → Buffers T → Buffers T
  sorted clears counts scatters b =
      moe_permute hidden ids top_k call.k call.n_experts clears counts scatters b

  abbrev gemm_call : Buffers T → Call T H G
  gemm_call rows = record call { a = rows.permuted; rows_per_expert = rows.rows_per_expert }

  -- Row `d` of the sorted rows, a copy of the row of token `t`, in the segment of expert `e`.
  row_product :
      ReadsRow gemm
      → (rows : Buffers T) (act_dt : DType) (grid : List ℕ) (products : Buffer T)
      → outside gemm call act_dt ≡ false
      → call.m_total ≡ n_tokens * top_k
      → ((e : ℕ)
          → e < call.n_experts
          → rows.rows_per_expert e
            ≡ pairs_of hidden ids top_k call.k call.n_experts (n_tokens * top_k) e)
      → IsSchedule (mtiles_max gemm call * ntiles gemm call) grid
      → (e d t col : ℕ) → e < call.n_experts
      → col < call.n
      → first_row hidden ids top_k call.k call.n_experts (n_tokens * top_k) e ≤ d
      → d
        < first_row hidden ids top_k call.k call.n_experts (n_tokens * top_k) e
          + pairs_of hidden ids top_k call.k call.n_experts (n_tokens * top_k) e
      → ((i : ℕ) → i < call.k → rows.permuted (d * call.k + i) ≡ hidden (t * call.k + i))
      → moe_grouped_qgemm gemm (gemm_call rows) act_dt grid products (d * call.n + col)
        ≡ expert_product gemm (record call { a = hidden }) e t col
  unfolding outside expert_product scale_of
  row_product reads rows act_dt grid products inside total counted gr e d t col he hc lo hi copied =
      let pairs : ℕ → ℕ =
        λ i. pairs_of hidden ids top_k call.k call.n_experts (n_tokens * top_k) i in
      let starts : sum_below rows.rows_per_expert e ≡ sum_below pairs e =
        sum_below-ext rows.rows_per_expert pairs e (λ i h. counted i (omega (arith, h, he))) in
      let all : sum_below rows.rows_per_expert call.n_experts ≡ sum_below pairs call.n_experts =
        sum_below-ext rows.rows_per_expert pairs call.n_experts counted in
      let l = d - sum_below rows.rows_per_expert e in
      let at : sum_below rows.rows_per_expert e + l ≡ d = omega (arith, lo, starts) in
      let computed =
        (moe_grouped_qgemm_lem gemm (gemm_call rows) act_dt grid products gr
            (omega (arith, all, total, rows_bound ids call.n_experts (n_tokens * top_k)))).1
          inside e l col he (omega (arith, lo, hi, starts, counted e he)) hc in
      ap
        (λ (r : ℕ). moe_grouped_qgemm gemm (gemm_call rows) act_dt grid products (r * call.n + col))
        (sym at)
      ∙ computed
      ∙ ap (λ (r : ℕ). expert_product gemm (gemm_call rows) e r col) at
      ∙ ap (λ v. gemm.scaled v (scale_of gemm call call.format call.global_scales e))
          (dot_same_row gemm reads (gemm_call rows) hidden e d t col copied (call.k / tile_k)
            (omega (arith, div-add-mod' call.k tile_k)))

  -- For weights, formats and sizes that the grouped GEMM takes, for a call with a row for each pair
  -- and a matrix engine that reads just its rows, and whatever the order of the items in all six
  -- launches: permuting the rows of the tokens, multiplying them by expert and reducing them back
  -- gives each token, in every column, the products of its own row with the weights of its experts,
  -- weighted and added up in the order of its pairs, the pairs of no expert left out.
  pub moe_layer :
      ReadsRow gemm
      → (act_dt : DType) (clears counts scatters grid order : List ℕ) (b : Buffers T)
        (products out : Buffer T)
      → outside gemm call act_dt ≡ false
      → call.m_total ≡ n_tokens * top_k
      → IsSchedule (max (n_tokens * top_k) call.n_experts) clears
      → IsSchedule (n_tokens * top_k) counts
      → IsSchedule (n_tokens * top_k) scatters
      → IsSchedule (mtiles_max gemm call * ntiles gemm call) grid
      → IsSchedule (n_tokens * call.n) order
      → (t col : ℕ) → t < n_tokens
      → col < call.n
      → let rows = sorted clears counts scatters b in
        unpermute reducer weights top_k call.n rows.row_map
          (moe_grouped_qgemm gemm (gemm_call rows) act_dt grid products)
          order
          out
          (t * call.n + col)
        ≡ reducer.narrow (
            mixture reducer weights top_k call.n ids call.n_experts
              (λ e. expert_product gemm (record call { a = hidden }) e t col)
              t
              top_k)
  unfolding outside
  moe_layer reads act_dt clears counts scatters grid order b products out inside total cl co sc gr
        launched t col ht hc =
      let rows = sorted clears counts scatters b in
      let (counted, skips, places, _) =
        moe_permute_lem hidden ids top_k call.k call.n_experts (n_tokens * top_k) clears counts
          scatters b cl co sc in
      unpermuted reducer weights ids n_tokens top_k call.n call.n_experts rows.row_map _ order
        launched out t col (λ e. expert_product gemm (record call { a = hidden }) e t col)
        (λ j hj.
          let pair = row_fits t n_tokens j top_k ht hj in
          (
            λ skipped. skips (t * top_k + j) pair skipped,
            λ e at he.
                let (d, mapped, lo, hi, copied) = places (t * top_k + j) e pair at he in
                (
                  d,
                  mapped,
                  row_product reads rows act_dt grid products inside total counted gr e d t col he
                      hc lo hi
                      (λ i h.
                        copied i h
                        ∙ ap (λ (r : ℕ). hidden (r * call.k + i)) (row_div t j top_k hj)),
                ),
          ))
        ht hc
