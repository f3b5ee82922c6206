-- ===== src/Grouped/Product.antt =====
-- The grid computes each row's product with the weights of the row's expert.
use quixi_core_xpu.Common.{
  ℕ, zero, suc, ◌+◌, ◌-◌, ◌*◌, ◌/◌, ◌%◌, ◌≤◌, ◌<◌, ◌≡◌, refl, ap, ap₂, ◌∙◌, Bool, true, false, ltb,
  leb, ◌&&◌, if◌then◌else◌, some, List, arith, Bool-cases, Option-cases, inl, inr,
}
use quixi_core_xpu.Common.Launch.{Buffer, sum_below, IsSchedule}
use quixi_core_xpu.Common.Steps.{run_steps, run_steps-once}
use quixi_core_xpu.Common.Rows.{row_fits, row_div, row_mod}
use quixi_core_xpu.Runtime.{DType}
use quixi_core_xpu.Common.Sums.{sum_below_next}
use quixi_core_xpu.Grouped.{
  tiles_of, tile_m, tile_n, tile_k, RowTile, map_tile, GemmOps, Call, weight_of, staged_a, staged_b,
  tile_acc, scale_of, store_rows, mtiles_max, ntiles, group_item, outside, moe_grouped_qgemm,
}
use quixi_core_xpu.Grouped.Tiles.{first_tile, row_in_grid, map_tile-row, map_tile_sound, tile_owner}

-- The tiles of all experts fit into the grid.
first_tile_bound : (rows : Buffer ℕ) (n : ℕ) → first_tile rows n * 8 ≤ sum_below rows n + 7 * n
unfolding sum_below tiles_of
first_tile_bound rows zero = omega arith
first_tile_bound rows (suc n) = omega (arith, first_tile_bound rows n)

module _ {T H F : Type 0} (ops : GemmOps T H F) (call : Call T H F) where
  -- The product of row `row` of A and column `col` of an expert's weights, 16 elements at a time.
  unfoldable pub dot : ℕ → ℕ → ℕ → ℕ → F
  unfolding weight_of
  dot e row col zero = ops.zero_acc
  dot e row col (suc kt) =
      ops.mad (λ i. call.a (row * call.k + kt * tile_k + i))
        (λ i. weight_of ops call call.format e col (kt * tile_k + i)) (dot e row col kt)

  unfoldable pub expert_product : ℕ → ℕ → ℕ → T
  unfolding dot scale_of
  expert_product e row col =
      ops.scaled (dot e row col (call.k / tile_k))
        (scale_of ops call call.format call.global_scales e)

  -- Inside the expert's rows and the columns, staging changes nothing.
  tile_acc-dot :
      (tile : RowTile) (col0 r c kt : ℕ)
      → tile.rlocal0 + r < call.rows_per_expert tile.expert
      → col0 + c < call.n
      → tile_acc ops call tile col0 r c kt
        ≡ dot tile.expert (tile.row0 + (tile.rlocal0 + r)) (col0 + c) kt
  unfolding tile_acc staged_a staged_b dot
  tile_acc-dot tile col0 r c zero hr hc = refl
  tile_acc-dot tile col0 r c (suc kt) hr hc =
      let row : ltb (tile.rlocal0 + r) (call.rows_per_expert tile.expert) ≡ true =
        ground (arith, hr) in
      let col : leb call.n (col0 + c) ≡ false = ground (arith, hc) in
      let at = tile.row0 + (tile.rlocal0 + r) in
      let element : ℕ → T = λ i. call.a (at * call.k + kt * tile_k + i) in
      let weight : ℕ → T =
        λ i. weight_of ops call call.format tile.expert (col0 + c) (kt * tile_k + i) in
      let ready : (λ i. staged_a ops call tile (kt * tile_k) r i) ≡ element =
        ap {B = ℕ → T} (λ (b : Bool) (i : ℕ). if b then element i else ops.zero_element) row in
      let column : (λ i. staged_b ops call tile col0 (kt * tile_k) i c) ≡ weight =
        ap {B = ℕ → T} (λ (b : Bool) (i : ℕ). if b then ops.zero_element else weight i) col in
      let before = tile_acc ops call tile col0 r c kt in
      ap (λ (f : ℕ → T). ops.mad f (λ i. staged_b ops call tile col0 (kt * tile_k) i c) before)
        ready
      ∙ ap (λ (f : ℕ → T). ops.mad element f before) column
      ∙ ap (λ acc. ops.mad element weight acc) (tile_acc-dot tile col0 r c kt hr hc)

  abbrev is_hit : ℕ → RowTile → ℕ → ℕ → Bool
  is_hit col0 tile row col =
      (leb (tile.row0 + tile.rlocal0) row
        && ltb row (tile.row0 + tile.rlocal0 + tile_m)
        && ltb row (tile.row0 + call.rows_per_expert tile.expert))
      && (leb col0 col && ltb col (col0 + tile_n))

  store_rows-value :
      (tile : RowTile) (col0 row col : ℕ) (out : Buffer T)
      → col < call.n
      → store_rows ops call col0 (some tile) out (row * call.n + col) ≡ (
          if is_hit col0 tile row col
          then expert_product tile.expert row col
          else out (row * call.n + col))
  unfolding store_rows expert_product
  store_rows-value tile col0 row col out hc = elim (Bool-cases (is_hit col0 tile row col)) [
    | inl hit ↦
        let top = tile.row0 + tile.rlocal0 in
        let lo : top ≤ row = ground (arith, hit) in
        let left : col0 ≤ col = ground (arith, hit) in
        let within : row < tile.row0 + call.rows_per_expert tile.expert = ground (arith, hit) in
        let back : tile.row0 + (tile.rlocal0 + (row - top)) ≡ row = omega (arith, lo) in
        let over : col0 + (col - col0) ≡ col = omega (arith, left) in
        rw (row_div row col call.n hc, row_mod row col call.n hc, hit)
          (ap (λ acc. ops.scaled acc (scale_of ops call call.format call.global_scales tile.expert))
            (tile_acc-dot tile col0 (row - top) (col - col0) (call.k / tile_k)
                (omega (arith, lo, within)) (omega (arith, left, hc))
              ∙ ap₂ (λ (g h : ℕ). dot tile.expert g h (call.k / tile_k)) back over))
    | inr miss ↦ rw (row_div row col call.n hc, row_mod row col call.n hc, miss) refl
  ]

  -- A step at a cell of row `l` of expert `e`: the row's own product, or what was there.
  group_item-value :
      (idx e l col : ℕ) (out : Buffer T)
      → l < call.rows_per_expert e
      → col < call.n
      → let at = (sum_below call.rows_per_expert e + l) * call.n + col in
        let v = expert_product e (sum_below call.rows_per_expert e + l) col in
        out at ≡ v → group_item ops call idx out at ≡ v
  unfolding group_item
  group_item-value idx e l col out hl hc done =
      elim (Option-cases
        (map_tile call.rows_per_expert call.n_experts call.seg_before (idx / ntiles ops call))) [
          | inl past ↦ rw past (unfold store_rows in done)
          | inr (tile, mapped) ↦
              let row = sum_below call.rows_per_expert e + l in
              let (inside, start) =
                map_tile_sound call.rows_per_expert call.n_experts call.seg_before _ tile mapped in
              rw (mapped, store_rows-value tile (idx % ntiles ops call * tile_n) row col out hc)
                (elim (Bool-cases (is_hit (idx % ntiles ops call * tile_n) tile row col)) [
                  | inl hit ↦
                      let same : tile.expert ≡ e =
                        tile_owner call.rows_per_expert tile.expert e row
                          (ground (arith, hit, start))
                          (ground
                            (arith, hit, start, sum_below_next call.rows_per_expert tile.expert))
                          (omega arith)
                          (omega (arith, hl, sum_below_next call.rows_per_expert e)) in
                      rw (hit, same) refl
                  | inr miss ↦ rw miss done
                ])
        ]

  -- The work-group of the row's tile and the column's tile stores it.
  own :
      (e l col : ℕ) (out : Buffer T)
      → e < call.n_experts
      → l < call.rows_per_expert e
      → col < call.n
      → col / tile_n < ntiles ops call
      → group_item ops call
          ((first_tile call.rows_per_expert e + l / tile_m) * ntiles ops call + col / tile_n)
          out
          ((sum_below call.rows_per_expert e + l) * call.n + col)
        ≡ expert_product e (sum_below call.rows_per_expert e + l) col
  unfolding group_item
  own e l col out he hl hc wide =
      let mt = first_tile call.rows_per_expert e + l / tile_m in
      let nt = col / tile_n in
      let tile : RowTile = record {
        expert = e;
        row0 = sum_below call.rows_per_expert e;
        rlocal0 = l / tile_m * tile_m;
      } in
      let row = sum_below call.rows_per_expert e + l in
      let hit : is_hit (nt * tile_n) tile row col ≡ true = ground (arith, hl) in
      rw
        (
          row_div mt nt (ntiles ops call) wide,
          row_mod mt nt (ntiles ops call) wide,
          map_tile-row call.rows_per_expert call.n_experts call.seg_before e l he hl,
        )
        (store_rows-value tile (nt * tile_n) row col out hc ∙ rw hit refl)

  -- Outside the envelope the call changes nothing. Within it, for rows of all experts that A has, and
  -- for work-groups that run in any order: row l of expert e, after the rows of all experts before
  -- it, becomes its product with the expert's weights in every column.
  pub moe_grouped_qgemm_lem :
      (act_dt : DType) (order : List ℕ) (out : Buffer T)
      → IsSchedule (mtiles_max ops call * ntiles ops call) order
      → sum_below call.rows_per_expert call.n_experts ≤ call.m_total
      → (outside ops call act_dt ≡ true → moe_grouped_qgemm ops call act_dt order out ≡ out)
        × (outside ops call act_dt ≡ false
            → (e l col : ℕ) → e < call.n_experts
            → l < call.rows_per_expert e
            → col < call.n
            → moe_grouped_qgemm ops call act_dt order out
                ((sum_below call.rows_per_expert e + l) * call.n + col)
              ≡ expert_product e (sum_below call.rows_per_expert e + l) col)
  unfolding moe_grouped_qgemm
  moe_grouped_qgemm_lem act_dt order out launched all =
      (λ o. rw o refl, λ o e l col he hl hc. rw o (computed e l col he hl hc))
    where
      computed :
          (e l col : ℕ)
          → e < call.n_experts
          → l < call.rows_per_expert e
          → col < call.n
          → run_steps
              (group_item ops call)
              order
              out
              ((sum_below call.rows_per_expert e + l) * call.n + col)
            ≡ expert_product e (sum_below call.rows_per_expert e + l) col
      computed e l col he hl hc =
          let mt = first_tile call.rows_per_expert e + l / tile_m in
          let nt = col / tile_n in
          let wide : nt < ntiles ops call = omega (arith, hc) in
          let tall : mt < mtiles_max ops call = omega (
            arith,
            row_in_grid call.rows_per_expert call.n_experts call.seg_before e l he hl,
            first_tile_bound call.rows_per_expert call.n_experts,
            all,
          ) in
          run_steps-once (group_item ops call) (λ m. Unit)
            (λ m.
              m ((sum_below call.rows_per_expert e + l) * call.n + col)
              ≡ expert_product e (sum_below call.rows_per_expert e + l) col)
            (mt * ntiles ops call + nt) (λ m p. own e l col m he hl hc wide) order
            (λ j ran ne m p. tt) (λ j ran ne m q. group_item-value j e l col m hl hc q)
            (ground (
              arith,
              launched (mt * ntiles ops call + nt),
              row_fits mt (mtiles_max ops call) nt (ntiles ops call) tall wide,
            ))
            out tt
