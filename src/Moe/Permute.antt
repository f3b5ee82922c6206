-- ===== src/Moe/Permute.antt =====
-- What moe_permute leaves behind, whatever the order of the items in its launches.
use quixi_core_xpu.Common.{
  ℕ, ◌+◌, ◌*◌, ◌/◌, ◌<◌, ◌≤◌, ◌≡◌, ◌≢◌, refl, ap, ◌∙◌, List, [], arith, lt→ltb, some, max,
}
use quixi_core_xpu.Common.Int.{ℤ, pos, negsuc}
use quixi_core_xpu.Common.Launch.{
  Buffer, count, total, IsSchedule, run, run-hit, schedule-runs, total-schedule, sum_below-ext,
}
use quixi_core_xpu.Moe.{Buffers, hit, count_pairs, scan, moe_permute, clear_item}
use quixi_core_xpu.Moe.Invariant.{IsValid, Skipped, pairs_of, first_row, count_pairs-total, scan-at}
use quixi_core_xpu.Moe.Scatter.{scatter-all, scatter-rows_per_expert}

cleared :
    (n_experts n : ℕ) (order : List ℕ) (rows : Buffer ℕ) (e : ℕ)
    → IsSchedule n order
    → n_experts ≤ n
    → e < n_experts
    → run (clear_item n_experts) order rows e ≡ 0
cleared n_experts n order rows e launched room h =
    run-hit (clear_item n_experts) e 0 order rows e (schedule-runs n order launched e (omega arith))
      (rw (lt→ltb e n_experts h) refl) zeros
  where
    zeros : (j u : ℕ) → 0 < count j order → clear_item n_experts j ≡ some (e, u) → u ≡ 0
    zeros j u p stored = ground (arith, stored)

module _ {T : Type 0} (hidden : Buffer T) (ids : ℕ → ℤ) (top_k hidden_dim n_experts pairs : ℕ)
    (clears counts scatters : List ℕ) where
  counted :
      (b : Buffers T)
      → IsSchedule (max pairs n_experts) clears
      → IsSchedule pairs counts
      → (e : ℕ) → e < n_experts
      → count_pairs n_experts ids counts (run (clear_item n_experts) clears b.rows_per_expert) e
        ≡ pairs_of hidden ids top_k hidden_dim n_experts pairs e
  counted b launched launched_counts e h = omega (
    arith,
    count_pairs-total n_experts ids counts (run (clear_item n_experts) clears b.rows_per_expert) e
        h,
    cleared n_experts (max pairs n_experts) clears b.rows_per_expert e launched (omega arith) h,
    total-schedule (λ i. hit e (ids i)) pairs counts launched_counts,
  )

  -- The buffers before the scatter.
  abbrev scanned : Buffers T → Buffers T
  scanned b =
      let rows =
        count_pairs n_experts ids counts (run (clear_item n_experts) clears b.rows_per_expert) in
      record b { rows_per_expert = rows; cursors = (scan rows n_experts b.cursors).1 }

  scanned-IsValid :
      (b : Buffers T)
      → IsSchedule (max pairs n_experts) clears
      → IsSchedule pairs counts
      → IsSchedule pairs scatters
      → IsValid hidden ids top_k hidden_dim n_experts pairs [] scatters (scanned b)
  unfolding count total
  scanned-IsValid b launched launched_counts launched_scatters = record {
    once = λ i. ground (arith, launched_scatters i);
    all = λ e. omega (arith, total-schedule (λ i. hit e (ids i)) pairs scatters launched_scatters);
    cursor = λ e h.
        let rows =
          count_pairs n_experts ids counts (run (clear_item n_experts) clears b.rows_per_expert) in
        omega (
          arith,
          scan-at rows n_experts b.cursors e h,
          sum_below-ext rows (pairs_of hidden ids top_k hidden_dim n_experts pairs) e
              (λ k p. counted b launched launched_counts k (omega arith)),
        );
    skipped = λ i p. absurd (omega (arith, p));
    placed = λ i e p. absurd (omega (arith, p));
    distinct = λ i j e k d p. absurd (omega (arith, p));
  }

  -- For `pairs` token-expert pairs, and whatever the order of the items in each launch: every
  -- expert's count is the number of its pairs; a pair of no expert is mapped to -1; a pair of an
  -- expert is mapped to a row of that expert's segment, which begins after the rows of all experts
  -- before it, and that row of `permuted` is its token's row of `hidden`; and no two pairs are
  -- mapped to one row.
  pub moe_permute_lem :
      (b : Buffers T)
      → IsSchedule (max pairs n_experts) clears
      → IsSchedule pairs counts
      → IsSchedule pairs scatters
      → ((e : ℕ)
          → e < n_experts
          → (moe_permute hidden ids top_k hidden_dim n_experts clears counts scatters
                b).rows_per_expert
              e
            ≡ pairs_of hidden ids top_k hidden_dim n_experts pairs e)
        × ((i : ℕ)
            → i < pairs
            → Skipped n_experts (ids i)
            → (moe_permute hidden ids top_k hidden_dim n_experts clears counts scatters b).row_map i
              ≡ negsuc 0)
        × ((i e : ℕ)
            → i < pairs
            → ids i ≡ pos e
            → e < n_experts
            → (d : ℕ) × ((moe_permute hidden ids top_k hidden_dim n_experts clears counts scatters
                    b).row_map
                  i
                ≡ pos d)
              × (first_row hidden ids top_k hidden_dim n_experts pairs e ≤ d)
              × (d
                  < first_row hidden ids top_k hidden_dim n_experts pairs e
                    + pairs_of hidden ids top_k hidden_dim n_experts pairs e)
              × ((j : ℕ)
                  → j < hidden_dim
                  → (moe_permute hidden ids top_k hidden_dim n_experts clears counts scatters
                        b).permuted
                      (d * hidden_dim + j)
                    ≡ hidden (i / top_k * hidden_dim + j)))
        × ((i j e k d : ℕ)
            → i < pairs
            → j < pairs
            → i ≢ j
            → ids i ≡ pos e
            → ids j ≡ pos k
            → e < n_experts
            → k < n_experts
            → (moe_permute hidden ids top_k hidden_dim n_experts clears counts scatters b).row_map i
              ≡ pos d
            → (moe_permute hidden ids top_k hidden_dim n_experts clears counts scatters b).row_map j
              ≢ pos d)
  unfolding moe_permute count total
  moe_permute_lem b launched launched_counts launched_scatters =
      let ok = scanned-IsValid b launched launched_counts launched_scatters in
      let (end, counts_end, final) =
        scatter-all hidden ids top_k hidden_dim n_experts pairs [] scatters (scanned b) ok in
      let ran : (i : ℕ) → i < pairs → 0 < count i end =
        λ i p. ground (arith, counts_end i, launched_scatters i) in
      (
        λ e h.
            ap (λ (m : Buffer ℕ). m e)
              (scatter-rows_per_expert hidden ids top_k hidden_dim n_experts pairs scatters
                (scanned b))
            ∙ counted b launched launched_counts e h,
        λ i p s. final.skipped i (ran i p) s,
        λ i e p at h.
            let (d, place) = final.placed i e (ran i p) at h in
            (d, place.0, place.1, omega (arith, place.2, final.all e), place.3),
        λ i j e k d p q ne at_i at_j he hk.
            final.distinct i j e k d (ran i p) (ran j q) ne at_i at_j he hk,
      )
