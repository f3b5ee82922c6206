-- ===== src/Moe/Compose.antt =====
-- Permutation, then reduction: what comes back to a token.
use quixi_core_xpu.Common.{
  ℕ, zero, suc, ◌+◌, ◌*◌, ◌<◌, ◌≤◌, ◌≡◌, refl, sym, ap, ap₂, ◌∙◌, List, arith, lt→ltb, max, dec_lt,
  ◌⊎◌, inl, inr,
}
use quixi_core_xpu.Common.Int.{ℤ, pos, negsuc}
use quixi_core_xpu.Common.Launch.{Buffer, IsSchedule, run_own, schedule-runs}
use quixi_core_xpu.Common.Rows.{row_fits, row_div, row_mod}
use quixi_core_xpu.Moe.{Buffers, moe_permute}
use quixi_core_xpu.Moe.Invariant.{Skipped}
use quixi_core_xpu.Moe.Permute.{moe_permute_lem}
use quixi_core_xpu.Moe.Unpermute.{
  Reducer, reduce, unpermute, unpermute_item, mixture, add_pair, add_row,
}

id_cases : (n_experts : ℕ) (z : ℤ) → Skipped n_experts z ⊎ ((e : ℕ) × (z ≡ pos e) × (e < n_experts))
id_cases n_experts (negsuc k) = inl tt
id_cases n_experts (pos e) = elim (dec_lt e n_experts) [
  | yes h ↦ inr (e, refl, h)
  | no h ↦ inl (omega (arith, h))
]

module _ {T F : Type 0} (ops : Reducer T F) (weights : Buffer F) (ids : ℕ → ℤ)
    (n_tokens top_k width n_experts : ℕ) (row_map : ℕ → ℤ) (rows : Buffer T) where
  -- The rows that the pairs of token `t` are mapped to hold `value` of their experts in column `i`.
  abbrev pub Carries : ℕ → ℕ → (ℕ → T) → Type 0
  Carries t i value =
      (j : ℕ)
      → j < top_k
      → (Skipped n_experts (ids (t * top_k + j)) → row_map (t * top_k + j) ≡ negsuc 0)
        × ((e : ℕ)
            → ids (t * top_k + j) ≡ pos e
            → e < n_experts
            → (d : ℕ) × (row_map (t * top_k + j) ≡ pos d) × (rows (d * width + i) ≡ value e))

  add_pair-Skipped :
      (z : ℤ)
      → Skipped n_experts z
      → (value : ℕ → T) (w acc : F) → add_pair ops weights top_k width n_experts value w acc z ≡ acc
  unfolding add_pair
  add_pair-Skipped (negsuc _) h value w acc = refl
  add_pair-Skipped (pos e) h value w acc = ground (arith, h)

  reduce-mixture :
      (t i : ℕ) (value : ℕ → T)
      → Carries t i value
      → (j : ℕ) → j ≤ top_k
      → reduce ops weights top_k width row_map rows t i j
        ≡ mixture ops weights top_k width ids n_experts value t j
  unfolding reduce mixture add_row add_pair
  reduce-mixture t i value carries zero hj = refl
  reduce-mixture t i value carries (suc j) hj =
      let pair = t * top_k + j in
      let rest = reduce-mixture t i value carries j (omega (arith, hj)) in
      let (skips, places) = carries j (omega (arith, hj)) in
      elim (id_cases n_experts (ids pair)) [
        | inl skipped ↦
            rw (skips skipped) (rest ∙ sym (add_pair-Skipped (ids pair) skipped value _ _))
        | inr (e, at, h) ↦
            let (d, mapped, held) = places e at h in
            rw (mapped, at, lt→ltb e n_experts h)
              (ap₂ (λ acc x. ops.accumulate acc (weights pair) (ops.widen x)) rest held)
      ]

  -- An element of the output after the launch.
  pub unpermuted :
      (order : List ℕ)
      → IsSchedule (n_tokens * width) order
      → (out : Buffer T) (t i : ℕ) (value : ℕ → T) → Carries t i value
      → t < n_tokens
      → i < width
      → unpermute ops weights top_k width row_map rows order out (t * width + i)
        ≡ ops.narrow (mixture ops weights top_k width ids n_experts value t top_k)
  unfolding unpermute unpermute_item
  unpermuted order launched out t i value carries ht hi =
      let at = t * width + i in
      let ran =
        schedule-runs (n_tokens * width) order launched at (row_fits t n_tokens i width ht hi) in
      run_own _ order out at ran
      ∙ rw (row_div t i width hi, row_mod t i width hi)
          (ap ops.narrow (reduce-mixture t i value carries top_k (omega arith)))

-- For any permutation scratch and any order of the items in all launches: permuting the rows of the
-- tokens by expert and reducing them back leaves in each element of the output the token's own
-- element, weighted and added up over the token's pairs in their order, the pairs of no expert left
-- out.
pub unpermute-moe_permute :
    {T F : Type 0} (ops : Reducer T F) (weights : Buffer F) (hidden : Buffer T) (ids : ℕ → ℤ)
    (n_tokens top_k hidden_dim n_experts : ℕ) (clears counts scatters : List ℕ) (b : Buffers T)
    → IsSchedule (max (n_tokens * top_k) n_experts) clears
    → IsSchedule (n_tokens * top_k) counts
    → IsSchedule (n_tokens * top_k) scatters
    → (order : List ℕ) → IsSchedule (n_tokens * hidden_dim) order
    → (out : Buffer T) (t i : ℕ) → t < n_tokens
    → i < hidden_dim
    → let after = moe_permute hidden ids top_k hidden_dim n_experts clears counts scatters b in
      unpermute ops weights top_k hidden_dim after.row_map after.permuted order out
        (t * hidden_dim + i)
      ≡ ops.narrow (
          mixture ops weights top_k hidden_dim ids n_experts
            (λ e. hidden (t * hidden_dim + i))
            t
            top_k)
unpermute-moe_permute ops weights hidden ids n_tokens top_k hidden_dim n_experts clears counts
      scatters b cl co sc order launched out t i ht hi =
    let after = moe_permute hidden ids top_k hidden_dim n_experts clears counts scatters b in
    let (_, skips, places, _) =
      moe_permute_lem hidden ids top_k hidden_dim n_experts (n_tokens * top_k) clears counts
        scatters b cl co sc in
    unpermuted ops weights ids n_tokens top_k hidden_dim n_experts after.row_map after.permuted
      order launched out t i (λ e. hidden (t * hidden_dim + i))
      (λ j hj.
        let inside = row_fits t n_tokens j top_k ht hj in
        (
          λ skipped. skips (t * top_k + j) inside skipped,
          λ e at h.
              let (d, mapped, _, _, copied) = places (t * top_k + j) e inside at h in
              (
                d,
                mapped,
                copied i hi ∙ ap (λ (x : ℕ). hidden (x * hidden_dim + i)) (row_div t j top_k hj),
              ),
        ))
      ht hi
