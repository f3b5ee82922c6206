-- ===== src/Moe.antt =====
-- The expert-sorted permutation of moe_permute:
-- kernels/moe/moe_permute/variants/xpu_sycl/moe_permute.sycl.cpp. Four launches in a chain: clear the
-- counts, count the pairs of each expert, sum the counts up, and scatter the rows. The items of a
-- launch run in any order. An item claims its row by an atomic increment; what it copies afterwards
-- goes to its own row, so a claim and its copy are one step. The 32-bit counters are numbers: there
-- are fewer than 2 ^ 31 pairs.
pub mod Invariant
pub mod Scatter
pub mod Permute
pub mod Unpermute
pub mod Compose
pub mod Layer
mod Tests
use quixi_core_xpu.Common.{
  ℕ, zero, suc, ◌+◌, ◌-◌, ◌*◌, ◌/◌, ◌≡◌, Bool, true, false, ltb, leb, ◌&&◌, ◌==◌, if◌then◌else◌,
  Option, none, some, List, [], ◌∷◌, max,
}
use quixi_core_xpu.Common.Int.{ℤ, pos, negsuc}
use quixi_core_xpu.Common.Launch.{Buffer, store, run}

-- The buffers that the launches write.
pub record Buffers (T : Type 0) : Type 0 where
  pub rows_per_expert : Buffer ℕ
  pub cursors : Buffer ℕ
  pub row_map : Buffer ℤ
  pub permuted : Buffer T

abbrev pub clear_item : ℕ → ℕ → Option (ℕ × ℕ)
clear_item n_experts idx = if ltb idx n_experts then some (idx, 0) else none

-- One item of the histogram: the atomic increment of its expert's count.
unfoldable pub count_item : ℕ → ℤ → Buffer ℕ → Buffer ℕ
unfolding store
count_item n_experts (negsuc _) rows = rows
count_item n_experts (pos e) rows = if ltb e n_experts then store rows e (rows e + 1) else rows

unfoldable pub count_pairs : ℕ → (ℕ → ℤ) → List ℕ → Buffer ℕ → Buffer ℕ
unfolding count_item
count_pairs n_experts ids [] rows = rows
count_pairs n_experts ids (idx ∷ rest) rows =
    count_pairs n_experts ids rest (count_item n_experts (ids idx) rows)

-- The loop of the scan after its first experts: the accumulator and the cursors.
unfoldable pub scan : Buffer ℕ → ℕ → Buffer ℕ → ℕ × Buffer ℕ
unfolding store
scan rows zero cursors = (0, cursors)
scan rows (suc e) cursors =
    let (acc, done) = scan rows e cursors in (acc + rows e, store done e acc)

module _ {T : Type 0} (hidden : Buffer T) (ids : ℕ → ℤ) (top_k hidden_dim n_experts : ℕ) where
  -- Row `dst` of `permuted` becomes row `t` of `hidden`.
  unfoldable pub copy_row : ℕ → ℕ → Buffer T → Buffer T
  copy_row t dst out = λ a.
      if leb (dst * hidden_dim) a && ltb a (dst * hidden_dim + hidden_dim)
      then hidden (t * hidden_dim + (a - dst * hidden_dim))
      else out a

  unfoldable pub scatter_item : ℕ → ℤ → Buffers T → Buffers T
  unfolding store copy_row
  scatter_item idx (negsuc _) b = record b { row_map = store b.row_map idx (negsuc 0) }
  scatter_item idx (pos e) b =
      if ltb e n_experts
      then record b {
        cursors = store b.cursors e (b.cursors e + 1);
        row_map = store b.row_map idx (pos (b.cursors e));
        permuted = copy_row (idx / top_k) (b.cursors e) b.permuted;
      }
      else record b { row_map = store b.row_map idx (negsuc 0) }

  unfoldable pub scatter : List ℕ → Buffers T → Buffers T
  unfolding scatter_item
  scatter [] b = b
  scatter (idx ∷ rest) b = scatter rest (scatter_item idx (ids idx) b)

  -- permute_typed, with the order of the items in each of its three parallel launches.
  unfoldable pub moe_permute : List ℕ → List ℕ → List ℕ → Buffers T → Buffers T
  unfolding scatter scan count_pairs
  moe_permute clears counts scatters b =
      let cleared = run (clear_item n_experts) clears b.rows_per_expert in
      let rows = count_pairs n_experts ids counts cleared in
      let (_, cursors) = scan rows n_experts b.cursors in
      scatter scatters (record b { rows_per_expert = rows; cursors = cursors })

-- 1 if a pair is of the expert.
abbrev pub hit : ℕ → ℤ → ℕ
hit e (negsuc _) = 0
hit e (pos k) = if k == e then 1 else 0
