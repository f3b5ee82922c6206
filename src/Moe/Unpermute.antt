-- ===== src/Moe/Unpermute.antt =====
-- The weighted reduction back to tokens, unpermute_typed of
-- kernels/moe/moe_permute/variants/xpu_sycl/moe_permute.sycl.cpp: one item for each element of the
-- output. Its float arithmetic is an argument.
use quixi_core_xpu.Common.{ℕ, zero, suc, ◌+◌, ◌*◌, ◌/◌, ◌%◌, ltb, if◌then◌else◌, Option, some, List}
use quixi_core_xpu.Common.Int.{ℤ, pos, negsuc}
use quixi_core_xpu.Common.Launch.{Buffer, run}

-- What the kernel does with floats F and with elements T: `accumulate acc w x` is acc += w * x,
-- fused or not.
pub record Reducer (T F : Type 0) : Type 0 where
  pub zero_acc : F
  pub accumulate : F → F → F → F
  pub widen : T → F
  pub narrow : F → T

module _ {T F : Type 0} (ops : Reducer T F) (weights : Buffer F) (top_k hidden_dim : ℕ) where
  -- One round of the loop, for the row that the pair was mapped to.
  unfoldable pub add_row : (ℕ → T) → F → F → ℤ → F
  add_row column w acc (negsuc _) = acc
  add_row column w acc (pos r) = ops.accumulate acc w (ops.widen (column r))

  -- acc after the pairs below `j` of token `t`, for column `i`.
  unfoldable pub reduce : (ℕ → ℤ) → Buffer T → ℕ → ℕ → ℕ → F
  unfolding add_row
  reduce row_map permuted t i zero = ops.zero_acc
  reduce row_map permuted t i (suc j) =
      add_row (λ r. permuted (r * hidden_dim + i)) (weights (t * top_k + j))
        (reduce row_map permuted t i j) (row_map (t * top_k + j))

  unfoldable pub unpermute_item : (ℕ → ℤ) → Buffer T → ℕ → Option (ℕ × T)
  unfolding reduce
  unpermute_item row_map permuted idx =
      let t = idx / hidden_dim in
      let i = idx % hidden_dim in some (idx, ops.narrow (reduce row_map permuted t i top_k))

  -- unpermute_typed, with the order of its items.
  unfoldable pub unpermute : (ℕ → ℤ) → Buffer T → List ℕ → Buffer T → Buffer T
  unfolding unpermute_item
  unpermute row_map permuted order out = run (unpermute_item row_map permuted) order out

  -- What a token's pairs add up to in their order, less the pairs of no expert, if expert `e` gives
  -- `value e` for the token.
  unfoldable pub add_pair : ℕ → (ℕ → T) → F → F → ℤ → F
  add_pair n_experts value w acc (negsuc _) = acc
  add_pair n_experts value w acc (pos e) =
      if ltb e n_experts then ops.accumulate acc w (ops.widen (value e)) else acc

  unfoldable pub mixture : (ℕ → ℤ) → ℕ → (ℕ → T) → ℕ → ℕ → F
  unfolding add_pair
  mixture ids n_experts value t zero = ops.zero_acc
  mixture ids n_experts value t (suc j) =
      add_pair n_experts value (weights (t * top_k + j)) (mixture ids n_experts value t j)
        (ids (t * top_k + j))
