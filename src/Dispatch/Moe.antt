-- ===== src/Dispatch/Moe.antt =====
-- The moe family: src/dispatch/moe.cpp.
use quixi_core_xpu.Common.{ℕ, Bool, List, ◌*◌, if◌then◌else◌, ◌∷◌, []}
use quixi_core_xpu.Common.Int.{ℤ}
use quixi_core_xpu.Runtime.{DType}
use quixi_core_xpu.Variants.{Variant, sycl}
use quixi_core_xpu.Dispatch.{
  Ptr, Float, Action, Outcome, launch, clear, execute, wait, completed, finish, native, actions,
}
use quixi_core_xpu.Dispatch.Activations
use quixi_core_xpu.Dispatch.Activations.{swiglu, glu}

-- enum class MoeGating
pub data MoeGating : Type 0 where
  softmax sigmoid softplus_sqrt : MoeGating

-- enum class MoeWeightFormat
pub data MoeWeightFormat : Type 0 where
  w16 int4_group nvfp4 : MoeWeightFormat

-- static_cast<int>
unfoldable pub moe_gating_code : MoeGating → ℕ
moe_gating_code softmax = 0
moe_gating_code sigmoid = 1
moe_gating_code softplus_sqrt = 2

-- static_cast<int>
unfoldable pub moe_weight_format_code : MoeWeightFormat → ℕ
moe_weight_format_code w16 = 0
moe_weight_format_code int4_group = 1
moe_weight_format_code nvfp4 = 2

-- The operations with their arguments.
pub data Op : Type 0 where
  moe_route_topk : Ptr → Ptr → Ptr → ℕ → ℕ → ℤ → DType → MoeGating → Bool → Float → Op
  nvfp4_moe_fused :
      Ptr
      → Ptr
      → Ptr
      → Ptr
      → Ptr
      → Ptr
      → Ptr
      → Ptr
      → Ptr
      → Ptr
      → ℕ
      → ℕ
      → ℕ
      → ℕ
      → ℕ
      → DType
      → Bool
      → Op
  nvfp4_moe_split :
      Ptr
      → Ptr
      → Ptr
      → Ptr
      → Ptr
      → Ptr
      → Ptr
      → Ptr
      → Ptr
      → Ptr
      → Ptr
      → ℕ
      → ℕ
      → ℕ
      → ℕ
      → ℕ
      → DType
      → Bool
      → Op
  nvfp4_moe_relu2_fused :
      Ptr
      → Ptr
      → Ptr
      → Ptr
      → Ptr
      → Ptr
      → Ptr
      → Ptr
      → Ptr
      → Ptr
      → ℕ
      → ℕ
      → ℕ
      → ℕ
      → ℕ
      → DType
      → Bool
      → Op
  nvfp4_moe_relu2_split :
      Ptr
      → Ptr
      → Ptr
      → Ptr
      → Ptr
      → Ptr
      → Ptr
      → Ptr
      → Ptr
      → Ptr
      → Ptr
      → ℕ
      → ℕ
      → ℕ
      → ℕ
      → ℕ
      → DType
      → Bool
      → Op
  moe_grouped_qgemm :
      Ptr → Ptr → Ptr → Ptr → Ptr → Ptr → ℕ → ℕ → ℕ → ℕ → ℕ → MoeWeightFormat → DType → Op
  moe_grouped_qswiglu :
      Ptr → Ptr → Ptr → Ptr → Ptr → Ptr → Ptr → ℕ → ℕ → ℕ → ℕ → ℕ → MoeWeightFormat → DType → Op
  moe_permute : Ptr → Ptr → Ptr → Ptr → Ptr → Ptr → ℕ → ℕ → ℕ → ℕ → DType → Op
  moe_unpermute_weighted_reduce : Ptr → Ptr → Ptr → Ptr → ℕ → ℕ → ℕ → DType → Op

-- The kernels with theirs.
pub data Kernel : Type 0 where
  moe_route_topk_sycl : Ptr → Ptr → Ptr → ℕ → ℕ → ℤ → ℕ → ℕ → Float → DType → Kernel
  moe_grouped_qgemm_sycl :
      Ptr → Ptr → Ptr → Ptr → Ptr → Ptr → ℕ → ℕ → ℕ → ℕ → ℕ → ℕ → DType → Kernel
  moe_permute_sycl : Ptr → Ptr → Ptr → Ptr → Ptr → Ptr → ℕ → ℕ → ℕ → ℕ → DType → Kernel
  moe_unpermute_weighted_reduce_sycl : Ptr → Ptr → Ptr → Ptr → ℕ → ℕ → ℕ → DType → Kernel
  nvfp4_moe_fused_sycl :
      Ptr
      → Ptr
      → Ptr
      → Ptr
      → Ptr
      → Ptr
      → Ptr
      → Ptr
      → Ptr
      → Ptr
      → ℕ
      → ℕ
      → ℕ
      → ℕ
      → ℕ
      → Bool
      → DType
      → Kernel
  nvfp4_moe_split_sycl :
      Ptr
      → Ptr
      → Ptr
      → Ptr
      → Ptr
      → Ptr
      → Ptr
      → Ptr
      → Ptr
      → Ptr
      → Ptr
      → ℕ
      → ℕ
      → ℕ
      → ℕ
      → ℕ
      → Bool
      → DType
      → Kernel
  nvfp4_moe_relu2_fused_sycl :
      Ptr
      → Ptr
      → Ptr
      → Ptr
      → Ptr
      → Ptr
      → Ptr
      → Ptr
      → Ptr
      → Ptr
      → ℕ
      → ℕ
      → ℕ
      → ℕ
      → ℕ
      → Bool
      → DType
      → Kernel
  nvfp4_moe_relu2_split_sycl :
      Ptr
      → Ptr
      → Ptr
      → Ptr
      → Ptr
      → Ptr
      → Ptr
      → Ptr
      → Ptr
      → Ptr
      → Ptr
      → ℕ
      → ℕ
      → ℕ
      → ℕ
      → ℕ
      → Bool
      → DType
      → Kernel
  activation : Activations.Kernel → Kernel

-- A memset of the output, the kernel that depends on it, and the wait.
abbrev cleared_launch : Bool → Ptr → ℕ → Kernel → Outcome Kernel
cleared_launch blocking p bytes k = completed (clear p bytes ∷ launch k ∷ finish blocking)

abbrev map_actions : {K L : Type 0} → (K → L) → List (Action K) → List (Action L)
map_actions f [] = []
map_actions f (launch k ∷ rest) = launch (f k) ∷ map_actions f rest
map_actions f (execute k ∷ rest) = execute (f k) ∷ map_actions f rest
map_actions f (clear p n ∷ rest) = clear p n ∷ map_actions f rest
map_actions f (wait ∷ rest) = wait ∷ map_actions f rest

unfoldable pub dispatch : Bool → Op → Variant → Bool → Outcome Kernel
dispatch onednn
      (moe_route_topk router_logits expert_ids expert_weights n_tokens n_experts k dt gating
        renormalize routed_scaling)
      variant blocking =
    native blocking (
      moe_route_topk_sycl router_logits expert_ids expert_weights n_tokens n_experts k
        (moe_gating_code gating) (if renormalize then 1 else 0) routed_scaling dt)
dispatch onednn
      (nvfp4_moe_fused hidden topk_ids topk_weights w13 w13_scales w13_global_scales w2 w2_scales
        w2_global_scales out_f32 m e top_k k i act_dt multiply_router_weight)
      variant blocking =
    cleared_launch blocking out_f32 (m * k * 4) (
      nvfp4_moe_fused_sycl hidden topk_ids topk_weights w13 w13_scales w13_global_scales w2
        w2_scales w2_global_scales out_f32 m e top_k k i multiply_router_weight act_dt)
dispatch onednn
      (nvfp4_moe_split hidden topk_ids topk_weights w13 w13_scales w13_global_scales w2 w2_scales
        w2_global_scales scratch_f32 out_f32 m e top_k k i act_dt multiply_router_weight)
      variant blocking =
    cleared_launch blocking out_f32 (m * k * 4) (
      nvfp4_moe_split_sycl hidden topk_ids topk_weights w13 w13_scales w13_global_scales w2
        w2_scales w2_global_scales scratch_f32 out_f32 m e top_k k i multiply_router_weight act_dt)
dispatch onednn
      (nvfp4_moe_relu2_fused hidden topk_ids topk_weights w1 w1_scales w1_global_scales w2 w2_scales
        w2_global_scales out_f32 m e top_k k i act_dt multiply_router_weight)
      variant blocking =
    cleared_launch blocking out_f32 (m * k * 4) (
      nvfp4_moe_relu2_fused_sycl hidden topk_ids topk_weights w1 w1_scales w1_global_scales w2
        w2_scales w2_global_scales out_f32 m e top_k k i multiply_router_weight act_dt)
dispatch onednn
      (nvfp4_moe_relu2_split hidden topk_ids topk_weights w1 w1_scales w1_global_scales w2 w2_scales
        w2_global_scales scratch_f32 out_f32 m e top_k k i act_dt multiply_router_weight)
      variant blocking =
    cleared_launch blocking out_f32 (m * k * 4) (
      nvfp4_moe_relu2_split_sycl hidden topk_ids topk_weights w1 w1_scales w1_global_scales w2
        w2_scales w2_global_scales scratch_f32 out_f32 m e top_k k i multiply_router_weight act_dt)
dispatch onednn
      (moe_grouped_qgemm a w scales global_scales c rows_per_expert m_total n k e group fmt act_dt)
      variant blocking =
    native blocking (
      moe_grouped_qgemm_sycl a w scales global_scales c rows_per_expert m_total n k e group
        (moe_weight_format_code fmt) act_dt)
dispatch onednn
      (moe_grouped_qswiglu a w scales global_scales scratch_2i c rows_per_expert m_total i k e group
        fmt act_dt)
      variant blocking =
    let gemm =
      moe_grouped_qgemm_sycl a w scales global_scales scratch_2i rows_per_expert m_total (2 * i) k e
        group (moe_weight_format_code fmt) act_dt in
    let gate =
      Activations.dispatch onednn (glu scratch_2i c m_total i act_dt swiglu) sycl blocking in
    completed (launch gemm ∷ wait ∷ map_actions activation (actions gate))
dispatch onednn
      (moe_permute hidden topk_ids permuted rows_per_expert row_map cursors n_tokens top_k
        hidden_dim n_experts dt)
      variant blocking =
    native blocking (
      moe_permute_sycl hidden topk_ids permuted rows_per_expert row_map cursors n_tokens top_k
        hidden_dim n_experts dt)
dispatch onednn
      (moe_unpermute_weighted_reduce permuted row_map topk_weights out n_tokens top_k hidden_dim dt)
      variant blocking =
    native blocking (
      moe_unpermute_weighted_reduce_sycl permuted row_map topk_weights out n_tokens top_k hidden_dim
        dt)
