-- ===== src/Dispatch/LinearAttention.antt =====
-- The linear_attention family: src/dispatch/linear_attention.cpp.
use quixi_core_xpu.Common.{ℕ, Bool}
use quixi_core_xpu.Runtime.{DType}
use quixi_core_xpu.Variants.{Variant}
use quixi_core_xpu.Dispatch.{Ptr, Float, Outcome, native}

-- The operations with their arguments.
pub data Op : Type 0 where
  linear_attn : Ptr → Ptr → Ptr → Ptr → ℕ → ℕ → ℕ → DType → Op
  qwen_gdn_decode :
      Ptr
      → Ptr
      → Ptr
      → Ptr
      → Ptr
      → Ptr
      → Ptr
      → Ptr
      → Ptr
      → Ptr
      → Ptr
      → Ptr
      → ℕ
      → ℕ
      → Bool
      → DType
      → DType
      → DType
      → Op
  gdn_l2norm_qk : Ptr → ℕ → ℕ → ℕ → Float → DType → Op
  gated_delta_rule_varlen :
      Ptr
      → Ptr
      → Ptr
      → Ptr
      → Ptr
      → Ptr
      → Ptr
      → Ptr
      → Ptr
      → Ptr
      → Ptr
      → Ptr
      → ℕ
      → ℕ
      → ℕ
      → ℕ
      → ℕ
      → ℕ
      → DType
      → DType
      → Op

-- The kernels with theirs.
pub data Kernel : Type 0 where
  linear_attn_sycl : Ptr → Ptr → Ptr → Ptr → ℕ → ℕ → ℕ → DType → Kernel
  qwen_gdn_decode_sycl :
      Ptr
      → Ptr
      → Ptr
      → Ptr
      → Ptr
      → Ptr
      → Ptr
      → Ptr
      → Ptr
      → Ptr
      → Ptr
      → Ptr
      → ℕ
      → ℕ
      → Bool
      → DType
      → DType
      → DType
      → Kernel
  gdn_l2norm_qk_sycl : Ptr → ℕ → ℕ → ℕ → Float → DType → Kernel
  gated_delta_rule_varlen_sycl :
      Ptr
      → Ptr
      → Ptr
      → Ptr
      → Ptr
      → Ptr
      → Ptr
      → Ptr
      → Ptr
      → Ptr
      → Ptr
      → Ptr
      → ℕ
      → ℕ
      → ℕ
      → ℕ
      → ℕ
      → ℕ
      → DType
      → DType
      → Kernel

unfoldable pub dispatch : Op → Variant → Bool → Outcome Kernel
dispatch (linear_attn q k v o n_heads seq dim dt) variant blocking =
    native blocking (linear_attn_sycl q k v o n_heads seq dim dt)
dispatch
      (qwen_gdn_decode projected_qkvz projected_ba conv_state ssm_state conv_weight conv_bias a_log
        dt_bias state_indices mixed_qkv core_out z_out batch state_slots conv_dim_first act_dt
        state_dt dt_bias_dt)
      variant blocking =
    native blocking (
      qwen_gdn_decode_sycl projected_qkvz projected_ba conv_state ssm_state conv_weight conv_bias
        a_log dt_bias state_indices mixed_qkv core_out z_out batch state_slots conv_dim_first act_dt
        state_dt dt_bias_dt)
dispatch (gdn_l2norm_qk qk tokens heads dk eps dt) variant blocking =
    native blocking (gdn_l2norm_qk_sycl qk tokens heads dk eps dt)
dispatch
      (gated_delta_rule_varlen q k v b a a_log dt_bias ssm_state core_out cu_seqlens state_indices
        has_initial_state batch hk dk hv dv nslots act_dt state_dt)
      variant blocking =
    native blocking (
      gated_delta_rule_varlen_sycl q k v b a a_log dt_bias ssm_state core_out cu_seqlens
        state_indices has_initial_state batch hk dk hv dv nslots act_dt state_dt)
