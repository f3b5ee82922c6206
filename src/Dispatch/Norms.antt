-- ===== src/Dispatch/Norms.antt =====
-- The norms family: src/dispatch/norms.cpp.
use quixi_core_xpu.Common.{ℕ, Bool, if◌then◌else◌}
use quixi_core_xpu.Runtime.{DType}
use quixi_core_xpu.Variants.{Variant, sycl, vendor, best, resolve_variant}
use quixi_core_xpu.Dispatch.{Ptr, Float, Outcome, native}

-- enum class NormQuantMode
pub data NormQuantMode : Type 0 where
  static_fp8 dynamic_fp8 mxfp4 : NormQuantMode

-- static_cast<int>
unfoldable pub norm_quant_mode_code : NormQuantMode → ℕ
norm_quant_mode_code static_fp8 = 0
norm_quant_mode_code dynamic_fp8 = 1
norm_quant_mode_code mxfp4 = 2

-- The operations with their arguments.
pub data Op : Type 0 where
  rms_norm : Ptr → Ptr → Ptr → ℕ → ℕ → Float → DType → Op
  fused_add_rms_norm : Ptr → Ptr → Ptr → Ptr → ℕ → ℕ → Float → DType → Op
  rms_residual_next : Ptr → Ptr → Ptr → Ptr → Ptr → ℕ → ℕ → Float → DType → Op
  layernorm : Ptr → Ptr → Ptr → Ptr → ℕ → ℕ → Float → DType → Op
  norm_quant : Ptr → Ptr → Ptr → Ptr → Ptr → Ptr → ℕ → ℕ → Float → NormQuantMode → DType → Op
  group_rms_norm_gated : Ptr → Ptr → Ptr → Ptr → ℕ → ℕ → ℕ → Float → Bool → DType → Op
  qk_norm_rope :
      Ptr → Ptr → Ptr → Ptr → Ptr → Ptr → ℕ → ℕ → ℕ → ℕ → Float → ℕ → Float → Float → DType → Op

-- The kernels with theirs.
pub data Kernel : Type 0 where
  rms_norm_sycl : Ptr → Ptr → Ptr → ℕ → ℕ → Float → DType → Kernel
  fused_add_rms_norm_sycl : Ptr → Ptr → Ptr → Ptr → ℕ → ℕ → Float → DType → Kernel
  rms_residual_next_sycl : Ptr → Ptr → Ptr → Ptr → Ptr → ℕ → ℕ → Float → DType → Kernel
  norm_quant_sycl : Ptr → Ptr → Ptr → Ptr → Ptr → Ptr → ℕ → ℕ → Float → ℕ → DType → Kernel
  group_rms_norm_gated_sycl : Ptr → Ptr → Ptr → Ptr → ℕ → ℕ → ℕ → Float → Bool → DType → Kernel
  qk_norm_rope_sycl :
      Ptr → Ptr → Ptr → Ptr → Ptr → Ptr → ℕ → ℕ → ℕ → ℕ → Float → ℕ → Float → Float → DType → Kernel
  layernorm_onednn : Ptr → Ptr → Ptr → Ptr → ℕ → ℕ → Float → DType → Kernel
  layernorm_sycl : Ptr → Ptr → Ptr → Ptr → ℕ → ℕ → Float → DType → Kernel

-- Best is native for every dtype.
unfoldable pub layernorm_variant : Variant → Variant
layernorm_variant best = sycl
layernorm_variant v = v

unfoldable pub dispatch : Bool → Op → Variant → Bool → Outcome Kernel
dispatch onednn (rms_norm x weight out rows dim eps dt) variant blocking =
    native blocking (rms_norm_sycl x weight out rows dim eps dt)
dispatch onednn (fused_add_rms_norm x residual weight out rows dim eps dt) variant blocking =
    native blocking (fused_add_rms_norm_sycl x residual weight out rows dim eps dt)
dispatch onednn
      (rms_residual_next projection post_weight residual next_weight next_out rows dim eps dt)
      variant blocking =
    native blocking
      (rms_residual_next_sycl projection post_weight residual next_weight next_out rows dim eps dt)
dispatch onednn (layernorm x weight bias out rows dim eps dt) variant blocking =
    native blocking (elim (resolve_variant onednn (layernorm_variant variant)) [
      | vendor ↦
          if onednn
          then layernorm_onednn x weight bias out rows dim eps dt
          else layernorm_sycl x weight bias out rows dim eps dt
      | _ ↦ layernorm_sycl x weight bias out rows dim eps dt
    ])
dispatch onednn (norm_quant x residual weight out_q static_scale out_scales rows hidden eps mode dt)
      variant blocking =
    native blocking (
      norm_quant_sycl x residual weight out_q static_scale out_scales rows hidden eps
        (norm_quant_mode_code mode) dt)
dispatch onednn (group_rms_norm_gated x gate weight out rows hidden n_groups eps with_rms_norm dt)
      variant blocking =
    native blocking
      (group_rms_norm_gated_sycl x gate weight out rows hidden n_groups eps with_rms_norm dt)
dispatch onednn
      (qk_norm_rope q k q_weight k_weight q_f16 k_f16 tokens n_head n_head_kv head_dim base pos0
        query_scale eps dt)
      variant blocking =
    native blocking (
      qk_norm_rope_sycl q k q_weight k_weight q_f16 k_f16 tokens n_head n_head_kv head_dim base pos0
        query_scale eps dt)
