-- ===== src/Dispatch/Matmul.antt =====
-- The matmul family: src/dispatch/matmul.cpp.
use quixi_core_xpu.Common.{ℕ, Bool, if◌then◌else◌}
use quixi_core_xpu.Runtime.{DType}
use quixi_core_xpu.Variants.{Variant, sycl, vendor, best, variant_available, resolve_variant}
use quixi_core_xpu.Dispatch.{Ptr, Float, Outcome, native}

-- The operations with their arguments.
pub data Op : Type 0 where
  dense_gemm : Ptr → Ptr → Ptr → ℕ → ℕ → ℕ → DType → Op
  lora_shrink : Ptr → Ptr → Ptr → Ptr → ℕ → ℕ → ℕ → ℕ → Float → DType → Op
  lora_expand : Ptr → Ptr → Ptr → Ptr → ℕ → ℕ → ℕ → ℕ → ℕ → ℕ → Bool → DType → Op

-- The kernels with theirs.
pub data Kernel : Type 0 where
  lora_shrink_sycl : Ptr → Ptr → Ptr → Ptr → ℕ → ℕ → ℕ → ℕ → Float → DType → Kernel
  lora_expand_sycl : Ptr → Ptr → Ptr → Ptr → ℕ → ℕ → ℕ → ℕ → ℕ → ℕ → ℕ → DType → Kernel
  dense_gemm_onednn : Ptr → Ptr → Ptr → ℕ → ℕ → ℕ → DType → Kernel
  dense_gemm_sycl : Ptr → Ptr → Ptr → ℕ → ℕ → ℕ → DType → Kernel

-- Best is vendor if it is available.
unfoldable pub gemm_variant : Bool → Variant → Variant
gemm_variant onednn best = if variant_available onednn vendor then vendor else sycl
gemm_variant onednn v = v

unfoldable pub dispatch : Bool → Op → Variant → Bool → Outcome Kernel
dispatch onednn (dense_gemm a b c m n k dt) variant blocking =
    native blocking (elim (resolve_variant onednn (gemm_variant onednn variant)) [
      | vendor ↦ if onednn then dense_gemm_onednn a b c m n k dt else dense_gemm_sycl a b c m n k dt
      | _ ↦ dense_gemm_sycl a b c m n k dt
    ])
dispatch onednn (lora_shrink src w lora_idx out batch hidden rank n_loras scale dt) variant
      blocking =
    native blocking (lora_shrink_sycl src w lora_idx out batch hidden rank n_loras scale dt)
dispatch onednn
      (lora_expand src w lora_idx out batch rank out_dim n_loras out_offset out_stride accumulate
        dt)
      variant blocking =
    native blocking (
      lora_expand_sycl src w lora_idx out batch rank out_dim n_loras out_offset out_stride
        (if accumulate then 1 else 0) dt)
