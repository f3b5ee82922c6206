-- ===== src/Dispatch/Sampling.antt =====
-- The sampling family: src/dispatch/sampling.cpp.
use quixi_core_xpu.Common.{ℕ, Bool}
use quixi_core_xpu.Common.Int.{ℤ}
use quixi_core_xpu.Runtime.{DType}
use quixi_core_xpu.Variants.{Variant}
use quixi_core_xpu.Dispatch.{Ptr, Float, Outcome, native}

-- The operations with their arguments.
pub data Op : Type 0 where
  argmax : Ptr → Ptr → ℕ → ℕ → DType → Op
  sample_categorical : Ptr → Ptr → ℕ → ℕ → Float → ℕ → DType → Op
  top_k_sample : Ptr → Ptr → ℕ → ℕ → ℤ → Float → ℕ → DType → Op
  top_k_renorm : Ptr → Ptr → ℕ → ℕ → ℤ → DType → Op
  top_p_renorm : Ptr → Ptr → ℕ → ℕ → Float → DType → Op

-- The kernels with theirs.
pub data Kernel : Type 0 where
  argmax_sycl : Ptr → Ptr → ℕ → ℕ → DType → Kernel
  sample_categorical_sycl : Ptr → Ptr → ℕ → ℕ → Float → ℕ → DType → Kernel
  top_k_sample_sycl : Ptr → Ptr → ℕ → ℕ → ℤ → Float → ℕ → DType → Kernel
  top_k_renorm_sycl : Ptr → Ptr → ℕ → ℕ → ℤ → DType → Kernel
  top_p_renorm_sycl : Ptr → Ptr → ℕ → ℕ → Float → DType → Kernel

unfoldable pub dispatch : Op → Variant → Bool → Outcome Kernel
dispatch (argmax logits out rows vocab dt) variant blocking =
    native blocking (argmax_sycl logits out rows vocab dt)
dispatch (sample_categorical logits out rows vocab temperature seed dt) variant blocking =
    native blocking (sample_categorical_sycl logits out rows vocab temperature seed dt)
dispatch (top_k_sample logits out rows vocab k temperature seed dt) variant blocking =
    native blocking (top_k_sample_sycl logits out rows vocab k temperature seed dt)
dispatch (top_k_renorm probs out rows vocab k dt) variant blocking =
    native blocking (top_k_renorm_sycl probs out rows vocab k dt)
dispatch (top_p_renorm probs out rows vocab top_p dt) variant blocking =
    native blocking (top_p_renorm_sycl probs out rows vocab top_p dt)
