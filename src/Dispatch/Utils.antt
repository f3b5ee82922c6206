-- ===== src/Dispatch/Utils.antt =====
-- The utils family: src/dispatch/utils.cpp.
use quixi_core_xpu.Common.{ℕ, Bool}
use quixi_core_xpu.Runtime.{DType}
use quixi_core_xpu.Variants.{Variant}
use quixi_core_xpu.Dispatch.{Ptr, Float, Outcome, native}

-- The operations with their arguments.
pub data Op : Type 0 where
  dropout : Ptr → Ptr → ℕ → Float → ℕ → DType → Op
  cross_entropy : Ptr → Ptr → Ptr → ℕ → ℕ → DType → Op
  hadamard : Ptr → Ptr → ℕ → ℕ → DType → Op

-- The kernels with theirs.
pub data Kernel : Type 0 where
  dropout_sycl : Ptr → Ptr → ℕ → Float → ℕ → DType → Kernel
  cross_entropy_sycl : Ptr → Ptr → Ptr → ℕ → ℕ → DType → Kernel
  hadamard_sycl : Ptr → Ptr → ℕ → ℕ → DType → Kernel

unfoldable pub dispatch : Op → Variant → Bool → Outcome Kernel
dispatch (dropout src out n p seed dt) variant blocking =
    native blocking (dropout_sycl src out n p seed dt)
dispatch (cross_entropy logits target loss rows vocab dt) variant blocking =
    native blocking (cross_entropy_sycl logits target loss rows vocab dt)
dispatch (hadamard src out rows n dt) variant blocking =
    native blocking (hadamard_sycl src out rows n dt)
