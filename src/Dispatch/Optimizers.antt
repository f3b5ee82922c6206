-- ===== src/Dispatch/Optimizers.antt =====
-- The optimizers family: src/dispatch/optimizers.cpp.
use quixi_core_xpu.Common.{ℕ, Bool}
use quixi_core_xpu.Common.Int.{ℤ}
use quixi_core_xpu.Runtime.{DType}
use quixi_core_xpu.Variants.{Variant}
use quixi_core_xpu.Dispatch.{Ptr, Float, Outcome, native}

-- The operations with their arguments.
pub data Op : Type 0 where
  adamw : Ptr → Ptr → Ptr → Ptr → ℕ → Float → Float → Float → Float → Float → ℤ → DType → Op

-- The kernels with theirs.
pub data Kernel : Type 0 where
  adamw_sycl :
      Ptr
      → Ptr
      → Ptr
      → Ptr
      → ℕ
      → Float
      → Float
      → Float
      → Float
      → Float
      → Float
      → Float
      → DType
      → Kernel

-- The float operations of adamw on the host: std::pow, the difference and the conversion of int.
pub record FloatArith : Type 0 where
  pub pow : Float → Float → Float
  pub subtract : Float → Float → Float
  pub of_int : ℤ → Float

unfoldable pub dispatch : FloatArith → Op → Variant → Bool → Outcome Kernel
dispatch arith_unit (adamw p g m v n lr beta1 beta2 eps weight_decay step dt) variant blocking =
    let bc1 = arith_unit.subtract 0x3f800000 (arith_unit.pow beta1 (arith_unit.of_int step)) in
    let bc2 = arith_unit.subtract 0x3f800000 (arith_unit.pow beta2 (arith_unit.of_int step)) in
    native blocking (adamw_sycl p g m v n lr beta1 beta2 eps weight_decay bc1 bc2 dt)
