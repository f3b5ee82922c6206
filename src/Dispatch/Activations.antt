-- ===== src/Dispatch/Activations.antt =====
-- The activations family: src/dispatch/activations.cpp.
use quixi_core_xpu.Common.{ℕ, Bool, true, false, if◌then◌else◌}
use quixi_core_xpu.Runtime.{DType, f32}
use quixi_core_xpu.Variants.{Variant, sycl, vendor, best, resolve_variant}
use quixi_core_xpu.Dispatch.{Ptr, Outcome, native}

-- enum class GeluApprox
pub data GeluApprox : Type 0 where
  erf tanh : GeluApprox

-- enum class GluMode
pub data GluMode : Type 0 where
  swiglu geglu reglu glu : GluMode

-- enum class GluQuantMode
pub data GluQuantMode : Type 0 where
  group_fp8 mxfp4 : GluQuantMode

-- static_cast<int>
unfoldable pub glu_mode_code : GluMode → ℕ
glu_mode_code swiglu = 0
glu_mode_code geglu = 1
glu_mode_code reglu = 2
glu_mode_code glu = 3

-- static_cast<int>
unfoldable pub glu_quant_mode_code : GluQuantMode → ℕ
glu_quant_mode_code group_fp8 = 0
glu_quant_mode_code mxfp4 = 1

-- The operations with their arguments.
pub data Op : Type 0 where
  gelu : Ptr → Ptr → ℕ → DType → GeluApprox → Op
  softmax : Ptr → Ptr → ℕ → ℕ → DType → Op
  silu : Ptr → Ptr → ℕ → DType → Op
  gelu_backward : Ptr → Ptr → Ptr → ℕ → DType → GeluApprox → Op
  glu : Ptr → Ptr → ℕ → ℕ → DType → GluMode → Op
  glu_gelu_f16 : Ptr → Ptr → ℕ → ℕ → DType → Op
  glu_quant : Ptr → Ptr → Ptr → ℕ → ℕ → ℕ → GluQuantMode → DType → Op

-- The kernels with theirs.
pub data Kernel : Type 0 where
  silu_sycl : Ptr → Ptr → ℕ → DType → Kernel
  gelu_backward_sycl : Ptr → Ptr → Ptr → ℕ → DType → Bool → Kernel
  glu_sycl : Ptr → Ptr → ℕ → ℕ → DType → ℕ → Kernel
  glu_gelu_f16_sycl : Ptr → Ptr → ℕ → ℕ → DType → Kernel
  glu_quant_sycl : Ptr → Ptr → Ptr → ℕ → ℕ → ℕ → ℕ → DType → Kernel
  gelu_onednn : Ptr → Ptr → ℕ → DType → Bool → Kernel
  gelu_sycl : Ptr → Ptr → ℕ → DType → Bool → Kernel
  softmax_onednn : Ptr → Ptr → ℕ → ℕ → DType → Kernel
  softmax_sycl : Ptr → Ptr → ℕ → ℕ → DType → Kernel

unfoldable pub is_tanh : GeluApprox → Bool
is_tanh erf = false
is_tanh tanh = true

-- The best routing of softmax: native for f32, vendor for the 16-bit types.
unfoldable pub softmax_variant : DType → Variant → Variant
softmax_variant f32 best = sycl
softmax_variant _ best = vendor
softmax_variant _ v = v

unfoldable pub dispatch : Bool → Op → Variant → Bool → Outcome Kernel
dispatch onednn (gelu src out n dt approx) variant blocking =
    native blocking (elim (resolve_variant onednn variant) [
      | vendor ↦
          if onednn
          then gelu_onednn src out n dt (is_tanh approx)
          else gelu_sycl src out n dt (is_tanh approx)
      | _ ↦ gelu_sycl src out n dt (is_tanh approx)
    ])
dispatch onednn (softmax x out rows dim dt) variant blocking =
    native blocking (elim (resolve_variant onednn (softmax_variant dt variant)) [
      | vendor ↦ if onednn then softmax_onednn x out rows dim dt else softmax_sycl x out rows dim dt
      | _ ↦ softmax_sycl x out rows dim dt
    ])
dispatch onednn (silu src out n dt) variant blocking = native blocking (silu_sycl src out n dt)
dispatch onednn (gelu_backward grad_out x grad_in n dt approx) variant blocking =
    native blocking (gelu_backward_sycl grad_out x grad_in n dt (is_tanh approx))
dispatch onednn (glu x out rows d dt mode) variant blocking =
    native blocking (glu_sycl x out rows d dt (glu_mode_code mode))
dispatch onednn (glu_gelu_f16 x out rows d dt) variant blocking =
    native blocking (glu_gelu_f16_sycl x out rows d dt)
dispatch onednn (glu_quant x out_q out_scales rows d group mode dt) variant blocking =
    native blocking (glu_quant_sycl x out_q out_scales rows d group (glu_quant_mode_code mode) dt)
