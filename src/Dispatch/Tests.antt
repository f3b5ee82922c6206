-- ===== src/Dispatch/Tests.antt =====
-- Calls of a build without oneDNN.
use quixi_core_xpu.Common.{◌≡◌, refl, true, false, not, ◌||◌}
use quixi_core_xpu.Runtime.{f32, bf16}
use quixi_core_xpu.Variants.{sycl, best}
use quixi_core_xpu.Dispatch.Activations.{softmax}
use quixi_core_xpu.Dispatch.Optimizers.{FloatArith}
use quixi_core_xpu.Dispatch.Quantization.{fp8_gemm, e4m3}
use quixi_core_xpu.Dispatch.Moe.{moe_grouped_qswiglu, w16}
use quixi_core_xpu.Dispatch.Routing.{
  Host, Call, activations, quantization, moe, IsRoutedCall, dispatch-IsRouted,
}
use quixi_core_xpu.Dispatch.Vendor.{
  runs_onednn, call_returns, needs_onednn, has_bad_shape, best_is_vendor, full_host,
  call_returns-plain, runs_onednn-best,
}
use quixi_core_xpu.Common.{ℕ, ◌+◌, ◌↔◌, [], ◌∷◌}
use quixi_core_xpu.Common.Int.{pos}
use quixi_core_xpu.Common.Launch.{Buffer}
use quixi_core_xpu.Runtime.{Platform}
use quixi_core_xpu.Collectives.{SumUnit}
use quixi_core_xpu.Dispatch.{submitted, actions, completed}
use quixi_core_xpu.Dispatch.Collectives
use quixi_core_xpu.Dispatch.Collectives.{all_reduce, all_reduce_sycl, gpus, all_reduce_sum}
use quixi_core_xpu.Dispatch.Envelope.{InEnvelope, all_reduce-envelope}

abbrev some_arith : FloatArith
some_arith = record { pow = λ x y. x; subtract = λ x y. y; of_int = λ z. 0 }

abbrev plain_host : Host
plain_host = record { onednn = false; accepts = λ k. false; arith_unit = some_arith }

abbrev row_softmax : Call
row_softmax = activations (softmax 0x1000 0x2000 4 128 bf16)

abbrev two_rows : Call
two_rows = quantization (fp8_gemm 0x1000 0x2000 0x3000 2 64 64 e4m3 0x3f800000 f32)

abbrev experts : Call
experts = moe (moe_grouped_qswiglu 1 2 3 4 5 6 7 8 64 64 4 32 w16 bf16)

dispatch-IsRouted_example : IsRoutedCall plain_host row_softmax best
dispatch-IsRouted_example = dispatch-IsRouted plain_host row_softmax best

call_returns-plain_example :
    call_returns plain_host two_rows best true
    ≡ not (needs_onednn two_rows best || has_bad_shape two_rows)
call_returns-plain_example = call_returns-plain plain_host two_rows best true refl

runs_onednn-best_example :
    runs_onednn (full_host some_arith) row_softmax best true ≡ best_is_vendor row_softmax
runs_onednn-best_example = runs_onednn-best some_arith row_softmax true

abbrev two_gpus : Platform
two_gpus = record {
  level_zero = true;
  devices =
      record { handle = 1; is_gpu = true; vendor_id = 0x8086 }
      ∷ record { handle = 2; is_gpu = true; vendor_id = 0x8086 }
      ∷ [];
}

all_reduce-envelope_example :
    ((submitted
          (actions (Collectives.dispatch (all_reduce 1 2 3 (pos 1) (pos 2) 64 f32 65536) sycl true))
        ≡ all_reduce_sycl 1 2 3 (pos 1) (pos 2) 64 f32 65536 ∷ [])
      ↔ InEnvelope (pos 1) (pos 2))
    × ((Collectives.dispatch (all_reduce 1 2 3 (pos 1) (pos 2) 64 f32 65536) sycl true
          ≡ completed [])
        ↔ ¬ InEnvelope (pos 1) (pos 2))
all_reduce-envelope_example = all_reduce-envelope 1 2 3 (pos 1) (pos 2) 64 f32 65536 sycl true

abbrev numbers : SumUnit ℕ
numbers = record { to_float = λ x. x; from_float = λ x. x; add = λ x y. x + y }

abbrev ramp : Buffer ℕ
ramp i = i

abbrev zeros : Buffer ℕ
zeros i = 0
