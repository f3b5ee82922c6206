-- ===== src/Dispatch/Vendor.antt =====
-- Which calls use oneDNN, and which throw without it.
use quixi_core_xpu.Common.{◌≡◌, Bool, true, false, not, arith, ltb, ◌==◌, ◌&&◌, ◌||◌}
use quixi_core_xpu.Runtime.{f32}
use quixi_core_xpu.Variants.{Variant, sycl, vendor, best, resolve_variant, variant_available}
use quixi_core_xpu.Dispatch.{actions, returns, submitted, any}
use quixi_core_xpu.Dispatch.Routing.{
  Host, Call, activations, attention, linear_attention, matmul, moe, norms, optimizers,
  quantization, sampling, serving, ssm, utils, activations_onednn, matmul_onednn, moe_onednn,
  norms_onednn, quantization_onednn, native_only, rows-native,
}
use quixi_core_xpu.Dispatch.Activations
use quixi_core_xpu.Dispatch.Attention
use quixi_core_xpu.Dispatch.LinearAttention
use quixi_core_xpu.Dispatch.Matmul
use quixi_core_xpu.Dispatch.Moe
use quixi_core_xpu.Dispatch.Norms
use quixi_core_xpu.Dispatch.Optimizers
use quixi_core_xpu.Dispatch.Quantization
use quixi_core_xpu.Dispatch.Sampling
use quixi_core_xpu.Dispatch.Serving
use quixi_core_xpu.Dispatch.Ssm
use quixi_core_xpu.Dispatch.Utils

-- Whether a call runs a oneDNN primitive.
abbrev pub runs_onednn : Host → Call → Variant → Bool → Bool
runs_onednn h (activations op) v blocking =
    any activations_onednn (submitted (actions (Activations.dispatch h.onednn op v blocking)))
runs_onednn h (attention op) v blocking =
    any native_only (submitted (actions (Attention.dispatch op v blocking)))
runs_onednn h (linear_attention op) v blocking =
    any native_only (submitted (actions (LinearAttention.dispatch op v blocking)))
runs_onednn h (matmul op) v blocking =
    any matmul_onednn (submitted (actions (Matmul.dispatch h.onednn op v blocking)))
runs_onednn h (moe op) v blocking =
    any moe_onednn (submitted (actions (Moe.dispatch h.onednn op v blocking)))
runs_onednn h (norms op) v blocking =
    any norms_onednn (submitted (actions (Norms.dispatch h.onednn op v blocking)))
runs_onednn h (optimizers op) v blocking =
    any native_only (submitted (actions (Optimizers.dispatch h.arith_unit op v blocking)))
runs_onednn h (quantization op) v blocking =
    any quantization_onednn
      (submitted (actions (Quantization.dispatch h.onednn h.accepts op v blocking)))
runs_onednn h (sampling op) v blocking =
    any native_only (submitted (actions (Sampling.dispatch op v blocking)))
runs_onednn h (serving op) v blocking =
    any native_only (submitted (actions (Serving.dispatch op v blocking)))
runs_onednn h (ssm op) v blocking =
    any native_only (submitted (actions (Ssm.dispatch op v blocking)))
runs_onednn h (utils op) v blocking =
    any native_only (submitted (actions (Utils.dispatch op v blocking)))

abbrev pub call_returns : Host → Call → Variant → Bool → Bool
call_returns h (activations op) v blocking = returns (Activations.dispatch h.onednn op v blocking)
call_returns h (attention op) v blocking = returns (Attention.dispatch op v blocking)
call_returns h (linear_attention op) v blocking = returns (LinearAttention.dispatch op v blocking)
call_returns h (matmul op) v blocking = returns (Matmul.dispatch h.onednn op v blocking)
call_returns h (moe op) v blocking = returns (Moe.dispatch h.onednn op v blocking)
call_returns h (norms op) v blocking = returns (Norms.dispatch h.onednn op v blocking)
call_returns h (optimizers op) v blocking = returns (Optimizers.dispatch h.arith_unit op v blocking)
call_returns h (quantization op) v blocking =
    returns (Quantization.dispatch h.onednn h.accepts op v blocking)
call_returns h (sampling op) v blocking = returns (Sampling.dispatch op v blocking)
call_returns h (serving op) v blocking = returns (Serving.dispatch op v blocking)
call_returns h (ssm op) v blocking = returns (Ssm.dispatch op v blocking)
call_returns h (utils op) v blocking = returns (Utils.dispatch op v blocking)

-- A call that throws where oneDNN does not serve it, and only there: the fp8 codecs, and the fp8 GEMM
-- but for one row that is not forced to the vendor.
abbrev pub needs_onednn : Call → Variant → Bool
needs_onednn (quantization (Quantization.fp8_gemm _ _ _ m _ _ _ _ _)) vendor = true
needs_onednn (quantization (Quantization.fp8_gemm _ _ _ m _ _ _ _ _)) _ = not (m == 1)
needs_onednn (quantization (Quantization.fp8_encode _ _ _ _)) _ = true
needs_onednn (quantization (Quantization.fp8_decode _ _ _ _)) _ = true
needs_onednn _ _ = false

-- The one operation whose kernel rejects a shape: the pooled width must be one of four.
abbrev pub has_bad_shape : Call → Bool
has_bad_shape (serving (Serving.pool_mean_rms_l2 _ _ _ _ _ dim _ _)) =
    not (dim == 256) && not (dim == 512) && not (dim == 768) && not (dim == 1024)
has_bad_shape _ = false

-- The calls that `best` sends to oneDNN.
abbrev pub best_is_vendor : Call → Bool
best_is_vendor (activations (Activations.softmax _ _ _ _ f32)) = false
best_is_vendor (activations (Activations.softmax _ _ _ _ _)) = true
best_is_vendor (matmul (Matmul.dense_gemm _ _ _ _ _ _ _)) = true
best_is_vendor (quantization (Quantization.qgemm_int8 _ _ _ _ _ _ _ _ _)) = true
best_is_vendor (quantization (Quantization.fp8_gemm _ _ _ m _ _ _ _ _)) = not (m == 1)
best_is_vendor (quantization (Quantization.fp8_gemm_w8a16 _ _ _ _ m _ _ _ _ _)) = ltb 1 m
best_is_vendor (quantization (Quantization.fp8_encode _ _ _ _)) = true
best_is_vendor (quantization (Quantization.fp8_decode _ _ _ _)) = true
best_is_vendor _ = false

-- Without oneDNN a call throws exactly if it is an fp8 codec, an fp8 GEMM that has other than one
-- row or is forced to the vendor, or pool_mean_rms_l2 of a width other than 256, 512, 768 and 1024.
pub call_returns-plain :
    (h : Host) (call : Call) (v : Variant) (blocking : Bool)
    → h.onednn ≡ false
    → call_returns h call v blocking ≡ not (needs_onednn call v || has_bad_shape call)
unfolding Activations.dispatch Attention.dispatch LinearAttention.dispatch Matmul.dispatch
    Moe.dispatch Norms.dispatch Optimizers.dispatch Quantization.dispatch Sampling.dispatch
    Serving.dispatch Ssm.dispatch Utils.dispatch resolve_variant variant_available
    Activations.softmax_variant Matmul.gemm_variant Norms.layernorm_variant Quantization.is_vendor
    Quantization.is_best Serving.has_pool_dim
call_returns-plain h call v blocking plain = ground arith

-- With Variant::sycl no call runs a oneDNN primitive, unless it is an fp8 codec or an fp8 GEMM of
-- other than one row.
sycl-native :
    (h : Host) (call : Call) (blocking : Bool)
    → needs_onednn call sycl ≡ false
    → runs_onednn h call sycl blocking ≡ false
unfolding Activations.dispatch Attention.dispatch LinearAttention.dispatch Matmul.dispatch
    Moe.dispatch Norms.dispatch Optimizers.dispatch Quantization.dispatch Sampling.dispatch
    Serving.dispatch Ssm.dispatch Utils.dispatch resolve_variant variant_available
    Activations.softmax_variant Matmul.gemm_variant Norms.layernorm_variant Quantization.is_vendor
    Quantization.is_best Serving.has_pool_dim
sycl-native h
      (quantization (Quantization.nvfp4_gemm w_packed block_scales global_scale x y m n k act_dt))
      blocking native =
    rows-native w_packed block_scales global_scale x y n k act_dt blocking 0 m
sycl-native h call blocking native = ground arith

-- A build with oneDNN on a device for which it supports every call.
abbrev pub full_host : Optimizers.FloatArith → Host
full_host unit = record { onednn = true; accepts = λ k. true; arith_unit = unit }

-- In a build with oneDNN that supports every call, Variant::best runs a oneDNN primitive exactly
-- for softmax of a 16-bit type, the dense and the int8 GEMM, the fp8 GEMM except with one row, the
-- fp8 weight-only GEMM of more than one row, and the fp8 codecs.
pub runs_onednn-best :
    (unit : Optimizers.FloatArith) (call : Call) (blocking : Bool)
    → runs_onednn (full_host unit) call best blocking ≡ best_is_vendor call
unfolding Activations.dispatch Attention.dispatch LinearAttention.dispatch Matmul.dispatch
    Moe.dispatch Norms.dispatch Optimizers.dispatch Quantization.dispatch Sampling.dispatch
    Serving.dispatch Ssm.dispatch Utils.dispatch resolve_variant variant_available
    Activations.softmax_variant Matmul.gemm_variant Norms.layernorm_variant Quantization.is_vendor
    Quantization.is_best Serving.has_pool_dim
runs_onednn-best unit
      (quantization (Quantization.nvfp4_gemm w_packed block_scales global_scale x y m n k act_dt))
      blocking =
    rows-native w_packed block_scales global_scale x y n k act_dt blocking 0 m
runs_onednn-best unit call blocking = ground arith
