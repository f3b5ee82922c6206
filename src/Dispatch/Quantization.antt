-- ===== src/Dispatch/Quantization.antt =====
-- The quantization family: src/dispatch/quantization.cpp.
use quixi_core_xpu.Common.{
  ℕ, zero, suc, ◌+◌, ◌*◌, ◌++◌, List, Bool, true, false, not, ◌==◌, ◌&&◌, ◌||◌, ltb, if◌then◌else◌,
  ◌∷◌, [],
}
use quixi_core_xpu.Common.Int.{ℤ}
use quixi_core_xpu.Runtime.{DType, dtype_size}
use quixi_core_xpu.Variants.{Variant, vendor, best, resolve_variant}
use quixi_core_xpu.Dispatch.{
  Ptr, Float, Action, Outcome, launch, execute, completed, failed, finish, native,
}
use quixi_core_xpu.Dispatch.Matmul.{gemm_variant}

-- enum class Fp8Kind
pub data Fp8Kind : Type 0 where
  e4m3 e5m2 : Fp8Kind

-- enum class GgufType
pub data GgufType : Type 0 where
  q8_0 q4_0 q6_k q4_k q5_k q2_k q3_k iq4_nl q4_1 q5_0 q5_1 iq4_xs iq2_xxs iq2_xs iq3_xxs iq1_s :
      GgufType

-- static_cast<int>
unfoldable pub fp8_kind_code : Fp8Kind → ℕ
fp8_kind_code e4m3 = 0
fp8_kind_code e5m2 = 1

-- static_cast<int>
unfoldable pub gguf_type_code : GgufType → ℕ
gguf_type_code q8_0 = 0
gguf_type_code q4_0 = 1
gguf_type_code q6_k = 2
gguf_type_code q4_k = 3
gguf_type_code q5_k = 4
gguf_type_code q2_k = 5
gguf_type_code q3_k = 6
gguf_type_code iq4_nl = 7
gguf_type_code q4_1 = 8
gguf_type_code q5_0 = 9
gguf_type_code q5_1 = 10
gguf_type_code iq4_xs = 11
gguf_type_code iq2_xxs = 12
gguf_type_code iq2_xs = 13
gguf_type_code iq3_xxs = 14
gguf_type_code iq1_s = 15

-- The operations with their arguments.
pub data Op : Type 0 where
  gguf_gemv : Ptr → Ptr → Ptr → ℕ → ℕ → GgufType → DType → Op
  mxfp4_gemv : Ptr → Ptr → Ptr → Ptr → ℕ → ℕ → DType → Op
  nvfp4_gemv : Ptr → Ptr → Float → Ptr → Ptr → ℕ → ℕ → DType → Op
  nvfp4_gemm : Ptr → Ptr → Float → Ptr → Ptr → ℕ → ℕ → ℕ → DType → Op
  quantize_int4_group : Ptr → Ptr → Ptr → ℕ → ℕ → ℕ → DType → Op
  act_quant_int8 : Ptr → Ptr → Ptr → ℕ → ℕ → DType → Op
  fp8_gemm : Ptr → Ptr → Ptr → ℕ → ℕ → ℕ → Fp8Kind → Float → DType → Op
  fp8_gemm_w8a16 : Ptr → Ptr → Ptr → Ptr → ℕ → ℕ → ℕ → Fp8Kind → Bool → DType → Op
  fp8_encode : Ptr → Ptr → ℕ → Fp8Kind → Op
  fp8_decode : Ptr → Ptr → ℕ → Fp8Kind → Op
  qgemv_int4 : Ptr → Ptr → Ptr → Ptr → ℕ → ℕ → ℕ → DType → Op
  w4a16_gemm : Ptr → Ptr → Ptr → Ptr → ℕ → ℕ → ℕ → ℕ → DType → Op
  qgemm_int8 : Ptr → Ptr → Ptr → Ptr → Ptr → ℕ → ℕ → ℕ → DType → Op
  turboquant_encode :
      Ptr
      → Ptr
      → Ptr
      → Ptr
      → Ptr
      → Ptr
      → Ptr
      → Ptr
      → Ptr
      → Ptr
      → ℕ
      → ℕ
      → ℕ
      → ℤ
      → ℤ
      → Bool
      → DType
      → Op
  turboquant_decode :
      Ptr → Ptr → Ptr → Ptr → Ptr → Ptr → Ptr → Ptr → Ptr → Ptr → ℕ → ℕ → ℕ → ℤ → ℤ → Bool → Op

-- The kernels with theirs.
pub data Kernel : Type 0 where
  gguf_gemv_sycl : Ptr → Ptr → Ptr → ℕ → ℕ → ℕ → DType → Kernel
  mxfp4_gemv_sycl : Ptr → Ptr → Ptr → Ptr → ℕ → ℕ → DType → Kernel
  nvfp4_gemv_sycl : Ptr → Ptr → Float → Ptr → Ptr → ℕ → ℕ → DType → Kernel
  quantize_int4_group_sycl : Ptr → Ptr → Ptr → ℕ → ℕ → ℕ → DType → Kernel
  act_quant_int8_sycl : Ptr → Ptr → Ptr → ℕ → ℕ → DType → Kernel
  qgemv_int4_sycl : Ptr → Ptr → Ptr → Ptr → ℕ → ℕ → ℕ → DType → Kernel
  w4a16_gemm_sycl : Ptr → Ptr → Ptr → Ptr → ℕ → ℕ → ℕ → ℕ → DType → Kernel
  turboquant_encode_sycl :
      Ptr
      → Ptr
      → Ptr
      → Ptr
      → Ptr
      → Ptr
      → Ptr
      → Ptr
      → Ptr
      → Ptr
      → ℕ
      → ℕ
      → ℕ
      → ℤ
      → ℤ
      → ℕ
      → DType
      → Kernel
  turboquant_decode_sycl :
      Ptr → Ptr → Ptr → Ptr → Ptr → Ptr → Ptr → Ptr → Ptr → Ptr → ℕ → ℕ → ℕ → ℤ → ℤ → ℕ → Kernel
  fp8_gemv_sycl : Ptr → Ptr → Ptr → ℕ → ℕ → ℕ → Float → DType → Kernel
  fp8_gemm_onednn : Ptr → Ptr → Ptr → ℕ → ℕ → ℕ → ℕ → Float → DType → Kernel
  fp8_gemm_w8a16_onednn : Ptr → Ptr → Ptr → Bool → Ptr → ℕ → ℕ → ℕ → ℕ → DType → Kernel
  fp8_gemm_w8a16_sycl : Ptr → Ptr → Ptr → Bool → Ptr → ℕ → ℕ → ℕ → ℕ → DType → Kernel
  fp8_from_f32 : Ptr → Ptr → ℕ → ℕ → Kernel
  fp8_to_f32 : Ptr → Ptr → ℕ → ℕ → Kernel
  qgemm_int8_onednn : Ptr → Ptr → Ptr → Ptr → Ptr → ℕ → ℕ → ℕ → DType → Kernel
  qgemm_int8_sycl : Ptr → Ptr → Ptr → Ptr → Ptr → ℕ → ℕ → ℕ → DType → Kernel

unfoldable pub is_vendor : Variant → Bool
is_vendor vendor = true
is_vendor _ = false

unfoldable pub is_best : Variant → Bool
is_best best = true
is_best _ = false

-- The loop of nvfp4_gemm_sycl from row `row` on, `rest` rows left: it submits the kernel of
-- nvfp4_gemv_sycl for one row of x and y, and none of these depends on the one before.
unfoldable pub nvfp4_rows :
    Ptr → Ptr → Float → Ptr → Ptr → ℕ → ℕ → DType → ℕ → ℕ → List (Action Kernel)
nvfp4_rows w_packed block_scales global_scale x y n k act_dt row zero = []
nvfp4_rows w_packed block_scales global_scale x y n k act_dt row (suc rest) =
    launch (
      nvfp4_gemv_sycl w_packed block_scales global_scale (x + row * k * dtype_size act_dt)
        (y + row * n * dtype_size act_dt) n k act_dt)
    ∷ nvfp4_rows w_packed block_scales global_scale x y n k act_dt (row + 1) rest

-- `accepts` tells whether oneDNN supports a call on this device.
unfoldable pub dispatch : Bool → (Kernel → Bool) → Op → Variant → Bool → Outcome Kernel
unfolding nvfp4_rows
dispatch onednn accepts (gguf_gemv w_blocks x y n k block_type act_dt) variant blocking =
    native blocking (gguf_gemv_sycl w_blocks x y n k (gguf_type_code block_type) act_dt)
dispatch onednn accepts (mxfp4_gemv w_packed block_scales x y n k act_dt) variant blocking =
    native blocking (mxfp4_gemv_sycl w_packed block_scales x y n k act_dt)
dispatch onednn accepts (nvfp4_gemv w_packed block_scales global_scale x y n k act_dt) variant
      blocking =
    native blocking (nvfp4_gemv_sycl w_packed block_scales global_scale x y n k act_dt)
dispatch onednn accepts (nvfp4_gemm w_packed block_scales global_scale x y m n k act_dt) variant
      blocking =
    completed (nvfp4_rows w_packed block_scales global_scale x y n k act_dt 0 m ++ finish blocking)
dispatch onednn accepts (quantize_int4_group w w_packed scales n k group dt) variant blocking =
    native blocking (quantize_int4_group_sycl w w_packed scales n k group dt)
dispatch onednn accepts (act_quant_int8 x q_out scale rows dim dt) variant blocking =
    native blocking (act_quant_int8_sycl x q_out scale rows dim dt)
dispatch onednn accepts (fp8_gemm a_fp8 b_fp8 c m n k kind scale out_dt) variant blocking =
    let gemv = fp8_gemv_sycl a_fp8 b_fp8 c n k (fp8_kind_code kind) scale out_dt in
    let gemm = fp8_gemm_onednn a_fp8 b_fp8 c m n k (fp8_kind_code kind) scale out_dt in
    if m == 1 && not (is_vendor variant)
    then native blocking gemv
    else if onednn
    then (if accepts gemm then completed (execute gemm ∷ []) else failed [])
    else failed []
dispatch onednn accepts
      (fp8_gemm_w8a16 activations weight_fp8 weight_scale out m n k kind per_channel act_dt) variant
      blocking =
    let gemm =
      fp8_gemm_w8a16_onednn activations weight_fp8 weight_scale per_channel out m n k
        (fp8_kind_code kind) act_dt in
    let native_gemm =
      fp8_gemm_w8a16_sycl activations weight_fp8 weight_scale per_channel out m n k
        (fp8_kind_code kind) act_dt in
    if (is_vendor variant || (is_best variant && ltb 1 m)) && (onednn && accepts gemm)
    then completed (execute gemm ∷ [])
    else native blocking native_gemm
dispatch onednn accepts (fp8_encode src out_fp8 n kind) variant blocking =
    if onednn
    then completed (execute (fp8_from_f32 src out_fp8 n (fp8_kind_code kind)) ∷ [])
    else failed []
dispatch onednn accepts (fp8_decode in_fp8 out n kind) variant blocking =
    if onednn
    then completed (execute (fp8_to_f32 in_fp8 out n (fp8_kind_code kind)) ∷ [])
    else failed []
dispatch onednn accepts (qgemv_int4 w_packed scales x y n k group act_dt) variant blocking =
    native blocking (qgemv_int4_sycl w_packed scales x y n k group act_dt)
dispatch onednn accepts (w4a16_gemm a w_packed scales c m n k group act_dt) variant blocking =
    native blocking (w4a16_gemm_sycl a w_packed scales c m n k group act_dt)
dispatch onednn accepts (qgemm_int8 a_int8 b_int8 a_scale b_scale c m n k out_dt) variant blocking =
    native blocking (elim (resolve_variant onednn (gemm_variant onednn variant)) [
      | vendor ↦
          if onednn
          then qgemm_int8_onednn a_int8 b_int8 a_scale b_scale c m n k out_dt
          else qgemm_int8_sycl a_int8 b_int8 a_scale b_scale c m n k out_dt
      | _ ↦ qgemm_int8_sycl a_int8 b_int8 a_scale b_scale c m n k out_dt
    ])
dispatch onednn accepts
      (turboquant_encode key value key_cache value_cache key_scale_cache value_scale_cache
        value_zero_cache slot_mapping centroids signs num_tokens num_kv_heads head_size key_bits
        value_bits value_signed dt)
      variant blocking =
    native blocking (
      turboquant_encode_sycl key value key_cache value_cache key_scale_cache value_scale_cache
        value_zero_cache slot_mapping centroids signs num_tokens num_kv_heads head_size key_bits
        value_bits (if value_signed then 1 else 0) dt)
dispatch onednn accepts
      (turboquant_decode key_cache value_cache key_scale_cache value_scale_cache value_zero_cache
        slots centroids signs k_out v_out num_slots num_kv_heads head_size key_bits value_bits
        value_signed)
      variant blocking =
    native blocking (
      turboquant_decode_sycl key_cache value_cache key_scale_cache value_scale_cache
        value_zero_cache slots centroids signs k_out v_out num_slots num_kv_heads head_size key_bits
        value_bits (if value_signed then 1 else 0))
