-- ===== src/Dispatch/Serving.antt =====
-- The serving family: src/dispatch/serving.cpp.
use quixi_core_xpu.Common.{ℕ, Bool, ◌==◌, ◌||◌, if◌then◌else◌, []}
use quixi_core_xpu.Runtime.{DType}
use quixi_core_xpu.Variants.{Variant}
use quixi_core_xpu.Dispatch.{Ptr, Float, Outcome, failed, native}
use quixi_core_xpu.Serving.{KvCacheDType, fp8_flag}

-- The operations with their arguments.
pub data Op : Type 0 where
  embedding_lookup : Ptr → Ptr → Ptr → ℕ → ℕ → DType → Op
  kv_cache_scatter : Ptr → Ptr → Ptr → ℕ → ℕ → DType → Op
  kv_cache_gather : Ptr → Ptr → Ptr → ℕ → ℕ → DType → Op
  pool_mean_rms_l2 : Ptr → Ptr → Ptr → Ptr → ℕ → ℕ → Float → DType → Op
  mqa_logits : Ptr → Ptr → Ptr → Ptr → Ptr → Ptr → Ptr → ℕ → ℕ → ℕ → ℕ → Op
  kv_cache_scatter_paged :
      Ptr → Ptr → Ptr → Ptr → Ptr → ℕ → ℕ → ℕ → ℕ → ℕ → Ptr → Ptr → KvCacheDType → DType → Op
  kv_cache_gather_paged :
      Ptr → Ptr → Ptr → Ptr → Ptr → ℕ → ℕ → ℕ → ℕ → ℕ → Ptr → Ptr → KvCacheDType → DType → Op

-- The kernels with theirs.
pub data Kernel : Type 0 where
  embedding_lookup_sycl : Ptr → Ptr → Ptr → ℕ → ℕ → DType → Kernel
  kv_cache_scatter_sycl : Ptr → Ptr → Ptr → ℕ → ℕ → DType → Kernel
  kv_cache_gather_sycl : Ptr → Ptr → Ptr → ℕ → ℕ → DType → Kernel
  pool_mean_rms_l2_sycl : Ptr → Ptr → Ptr → Ptr → ℕ → ℕ → Float → DType → Kernel
  mqa_logits_sycl : Ptr → Ptr → Ptr → Ptr → Ptr → Ptr → Ptr → ℕ → ℕ → ℕ → ℕ → Kernel
  kv_cache_scatter_paged_sycl :
      Ptr → Ptr → Ptr → Ptr → Ptr → ℕ → ℕ → ℕ → ℕ → ℕ → Ptr → Ptr → ℕ → DType → Kernel
  kv_cache_gather_paged_sycl :
      Ptr → Ptr → Ptr → Ptr → Ptr → ℕ → ℕ → ℕ → ℕ → ℕ → Ptr → Ptr → ℕ → DType → Kernel

-- The cases of pool_by_dim; its default throws std::invalid_argument. The throw after the switch on
-- the type is for a value that is no enumerator.
unfoldable pub has_pool_dim : ℕ → Bool
has_pool_dim dim = dim == 256 || dim == 512 || dim == 768 || dim == 1024

unfoldable pub dispatch : Op → Variant → Bool → Outcome Kernel
unfolding has_pool_dim
dispatch (embedding_lookup table ids out n dim dt) variant blocking =
    native blocking (embedding_lookup_sycl table ids out n dim dt)
dispatch (kv_cache_scatter cache src slots n row dt) variant blocking =
    native blocking (kv_cache_scatter_sycl cache src slots n row dt)
dispatch (kv_cache_gather cache idx out n row dt) variant blocking =
    native blocking (kv_cache_gather_sycl cache idx out n row dt)
dispatch (pool_mean_rms_l2 x weight offsets out batch dim eps dt) variant blocking =
    if has_pool_dim dim
    then native blocking (pool_mean_rms_l2_sycl x weight offsets out batch dim eps dt)
    else failed []
dispatch (mqa_logits q_fp8 kv_fp8 kv_scales head_weights ks ke logits s h d skv) variant blocking =
    native blocking (mqa_logits_sycl q_fp8 kv_fp8 kv_scales head_weights ks ke logits s h d skv)
dispatch
      (kv_cache_scatter_paged key value k_cache v_cache slot_mapping n_tokens n_kv_heads d page_size
        page_stride_elems k_scale v_scale kv_dt dt)
      variant blocking =
    native blocking (
      kv_cache_scatter_paged_sycl key value k_cache v_cache slot_mapping n_tokens n_kv_heads d
        page_size page_stride_elems k_scale v_scale (if fp8_flag kv_dt then 1 else 0) dt)
dispatch
      (kv_cache_gather_paged k_cache v_cache k_out v_out slots n n_kv_heads d page_size
        page_stride_elems k_scale v_scale kv_dt dt)
      variant blocking =
    native blocking (
      kv_cache_gather_paged_sycl k_cache v_cache k_out v_out slots n n_kv_heads d page_size
        page_stride_elems k_scale v_scale (if fp8_flag kv_dt then 1 else 0) dt)
