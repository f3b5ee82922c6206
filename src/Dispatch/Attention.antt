-- ===== src/Dispatch/Attention.antt =====
-- The attention family: src/dispatch/attention.cpp.
use quixi_core_xpu.Common.{ℕ, Bool, if◌then◌else◌}
use quixi_core_xpu.Common.Int.{ℤ}
use quixi_core_xpu.Runtime.{DType}
use quixi_core_xpu.Variants.{Variant}
use quixi_core_xpu.Dispatch.{Ptr, Float, Outcome, native}
use quixi_core_xpu.Serving.{KvCacheDType, kv_cache_dtype_code}

-- The operations with their arguments.
pub data Op : Type 0 where
  attention : Ptr → Ptr → Ptr → Ptr → ℕ → ℕ → ℕ → ℕ → ℕ → Bool → DType → Op
  attention_f16ctx : Ptr → Ptr → Ptr → Ptr → Ptr → ℕ → ℕ → ℕ → ℕ → ℕ → Bool → DType → Op
  attn_swa : Ptr → Ptr → Ptr → Ptr → ℕ → ℕ → ℕ → ℕ → ℕ → ℕ → DType → Op
  rope : Ptr → Ptr → ℕ → ℕ → ℕ → Float → ℕ → DType → Op
  paged_attention_decode :
      Ptr
      → Ptr
      → Ptr
      → Ptr
      → Ptr
      → Ptr
      → Ptr
      → Ptr
      → Ptr
      → ℕ
      → ℕ
      → ℕ
      → ℕ
      → ℕ
      → ℕ
      → ℕ
      → ℤ
      → Float
      → ℤ
      → Ptr
      → Ptr
      → Ptr
      → DType
      → KvCacheDType
      → Op
  paged_attention_prefill :
      Ptr
      → Ptr
      → Ptr
      → Ptr
      → Ptr
      → Ptr
      → Ptr
      → Ptr
      → Ptr
      → ℕ
      → ℕ
      → ℕ
      → ℕ
      → ℕ
      → ℕ
      → ℕ
      → ℕ
      → ℕ
      → Float
      → Bool
      → ℤ
      → ℤ
      → Ptr
      → Ptr
      → Ptr
      → DType
      → KvCacheDType
      → Op
  mrope : Ptr → Ptr → Ptr → Ptr → Ptr → ℕ → ℕ → ℕ → ℕ → ℕ → ℕ → Bool → DType → Op
  rotary_positioned : Ptr → Ptr → Ptr → Ptr → ℕ → ℕ → ℕ → ℕ → ℕ → Bool → DType → Op
  merge_attn_states : Ptr → Ptr → Ptr → Ptr → Ptr → Ptr → ℕ → ℕ → DType → Op

-- The kernels with theirs.
pub data Kernel : Type 0 where
  attention_sycl : Ptr → Ptr → Ptr → Ptr → ℕ → ℕ → ℕ → ℕ → ℕ → Bool → DType → Kernel
  attention_f16ctx_sycl : Ptr → Ptr → Ptr → Ptr → Ptr → ℕ → ℕ → ℕ → ℕ → ℕ → Bool → DType → Kernel
  attn_swa_sycl : Ptr → Ptr → Ptr → Ptr → ℕ → ℕ → ℕ → ℕ → ℕ → ℕ → DType → Kernel
  rope_sycl : Ptr → Ptr → ℕ → ℕ → ℕ → Float → ℕ → DType → Kernel
  paged_attention_decode_sycl :
      Ptr
      → Ptr
      → Ptr
      → Ptr
      → Ptr
      → Ptr
      → Ptr
      → Ptr
      → Ptr
      → ℕ
      → ℕ
      → ℕ
      → ℕ
      → ℕ
      → ℕ
      → ℕ
      → ℤ
      → Float
      → ℤ
      → Ptr
      → Ptr
      → Ptr
      → DType
      → ℕ
      → Kernel
  paged_attention_prefill_sycl :
      Ptr
      → Ptr
      → Ptr
      → Ptr
      → Ptr
      → Ptr
      → Ptr
      → Ptr
      → Ptr
      → ℕ
      → ℕ
      → ℕ
      → ℕ
      → ℕ
      → ℕ
      → ℕ
      → ℕ
      → ℕ
      → Float
      → Bool
      → ℤ
      → ℤ
      → Ptr
      → Ptr
      → Ptr
      → DType
      → ℕ
      → Kernel
  mrope_sycl : Ptr → Ptr → Ptr → Ptr → Ptr → ℕ → ℕ → ℕ → ℕ → ℕ → ℕ → ℕ → DType → Kernel
  merge_attn_states_sycl : Ptr → Ptr → Ptr → Ptr → Ptr → Ptr → ℕ → ℕ → DType → Kernel

unfoldable pub dispatch : Op → Variant → Bool → Outcome Kernel
dispatch (attention q k v o n_heads n_kv_heads seq_q seq_k d causal dt) variant blocking =
    native blocking (attention_sycl q k v o n_heads n_kv_heads seq_q seq_k d causal dt)
dispatch (attention_f16ctx q k v o o_f16 n_heads n_kv_heads seq_q seq_k d causal dt) variant
      blocking =
    native blocking (attention_f16ctx_sycl q k v o o_f16 n_heads n_kv_heads seq_q seq_k d causal dt)
dispatch (attn_swa q k v o n_heads n_kv_heads seq_q seq_k d window dt) variant blocking =
    native blocking (attn_swa_sycl q k v o n_heads n_kv_heads seq_q seq_k d window dt)
dispatch (rope x out tokens n_heads head_dim base pos0 dt) variant blocking =
    native blocking (rope_sycl x out tokens n_heads head_dim base pos0 dt)
dispatch
      (paged_attention_decode q k_cache v_cache o tmp_out exp_sums max_logits block_table seq_lens
        batch n_heads n_kv_heads d page_size max_pages page_stride_elems num_kv_splits sm_scale
        window_left sinks k_scale v_scale dt kv_dt)
      variant blocking =
    native blocking (
      paged_attention_decode_sycl q k_cache v_cache o tmp_out exp_sums max_logits block_table
        seq_lens batch n_heads n_kv_heads d page_size max_pages page_stride_elems num_kv_splits
        sm_scale window_left sinks k_scale v_scale dt (kv_cache_dtype_code kv_dt))
dispatch
      (paged_attention_prefill q k_cache v_cache o lse block_table cu_seqlens_q cu_seqlens_k
        is_prefill total_q batch n_heads n_kv_heads d page_size max_pages page_stride_elems
        max_seqlen_k sm_scale causal window_left window_right sinks k_scale v_scale dt kv_dt)
      variant blocking =
    native blocking (
      paged_attention_prefill_sycl q k_cache v_cache o lse block_table cu_seqlens_q cu_seqlens_k
        is_prefill total_q batch n_heads n_kv_heads d page_size max_pages page_stride_elems
        max_seqlen_k sm_scale causal window_left window_right sinks k_scale v_scale dt
        (kv_cache_dtype_code kv_dt))
dispatch
      (mrope query key cos_sin_cache positions sections n_sections tokens n_heads n_kv_heads
        head_size rot_dim neox dt)
      variant blocking =
    native blocking (
      mrope_sycl query key cos_sin_cache positions sections n_sections tokens n_heads n_kv_heads
        head_size rot_dim (if neox then 1 else 0) dt)
dispatch
      (rotary_positioned query key cos_sin_cache positions tokens n_heads n_kv_heads head_size
        rot_dim neox dt)
      variant blocking =
    native blocking (
      mrope_sycl query key cos_sin_cache positions 0 1 tokens n_heads n_kv_heads head_size rot_dim
        (if neox then 1 else 0) dt)
dispatch (merge_attn_states out_a lse_a out_b lse_b out lse_out rows d dt) variant blocking =
    native blocking (merge_attn_states_sycl out_a lse_a out_b lse_b out lse_out rows d dt)
