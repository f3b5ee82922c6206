-- ===== src/Dispatch/Ssm.antt =====
-- The ssm family: src/dispatch/ssm.cpp.
use quixi_core_xpu.Common.{ℕ, Bool}
use quixi_core_xpu.Common.Int.{ℤ}
use quixi_core_xpu.Runtime.{DType}
use quixi_core_xpu.Variants.{Variant}
use quixi_core_xpu.Dispatch.{Ptr, Float, Outcome, native}

-- The operations with their arguments.
pub data Op : Type 0 where
  selective_scan : Ptr → Ptr → Ptr → Ptr → Ptr → Ptr → Ptr → ℕ → ℕ → ℕ → DType → Op
  ssd_decode :
      Ptr
      → Ptr
      → Ptr
      → Ptr
      → Ptr
      → Ptr
      → Ptr
      → Ptr
      → Ptr
      → Ptr
      → Ptr
      → Bool
      → ℕ
      → ℕ
      → ℕ
      → ℕ
      → ℕ
      → ℕ
      → ℤ
      → ℤ
      → ℤ
      → ℤ
      → DType
      → DType
      → Op
  ssd_prefill :
      Ptr
      → Ptr
      → Ptr
      → Ptr
      → Ptr
      → Ptr
      → Ptr
      → Ptr
      → Ptr
      → Ptr
      → Ptr
      → Bool
      → Float
      → Float
      → ℕ
      → ℕ
      → ℕ
      → ℕ
      → ℕ
      → DType
      → DType
      → Op
  causal_conv1d_decode :
      Ptr → Ptr → Ptr → Ptr → Ptr → Ptr → Bool → ℕ → ℕ → ℕ → ℕ → ℕ → ℤ → ℤ → ℤ → DType → DType → Op
  causal_conv1d_prefill :
      Ptr
      → Ptr
      → Ptr
      → Ptr
      → Ptr
      → Ptr
      → Ptr
      → Ptr
      → Bool
      → ℕ
      → ℕ
      → ℕ
      → ℕ
      → ℕ
      → ℕ
      → ℤ
      → ℤ
      → ℤ
      → ℤ
      → ℤ
      → ℤ
      → ℤ
      → DType
      → DType
      → Op
  dsv4_hc_post : Ptr → Ptr → Ptr → Ptr → Ptr → ℕ → ℕ → ℕ → DType → Op

-- The kernels with theirs.
pub data Kernel : Type 0 where
  selective_scan_sycl : Ptr → Ptr → Ptr → Ptr → Ptr → Ptr → Ptr → ℕ → ℕ → ℕ → DType → Kernel
  ssd_decode_sycl :
      Ptr
      → Ptr
      → Ptr
      → Ptr
      → Ptr
      → Ptr
      → Ptr
      → Ptr
      → Ptr
      → Ptr
      → Ptr
      → Bool
      → ℕ
      → ℕ
      → ℕ
      → ℕ
      → ℕ
      → ℕ
      → ℤ
      → ℤ
      → ℤ
      → ℤ
      → DType
      → DType
      → Kernel
  ssd_prefill_sycl :
      Ptr
      → Ptr
      → Ptr
      → Ptr
      → Ptr
      → Ptr
      → Ptr
      → Ptr
      → Ptr
      → Ptr
      → Ptr
      → Bool
      → Float
      → Float
      → ℕ
      → ℕ
      → ℕ
      → ℕ
      → ℕ
      → DType
      → DType
      → Kernel
  causal_conv1d_decode_sycl :
      Ptr
      → Ptr
      → Ptr
      → Ptr
      → Ptr
      → Ptr
      → Bool
      → ℕ
      → ℕ
      → ℕ
      → ℕ
      → ℕ
      → ℤ
      → ℤ
      → ℤ
      → DType
      → DType
      → Kernel
  causal_conv1d_prefill_sycl :
      Ptr
      → Ptr
      → Ptr
      → Ptr
      → Ptr
      → Ptr
      → Ptr
      → Ptr
      → Bool
      → ℕ
      → ℕ
      → ℕ
      → ℕ
      → ℕ
      → ℕ
      → ℤ
      → ℤ
      → ℤ
      → ℤ
      → ℤ
      → ℤ
      → ℤ
      → DType
      → DType
      → Kernel
  dsv4_hc_post_sycl : Ptr → Ptr → Ptr → Ptr → Ptr → ℕ → ℕ → ℕ → DType → Kernel

unfoldable pub dispatch : Op → Variant → Bool → Outcome Kernel
dispatch (selective_scan u delta a b c d y n_chan seq state_dim dt) variant blocking =
    native blocking (selective_scan_sycl u delta a b c d y n_chan seq state_dim dt)
dispatch
      (ssd_decode state_dim x dt_raw a b c d dt_bias src_indices dst_indices out dt_softplus batch
        nheads headdim dstate ngroups nslots s0 s1 s2 s3 act_dt state_dt)
      variant blocking =
    native blocking (
      ssd_decode_sycl state_dim x dt_raw a b c d dt_bias src_indices dst_indices out dt_softplus
        batch nheads headdim dstate ngroups nslots s0 s1 s2 s3 act_dt state_dt)
dispatch
      (ssd_prefill x dt_raw a b c d dt_bias cu_seqlens initial_states out varlen_states dt_softplus
        dt_lo dt_hi batch nheads headdim dstate ngroups act_dt state_dt)
      variant blocking =
    native blocking (
      ssd_prefill_sycl x dt_raw a b c d dt_bias cu_seqlens initial_states out varlen_states
        dt_softplus dt_lo dt_hi batch nheads headdim dstate ngroups act_dt state_dt)
dispatch
      (causal_conv1d_decode conv_state x weight bias indices out with_silu batch dim state_len
        kernel nslots cs0 cs1 cs2 act_dt state_dt)
      variant blocking =
    native blocking (
      causal_conv1d_decode_sycl conv_state x weight bias indices out with_silu batch dim state_len
        kernel nslots cs0 cs1 cs2 act_dt state_dt)
dispatch
      (causal_conv1d_prefill conv_state x weight bias cu_seqlens indices has_init out with_silu
        total_tokens batch dim state_len kernel nslots xs0 xs1 os0 os1 cs0 cs1 cs2 act_dt state_dt)
      variant blocking =
    native blocking (
      causal_conv1d_prefill_sycl conv_state x weight bias cu_seqlens indices has_init out with_silu
        total_tokens batch dim state_len kernel nslots xs0 xs1 os0 os1 cs0 cs1 cs2 act_dt state_dt)
dispatch (dsv4_hc_post comb_res_mix residual post_mix x out tokens n_streams hidden dt) variant
      blocking =
    native blocking
      (dsv4_hc_post_sycl comb_res_mix residual post_mix x out tokens n_streams hidden dt)
