-- ===== src/Dispatch/Routing.antt =====
-- The whole operation surface: a call of any family, and what every dispatcher promises of it.
use quixi_core_xpu.Common.{
  ℕ, zero, suc, ◌+◌, ◌++◌, refl, List, [], ◌∷◌, ◌≡◌, Bool, true, false, not, ◌&&◌, if◌then◌else◌,
  ltb, arith,
}
use quixi_core_xpu.Variants.{Variant}
use quixi_core_xpu.Runtime.{DType}
use quixi_core_xpu.Dispatch.{
  Ptr, Float, Action, wait, finish, Outcome, actions, returns, submitted, pending, idle, lost,
  is_lost, any,
}
use quixi_core_xpu.Dispatch.Activations
use quixi_core_xpu.Dispatch.Attention
use quixi_core_xpu.Dispatch.LinearAttention
use quixi_core_xpu.Dispatch.Matmul
use quixi_core_xpu.Dispatch.Moe
use quixi_core_xpu.Dispatch.Norms
use quixi_core_xpu.Dispatch.Optimizers
use quixi_core_xpu.Dispatch.Quantization
use quixi_core_xpu.Dispatch.Sampling
use quixi_core_xpu.Dispatch.Serving
use quixi_core_xpu.Dispatch.Ssm
use quixi_core_xpu.Dispatch.Utils

-- The kernels that are oneDNN primitives.
abbrev pub activations_onednn : Activations.Kernel → Bool
activations_onednn (Activations.gelu_onednn _ _ _ _ _) = true
activations_onednn (Activations.softmax_onednn _ _ _ _ _) = true
activations_onednn _ = false

abbrev pub matmul_onednn : Matmul.Kernel → Bool
matmul_onednn (Matmul.dense_gemm_onednn _ _ _ _ _ _ _) = true
matmul_onednn _ = false

abbrev pub norms_onednn : Norms.Kernel → Bool
norms_onednn (Norms.layernorm_onednn _ _ _ _ _ _ _ _) = true
norms_onednn _ = false

abbrev pub quantization_onednn : Quantization.Kernel → Bool
quantization_onednn (Quantization.fp8_gemm_onednn _ _ _ _ _ _ _ _ _) = true
quantization_onednn (Quantization.fp8_gemm_w8a16_onednn _ _ _ _ _ _ _ _ _ _) = true
quantization_onednn (Quantization.fp8_from_f32 _ _ _ _) = true
quantization_onednn (Quantization.fp8_to_f32 _ _ _ _) = true
quantization_onednn (Quantization.qgemm_int8_onednn _ _ _ _ _ _ _ _ _) = true
quantization_onednn _ = false

abbrev pub moe_onednn : Moe.Kernel → Bool
moe_onednn (Moe.activation k) = activations_onednn k
moe_onednn _ = false

abbrev pub native_only : {K : Type 0} → K → Bool
native_only k = false

-- What the operations take of their surroundings: whether the build has oneDNN, what oneDNN
-- supports, and the host's float arithmetic.
pub record Host : Type 0 where
  pub onednn : Bool
  pub accepts : Quantization.Kernel → Bool
  pub arith_unit : Optimizers.FloatArith

-- A call of an operation of one of the families.
pub data Call : Type 0 where
  activations : Activations.Op → Call
  attention : Attention.Op → Call
  linear_attention : LinearAttention.Op → Call
  matmul : Matmul.Op → Call
  moe : Moe.Op → Call
  norms : Norms.Op → Call
  optimizers : Optimizers.Op → Call
  quantization : Quantization.Op → Call
  sampling : Sampling.Op → Call
  serving : Serving.Op → Call
  ssm : Ssm.Op → Call
  utils : Utils.Op → Call

-- What is promised of a dispatcher, as a function of `blocking`: blocking or not, the same kernels
-- run in the same order, and the call returns or throws alike; work is lost, blocking or not,
-- exactly if the call is unchained, and any other leaves the queue idle when it blocks; and a
-- oneDNN primitive is used only by a build that has oneDNN.
abbrev pub IsRouted : {K : Type 0} → (K → Bool) → Bool → Bool → (Bool → Outcome K) → Type 0
IsRouted is_onednn unchained onednn dispatched =
    (submitted (actions (dispatched true)) ≡ submitted (actions (dispatched false)))
    × (returns (dispatched true) ≡ returns (dispatched false))
    × (pending idle (actions (dispatched true)) ≡ (if unchained then lost else idle))
    × (is_lost (pending idle (actions (dispatched false))) ≡ unchained)
    × (any is_onednn (submitted (actions (dispatched true))) && not onednn ≡ false)

-- The one operation that submits kernels no one of which depends on another, and keeps the event of
-- the last alone: nvfp4_gemm of several rows.
abbrev pub is_unchained : Quantization.Op → Bool
is_unchained (Quantization.nvfp4_gemm _ _ _ _ _ m _ _ _) = ltb 1 m
is_unchained _ = false

abbrev pub IsRoutedCall : Host → Call → Variant → Type 0
IsRoutedCall h (activations op) v =
    IsRouted activations_onednn false h.onednn
      (λ blocking. Activations.dispatch h.onednn op v blocking)
IsRoutedCall h (attention op) v =
    IsRouted native_only false h.onednn (λ blocking. Attention.dispatch op v blocking)
IsRoutedCall h (linear_attention op) v =
    IsRouted native_only false h.onednn (λ blocking. LinearAttention.dispatch op v blocking)
IsRoutedCall h (matmul op) v =
    IsRouted matmul_onednn false h.onednn (λ blocking. Matmul.dispatch h.onednn op v blocking)
IsRoutedCall h (moe op) v =
    IsRouted moe_onednn false h.onednn (λ blocking. Moe.dispatch h.onednn op v blocking)
IsRoutedCall h (norms op) v =
    IsRouted norms_onednn false h.onednn (λ blocking. Norms.dispatch h.onednn op v blocking)
IsRoutedCall h (optimizers op) v =
    IsRouted native_only false h.onednn (λ blocking. Optimizers.dispatch h.arith_unit op v blocking)
IsRoutedCall h (quantization op) v =
    IsRouted quantization_onednn (is_unchained op) h.onednn
      (λ blocking. Quantization.dispatch h.onednn h.accepts op v blocking)
IsRoutedCall h (sampling op) v =
    IsRouted native_only false h.onednn (λ blocking. Sampling.dispatch op v blocking)
IsRoutedCall h (serving op) v =
    IsRouted native_only false h.onednn (λ blocking. Serving.dispatch op v blocking)
IsRoutedCall h (ssm op) v =
    IsRouted native_only false h.onednn (λ blocking. Ssm.dispatch op v blocking)
IsRoutedCall h (utils op) v =
    IsRouted native_only false h.onednn (λ blocking. Utils.dispatch op v blocking)

pending-lost : {K : Type 0} (done : List (Action K)) → pending lost done ≡ lost
pending-lost [] = refl
pending-lost (a ∷ done) = pending-lost done

activations_routed :
    (h : Host) (op : Activations.Op) (v : Variant) → IsRoutedCall h (activations op) v
unfolding Activations.dispatch
activations_routed h op v = ground arith

attention_routed : (h : Host) (op : Attention.Op) (v : Variant) → IsRoutedCall h (attention op) v
unfolding Attention.dispatch
attention_routed h op v = ground arith

linear_attention_routed :
    (h : Host) (op : LinearAttention.Op) (v : Variant) → IsRoutedCall h (linear_attention op) v
unfolding LinearAttention.dispatch
linear_attention_routed h op v = ground arith

matmul_routed : (h : Host) (op : Matmul.Op) (v : Variant) → IsRoutedCall h (matmul op) v
unfolding Matmul.dispatch
matmul_routed h op v = ground arith

moe_routed : (h : Host) (op : Moe.Op) (v : Variant) → IsRoutedCall h (moe op) v
unfolding Moe.dispatch Activations.dispatch
moe_routed h op v = ground arith

norms_routed : (h : Host) (op : Norms.Op) (v : Variant) → IsRoutedCall h (norms op) v
unfolding Norms.dispatch
norms_routed h op v = ground arith

optimizers_routed : (h : Host) (op : Optimizers.Op) (v : Variant) → IsRoutedCall h (optimizers op) v
unfolding Optimizers.dispatch
optimizers_routed h op v = ground arith

module _ (w_packed block_scales : Ptr) (global_scale : Float) (x y : Ptr) (n k : ℕ)
    (act_dt : DType) where
  abbrev pub rows : ℕ → ℕ → List (Action Quantization.Kernel)
  rows row rest = Quantization.nvfp4_rows w_packed block_scales global_scale x y n k act_dt row rest

  rows-submitted :
      (row rest : ℕ) → submitted (rows row rest ++ (wait ∷ [])) ≡ submitted (rows row rest ++ [])
  unfolding Quantization.nvfp4_rows
  rows-submitted row zero = refl
  rows-submitted row (suc rest) = ground (arith, rows-submitted (row + 1) rest)

  pub rows-native :
      (blocking : Bool) (row rest : ℕ)
      → any quantization_onednn (submitted (rows row rest ++ finish blocking)) ≡ false
  unfolding Quantization.nvfp4_rows
  rows-native blocking row zero = ground arith
  rows-native blocking row (suc rest) = rows-native blocking (row + 1) rest

  -- Rows after the first are submitted over the one before.
  rows-pending :
      (m : ℕ)
      → (pending idle (rows 0 m ++ (wait ∷ [])) ≡ (if ltb 1 m then lost else idle))
        × (is_lost (pending idle (rows 0 m ++ [])) ≡ ltb 1 m)
  unfolding Quantization.nvfp4_rows
  rows-pending zero = (refl, refl)
  rows-pending (suc zero) = (refl, refl)
  rows-pending (suc (suc rest)) =
      ground (arith, pending-lost (rows 2 rest ++ (wait ∷ [])), pending-lost (rows 2 rest ++ []))

  nvfp4_gemm_routed :
      (h : Host) (m : ℕ) (v : Variant)
      → IsRoutedCall h
          (quantization
            (Quantization.nvfp4_gemm w_packed block_scales global_scale x y m n k act_dt))
          v
  unfolding Quantization.dispatch
  nvfp4_gemm_routed h m v = ground (arith, rows-submitted 0 m, rows-native true 0 m, rows-pending m)

quantization_routed :
    (h : Host) (op : Quantization.Op) (v : Variant) → IsRoutedCall h (quantization op) v
unfolding Quantization.dispatch
quantization_routed h (Quantization.nvfp4_gemm w_packed block_scales global_scale x y m n k act_dt)
      v =
    nvfp4_gemm_routed w_packed block_scales global_scale x y n k act_dt h m v
quantization_routed h op v = ground arith

sampling_routed : (h : Host) (op : Sampling.Op) (v : Variant) → IsRoutedCall h (sampling op) v
unfolding Sampling.dispatch
sampling_routed h op v = ground arith

serving_routed : (h : Host) (op : Serving.Op) (v : Variant) → IsRoutedCall h (serving op) v
unfolding Serving.dispatch Serving.has_pool_dim
serving_routed h op v = ground arith

ssm_routed : (h : Host) (op : Ssm.Op) (v : Variant) → IsRoutedCall h (ssm op) v
unfolding Ssm.dispatch
ssm_routed h op v = ground arith

utils_routed : (h : Host) (op : Utils.Op) (v : Variant) → IsRoutedCall h (utils op) v
unfolding Utils.dispatch
utils_routed h op v = ground arith

-- Every operation of every family is dispatched as promised, whatever the variant, the build and
-- what oneDNN supports: blocking or not, the same kernels run in the same order and the call
-- returns or throws alike; no kernel is submitted over work that the call does not wait for, and a
-- blocking call leaves the queue idle, except that nvfp4_gemm of more than one row always leaves
-- rows behind on an out-of-order queue; and a oneDNN primitive runs only in a build that has oneDNN.
pub dispatch-IsRouted : (h : Host) (call : Call) (v : Variant) → IsRoutedCall h call v
dispatch-IsRouted h (activations op) v = activations_routed h op v
dispatch-IsRouted h (attention op) v = attention_routed h op v
dispatch-IsRouted h (linear_attention op) v = linear_attention_routed h op v
dispatch-IsRouted h (matmul op) v = matmul_routed h op v
dispatch-IsRouted h (moe op) v = moe_routed h op v
dispatch-IsRouted h (norms op) v = norms_routed h op v
dispatch-IsRouted h (optimizers op) v = optimizers_routed h op v
dispatch-IsRouted h (quantization op) v = quantization_routed h op v
dispatch-IsRouted h (sampling op) v = sampling_routed h op v
dispatch-IsRouted h (serving op) v = serving_routed h op v
dispatch-IsRouted h (ssm op) v = ssm_routed h op v
dispatch-IsRouted h (utils op) v = utils_routed h op v
