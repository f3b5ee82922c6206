-- ===== src/Dispatch/Collectives.antt =====
-- The collectives family: src/dispatch/collectives.cpp.
use quixi_core_xpu.Common.{
  ℕ, Bool, true, ltb, ◌||◌, if◌then◌else◌, not, List, [], ◌∷◌, length, min, ◌==◌, ◌+◌, ◌*◌,
}
use quixi_core_xpu.Common.Int.{ℤ, pos, negsuc}
use quixi_core_xpu.Common.Launch.{Buffer}
use quixi_core_xpu.Runtime.{DType, Device, Platform}
use quixi_core_xpu.Variants.{Variant}
use quixi_core_xpu.Dispatch.{Ptr, Outcome, completed, native}
use quixi_core_xpu.Collectives.{SumUnit, rank_sum}

-- The device-side operation with its arguments.
pub data Op : Type 0 where
  all_reduce : Ptr → Ptr → Ptr → ℤ → ℤ → ℕ → DType → ℕ → Op

pub data Kernel : Type 0 where
  all_reduce_sycl : Ptr → Ptr → Ptr → ℤ → ℤ → ℕ → DType → ℕ → Kernel

-- kArMaxWorld
abbrev pub max_world : ℕ
max_world = 8

-- world < 2 || world > kArMaxWorld || rank < 0 || rank >= world
unfoldable pub is_rejected : ℤ → ℤ → Bool
is_rejected (pos rank) (pos world) = ltb world 2 || ltb max_world world || not (ltb rank world)
is_rejected (negsuc _) (pos world) = true
is_rejected _ (negsuc _) = true

unfoldable pub dispatch : Op → Variant → Bool → Outcome Kernel
unfolding is_rejected
dispatch (all_reduce inp out regions rank world numel dt twoshot_min_bytes) variant blocking =
    if is_rejected rank world
    then completed []
    else native blocking (all_reduce_sycl inp out regions rank world numel dt twoshot_min_bytes)

-- The GPUs of a platform, of any vendor.
unfoldable pub gpus : List Device → List Device
gpus [] = []
gpus (dev ∷ rest) = let others = gpus rest in if dev.is_gpu then dev ∷ others else others

-- The loop of all_reduce_sum over the platforms: the first list that no later one exceeds.
unfoldable pub most_gpus : List Device → List Platform → List Device
unfolding gpus
most_gpus devices [] = devices
most_gpus devices (p ∷ rest) =
    most_gpus (if ltb (length devices) (length (gpus p.devices)) then gpus p.devices else devices)
      rest

module _ {T : Type 0} (u : SumUnit T) where
  -- all_reduce_sum: the number of GPUs used, and what `out` holds afterwards. Each rank stages
  -- its part of the host buffer, and rank 0's result is copied back.
  unfoldable pub all_reduce_sum : List Platform → Buffer T → ℕ → Buffer T → ℕ × Buffer T
  unfolding most_gpus
  all_reduce_sum platforms in_per_gpu count out =
      let ng = min (length (most_gpus [] platforms)) max_world in
      let result : Buffer T = λ i. rank_sum u (λ g j. in_per_gpu (g * count + j)) ng i in
      if ng == 0
      then (0, out)
      else if ng == 1
      then (1, λ i. if ltb i count then in_per_gpu i else out i)
      else (ng, λ i. if ltb i count then result i else out i)
