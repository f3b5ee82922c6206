-- ===== src/Variants.antt =====
-- The implementation variants: src/dispatch/variants.cpp and include/quixicore/xpu/variants.hpp.
-- Whether the build has oneDNN (QUIXICORE_XPU_HAS_ONEDNN) is the argument `onednn`.
use Prim.Native.String.{String}
use quixi_core_xpu.Common.{◌≡◌, ◌≢◌, Bool, true, if◌then◌else◌, arith}

-- enum class Variant
pub data Variant : Type 0 where
  sycl vendor best : Variant

unfoldable pub variant_name : Variant → String
variant_name sycl = "sycl"
variant_name vendor = "vendor"
variant_name best = "best"

unfoldable pub variant_available : Bool → Variant → Bool
variant_available onednn sycl = true
variant_available onednn vendor = onednn
variant_available onednn best = true

unfoldable pub resolve_variant : Bool → Variant → Variant
unfolding variant_available
resolve_variant onednn sycl = sycl
resolve_variant onednn vendor = if variant_available onednn vendor then vendor else sycl
resolve_variant onednn best = sycl

-- resolve_variant returns a variant that is compiled in, never `best`, and keeps a concrete one
-- that is available.
resolve_variant_lem :
    (onednn : Bool) (v : Variant)
    → (resolve_variant onednn v ≢ best)
      × (variant_available onednn (resolve_variant onednn v) ≡ true)
      × (v ≢ best → variant_available onednn v ≡ true → resolve_variant onednn v ≡ v)
unfolding resolve_variant
resolve_variant_lem onednn v = ground arith
