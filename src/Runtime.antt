-- ===== src/Runtime.antt =====
-- Devices and queues: src/runtime/runtime.cpp and include/quixicore/xpu/runtime.hpp.
-- SYCL's device list is the argument of the functions: a platform is whether its backend is Level
-- Zero, with its devices in the order in which it reports them.
pub mod Selection
mod Tests
use quixi_core_xpu.Common.{
  ℕ, ◌-◌, ◌≡◌, Bool, true, false, not, ◌&&◌, ◌||◌, List, [], ◌∷◌, length, ltb, ◌==◌, if◌then◌else◌,
  get_elem?, Option, none, some, min,
}
use Prim.Native.String.{String}

-- enum class DType
pub data DType : Type 0 where
  f32 f16 bf16 : DType

unfoldable pub dtype_size : DType → ℕ
dtype_size f32 = 4
dtype_size f16 = 2
dtype_size bf16 = 2

unfoldable pub dtype_name : DType → String
dtype_name f32 = "f32"
dtype_name f16 = "f16"
dtype_name bf16 = "bf16"

-- What the code reads of a sycl::device, and a handle that tells devices apart.
pub record Device : Type 0 where
  pub handle : ℕ
  pub is_gpu : Bool
  pub vendor_id : ℕ

pub record Platform : Type 0 where
  pub level_zero : Bool
  pub devices : List Device

abbrev pub intel_vendor : ℕ
intel_vendor = 0x8086

-- device.is_gpu() && vendor_id == 0x8086
abbrev pub is_intel_gpu : Device → Bool
is_intel_gpu d = d.is_gpu && d.vendor_id == intel_vendor

-- The inner loop of gpu_devices: the platform's Intel GPUs, in order.
unfoldable pub platform_devices : List Device → List Device
platform_devices [] = []
platform_devices (d ∷ ds) = if is_intel_gpu d then d ∷ platform_devices ds else platform_devices ds

-- The locals of gpu_devices.
pub record Selected : Type 0 where
  pub devices : List Device
  pub selected_level_zero : Bool

-- The test of the outer loop of gpu_devices: more devices, or as many and the first Level Zero.
abbrev pub is_better : Selected → Platform → Bool
is_better s p =
    let found = platform_devices p.devices in
    ltb (length s.devices) (length found)
    || (length found == length s.devices && (p.level_zero && not s.selected_level_zero))

-- One round of the outer loop of gpu_devices.
unfoldable pub consider : Selected → Platform → Selected
consider s p =
    if is_better s p
    then record { devices = platform_devices p.devices; selected_level_zero = p.level_zero }
    else s

unfoldable pub consider_all : Selected → List Platform → Selected
consider_all s [] = s
consider_all s (p ∷ ps) = consider_all (consider s p) ps

abbrev pub nothing_selected : Selected
nothing_selected = record { devices = []; selected_level_zero = false }

unfoldable pub gpu_devices : List Platform → List Device
unfolding consider_all consider platform_devices
gpu_devices ps = (consider_all nothing_selected ps).devices

-- A queue that make_gpu_queue builds: every one is in order.
pub record Queue : Type 0 where
  pub device : Device
  pub in_order : Bool
  pub profiling : Bool

-- `no_gpu` is the std::runtime_error; `out_of_range` would be an access of `devices` past its end.
pub data QueueResult : Type 0 where
  made : Queue → QueueResult
  no_gpu out_of_range : QueueResult

abbrev pub queue_for : Option Device → Bool → QueueResult
queue_for none profiling = out_of_range
queue_for (some d) profiling = made (record { device = d; in_order = true; profiling = profiling })

unfoldable pub make_gpu_queue : List Platform → ℕ → Bool → QueueResult
make_gpu_queue ps index enable_profiling =
    let devices = gpu_devices ps in
    let pick = min index (length devices - 1) in
    if length devices == 0 then no_gpu else queue_for (get_elem? devices pick) enable_profiling
