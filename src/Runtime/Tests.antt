-- ===== src/Runtime/Tests.antt =====
-- A machine with an OpenCL alias of two GPUs, the Level Zero platform of the same two, and a CPU.
use quixi_core_xpu.Common.{
  ℕ, ◌-◌, ◌≤◌, ◌≡◌, refl, ◌⊎◌, true, false, List, [], ◌∷◌, length, Occurs, get_elem?, some, min,
}
use quixi_core_xpu.Runtime.{
  Device, Platform, gpu_devices, make_gpu_queue, made, no_gpu, intel_vendor,
}
use quixi_core_xpu.Runtime.Selection.{
  AreIntelGpus, FromBestPlatform, gpu_devices-best, make_gpu_queue_lem,
}

abbrev arc : ℕ → Device
arc h = record { handle = h; is_gpu = true; vendor_id = intel_vendor }

abbrev cpu : Device
cpu = record { handle = 9; is_gpu = false; vendor_id = intel_vendor }

abbrev opencl : Platform
opencl = record { level_zero = false; devices = arc 1 ∷ cpu ∷ arc 2 ∷ [] }

abbrev level_zero : Platform
level_zero = record { level_zero = true; devices = arc 3 ∷ arc 4 ∷ [] }

abbrev machine : List Platform
machine = opencl ∷ level_zero ∷ []

prefers_level_zero : gpu_devices machine ≡ arc 3 ∷ arc 4 ∷ []
unfolding gpu_devices
prefers_level_zero = refl

gpu_devices-best_example :
    ((p : Platform) (found : List Device)
      → Occurs p machine
      → AreIntelGpus p.devices found
      → length found ≤ length (gpu_devices machine))
    × ((gpu_devices machine ≡ []) ⊎ FromBestPlatform machine (gpu_devices machine))
gpu_devices-best_example = gpu_devices-best machine

make_gpu_queue_lem_example :
    ((gpu_devices machine ≡ []) × (make_gpu_queue machine 7 true ≡ no_gpu))
    ⊎ ((d : Device) × (get_elem? (gpu_devices machine) (min 7 (length (gpu_devices machine) - 1))
          ≡ some d)
        × (make_gpu_queue machine 7 true
            ≡ made (record { device = d; in_order = true; profiling = true })))
make_gpu_queue_lem_example = make_gpu_queue_lem machine 7 true
