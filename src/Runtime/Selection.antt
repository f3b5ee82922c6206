-- ===== src/Runtime/Selection.antt =====
-- Which devices gpu_devices returns, and which of them make_gpu_queue takes.
use quixi_core_xpu.Common.{
  ◌↔◌, ℕ, ◌-◌, ◌≤◌, ◌≡◌, refl, ◌⊎◌, inl, inr, Bool, true, List, [], ◌∷◌, length, Occurs, get_elem?,
  get_elem?-some, some, arith, Bool-cases, min, ◌∙◌, sym, ap, false,
}
use quixi_core_xpu.Runtime.{
  Device, Platform, is_intel_gpu, platform_devices, Selected, is_better, consider, consider_all,
  nothing_selected, gpu_devices, make_gpu_queue, made, no_gpu,
}

-- What the inner loop collects of a platform.
abbrev pub gpus : Platform → List Device
gpus p = platform_devices p.devices

-- What holds of the selection after the platforms `seen`: it is at least as long as the list of
-- any of them, it is Level Zero if one of the longest is, and it is the list of one of them.
record IsBest (seen : Platform → Type 0) (s : Selected) : Type 0 where
  longest : (p : Platform) → seen p → length (gpus p) ≤ length s.devices
  preferred :
      (p : Platform)
      → seen p
      → p.level_zero ≡ true
      → length (gpus p) ≡ length s.devices
      → s.selected_level_zero ≡ true
  source :
      (s.devices ≡ [])
      ⊎ ((p : Platform) × seen p × (gpus p ≡ s.devices) × (p.level_zero ≡ s.selected_level_zero))

module _ (seen : Platform → Type 0) (s : Selected) (p : Platform) (best : IsBest seen s) where
  abbrev Extended : Platform → Type 0
  Extended q = (q ≡ p) ⊎ seen q

  consider-longest : (q : Platform) → Extended q → length (gpus q) ≤ length (consider s p).devices
  unfolding consider
  consider-longest q (inl e) = rw e (ground arith)
  consider-longest q (inr o) = ground (arith, best.longest q o)

  consider-preferred :
      (q : Platform)
      → Extended q
      → q.level_zero ≡ true
      → length (gpus q) ≡ length (consider s p).devices
      → (consider s p).selected_level_zero ≡ true
  unfolding consider
  consider-preferred q (inl e) z l = ground (arith, e)
  consider-preferred q (inr o) z l = ground (arith, best.longest q o, best.preferred q o z)

  consider-source :
      ((consider s p).devices ≡ [])
      ⊎ ((q : Platform) × Extended q
          × (gpus q ≡ (consider s p).devices)
          × (q.level_zero ≡ (consider s p).selected_level_zero))
  unfolding consider
  consider-source = elim (Bool-cases (is_better s p)) [
    | inl better ↦ rw better (inr (p, inl refl, refl, refl))
    | inr same ↦
        rw same (elim best.source [
          | inl none_yet ↦ inl none_yet
          | inr (q, o, e, z) ↦ inr (q, inr o, e, z)
        ])
  ]

  consider-IsBest : IsBest Extended (consider s p)
  consider-IsBest = record {
    longest = consider-longest;
    preferred = consider-preferred;
    source = consider-source;
  }

IsBest-iff :
    (P Q : Platform → Type 0) (s : Selected)
    → ((p : Platform) → P p ↔ Q p)
    → IsBest P s
    → IsBest Q s
IsBest-iff P Q s same best = record {
  longest = λ p o. best.longest p ((same p).1 o);
  preferred = λ p o. best.preferred p ((same p).1 o);
  source = elim best.source [
    | inl none_yet ↦ inl none_yet
    | inr (p, o, e, z) ↦ inr (p, (same p).0 o, e, z)
  ];
}

consider_all-IsBest :
    (ps : List Platform) (seen : Platform → Type 0) (s : Selected)
    → IsBest seen s
    → IsBest (λ q. Occurs q ps ⊎ seen q) (consider_all s ps)
unfolding consider_all
consider_all-IsBest [] seen s best =
    IsBest-iff seen (λ q. ⊥ ⊎ seen q) s
      (λ q. (inr, λ o. elim o [ inl none ↦ absurd none | inr kept ↦ kept ])) best
consider_all-IsBest (p ∷ ps) seen s best =
    IsBest-iff _ _ _ regroup (
      consider_all-IsBest ps (λ q. (q ≡ p) ⊎ seen q) (consider s p) (consider-IsBest seen s p best))
  where
    regroup :
        (q : Platform) → (Occurs q ps ⊎ ((q ≡ p) ⊎ seen q)) ↔ (((q ≡ p) ⊎ Occurs q ps) ⊎ seen q)
    regroup q = ground arith

nothing-IsBest : IsBest (λ q. ⊥) nothing_selected
nothing-IsBest = record {
  longest = λ p o. absurd o;
  preferred = λ p o. absurd o;
  source = inl refl;
}

gpu_devices-IsBest :
    (ps : List Platform) → IsBest (λ q. Occurs q ps) (consider_all nothing_selected ps)
gpu_devices-IsBest ps =
    IsBest-iff (λ q. Occurs q ps ⊎ ⊥) (λ q. Occurs q ps) (consider_all nothing_selected ps)
      (λ q. (λ o. elim o [ inl old ↦ old | inr none ↦ absurd none ], inl))
      (consider_all-IsBest ps (λ q. ⊥) nothing_selected nothing-IsBest)

-- A GPU of Intel's vendor id.
abbrev pub IsIntelGpu : Device → Type 0
IsIntelGpu d = (d.is_gpu ≡ true) × (d.vendor_id ≡ 0x8086)

-- `found` is the Intel GPUs among the devices, all of them, each as often and in the same order.
abbrev pub AreIntelGpus : List Device → List Device → Type 0
AreIntelGpus [] found = found ≡ []
AreIntelGpus (d ∷ ds) found =
    (IsIntelGpu d × ((rest : List Device) × (found ≡ d ∷ rest) × AreIntelGpus ds rest))
    ⊎ ((¬ IsIntelGpu d) × AreIntelGpus ds found)

is_intel_gpu_lem : (d : Device) → is_intel_gpu d ≡ true → IsIntelGpu d
is_intel_gpu_lem d e = ground (arith, e)

is_intel_gpu_other : (d : Device) → is_intel_gpu d ≡ false → ¬ IsIntelGpu d
is_intel_gpu_other d e = λ i. absurd (ground (arith, e, i))

platform_devices_lem : (ds : List Device) → AreIntelGpus ds (platform_devices ds)
unfolding platform_devices
platform_devices_lem [] = refl
platform_devices_lem (d ∷ ds) = elim (Bool-cases (is_intel_gpu d)) [
  | inl e ↦ rw e (inl (is_intel_gpu_lem d e, (platform_devices ds, refl, platform_devices_lem ds)))
  | inr e ↦ rw e (inr (is_intel_gpu_other d e, platform_devices_lem ds))
]

-- Nothing else is the Intel GPUs of a list.
platform_devices_unique :
    (ds found : List Device) → AreIntelGpus ds found → found ≡ platform_devices ds
unfolding platform_devices
platform_devices_unique [] found e = e
platform_devices_unique (d ∷ ds) found (inl (intel, (rest, e, tail))) =
    ground (arith, intel, e, platform_devices_unique ds rest tail)
platform_devices_unique (d ∷ ds) found (inr (other, tail)) = elim (Bool-cases (is_intel_gpu d)) [
  | inl e ↦ absurd (other (is_intel_gpu_lem d e))
  | inr e ↦ rw e (platform_devices_unique ds found tail)
]

-- The Intel GPUs of one platform, and of a Level Zero platform if one with as many is Level Zero.
abbrev pub FromBestPlatform : List Platform → List Device → Type 0
FromBestPlatform ps ds =
    (p : Platform) × Occurs p ps
    × AreIntelGpus p.devices ds
    × ((q : Platform) (found : List Device)
        → Occurs q ps
        → q.level_zero ≡ true
        → AreIntelGpus q.devices found
        → length found ≡ length ds
        → p.level_zero ≡ true)

-- gpu_devices returns at least as many devices as any platform has Intel GPUs, which are the GPUs
-- of vendor 0x8086, and what it returns is all the Intel GPUs of one platform, in that platform's
-- order, a Level Zero one if any platform with that many is; or it returns none.
pub gpu_devices-best :
    (ps : List Platform)
    → ((p : Platform) (found : List Device)
        → Occurs p ps
        → AreIntelGpus p.devices found
        → length found ≤ length (gpu_devices ps))
      × ((gpu_devices ps ≡ []) ⊎ FromBestPlatform ps (gpu_devices ps))
unfolding gpu_devices
gpu_devices-best ps = (
  λ p found o are. rw (platform_devices_unique p.devices found are) (best.longest p o),
  elim best.source [
    | inl none_found ↦ inl none_found
    | inr (p, o, e, z) ↦ inr (
      p,
      o,
      rw (sym e) (platform_devices_lem p.devices),
      λ q found oq zq are l.
          z
          ∙ best.preferred q oq zq
              (sym (ap length (platform_devices_unique q.devices found are)) ∙ l),
    )
  ],
)
  where
    best : IsBest (λ q. Occurs q ps) (consider_all nothing_selected ps)
    best = gpu_devices-IsBest ps

-- With no GPU make_gpu_queue throws; otherwise it never reads past the device list, and builds an
-- in-order queue with the profiling flag asked for, on device `index` or, past the end, on the last.
pub make_gpu_queue_lem :
    (ps : List Platform) (index : ℕ) (profiling : Bool)
    → ((gpu_devices ps ≡ []) × (make_gpu_queue ps index profiling ≡ no_gpu))
      ⊎ ((d : Device) × (get_elem? (gpu_devices ps) (min index (length (gpu_devices ps) - 1))
            ≡ some d)
          × (make_gpu_queue ps index profiling
              ≡ made (record { device = d; in_order = true; profiling = profiling })))
unfolding make_gpu_queue
make_gpu_queue_lem ps index profiling = pick (gpu_devices ps) refl
  where
    pick :
        (ds : List Device)
        → gpu_devices ps ≡ ds
        → ((gpu_devices ps ≡ []) × (make_gpu_queue ps index profiling ≡ no_gpu))
          ⊎ ((d : Device) × (get_elem? (gpu_devices ps) (min index (length (gpu_devices ps) - 1))
                ≡ some d)
              × (make_gpu_queue ps index profiling
                  ≡ made (record { device = d; in_order = true; profiling = profiling })))
    pick [] e = inl (e, rw e)
    pick (d ∷ ds) e =
        let (x, found) = get_elem?-some (d ∷ ds) (min index (length (d ∷ ds) - 1)) (omega arith) in
        inr (x, rw e found, rw (e, found) (ground arith))
