-- ===== src/Dispatch/Envelope.antt =====
-- The envelope of the all-reduce, and the GPUs that all_reduce_sum uses.
use quixi_core_xpu.Common.{
  ℕ, ◌<◌, ◌≤◌, ◌≡◌, ◌↔◌, Bool, ltb, if◌then◌else◌, List, [], ◌∷◌, length, Occurs, arith, min, inl,
  inr, refl, Bool-cases, ltb→lt, le→ltb, ◌==◌,
}
use quixi_core_xpu.Common.Int.{ℤ, pos}
use quixi_core_xpu.Common.Launch.{Buffer}
use quixi_core_xpu.Runtime.{DType, Device, Platform}
use quixi_core_xpu.Variants.{Variant}
use quixi_core_xpu.Dispatch.{Ptr, completed, actions, submitted}
use quixi_core_xpu.Collectives.{SumUnit}
use quixi_core_xpu.Dispatch.Collectives.{
  all_reduce, all_reduce_sycl, dispatch, is_rejected, gpus, most_gpus, all_reduce_sum, max_world,
}

-- Two to eight ranks, and the caller one of them.
abbrev pub InEnvelope : ℤ → ℤ → Type 0
InEnvelope (pos rank) (pos world) = (2 ≤ world) × (world ≤ 8) × (rank < world)
InEnvelope _ _ = ⊥

-- The collective is submitted exactly for two to eight ranks of which the caller is one; any other
-- call returns and leaves the queue alone.
pub all_reduce-envelope :
    (inp out regions : Ptr) (rank world : ℤ) (numel : ℕ) (dt : DType) (least : ℕ) (v : Variant)
    (blocking : Bool)
    → ((submitted
            (actions (dispatch (all_reduce inp out regions rank world numel dt least) v blocking))
          ≡ all_reduce_sycl inp out regions rank world numel dt least ∷ [])
        ↔ InEnvelope rank world)
      × ((dispatch (all_reduce inp out regions rank world numel dt least) v blocking ≡ completed [])
          ↔ ¬ InEnvelope rank world)
unfolding dispatch is_rejected
all_reduce-envelope inp out regions rank world numel dt least v blocking = ground arith

most_gpus-grows :
    (ps : List Platform) (devices : List Device) → length devices ≤ length (most_gpus devices ps)
unfolding most_gpus
most_gpus-grows [] devices = omega arith
most_gpus-grows (p ∷ ps) devices =
    elim (Bool-cases (ltb (length devices) (length (gpus p.devices)))) [
      | inl more ↦ rw more (omega (arith, most_gpus-grows ps (gpus p.devices), ltb→lt _ _ more))
      | inr fewer ↦ rw fewer (most_gpus-grows ps devices)
    ]

most_gpus-most :
    (ps : List Platform) (devices : List Device) (p : Platform)
    → Occurs p ps
    → length (gpus p.devices) ≤ length (most_gpus devices ps)
unfolding most_gpus
most_gpus-most [] devices p h = absurd h
most_gpus-most (q ∷ ps) devices p (inl e) =
    elim (Bool-cases (ltb (length devices) (length (gpus q.devices)))) [
      | inl more ↦ rw (e, more) (most_gpus-grows ps (gpus q.devices))
      | inr fewer ↦ rw (e, fewer) (ground (arith, most_gpus-grows ps devices, fewer))
    ]
most_gpus-most (q ∷ ps) devices p (inr there) =
    most_gpus-most ps
      (if ltb (length devices) (length (gpus q.devices)) then gpus q.devices else devices) p there

-- all_reduce_sum uses at most eight GPUs, and otherwise no fewer than any platform has; it writes
-- the first `count` elements of `out` at most, and none without a GPU.
all_reduce_sum-gpus :
    {T : Type 0} (u : SumUnit T) (platforms : List Platform) (in_per_gpu : Buffer T) (count : ℕ)
    (out : Buffer T)
    → ((all_reduce_sum u platforms in_per_gpu count out).0 ≤ 8)
      × ((p : Platform)
          → Occurs p platforms
          → min 8 (length (gpus p.devices)) ≤ (all_reduce_sum u platforms in_per_gpu count out).0)
      × ((i : ℕ) → count ≤ i → (all_reduce_sum u platforms in_per_gpu count out).1 i ≡ out i)
      × ((all_reduce_sum u platforms in_per_gpu count out).0 ≡ 0
          → (i : ℕ) → (all_reduce_sum u platforms in_per_gpu count out).1 i ≡ out i)
unfolding all_reduce_sum
all_reduce_sum-gpus u platforms in_per_gpu count out = (
  ground arith,
  λ p h. ground (arith, most_gpus-most platforms [] p h),
  λ i h. elim (Bool-cases (used == 0)) [
    | inl idle ↦ rw idle refl
    | inr busy ↦ elim (Bool-cases (used == 1)) [
      | inl single ↦ rw (busy, single, le→ltb i count h) refl
      | inr several ↦ rw (busy, several, le→ltb i count h) refl
    ]
  ],
  λ unused i. elim (Bool-cases (used == 0)) [
    | inl idle ↦ rw idle refl
    | inr busy ↦ absurd (ground (arith, unused, busy))
  ],
)
  where
    used : ℕ
    used = min (length (most_gpus [] platforms)) max_world
