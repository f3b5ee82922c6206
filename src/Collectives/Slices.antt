-- ===== src/Collectives/Slices.antt =====
-- The slices of the two-shot all-reduce cover the payload, and do not overlap.
use native.Mathlib.Nat.{mod-lt, div-add-mod', div-eq_of_lt-le}
use quixi_core_xpu.Common.{ℕ, ◌+◌, ◌-◌, ◌*◌, ◌/◌, ◌%◌, ◌<◌, ◌≤◌, ◌≡◌, arith, sym, ap, ◌∙◌}
use quixi_core_xpu.Collectives.{chunk, per_block, blocks, slice_lo, slice_hi, wg_size, iteration}

-- A ceiling quotient times the divisor is at least the dividend.
ceiling-covers : (n k : ℕ) → 0 < k → n ≤ (n + k - 1) / k * k
ceiling-covers n k h = let e = div-add-mod' (n + k - 1) k in omega (arith, mod-lt (n + k - 1) h, e)

chunk-pos : (n k i : ℕ) → 0 < k → i < n → 0 < (n + k - 1) / k
chunk-pos n k i h p = grind (arith, ceiling-covers n k h)

quotient-lt : (n c x : ℕ) → x < n * c → x / c < n
quotient-lt n c x h = grind arith

-- Two multiples with the same quotient.
same-quotient : (c p q x : ℕ) → p * c ≤ x → x < (p + 1) * c → q * c ≤ x → x < (q + 1) * c → p ≡ q
same-quotient c p q x a b d e = sym (div-eq_of_lt-le c a b) ∙ div-eq_of_lt-le c d e

-- An element belongs to the slice of one rank and one work-group at most.
pub slice_unique :
    (numel world b owner b' owner' i : ℕ)
    → slice_lo numel world b owner ≤ i
    → i < slice_hi numel world b owner
    → slice_lo numel world b' owner' ≤ i
    → i < slice_hi numel world b' owner'
    → (owner ≡ owner') × (b ≡ b')
unfolding slice_lo slice_hi
slice_unique numel world b owner b' owner' i lo hi lo' hi' =
    let c = chunk numel world in
    let same_owner : owner ≡ owner' =
      same-quotient c owner owner' i (omega (arith, lo)) (omega (arith, hi)) (omega (arith, lo'))
        (omega (arith, hi')) in
    let same_start : owner * c ≡ owner' * c = ap (λ (t : ℕ). t * c) same_owner in
    (
      same_owner,
      same-quotient (per_block c) b b' (i - owner * c) (omega (arith, lo)) (omega (arith, lo, hi))
          (omega (arith, lo', same_start)) (omega (arith, lo', hi', same_start)),
    )

-- Every element of the payload belongs to a slice of some rank and some work-group, and one of its
-- work-items comes to it in its loop.
pub slice_covers :
    (numel world i : ℕ)
    → 0 < world
    → i < numel
    → (owner : ℕ) × (b : ℕ) × (owner < world)
      × (b < blocks)
      × (slice_lo numel world b owner ≤ i)
      × (i < slice_hi numel world b owner)
      × (lid : ℕ) × (k : ℕ) × (lid < wg_size)
      × (iteration (slice_lo numel world b owner) lid k ≡ i)
unfolding slice_lo slice_hi
slice_covers numel world i some_rank inside =
    let c = chunk numel world in
    let pb = per_block c in
    let owner = i / c in
    let off = i % c in
    let b = off / pb in
    let filled = chunk-pos numel world i some_rank inside in
    let whole = div-add-mod' i c in
    let parts = div-add-mod' off pb in
    let off_inside = mod-lt i filled in
    let nonempty : 0 < pb = chunk-pos c blocks off (omega arith) off_inside in
    let rest = mod-lt off nonempty in
    let lo = owner * c + b * pb in
    let low : lo ≤ i = omega (arith, whole, parts) in
    (
      owner,
      b,
      quotient-lt world c i (omega (arith, ceiling-covers numel world some_rank)),
      quotient-lt blocks pb off (omega (arith, ceiling-covers c blocks (omega arith), off_inside)),
      low,
      omega (arith, whole, parts, rest, off_inside),
      (i - lo) % wg_size,
      (i - lo) / wg_size,
      omega arith,
      omega (arith, low),
    )
