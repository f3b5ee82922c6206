-- ===== src/Int4/Gemv.antt =====
-- The lanes of a subgroup add every element of a row of int4 weights once.
use native.Mathlib.Nat.{div-div-eq-div-mul, div-add-mod'}
use quixi_core_xpu.Common.{
  ℕ, zero, suc, ◌+◌, ◌-◌, ◌*◌, ◌/◌, ◌%◌, ◌^◌, ◌<◌, ◌≡◌, refl, sym, ap, ◌∙◌, ltb, ◌==◌,
  if◌then◌else◌, arith, Bool-cases, inl, inr,
}
use quixi_core_xpu.Common.Int.{ℤ}
use quixi_core_xpu.Common.Launch.{Buffer, sum_below, sum_below-ext}
use quixi_core_xpu.Common.Sums.{sum_below_plus, sum_below_append, sum_below_chunks}
use quixi_core_xpu.Gguf.Formats.{lanes, lane_loop}
use quixi_core_xpu.Gguf.Lanes.{lane_sum, lanes_sum, own_part}
use quixi_core_xpu.Gguf.Chunks.{repeat_below, repeat_chunks}
use quixi_core_xpu.Gguf.Scales.{IsBytes}
use quixi_core_xpu.Int4.{s4, word_at, gemv_chunk, gemv_tail, gemv_lane}
use quixi_core_xpu.Int4.Stores.{word_at-nibble}

-- The groups of two elements of one 8-element word, or of one 32-element chunk, are the same.
group-same : (group unit x y : ℕ) → group % unit ≡ 0 → x / unit ≡ y / unit → x / group ≡ y / group
group-same group unit x y whole same =
    let e : group ≡ unit * (group / unit) = omega (arith, div-add-mod' group unit, whole) in
    rw e (
      sym (div-div-eq-div-mul x unit (group / unit))
      ∙ ap (λ (t : ℕ). t / (group / unit)) same
      ∙ div-div-eq-div-mul y unit (group / unit))

-- The rounds of a loop that starts `t` later.
lane_loop-shift :
    {F : Type 0} (step : ℕ → F → F) (t n fuel b : ℕ) (acc : F)
    → lane_loop step (t + n) fuel (t + b) acc ≡ lane_loop (λ i. step (t + i)) n fuel b acc
unfolding lane_loop
lane_loop-shift step t n zero b acc = refl
lane_loop-shift step t n (suc fuel) b acc =
    let next : t + b + lanes ≡ t + (b + lanes) = omega arith in
    let test : ltb (t + b) (t + n) ≡ ltb b n = ground arith in
    rw (test, next, lane_loop-shift step t n fuel (b + lanes) (step (t + b) acc)) refl

module _ {H : Type 0} (f : ℕ → ℤ → H → ℕ) (w : Buffer ℕ) (srow : Buffer H) (group : ℕ) where
  -- Element `k` of the row.
  abbrev pub int4_element : ℕ → ℕ
  int4_element k = f k (s4 (w (k / 2) / 16 ^ (k % 2) % 16)) (srow (k / group))

  abbrev counting : ℕ → ℤ → H → ℕ → ℕ
  counting k q s acc = acc + f k q s

  -- The scale that a word takes is that of each of its elements.
  word_scale :
      (c wi nib : ℕ)
      → wi < 4
      → nib < 8
      → group % 8 ≡ 0
      → (if group % 32 == 0 then srow (c * 32 / group) else srow ((c * 32 + wi * 8) / group))
        ≡ srow ((c * 32 + wi * 8 + nib) / group)
  word_scale c wi nib p q whole = elim (Bool-cases (group % 32 == 0)) [
    | inl wide ↦ rw wide (
        ap (λ (t : ℕ). srow t)
          (group-same group 32 (c * 32) (c * 32 + wi * 8 + nib) (ground (arith, wide))
            (omega (arith, p, q))))
    | inr narrow ↦ rw narrow (
        ap (λ (t : ℕ). srow t)
          (group-same group 8 (c * 32 + wi * 8) (c * 32 + wi * 8 + nib) whole (omega (arith, q))))
  ]

  chunk_sum :
      (c acc : ℕ)
      → IsBytes w
      → group % 8 ≡ 0
      → gemv_chunk counting w srow group c acc ≡ acc + sum_below (λ j. int4_element (c * 32 + j)) 32
  unfolding gemv_chunk
  chunk_sum c acc small whole =
      repeat_chunks _ (λ j. int4_element (c * 32 + j)) 8 4
        (λ wi a p.
          repeat_below
            (λ nib b.
              b
              + f (c * 32 + wi * 8 + nib) (s4 (word_at w (c * 16 + wi * 4) / 2 ^ (nib * 4) % 16)) (
                  if group % 32 == 0
                  then srow (c * 32 / group)
                  else srow ((c * 32 + wi * 8) / group)))
            (λ nib. int4_element (c * 32 + (wi * 8 + nib))) 8
            (λ nib b q.
              let at : c * 32 + (wi * 8 + nib) ≡ c * 32 + wi * 8 + nib = omega arith in
              let byte : (c * 32 + wi * 8 + nib) / 2 ≡ c * 16 + wi * 4 + nib / 2 = omega arith in
              let side : (c * 32 + wi * 8 + nib) % 2 ≡ nib % 2 = omega arith in
              rw
                (
                  at,
                  byte,
                  side,
                  word_at-nibble w (c * 16 + wi * 4) nib small q,
                  word_scale c wi nib p q whole,
                )
                refl)
            a)
        acc

  tail_sum :
      (b acc : ℕ)
      → group % 8 ≡ 0
      → gemv_tail counting w srow group b acc ≡ acc + sum_below (λ j. int4_element (b * 2 + j)) 2
  unfolding gemv_tail sum_below
  tail_sum b acc whole =
      let low : (b * 2 + 0) / 2 ≡ b = omega arith in
      let high : (b * 2 + 1) / 2 ≡ b = omega arith in
      let left : (b * 2 + 0) % 2 ≡ 0 = omega arith in
      let right : (b * 2 + 1) % 2 ≡ 1 = omega arith in
      let first : b * 2 + 0 ≡ 2 * b = omega arith in
      let second : b * 2 + 1 ≡ 2 * b + 1 = omega arith in
      let same = group-same group 8 (2 * b) (2 * b + 1) whole (omega arith) in
      let one : w b / 16 ^ 0 % 16 ≡ w b % 16 = omega arith in
      let even : int4_element (b * 2 + 0) ≡ f (2 * b) (s4 (w b % 16)) (srow (2 * b / group)) =
        rw (low, left, first, one) refl in
      let odd : int4_element (b * 2 + 1)
          ≡ f (2 * b + 1) (s4 (w b / 16 % 16)) (srow (2 * b / group)) =
        rw (high, right, second, same) refl in
      let both : gemv_tail counting w srow group b acc
          ≡ acc
            + f (2 * b) (s4 (w b % 16)) (srow (2 * b / group))
            + f (2 * b + 1) (s4 (w b / 16 % 16)) (srow (2 * b / group)) =
        refl in
      omega (arith, both, even, odd)

  -- Whatever is counted of the terms, the count over the lanes is that over the elements of the row.
  pub gemv_lanes :
      (bytes_per_row : ℕ)
      → IsBytes w
      → group % 8 ≡ 0
      → sum_below (λ lane. gemv_lane counting w srow group 0 bytes_per_row lane) lanes
        ≡ sum_below int4_element (bytes_per_row * 2)
  unfolding gemv_lane
  gemv_lanes bpr small whole =
      sum_below-ext _ (λ lane. sum_below (own_part h1 lane) nch + sum_below (own_part h2 lane) n)
        lanes (λ lane p. one_lane lane p)
      ∙ sum_below_plus (λ lane. sum_below (own_part h1 lane) nch)
          (λ lane. sum_below (own_part h2 lane) n) lanes
      ∙ omega (
        arith,
        lanes_sum h1 nch,
        lanes_sum h2 n,
        chunks,
        tails,
        sum_below_append int4_element (nch * 32) (n * 2),
        ap (λ (t : ℕ). sum_below int4_element t) ends,
      )
    where
      nch : ℕ
      nch = bpr / 16

      n : ℕ
      n = bpr - nch * 16

      h1 : ℕ → ℕ
      h1 c = sum_below (λ j. int4_element (c * 32 + j)) 32

      h2 : ℕ → ℕ
      h2 i = sum_below (λ j. int4_element ((nch * 16 + i) * 2 + j)) 2

      whole_row : nch * 16 + n ≡ bpr
      whole_row = omega arith

      ends : nch * 32 + n * 2 ≡ bpr * 2
      ends = omega (arith, whole_row)

      chunks : sum_below int4_element (nch * 32) ≡ sum_below h1 nch
      chunks = sum_below_chunks int4_element 32 nch

      tails : sum_below (λ i. int4_element (nch * 32 + i)) (n * 2) ≡ sum_below h2 n
      tails =
          sum_below_chunks (λ i. int4_element (nch * 32 + i)) 2 n
          ∙ sum_below-ext _ h2 n (λ i p.
            sum_below-ext _ (λ j. int4_element ((nch * 16 + i) * 2 + j)) 2
              (λ j q.
                let at : nch * 32 + (i * 2 + j) ≡ (nch * 16 + i) * 2 + j = omega arith in
                rw at refl))

      one_lane :
          (lane : ℕ)
          → lane < lanes
          → gemv_lane counting w srow group 0 bpr lane
            ≡ sum_below (own_part h1 lane) nch + sum_below (own_part h2 lane) n
      one_lane lane p =
          let past = nch * 16 in
          let start = lane_loop (gemv_chunk counting w srow group) nch nch lane 0 in
          let inner =
            lane_sum h1 (gemv_chunk counting w srow group) (λ c a. chunk_sum c a small whole) nch
              nch lane 0 p (omega arith) in
          let outer =
            lane_sum h2 (λ i. gemv_tail counting w srow group (past + i))
              (λ i a. tail_sum (past + i) a whole) n bpr lane start p (omega arith) in
          let shifted = lane_loop-shift (gemv_tail counting w srow group) past n bpr lane start in
          omega (
            arith,
            inner,
            outer,
            shifted,
            ap (λ (t : ℕ). lane_loop (gemv_tail counting w srow group) t bpr (past + lane) start)
                whole_row,
          )
