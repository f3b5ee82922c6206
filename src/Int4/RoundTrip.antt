-- ===== src/Int4/RoundTrip.antt =====
-- What the quantization packs, the matrix-vector product reads.
use native.Mathlib.Nat.{div-eq_of_lt-le, div-add-mod', mod-lt}
use quixi_core_xpu.Common.{
  ℕ, zero, suc, ◌+◌, ◌*◌, ◌/◌, ◌%◌, ◌^◌, ◌<◌, ◌≤◌, ◌≡◌, sym, ap, ap₂, ◌∙◌, List, arith,
}
use quixi_core_xpu.Common.Int.{ℤ}
use quixi_core_xpu.Common.Launch.{Buffer, IsSchedule, sum_below, sum_below-ext}
use quixi_core_xpu.Common.Steps.{run_steps}
use quixi_core_xpu.Gguf.Formats.{lanes}
use quixi_core_xpu.Gguf.Scales.{IsBytes}
use quixi_core_xpu.Common.Rows.{row_lt}
use quixi_core_xpu.Int4.{QuantUnit, Weights, s4, low4, group_scale, quantize_item, gemv_lane}
use quixi_core_xpu.Int4.Stores.{s4-low4, packed_byte-nibbles}
use quixi_core_xpu.Int4.Quantize.{
  IsShape, quant_at, byte_at, half_group, row_groups, quantized_bytes, quantized_scales,
  quantized-IsBytes,
}
use quixi_core_xpu.Int4.Gemv.{int4_element, gemv_lanes}

row_join_lt : (n j m rows : ℕ) → n < rows → j < m → n * m + j < rows * m
row_join_lt n j m rows h p = grind arith

mul_mono : (x y z : ℕ) → x ≤ y → x * z ≤ y * z
mul_mono x y z h = grind arith

module _ {T F H : Type 0} (u : QuantUnit T F H) (w : Buffer T) (k_cols group width : ℕ)
    (ok : IsShape k_cols group width) where
  -- A nibble of a stored pair.
  nibble_at :
      (b side : ℕ)
      → side < 2
      → s4 (byte_at u w k_cols group width ok b / 16 ^ side % 16)
        ≡ quant_at u w k_cols group width ok (2 * b + side)
  nibble_at b zero h =
      let pair =
        packed_byte-nibbles (quant_at u w k_cols group width ok (2 * b))
          (quant_at u w k_cols group width ok (2 * b + 1)) in
      let low : byte_at u w k_cols group width ok b / 16 ^ 0 % 16
          ≡ low4 (quant_at u w k_cols group width ok (2 * b)) =
        omega (arith, pair.0) in
      let here : 2 * b + 0 ≡ 2 * b = omega arith in rw (low, here) (s4-low4 _)
  nibble_at b (suc zero) h =
      let pair =
        packed_byte-nibbles (quant_at u w k_cols group width ok (2 * b))
          (quant_at u w k_cols group width ok (2 * b + 1)) in
      let high : byte_at u w k_cols group width ok b / 16 ^ 1 % 16
          ≡ low4 (quant_at u w k_cols group width ok (2 * b + 1)) =
        omega (arith, pair.1, pair.2) in
      rw high (s4-low4 _)
  nibble_at b (suc (suc side)) h = absurd (omega (arith, h))

  -- Rows are whole groups and whole bytes.
  row_even : k_cols / 2 * 2 ≡ k_cols
  row_even =
      let halves : k_cols / group * group ≡ k_cols / group * (2 * (group / 2)) =
        ap (λ (t : ℕ). k_cols / group * t) (half_group u w k_cols group width ok) in
      omega (arith, row_groups u w k_cols group width ok, halves)

  row_place : (n k : ℕ) → n * k_cols + k ≡ 2 * (n * (k_cols / 2) + k / 2) + k % 2
  row_place n k =
      let row : n * (k_cols / 2 * 2) ≡ n * k_cols = ap (λ (t : ℕ). n * t) row_even in
      omega (arith, row)

  group_place : (n k : ℕ) → (n * k_cols + k) / group ≡ n * (k_cols / group) + k / group
  group_place n k =
      let row : n * k_cols ≡ n * (k_cols / group * group) =
        ap (λ (t : ℕ). n * t) (row_groups u w k_cols group width ok) in
      div-eq_of_lt-le group (omega (arith, row, div-add-mod' k group))
        (omega (arith, row, div-add-mod' k group, mod-lt k ok.some))

  group_inside :
      (n n_rows k : ℕ)
      → n < n_rows
      → k < k_cols
      → n * (k_cols / group) + k / group < n_rows * (k_cols / group)
  group_inside n n_rows k h p =
      let column : k / group < k_cols / group =
        row_lt k group (k_cols / group) (omega (arith, p, row_groups u w k_cols group width ok)) in
      row_join_lt n (k / group) (k_cols / group) n_rows h column

  byte_inside :
      (n n_rows k : ℕ)
      → n < n_rows
      → k < k_cols
      → n * (k_cols / 2) + k / 2 < n_rows * (k_cols / group) * (group / 2)
  byte_inside n n_rows k h p =
      let b = n * (k_cols / 2) + k / 2 in
      let t = n * (k_cols / group) + k / group in
      let hg = group / 2 in
      let own : (n * k_cols + k) / group ≡ t = group_place n k in
      let whole = div-add-mod' (n * k_cols + k) group in
      let rest = mod-lt (n * k_cols + k) ok.some in
      let base : (n * k_cols + k) / group * group ≡ t * (2 * hg) =
        ap₂ (λ (x y : ℕ). x * y) own (half_group u w k_cols group width ok) in
      let below : (t + 1) * hg ≤ n_rows * (k_cols / group) * hg =
        mul_mono (t + 1) (n_rows * (k_cols / group)) hg
          (omega (arith, group_inside n n_rows k h p)) in
      omega (arith, row_place n k, whole, rest, base, half_group u w k_cols group width ok, below)

-- For a matrix whose rows are whole groups, the groups whole vectors of an even width and multiples of
-- eight: after the quantization has run its work-items in any order, over bytes, whatever is counted of
-- the terms that the lanes of row `n` of the product add, the count over the lanes is that over the
-- columns, each once, with the rounded and clamped element and the scale of its group.
pub qgemv-quantize :
    {T F H : Type 0} (u : QuantUnit T F H) (w : Buffer T) (k_cols group width n_rows n : ℕ)
    (s : List ℕ) (mem : Weights H) (f : ℕ → ℤ → H → ℕ)
    → (ok : IsShape k_cols group width) → group % 8 ≡ 0
    → IsSchedule (n_rows * (k_cols / group)) s
    → IsBytes mem.bytes
    → n < n_rows
    → let after = run_steps (quantize_item u w k_cols group width) s mem in
      sum_below
        (λ lane.
          gemv_lane
            (λ k q scale acc. acc + f k q scale)
            (λ i. after.bytes (n * (k_cols / 2) + i))
            (λ i. after.scales (n * (k_cols / group) + i))
            group
            0
            (k_cols / 2)
            lane)
        lanes
      ≡ sum_below
          (λ k.
            f k
              (quant_at u w k_cols group width ok (n * k_cols + k))
              (u.to_half (group_scale u w k_cols group width ((n * k_cols + k) / group * group))))
          k_cols
qgemv-quantize u w k_cols group width n_rows n s mem f ok eight fair small inside =
    let after = run_steps (quantize_item u w k_cols group width) s mem in
    let row = λ (i : ℕ). after.bytes (n * (k_cols / 2) + i) in
    let srow = λ (i : ℕ). after.scales (n * (k_cols / group) + i) in
    gemv_lanes f row srow group (k_cols / 2)
      (λ i.
        quantized-IsBytes u w k_cols group width ok n_rows s fair mem small (n * (k_cols / 2) + i))
      eight
    ∙ ap (λ (t : ℕ). sum_below (int4_element f row srow group) t)
        (row_even u w k_cols group width ok)
    ∙ sum_below-ext (int4_element f row srow group) _ k_cols (λ k p.
      let b = n * (k_cols / 2) + k / 2 in
      let stored =
        quantized_bytes u w k_cols group width ok n_rows s fair mem b
          (byte_inside u w k_cols group width ok n n_rows k inside p) in
      let scale =
        quantized_scales u w k_cols group width ok n_rows s fair mem
          (n * (k_cols / group) + k / group)
          (group_inside u w k_cols group width ok n n_rows k inside p) in
      ap₂ (λ q h. f k q h)
        (rw stored (nibble_at u w k_cols group width ok b (k % 2) (omega arith))
          ∙ ap (λ (e : ℕ). quant_at u w k_cols group width ok e)
              (sym (row_place u w k_cols group width ok n k)))
        (scale
          ∙ ap (λ (t : ℕ). u.to_half (group_scale u w k_cols group width (t * group)))
              (sym (group_place u w k_cols group width ok n k))))
