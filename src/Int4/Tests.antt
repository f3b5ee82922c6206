-- ===== src/Int4/Tests.antt =====
-- A matrix of two rows of sixteen, in groups of eight.
use quixi_core_xpu.Common.{ℕ, ◌+◌, ◌*◌, ◌/◌, ◌%◌, ◌≡◌, refl, List, [], ◌∷◌, arith}
use quixi_core_xpu.Common.Int.{ℤ, pos, negsuc}
use quixi_core_xpu.Common.Launch.{Buffer, IsSchedule, count, sum_below}
use quixi_core_xpu.Common.Steps.{run_steps}
use quixi_core_xpu.Gguf.Formats.{lanes}
use quixi_core_xpu.Int4.{QuantUnit, Weights, group_scale, quantize_item, gemv_lane}
use quixi_core_xpu.Int4.Quantize.{IsShape, quant_at}
use quixi_core_xpu.Int4.RoundTrip.{qgemv-quantize}

-- Numbers in place of floats.
abbrev some_unit : QuantUnit ℕ ℕ ℕ
some_unit = record {
  start = 0;
  max_abs = λ a x. a + x;
  scale_of = λ a. a + 1;
  inverse = λ s. s;
  to_half = λ s. s;
  rounded = λ x s. negsuc (x % 11);
}

abbrev matrix : Buffer ℕ
matrix i = i * 7

abbrev blank : Weights ℕ
blank = record { bytes = λ i. 0; scales = λ i. 0 }

abbrev order : List ℕ
order = 2 ∷ 0 ∷ 3 ∷ 1 ∷ []

order-IsSchedule : IsSchedule (2 * (16 / 8)) order
unfolding count
order-IsSchedule i = ground arith

shape : IsShape 16 8 4
shape = record { some = omega arith; groups = refl; vectors = refl; pairs = refl }

abbrev tally : ℕ → ℤ → ℕ → ℕ
tally k (pos q) scale = k + q * scale
tally k (negsuc q) scale = k * q + scale

abbrev after : Weights ℕ
after = run_steps (quantize_item some_unit matrix 16 8 4) order blank

qgemv-quantize_example :
    sum_below
      (λ lane.
        gemv_lane
          (λ k q scale acc. acc + tally k q scale)
          (λ i. after.bytes (1 * (16 / 2) + i))
          (λ i. after.scales (1 * (16 / 8) + i))
          8
          0
          (16 / 2)
          lane)
      lanes
    ≡ sum_below
        (λ k.
          tally k
            (quant_at some_unit matrix 16 8 4 shape (1 * 16 + k))
            (group_scale some_unit matrix 16 8 4 ((1 * 16 + k) / 8 * 8)))
        16
qgemv-quantize_example =
    qgemv-quantize some_unit matrix 16 8 4 2 1 order blank tally shape refl order-IsSchedule
      (λ i. omega arith) (omega arith)

-- With groups of four, a word of eight elements takes the scale of its first.
narrow_groups :
    gemv_lane (λ k q scale acc. acc + scale) (λ i. 0) (λ g. g) 4 0 16 0
    ≡ 0 + 8 * 0 + 8 * 2 + 8 * 4 + 8 * 6
unfolding gemv_lane
narrow_groups = refl
