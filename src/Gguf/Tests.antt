-- ===== src/Gguf/Tests.antt =====
-- A row of two blocks.
use quixi_core_xpu.Common.{ℕ, ◌+◌, ◌*◌, ◌%◌, ◌^◌, ◌≡◌, refl, ltb, if◌then◌else◌, arith}
use quixi_core_xpu.Common.Launch.{Buffer, sum_below}
use quixi_core_xpu.Gguf.{Term}
use quixi_core_xpu.Gguf.Grids.{Grids}
use quixi_core_xpu.Gguf.Formats.{q5_0, iq2_xs, block_size, lanes, lane_loop, lane_acc}
use quixi_core_xpu.Gguf.Tables.{lanes-tables}
use quixi_core_xpu.Gguf.Rows.{row_element, lanes-reference, lane_loop_ends}

abbrev bytes : Buffer ℕ
bytes i = (i * 37) % 256

abbrev weight : ℕ → Term → ℕ
weight b t = (b * 32 + t.at + 1) * t.quant

-- Tables of another program, with anything past the end of ksigns.
abbrev some_tables : ℕ → Grids
some_tables past = record {
  iq2xxs = λ i. i * 257;
  iq2xs = λ i. i * 257;
  iq3xxs = λ i. i * 257;
  iq1s = λ i. i * 257;
  ksigns = λ i. if ltb i 128 then i else past;
  kmask = λ i. 2 ^ i;
}

lanes-reference_example :
    sum_below
      (λ lane. lane_acc (some_tables 0) q5_0 (λ b t acc. acc + weight b t) 0 bytes 2 lane)
      lanes
    ≡ sum_below (row_element (some_tables 0) q5_0 weight bytes) (2 * block_size q5_0)
lanes-reference_example = lanes-reference (some_tables 0) q5_0 weight bytes 2 (λ i. omega arith)

lanes-tables_example :
    sum_below
      (λ lane. lane_acc (some_tables 0) iq2_xs (λ b t acc. acc + weight b t) 0 bytes 1 lane)
      lanes
    ≡ sum_below
        (λ lane. lane_acc (some_tables 9) iq2_xs (λ b t acc. acc + weight b t) 0 bytes 1 lane)
        lanes
lanes-tables_example =
    lanes-tables (some_tables 0) (some_tables 9) iq2_xs weight bytes 1
      (record {
        iq2xxs = λ i h. refl;
        iq2xs = λ i h. refl;
        iq3xxs = λ i h. refl;
        iq1s = λ i h. refl;
        ksigns = λ i h. ground (arith, h);
        kmask = λ i h. refl;
      })
      (λ i. omega arith)

lane_loop_ends_example :
    lane_loop (λ b acc. acc + b) 70 (70 + 5) 3 0 ≡ lane_loop (λ b acc. acc + b) 70 70 3 0
lane_loop_ends_example = lane_loop_ends (λ b acc. acc + b) 70 70 5 3 0 (omega arith)

-- Lane 3 of 70 blocks has blocks 3, 35 and 67.
third_lane : lane_loop (λ b acc. acc + b) 70 70 3 0 ≡ 105
unfolding lane_loop
third_lane = refl
