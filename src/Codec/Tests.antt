-- ===== src/Codec/Tests.antt =====
-- The codecs on single floats, bytes and rows.
use quixi_core_xpu.Common.{ℕ, ◌+◌, ◌-◌, ◌*◌, ◌/◌, ◌%◌, ◌^◌, ◌≡◌, ◌≤◌, ◌<◌, min, arith}
use quixi_core_xpu.Common.Launch.{Buffer}
use quixi_core_xpu.Codec.{
  f32_to_f16_bits, f16_bits_to_f32, e4m3_encode, e4m3_decode, row_bytes, pack_codes, unpack_code,
}
use quixi_core_xpu.Codec.Half.{round_half_even, f32_to_f16_bits-round, f16-f32-f16}
use quixi_core_xpu.Codec.E4m3.{e4m3_encode-round, e4m3_encode-finite, e4m3_encode-decode}
use quixi_core_xpu.Codec.Unpack.{unpack_code-pack_codes}

-- 2049.0 lies half way between two halves.
f32_to_f16_bits-round_example :
    f32_to_f16_bits 0x45001000
    ≡ 0x45001000 / 2 ^ 31 * 0x8000
      + min 0x7c00 (round_half_even 13 (0x45001000 % 2 ^ 31 - 112 * 2 ^ 23))
f32_to_f16_bits-round_example =
    f32_to_f16_bits-round 0x45001000 (omega arith) (omega arith) (omega arith)

f16-f32-f16_example : f32_to_f16_bits (f16_bits_to_f32 0xbc01) ≡ 0xbc01
f16-f32-f16_example = f16-f32-f16 0xbc01 (omega arith) (λ n. absurd (omega (arith, n.0)))

-- 17.0 lies half way between two bytes.
e4m3_encode-round_example :
    e4m3_encode 0x41880000
    ≡ 0x41880000 / 2 ^ 31 * 0x80
      + min 0x7e (round_half_even 20 (0x41880000 % 2 ^ 31 - 120 * 2 ^ 23))
e4m3_encode-round_example = e4m3_encode-round 0x41880000 (omega arith) (omega arith) (omega arith)

-- Minus infinity.
e4m3_encode-finite_example :
    (e4m3_encode 0xff800000 % 0x80 ≤ 0x7e) × (e4m3_encode 0xff800000 / 0x80 ≡ 0xff800000 / 2 ^ 31)
e4m3_encode-finite_example = e4m3_encode-finite 0xff800000 (omega arith) (omega arith)

e4m3_encode-decode_example : e4m3_encode (e4m3_decode 0x83) ≡ 0x83
e4m3_encode-decode_example = e4m3_encode-decode 0x83 (omega arith) (omega arith)

abbrev three_codes : Buffer ℕ
three_codes i = i + 5

abbrev dirty : Buffer ℕ
dirty i = 0xff

unpack_code-pack_codes_example :
    ((i : ℕ) → i < 3 → unpack_code (pack_codes three_codes 3 3 dirty) i 3 ≡ three_codes i % 2 ^ 3)
    × ((b : ℕ) → row_bytes 3 3 ≤ b → pack_codes three_codes 3 3 dirty b ≡ dirty b)
unpack_code-pack_codes_example =
    unpack_code-pack_codes three_codes 3 3 dirty (omega arith) (omega arith) (λ j h. omega arith)
