-- ===== src/Codec.antt =====
-- The TurboQuant codec core: kernels/quantization/turboquant/turboquant_codec.hpp, and the element
-- decoders of kernels/common/quant_codecs.hpp.
-- A float is its IEEE-754 bit pattern, a number below 2 ^ 32. A low mask is a remainder, a shift a
-- product or a quotient by a power of two; `|` is `bit_or`. The source's signed exponents are kept
-- biased: `exp32` is `biased b - 127`, so `exp32 >= -14` reads `113 ≤ biased b`.
pub mod Half
pub mod E4m3
pub mod Pack
pub mod Unpack
mod Tests
use quixi_core_xpu.Common.Launch.{Buffer, store}
use quixi_core_xpu.Common.{
  ℕ, zero, suc, ◌+◌, ◌-◌, ◌*◌, ◌/◌, ◌%◌, ◌^◌, ◌≡◌, refl, Bool, true, false, ◌&&◌, ◌||◌, bit_or, ltb,
  leb, ◌==◌, if◌then◌else◌,
}

-- Round up a kept value: the dropped part is above one half, or one half and the value odd.
abbrev pub rounds_up : ℕ → ℕ → ℕ → Bool
rounds_up keep rest half = ltb half rest || (rest == half && keep % 2 == 1)

-- The exponent field of a float without its sign.
abbrev pub biased : ℕ → ℕ
biased b = b / 2 ^ 23

-- f32_to_f16_bits where exp32 >= -14; `sign` is the half's sign bit.
unfoldable pub f16_normal : ℕ → ℕ → ℕ
f16_normal sign b =
    let mant = b % 2 ^ 23 in
    let keep = mant / 2 ^ 13 in
    let up = rounds_up keep (mant % 2 ^ 13) 0x1000 in
    let carry = up && keep + 1 == 0x400 in
    let e = biased b - 112 + (if carry then 1 else 0) in
    let kept = if carry then 0 else if up then keep + 1 else keep in
    if leb 31 e then bit_or sign 0x7c00 else bit_or (bit_or sign (e * 2 ^ 10)) kept

-- f32_to_f16_bits where exp32 < -14.
unfoldable pub f16_subnormal : ℕ → ℕ → ℕ
f16_subnormal sign b =
    let shift = 126 - biased b in
    let sig = bit_or 0x800000 (b % 2 ^ 23) in
    let m = sig / 2 ^ shift in
    let up = rounds_up m (sig % 2 ^ shift) (2 ^ (shift - 1)) in
    if leb 25 shift then sign else bit_or sign (if up then m + 1 else m)

unfoldable pub f32_to_f16_bits : ℕ → ℕ
unfolding f16_normal f16_subnormal
f32_to_f16_bits x =
    let sign = x / 2 ^ 31 % 2 * 0x8000 in
    let b = x % 2 ^ 31 in
    if leb 0x7f800000 b
    then bit_or (bit_or sign 0x7c00) (if ltb 0x7f800000 b then 0x200 else 0)
    else if leb 113 (biased b)
    then f16_normal sign b
    else f16_subnormal sign b

-- The float m * 2 ^ (e - 150): the exact value of a small integer times a power of two. Doubling
-- brings `m` to 24 bits, which takes fewer than 24 rounds from any m > 0.
unfoldable pub exact_float : ℕ → ℕ → ℕ → ℕ
exact_float zero m e = 0
exact_float (suc rounds) m e =
    let rest = exact_float rounds (2 * m) (e - 1) in
    if leb (2 ^ 23) m then e * 2 ^ 23 + (m - 2 ^ 23) else rest

-- m * 2^-24, from the conversion of `m` and the product by 5.9604644775390625e-08.
unfoldable pub f16_bits_to_f32 : ℕ → ℕ
unfolding exact_float
f16_bits_to_f32 h =
    let sign = h / 2 ^ 15 % 2 * 2 ^ 31 in
    let e = h / 2 ^ 10 % 32 in
    let m = h % 2 ^ 10 in
    if e == 0
    then (if m == 0 then sign else bit_or sign (exact_float 24 m 126))
    else if e == 31
    then bit_or (bit_or sign 0x7f800000) (m * 2 ^ 13)
    else bit_or (bit_or sign ((e + 112) * 2 ^ 23)) (m * 2 ^ 13)

-- e4m3_encode where the target is normal, e32 >= -6; exp4 is e32 + 7.
unfoldable pub e4m3_normal : ℕ → ℕ → ℕ
e4m3_normal sign b =
    let mant = b % 2 ^ 23 in
    let keep = mant / 2 ^ 20 in
    let kept = if rounds_up keep (mant % 2 ^ 20) 0x80000 then keep + 1 else keep in
    let carry = kept == 8 in
    let keep4 = if carry then 0 else kept in
    let exp4 = biased b - 120 + (if carry then 1 else 0) in
    if ltb 15 exp4 || (exp4 == 15 && keep4 == 7)
    then bit_or sign 0x7e
    else bit_or sign (bit_or (exp4 * 2 ^ 3) keep4)

-- e4m3_encode below 2^-6. The product by 512 and the subtraction of the whole part are exact, so
-- `t` is the 24-bit significand over 2 ^ (141 - biased b), `k` its whole part and `frac` the rest.
unfoldable pub e4m3_subnormal : ℕ → ℕ → ℕ
e4m3_subnormal sign b =
    let sig = 0x800000 + b % 2 ^ 23 in
    let shift = 141 - biased b in
    let k = sig / 2 ^ shift in
    let kept = if rounds_up k (sig % 2 ^ shift) (2 ^ (shift - 1)) then k + 1 else k in
    if leb 8 kept then bit_or sign 8 else bit_or sign kept

-- The comparison with 448.0f is one of the patterns, since both floats are positive.
unfoldable pub e4m3_encode : ℕ → ℕ
e4m3_encode x =
    let sign = x / 2 ^ 31 % 2 * 0x80 in
    let b = x % 2 ^ 31 in
    if ltb 0x7f800000 b
    then bit_or sign 0x7f
    else if ltb 0x43e00000 b
    then bit_or sign 0x7e
    else if biased b == 0
    then sign
    else if leb 121 (biased b)
    then e4m3_normal sign b
    else e4m3_subnormal sign b

-- e4m3_decode, and fp8_e4m3 of quant_codecs.hpp, which is the same code. The sign of a NaN is left
-- open by IEEE; the byte's is taken, and no result rests on it.
unfoldable pub e4m3_decode : ℕ → ℕ
unfolding exact_float
e4m3_decode byte =
    let sign = byte / 2 ^ 7 % 2 * 2 ^ 31 in
    let exp4 = byte / 2 ^ 3 % 16 in
    let mant = byte % 2 ^ 3 in
    if exp4 == 15 && mant == 7
    then bit_or sign 0x7fc00000
    else if exp4 == 0
    then (if mant == 0 then sign else bit_or sign (exact_float 24 mant 141))
    else bit_or sign (exact_float 24 (8 + mant) (exp4 + 140))

-- fp8_e5m2 of quant_codecs.hpp: the byte is the high half of an fp16.
unfoldable pub fp8_e5m2 : ℕ → ℕ
unfolding exact_float
fp8_e5m2 byte =
    let h = byte * 2 ^ 8 in
    let sign = h / 2 ^ 15 % 2 * 2 ^ 31 in
    let e = h / 2 ^ 10 % 32 in
    let m = h % 2 ^ 10 in
    if e == 0
    then (if m == 0 then sign else bit_or sign (exact_float 24 m 126))
    else if e == 31
    then bit_or (bit_or sign 0x7f800000) (m * 2 ^ 13)
    else bit_or (bit_or sign ((e + 112) * 2 ^ 23)) (m * 2 ^ 13)

unfoldable pub row_bytes : ℕ → ℕ → ℕ
row_bytes head_size bits = (head_size * bits + 7) / 8

-- pack_codes first clears the row.
unfoldable pub clear_row : ℕ → Buffer ℕ → Buffer ℕ
clear_row nbytes out = λ b. if ltb b nbytes then 0 else out b

-- What pack_codes packs of codes[i]: the low `bits` bits.
abbrev pub masked : ℕ → ℕ → ℕ
masked bits code = if bits == 8 then code else code % 2 ^ bits

-- One round of the loop of pack_codes: the low part goes into the byte of the stream's position,
-- what spills over into the next.
unfoldable pub pack_step : Buffer ℕ → ℕ → ℕ → Buffer ℕ → Buffer ℕ
unfolding store
pack_step codes bits i out =
    let bit = i * bits in
    let v = masked bits (codes i) in
    let at = bit / 8 in
    let out1 = store out at (bit_or (out at) (v * 2 ^ (bit % 8) % 2 ^ 8)) in
    let spill = bit % 8 + bits in
    if ltb 8 spill
    then store out1 (at + 1) (bit_or (out1 (at + 1)) (v / 2 ^ (8 - bit % 8) % 2 ^ 8))
    else out1

-- The loop of pack_codes over the first codes.
unfoldable pub pack_loop : Buffer ℕ → ℕ → ℕ → Buffer ℕ → Buffer ℕ
unfolding pack_step
pack_loop codes bits zero out = out
pack_loop codes bits (suc i) out = pack_step codes bits i (pack_loop codes bits i out)

unfoldable pub pack_codes : Buffer ℕ → ℕ → ℕ → Buffer ℕ → Buffer ℕ
unfolding pack_loop clear_row row_bytes
pack_codes codes n bits out = pack_loop codes bits n (clear_row (row_bytes n bits) out)

unfoldable pub unpack_code : Buffer ℕ → ℕ → ℕ → ℕ
unpack_code row i bits =
    let bit = i * bits in
    let low = row (bit / 8) / 2 ^ (bit % 8) in
    let spill = bit % 8 + bits in
    let v = if ltb 8 spill then bit_or low (row (bit / 8 + 1) * 2 ^ (8 - bit % 8)) else low in
    if bits == 8 then v % 2 ^ 8 else v % 2 ^ bits
