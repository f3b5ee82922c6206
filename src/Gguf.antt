-- ===== src/Gguf.antt =====
-- The GGUF matrix-vector products of kernels/quantization/gguf_gemv/variants/xpu_sycl/
-- gguf_gemv.sycl.cpp: a subgroup of 32 lanes for each row, where lane l decodes the blocks l, l + 32,
-- ... The float arithmetic of `acc += ...` is an argument, a step on the term that is added. Bytes are
-- numbers below 256. The decoders of q8_0, q4_0, q2_K, q4_K, q5_K, q6_K and iq4_nl are here, those of
-- q3_K, q4_1, q5_0, q5_1 and iq4_xs in Legacy, those with a grid of values in Grids.
pub mod Legacy
pub mod Grids
pub mod Scales
pub mod Reference
pub mod Chunks
pub mod Formats
pub mod Lanes
pub mod Loops
pub mod Blocks
pub mod LegacyBlocks
pub mod GridBlocks
pub mod Rows
pub mod Tables
mod Tests
use quixi_core_xpu.Common.{
  ℕ, zero, suc, ◌+◌, ◌-◌, ◌*◌, ◌/◌, ◌%◌, ◌^◌, ltb, leb, ◌==◌, if◌then◌else◌, bit_or, List, [], ◌∷◌,
  Bool, true, false,
}
use quixi_core_xpu.Common.Launch.{Buffer}

-- One term: element `at` of the block of x, times d * scale * (quant - bias) - dmin * minimum. A quant
-- that the source reads as int8 is its byte, with a bias of 256 when it is negative; the scale of
-- q6_K is a byte that stands for an int8, those of q3_K and iq4_xs are taken less 32. In q4_1 and
-- q5_1 a minimum of 1 stands for + m. In iq2_xxs, iq2_xs and iq3_xxs the scale is 0.5 more, and
-- `negative` changes the sign of the term; in iq1_s it is the sign of the delta next to the quant.
pub record Term : Type 0 where
  pub at : ℕ
  pub quant : ℕ
  pub bias : ℕ
  pub scale : ℕ
  pub minimum : ℕ
  pub negative : Bool

-- scale_min_k4: sub-scale and sub-minimum `j` of the 12 bytes at `s`.
unfoldable pub scale_min_k4 : ℕ → Buffer ℕ → ℕ × ℕ
scale_min_k4 j s =
    if ltb j 4
    then (s j % 64, s (j + 4) % 64)
    else (bit_or (s (j + 4) % 16) (s (j - 4) / 64 * 16), bit_or (s (j + 4) / 16) (s j / 64 * 16))

-- for (i = 0; i < n; ++i)
unfoldable pub repeat {ℓ} : {F : Type ℓ} → (ℕ → F → F) → ℕ → F → F
repeat body zero acc = acc
repeat body (suc n) acc = body n (repeat body n acc)

-- A bit of qh adds 16 to a quant of q5_K.
unfoldable pub fifth_bit : ℕ → ℕ → ℕ
fifth_bit byte unit = if byte / unit % 2 == 1 then 16 else 0

-- Two of the eight sub-blocks of q4_K or q5_K: the low and the high nibbles of 32 bytes.
abbrev pub k_term : ℕ → ℕ → ℕ × ℕ → Term
k_term at quant (sc, m) = record {
  at = at;
  quant = quant;
  bias = 0;
  scale = sc;
  minimum = m;
  negative = false;
}

module _ {F : Type 0} (add : Term → F → F) (blk : Buffer ℕ) where
  unfoldable pub q8_0_block : F → F
  unfolding repeat
  q8_0_block acc =
      repeat
        (λ i acc.
          add
            (record {
              at = i;
              quant = blk (2 + i);
              bias = if leb 128 (blk (2 + i)) then 256 else 0;
              scale = 1;
              minimum = 0;
              negative = false;
            })
            acc)
        32 acc

  abbrev pub nibble_term : ℕ → ℕ → Term
  nibble_term at quant = record {
    at = at;
    quant = quant;
    bias = 8;
    scale = 1;
    minimum = 0;
    negative = false;
  }

  unfoldable pub q4_0_block : F → F
  unfolding repeat
  q4_0_block acc =
      repeat
        (λ i acc.
          add (nibble_term (16 + i) (blk (2 + i) / 16))
            (add (nibble_term i (blk (2 + i) % 16)) acc))
        16 acc

  unfoldable pub q4_k_block : F → F
  unfolding repeat scale_min_k4
  q4_k_block acc =
      repeat
        (λ iter acc.
          let low = scale_min_k4 (iter * 2 + 0) (λ i. blk (4 + i)) in
          let high = scale_min_k4 (iter * 2 + 1) (λ i. blk (4 + i)) in
          repeat
            (λ l acc.
              let byte = blk (16 + iter * 32 + l) in
              add (k_term (iter * 64 + 32 + l) (byte / 16) high)
                (add (k_term (iter * 64 + l) (byte % 16) low) acc))
            32 acc)
        4 acc

  unfoldable pub q5_k_block : F → F
  unfolding repeat scale_min_k4 fifth_bit
  q5_k_block acc =
      repeat
        (λ iter acc.
          let low = scale_min_k4 (iter * 2 + 0) (λ i. blk (4 + i)) in
          let high = scale_min_k4 (iter * 2 + 1) (λ i. blk (4 + i)) in
          repeat
            (λ l acc.
              let byte = blk (48 + iter * 32 + l) in
              let qh = blk (16 + l) in
              add (k_term (iter * 64 + 32 + l) (byte / 16 + fifth_bit qh (2 * 4 ^ iter)) high)
                (add (k_term (iter * 64 + l) (byte % 16 + fifth_bit qh (4 ^ iter)) low) acc))
            32 acc)
        4 acc

  -- The term of q6_K for quarter `p` of a half, from the nibble and the two bits of its quant.
  abbrev pub q6_term : ℕ → ℕ → ℕ → ℕ → ℕ → Term
  q6_term half l p nibble high = record {
    at = half * 128 + l + 32 * p;
    quant = bit_or nibble (high % 4 * 16);
    bias = 32;
    scale = blk (192 + half * 8 + (l / 16 + 2 * p));
    minimum = 0;
    negative = false;
  }

  unfoldable pub q6_k_block : F → F
  unfolding repeat
  q6_k_block acc =
      repeat
        (λ half acc.
          repeat
            (λ l acc.
              let ql = blk (half * 64 + l) in
              let ql32 = blk (half * 64 + (l + 32)) in
              let qh = blk (128 + half * 32 + l) in
              add (q6_term half l 3 (ql32 / 16) (qh / 64)) (
                add (q6_term half l 2 (ql / 16) (qh / 16)) (
                  add (q6_term half l 1 (ql32 % 16) (qh / 4))
                    (add (q6_term half l 0 (ql % 16) (qh / 1)) acc))))
            32 acc)
        2 acc

-- kIQ4NL, each entry 127 more.
unfoldable pub iq4_values : List ℕ
iq4_values =
    0 ∷ 23 ∷ 44 ∷ 62 ∷ 78 ∷ 92 ∷ 105 ∷ 117 ∷ 128 ∷ 140 ∷ 152 ∷ 165 ∷ 180 ∷ 196 ∷ 216 ∷ 240 ∷ []

unfoldable pub entry : List ℕ → ℕ → ℕ
entry [] i = 0
entry (v ∷ rest) zero = v
entry (v ∷ rest) (suc i) = entry rest i

unfoldable pub iq4_value : ℕ → ℕ
unfolding iq4_values entry
iq4_value nibble = entry iq4_values nibble

module _ {F : Type 0} (add : Term → F → F) (blk : Buffer ℕ) where
  abbrev pub iq4_term : ℕ → ℕ → Term
  iq4_term at nibble = record {
    at = at;
    quant = iq4_value nibble;
    bias = 127;
    scale = 1;
    minimum = 0;
    negative = false;
  }

  unfoldable pub iq4_nl_block : F → F
  unfolding repeat iq4_value
  iq4_nl_block acc =
      repeat
        (λ j acc.
          add (iq4_term (16 + j) (blk (2 + j) / 16)) (add (iq4_term j (blk (2 + j) % 16)) acc))
        16 acc

  -- A term of q2_K from the shifted byte of its quant and its byte of scale and minimum.
  abbrev pub q2_term : ℕ → ℕ → ℕ → Term
  q2_term at quants scales = record {
    at = at;
    quant = quants % 4;
    bias = 0;
    scale = scales % 16;
    minimum = scales / 16;
    negative = false;
  }

  unfoldable pub q2_k_block : F → F
  unfolding repeat
  q2_k_block acc =
      repeat
        (λ h acc.
          repeat
            (λ j acc.
              repeat
                (λ l acc.
                  let yb = h * 128 + j * 32 in
                  let sc1 = blk (h * 8 + j * 2) in
                  let sc2 = blk (h * 8 + j * 2 + 1) in
                  add (q2_term (yb + 16 + l) (blk (16 + h * 32 + (l + 16)) / 4 ^ j) sc2)
                    (add (q2_term (yb + l) (blk (16 + h * 32 + l) / 4 ^ j) sc1) acc))
                16 acc)
            4 acc)
        2 acc
