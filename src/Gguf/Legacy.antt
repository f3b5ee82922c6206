-- ===== src/Gguf/Legacy.antt =====
-- The blocks of q3_K, of the older formats with a minimum or a fifth bit, and of iq4_xs:
-- kernels/quantization/gguf_gemv/variants/xpu_sycl/gguf_gemv.sycl.cpp.
use quixi_core_xpu.Common.{
  ℕ, ◌+◌, ◌*◌, ◌/◌, ◌%◌, ◌^◌, ◌==◌, Bool, false, if◌then◌else◌, bit_and, bit_or,
}
use quixi_core_xpu.Common.Launch.{Buffer}
use quixi_core_xpu.Gguf.{Term, repeat, iq4_value}

-- rd_u32 of the bytes at `p`: each is shifted into a byte of its own.
unfoldable pub rd_u32 : Buffer ℕ → ℕ → ℕ
rd_u32 p o =
    bit_or (bit_or (bit_or (p o) (p (o + 1) * 2 ^ 8)) (p (o + 2) * 2 ^ 16)) (p (o + 3) * 2 ^ 24)

-- The four words of scales of q3_K, from the twelve bytes at `sc`.
abbrev pub kmask1 : ℕ
kmask1 = 0x03030303

abbrev pub kmask2 : ℕ
kmask2 = 0x0f0f0f0f

unfoldable pub aux : Buffer ℕ → ℕ → ℕ
unfolding rd_u32
aux sc i =
    let a0 = rd_u32 sc 0 in
    let a1 = rd_u32 sc 4 in
    let tmp = rd_u32 sc 8 in
    if i == 0
    then bit_or (bit_and a0 kmask2) (bit_and tmp kmask1 * 16)
    else if i == 1
    then bit_or (bit_and a1 kmask2) (bit_and (tmp / 4) kmask1 * 16)
    else if i == 2
    then bit_or (bit_and (a0 / 16) kmask2) (bit_and (tmp / 16) kmask1 * 16)
    else bit_or (bit_and (a1 / 16) kmask2) (bit_and (tmp / 64) kmask1 * 16)

-- scl
unfoldable pub scl : Buffer ℕ → ℕ → ℕ
unfolding aux
scl sc i = aux sc (i / 4) / 2 ^ (8 * (i % 4)) % 256

module _ {F : Type 0} (add : Term → F → F) (blk : Buffer ℕ) where
  -- A term of q3_K from the byte of its quant, the byte of hmask and the number of its bit.
  abbrev pub q3_term : ℕ → ℕ → ℕ → ℕ → ℕ → ℕ → Term
  q3_term at quants j high bit scale = record {
    at = at;
    quant = quants / 4 ^ j % 4;
    bias = if high / 2 ^ bit % 2 == 1 then 0 else 4;
    scale = scale;
    minimum = 0;
    negative = false;
  }

  unfoldable pub q3_k_block : F → F
  unfolding repeat scl
  q3_k_block acc =
      repeat
        (λ h acc.
          repeat
            (λ j acc.
              repeat
                (λ l acc.
                  let is = h * 8 + j * 2 in
                  let yb = h * 128 + j * 32 in
                  let sc : Buffer ℕ = λ i. blk (96 + i) in
                  add
                    (q3_term (yb + 16 + l) (blk (32 + h * 32 + (l + 16))) j (blk (l + 16))
                      (h * 4 + j) (scl sc (is + 1)))
                    (add
                      (q3_term (yb + l) (blk (32 + h * 32 + l)) j (blk l) (h * 4 + j) (scl sc is))
                      acc))
                16 acc)
            4 acc)
        2 acc

  abbrev pub affine_term : ℕ → ℕ → ℕ → ℕ → Term
  affine_term at quant bias minimum = record {
    at = at;
    quant = quant;
    bias = bias;
    scale = 1;
    minimum = minimum;
    negative = false;
  }

  unfoldable pub q4_1_block : F → F
  unfolding repeat
  q4_1_block acc =
      repeat
        (λ j acc.
          add (affine_term (16 + j) (blk (4 + j) / 16) 0 1)
            (add (affine_term j (blk (4 + j) % 16) 0 1) acc))
        16 acc

  -- q5_1 where `affine` holds, and q5_0.
  unfoldable pub q5_block : Bool → F → F
  unfolding repeat rd_u32
  q5_block affine acc =
      let qh = rd_u32 blk (if affine then 4 else 2) in
      let qs = if affine then 8 else 6 in
      let bias = if affine then 0 else 16 in
      let minimum = if affine then 1 else 0 in
      repeat
        (λ j acc.
          let xh0 = bit_and (qh / 2 ^ j * 16) 0x10 in
          let xh1 = bit_and (qh / 2 ^ (j + 12)) 0x10 in
          add (affine_term (16 + j) (bit_or (blk (qs + j) / 16) xh1) bias minimum)
            (add (affine_term j (bit_or (blk (qs + j) % 16) xh0) bias minimum) acc))
        16 acc

  -- A term of iq4_xs from its nibble and the scale of its sub-block.
  abbrev pub iq4_xs_term : ℕ → ℕ → ℕ → Term
  iq4_xs_term at nibble ls = record {
    at = at;
    quant = iq4_value nibble;
    bias = 127;
    scale = ls;
    minimum = 0;
    negative = false;
  }

  -- ls of sub-block `ib`.
  abbrev pub iq4_xs_scale : ℕ → ℕ
  iq4_xs_scale ib =
      let scales_h = bit_or (blk 2) (blk 3 * 2 ^ 8) in
      bit_or (blk (4 + ib / 2) / 2 ^ (4 * (ib % 2)) % 16) (scales_h / 2 ^ (2 * ib) % 4 * 16)

  unfoldable pub iq4_xs_block : F → F
  unfolding repeat iq4_value
  iq4_xs_block acc =
      repeat
        (λ ib acc.
          let ls = iq4_xs_scale ib in
          repeat
            (λ j acc.
              let byte = blk (8 + ib * 16 + j) in
              let yb = ib * 32 in
              add (iq4_xs_term (yb + 16 + j) (byte / 16) ls)
                (add (iq4_xs_term (yb + j) (byte % 16) ls) acc))
            16 acc)
        8 acc
