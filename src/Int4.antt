-- ===== src/Int4.antt =====
-- The int4 weights: kernels/quantization/quantize/variants/xpu_sycl/quantize.sycl.cpp packs them,
-- kernels/quantization/qgemv/variants/xpu_sycl/qgemv.sycl.cpp multiplies with them. The float operations
-- are an argument; of a term of the product, the element, the int4 and the scale are data.
pub mod Stores
pub mod Quantize
pub mod Gemv
pub mod RoundTrip
mod Tests
use quixi_core_xpu.Common.{ℕ, ◌+◌, ◌-◌, ◌*◌, ◌/◌, ◌%◌, ◌^◌, min, leb, ◌==◌, if◌then◌else◌, bit_or}
use quixi_core_xpu.Common.Int.{ℤ, pos, negsuc}
use quixi_core_xpu.Common.Launch.{Buffer, store}
use quixi_core_xpu.Gguf.{repeat}
use quixi_core_xpu.Gguf.Formats.{lane_loop}

-- Sign-extend a 4-bit two's-complement nibble.
unfoldable pub s4 : ℕ → ℤ
s4 nibble = if leb 8 nibble then negsuc (15 - nibble) else pos nibble

-- max(-8, min(7, q))
unfoldable pub clamp4 : ℤ → ℤ
clamp4 (pos n) = pos (min 7 n)
clamp4 (negsuc n) = negsuc (min 7 n)

-- q & 0xF
unfoldable pub low4 : ℤ → ℕ
low4 (pos n) = n % 16
low4 (negsuc n) = 15 - n % 16

-- The byte of two clamped integers.
unfoldable pub packed_byte : ℤ → ℤ → ℕ
packed_byte q0 q1 = bit_or (low4 q0) (low4 q1 * 2 ^ 4) % 256

-- The float operations of the quantization: amax = max(amax, |x|), the scale of a group's maximum, its
-- inverse, the conversion to half_t, and the rounded product of an element and an inverse.
pub record QuantUnit (T F H : Type 0) : Type 0 where
  pub start : F
  pub max_abs : F → T → F
  pub scale_of : F → F
  pub inverse : F → F
  pub to_half : F → H
  pub rounded : T → F → ℤ

-- What the kernel writes.
pub record Weights (H : Type 0) : Type 0 where
  pub bytes : Buffer ℕ
  pub scales : Buffer H

module _ {T F H : Type 0} (u : QuantUnit T F H) (w : Buffer T) (k_cols group width : ℕ) where
  -- The scale of the group at `base`, read in vectors of `width`.
  unfoldable pub group_scale : ℕ → F
  unfolding repeat
  group_scale base = u.scale_of (
      repeat (λ v amax. repeat (λ k amax. u.max_abs amax (w (base + (v * width + k)))) width amax)
        (group / width) u.start)

  -- One work-item: a group of a row.
  unfoldable pub quantize_item : ℕ → Weights H → Weights H
  unfolding repeat group_scale clamp4 packed_byte
  quantize_item t mem =
      let gpr = k_cols / group in
      let n = t / gpr in
      let g = t % gpr in
      let base = n * k_cols + g * group in
      let scale = group_scale base in
      let inv = u.inverse scale in
      let byte0 = n * (k_cols / 2) + g * group / 2 in
      let quant : ℕ → ℤ = λ i. clamp4 (u.rounded (w (base + i)) inv) in
      record mem {
        scales = store mem.scales (n * gpr + g) (u.to_half scale);
        bytes =
            repeat
              (λ v m.
                repeat
                  (λ i m.
                    store m (byte0 + (v * width + 2 * i) / 2)
                      (packed_byte (quant (v * width + 2 * i)) (quant (v * width + (2 * i + 1)))))
                  (width / 2) m)
              (group / width) mem.bytes;
      }

-- A little-endian word of four bytes.
unfoldable pub word_at : Buffer ℕ → ℕ → ℕ
word_at w o = w o + 256 * (w (o + 1) + 256 * (w (o + 2) + 256 * w (o + 3)))

module _ {H F : Type 0} (add : ℕ → ℤ → H → F → F) (w : Buffer ℕ) (srow : Buffer H) (group : ℕ) where
  -- Sixteen bytes: 32 elements.
  unfoldable pub gemv_chunk : ℕ → F → F
  unfolding repeat word_at s4
  gemv_chunk c acc =
      let kbase = c * 32 in
      repeat
        (λ wi acc.
          let word = word_at w (c * 16 + wi * 4) in
          let s =
            if group % 32 == 0 then srow (kbase / group) else srow ((kbase + wi * 8) / group) in
          repeat (λ nib acc. add (kbase + wi * 8 + nib) (s4 (word / 2 ^ (nib * 4) % 16)) s acc) 8
            acc)
        4 acc

  -- A byte past the last whole chunk.
  unfoldable pub gemv_tail : ℕ → F → F
  unfolding s4
  gemv_tail b acc =
      let k0 = 2 * b in
      let sc = srow (k0 / group) in
      add (k0 + 1) (s4 (w b / 16 % 16)) sc (add k0 (s4 (w b % 16)) sc acc)

  -- acc of a lane.
  unfoldable pub gemv_lane : F → ℕ → ℕ → F
  unfolding lane_loop gemv_chunk gemv_tail
  gemv_lane zero_acc bytes_per_row lane =
      let nchunks = bytes_per_row / 16 in
      lane_loop gemv_tail bytes_per_row bytes_per_row (nchunks * 16 + lane)
        (lane_loop gemv_chunk nchunks nchunks lane zero_acc)
