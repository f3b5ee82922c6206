-- ===== src/Serving/Formats.antt =====
-- The format in which kv_cache_scatter_paged writes a cell, and in which paged attention reads it.
use quixi_core_xpu.Common.{ℕ, ◌%◌, ◌^◌, ◌≤◌, ◌<◌, ◌≡◌, ◌≢◌, refl, sym, Option, some, arith}
use quixi_core_xpu.Codec.{e4m3_encode, e4m3_decode, fp8_e5m2 as e5m2_value}
use quixi_core_xpu.Codec.E4m3.{e4m3_encode-finite, e4m3_decode-ne-fp8_e5m2}
use quixi_core_xpu.Serving.{FloatUnit, scale_or_one, fp8_e5m2, kv_at, scatter_encode}

module _ {T : Type 0} (u : FloatUnit T) (scale : Option ℕ) (x : T) where
  -- An element divided by the scale.
  abbrev pub quotient : ℕ
  quotient = u.divide (u.to_float x) (scale_or_one scale)

  -- With fp8_e5m2 the cache is written in e4m3 too, but read as e5m2: what attention multiplies
  -- by the scale is not what the byte encodes, for every quotient that is a number and whose byte
  -- is not of magnitude 0 or 2.
  pub fp8_e5m2-misread :
      quotient < 2 ^ 32
      → quotient % 2 ^ 31 ≤ 0x7f800000
      → e4m3_encode quotient % 0x40 ≢ 0
      → (kv_at u scale fp8_e5m2 (scatter_encode u scale fp8_e5m2 x)
          ≡ some (u.multiply (e5m2_value (e4m3_encode quotient)) (scale_or_one scale)))
        × (e5m2_value (e4m3_encode quotient) ≢ e4m3_decode (e4m3_encode quotient))
  unfolding kv_at scatter_encode
  fp8_e5m2-misread fits number nonzero =
      let (finite, sign) = e4m3_encode-finite quotient fits number in
      (
        refl,
        λ e.
            e4m3_decode-ne-fp8_e5m2 (e4m3_encode quotient) (omega (arith, finite, sign)) nonzero
              (omega (arith, finite)) (sym e),
      )
