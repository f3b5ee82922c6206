-- ===== src/Codec/Half.antt =====
-- f32_to_f16_bits and f16_bits_to_f32: the manual conversions that the codec rests on.
use quixi_core_xpu.Common.{
  holds_below, holds_below-at, ℕ, ◌+◌, ◌-◌, ◌*◌, ◌/◌, ◌%◌, ◌^◌, ◌≤◌, ◌<◌, min, ◌≡◌, ◌≢◌, refl, ◌∙◌,
  true, ◌&&◌, bit_or, ◌==◌, if◌then◌else◌, arith, ◌⊎◌, inl, inr,
}
use quixi_core_xpu.Common.Bits.{bit_or-disjoint}
use quixi_core_xpu.Codec.{ltb, f16_normal, f32_to_f16_bits, f16_bits_to_f32}

-- x / 2 ^ k rounded to the nearest integer, and to the even one from half way.
unfoldable pub round_half_even : ℕ → ℕ → ℕ
round_half_even k x =
    let below = x / 2 ^ k in
    let rest = x % 2 ^ k in
    if ltb (2 * rest) (2 ^ k)
    then below
    else if ltb (2 ^ k) (2 * rest)
    then below + 1
    else below + below % 2

-- The three fields of a half do not overlap.
f16_fields :
    (s e k : ℕ)
    → e < 32
    → k < 1024
    → bit_or (bit_or (s * 0x8000) (e * 2 ^ 10)) k ≡ s * 0x8000 + e * 1024 + k
f16_fields s e k he hk =
    let high : bit_or (s * 0x8000) (e * 2 ^ 10) ≡ (s * 32 + e) * 2 ^ 10 =
      omega (arith, bit_or-disjoint 15 s (e * 2 ^ 10) (omega arith)) in
    rw high (omega (arith, bit_or-disjoint 10 (s * 32 + e) k hk))

f16_infinity : (s : ℕ) → bit_or (s * 0x8000) 0x7c00 ≡ s * 0x8000 + 0x7c00
f16_infinity s = bit_or-disjoint 15 s 0x7c00 (omega arith)

pub f16_normal-round :
    (s b : ℕ)
    → 113 * 2 ^ 23 ≤ b
    → f16_normal (s * 0x8000) b ≡ s * 0x8000 + min 0x7c00 (round_half_even 13 (b - 112 * 2 ^ 23))
unfolding f16_normal round_half_even
f16_normal-round s b lo = ground (
  arith,
  f16_fields s (b / 2 ^ 23 - 112) (b % 2 ^ 23 / 2 ^ 13),
  f16_fields s (b / 2 ^ 23 - 112) (b % 2 ^ 23 / 2 ^ 13 + 1),
  f16_fields s (b / 2 ^ 23 - 112 + 0) (b % 2 ^ 23 / 2 ^ 13),
  f16_fields s (b / 2 ^ 23 - 112 + 0) (b % 2 ^ 23 / 2 ^ 13 + 1),
  f16_fields s (b / 2 ^ 23 - 112 + 1) 0,
  f16_infinity s,
)

-- A finite float that is at least 2^-14 in magnitude becomes the half nearest to it, ties to even:
-- its pattern, with the exponent rebiased by 112, rounded from 23 to 10 bits of fraction, and
-- infinity from 0x7c00 on. The sign is kept.
pub f32_to_f16_bits-round :
    (x : ℕ)
    → x < 2 ^ 32
    → 113 * 2 ^ 23 ≤ x % 2 ^ 31
    → x % 2 ^ 31 < 0x7f800000
    → f32_to_f16_bits x
      ≡ x / 2 ^ 31 * 0x8000 + min 0x7c00 (round_half_even 13 (x % 2 ^ 31 - 112 * 2 ^ 23))
unfolding f32_to_f16_bits
f32_to_f16_bits-round x fits lo hi =
    let sign : x / 2 ^ 31 % 2 ≡ x / 2 ^ 31 = omega arith in
    rw sign (ground (arith, f16_normal-round (x / 2 ^ 31) (x % 2 ^ 31) lo))

-- f16_bits_to_f32 by its fields, at a normal half.
f16_bits_to_f32-normal :
    (s e m : ℕ)
    → s < 2
    → 0 < e
    → e < 31
    → m < 1024
    → f16_bits_to_f32 (s * 0x8000 + e * 1024 + m) ≡ s * 2 ^ 31 + (e + 112) * 2 ^ 23 + m * 2 ^ 13
unfolding f16_bits_to_f32
f16_bits_to_f32-normal s e m hs pos he hm =
    let s' : (s * 0x8000 + e * 1024 + m) / 2 ^ 15 % 2 ≡ s = omega arith in
    let e' : (s * 0x8000 + e * 1024 + m) / 2 ^ 10 % 32 ≡ e = omega arith in
    let m' : (s * 0x8000 + e * 1024 + m) % 2 ^ 10 ≡ m = omega arith in
    rw (s', e', m') (ground (arith, bit_or-disjoint 31 s ((e + 112) * 2 ^ 23) (omega arith), high))
  where
    high :
        bit_or (s * 2 ^ 31 + (e + 112) * 2 ^ 23) (m * 2 ^ 13)
        ≡ s * 2 ^ 31 + (e + 112) * 2 ^ 23 + m * 2 ^ 13
    high =
        let sum : s * 2 ^ 31 + (e + 112) * 2 ^ 23 ≡ (s * 256 + e + 112) * 2 ^ 23 = omega arith in
        rw sum (bit_or-disjoint 23 (s * 256 + e + 112) (m * 2 ^ 13) (omega arith))

-- The halves below 2^-14, both zeros and both signs, by evaluation.
small_halves :
    holds_below
      (λ m.
        f32_to_f16_bits (f16_bits_to_f32 m) == m
        && f32_to_f16_bits (f16_bits_to_f32 (m + 0x8000)) == m + 0x8000)
      1024
    ≡ true
unfolding holds_below f32_to_f16_bits f16_bits_to_f32
small_halves = refl

abbrev pub IsHalfNan : ℕ → Type 0
IsHalfNan h = (h / 2 ^ 10 % 32 ≡ 31) × (h % 2 ^ 10 ≢ 0)

normal_trip :
    (s e m : ℕ)
    → s < 2
    → 0 < e
    → e < 31
    → m < 1024
    → f32_to_f16_bits (f16_bits_to_f32 (s * 0x8000 + e * 1024 + m)) ≡ s * 0x8000 + e * 1024 + m
normal_trip s e m hs pos he hm =
    let x = s * 2 ^ 31 + (e + 112) * 2 ^ 23 + m * 2 ^ 13 in
    rw (f16_bits_to_f32-normal s e m hs pos he hm) (
      f32_to_f16_bits-round x (omega arith) (omega arith) (omega arith)
      ∙ unfold round_half_even in ground arith)

small_trip : (h : ℕ) → h < 2 ^ 16 → h / 2 ^ 10 % 32 ≡ 0 → f32_to_f16_bits (f16_bits_to_f32 h) ≡ h
small_trip h fits zero_exponent =
    let m = h % 2 ^ 10 in
    let both = holds_below-at _ 1024 m small_halves (omega arith) in
    elim (sign_cases h fits zero_exponent) [
      | inl plus ↦ rw plus (ground (arith, both))
      | inr minus ↦ rw minus (ground (arith, both))
    ]
  where
    sign_cases :
        (h : ℕ) → h < 2 ^ 16 → h / 2 ^ 10 % 32 ≡ 0 → (h ≡ h % 2 ^ 10) ⊎ (h ≡ h % 2 ^ 10 + 0x8000)
    sign_cases h p q = omega arith

kind :
    (h : ℕ)
    → (h / 2 ^ 10 % 32 ≡ 0)
      ⊎ (((0 < h / 2 ^ 10 % 32) × (h / 2 ^ 10 % 32 < 31)) ⊎ (h / 2 ^ 10 % 32 ≡ 31))
kind h = ground arith

infinities :
    (h : ℕ) → h < 2 ^ 16 → h / 2 ^ 10 % 32 ≡ 31 → ¬ IsHalfNan h → (h ≡ 0x7c00) ⊎ (h ≡ 0xfc00)
infinities h p q r = ground arith

-- Every half but the NaNs survives the trip through fp32 and back, bit for bit.
pub f16-f32-f16 : (h : ℕ) → h < 2 ^ 16 → ¬ IsHalfNan h → f32_to_f16_bits (f16_bits_to_f32 h) ≡ h
f16-f32-f16 h fits number =
    let s = h / 2 ^ 15 in
    let e = h / 2 ^ 10 % 32 in
    let m = h % 2 ^ 10 in
    let fields : s * 0x8000 + e * 1024 + m ≡ h = omega arith in
    elim (kind h) [
      | inl small ↦ small_trip h fits small
      | inr (inl (pos, finite)) ↦
          rw (← fields) (normal_trip s e m (omega arith) pos finite (omega arith))
      | inr (inr top) ↦ elim (infinities h fits top number) [
        | inl plus ↦ rw plus (unfold f32_to_f16_bits f16_bits_to_f32 in refl)
        | inr minus ↦ rw minus (unfold f32_to_f16_bits f16_bits_to_f32 in refl)
      ]
    ]
