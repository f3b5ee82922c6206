-- ===== src/Codec/E4m3.antt =====
-- e4m3_encode and e4m3_decode: the fp8 bytes of the quantized caches.
use quixi_core_xpu.Common.{
  not, ℕ, ◌+◌, ◌-◌, ◌*◌, ◌/◌, ◌%◌, ◌^◌, ◌≤◌, ◌<◌, min, ◌≡◌, ◌≢◌, refl, true, ◌||◌, bit_or, leb,
  ◌==◌, if◌then◌else◌, arith, Bool-cases, inl, inr, dec_le, holds_below, holds_below-at,
}
use quixi_core_xpu.Common.Bits.{bit_or-disjoint}
use quixi_core_xpu.Codec.{
  rounds_up, biased, e4m3_normal, e4m3_subnormal, e4m3_encode, e4m3_decode, fp8_e5m2,
}
use quixi_core_xpu.Codec.Half.{round_half_even}

e4m3_fields :
    (s e k : ℕ) → e < 16 → k < 8 → bit_or (s * 0x80) (bit_or (e * 2 ^ 3) k) ≡ s * 0x80 + e * 8 + k
e4m3_fields s e k he hk =
    rw (bit_or-disjoint 3 e k hk) (omega (arith, bit_or-disjoint 7 s (e * 2 ^ 3 + k) (omega arith)))

e4m3_low : (s k : ℕ) → k < 128 → bit_or (s * 0x80) k ≡ s * 0x80 + k
e4m3_low s k h = bit_or-disjoint 7 s k h

e4m3_normal-round :
    (s b : ℕ)
    → 121 * 2 ^ 23 ≤ b
    → e4m3_normal (s * 0x80) b ≡ s * 0x80 + min 0x7e (round_half_even 20 (b - 120 * 2 ^ 23))
unfolding e4m3_normal round_half_even
e4m3_normal-round s b lo = ground (
  arith,
  e4m3_fields s (b / 2 ^ 23 - 120 + 0) (b % 2 ^ 23 / 2 ^ 20),
  e4m3_fields s (b / 2 ^ 23 - 120 + 0) (b % 2 ^ 23 / 2 ^ 20 + 1),
  e4m3_fields s (b / 2 ^ 23 - 120 + 1) 0,
  e4m3_low s 0x7e,
)

-- 0x43e00000 is 448, which is 0x7e.
round-saturates : (b : ℕ) → 0x43e00000 ≤ b → 0x7e ≤ round_half_even 20 (b - 120 * 2 ^ 23)
unfolding round_half_even
round-saturates b h = ground arith

-- A float from 2^-6 to 448 in magnitude becomes the e4m3 byte nearest to it, ties to even: its
-- pattern, with the exponent rebiased by 120, rounded from 23 to 3 bits of fraction. Above 448,
-- infinity included, the byte is that of 448. The sign is kept.
pub e4m3_encode-round :
    (x : ℕ)
    → x < 2 ^ 32
    → 121 * 2 ^ 23 ≤ x % 2 ^ 31
    → x % 2 ^ 31 ≤ 0x7f800000
    → e4m3_encode x ≡ x / 2 ^ 31 * 0x80 + min 0x7e (round_half_even 20 (x % 2 ^ 31 - 120 * 2 ^ 23))
unfolding e4m3_encode
e4m3_encode-round x fits lo hi =
    let sign : x / 2 ^ 31 % 2 ≡ x / 2 ^ 31 = omega arith in
    rw sign (
      ground (
        arith,
        e4m3_normal-round (x / 2 ^ 31) (x % 2 ^ 31) lo,
        round-saturates (x % 2 ^ 31),
        e4m3_low (x / 2 ^ 31) 0x7e,
      ))

e4m3_subnormal-low : (s b : ℕ) → (k : ℕ) × (k ≤ 8) × (e4m3_subnormal (s * 0x80) b ≡ s * 0x80 + k)
unfolding e4m3_subnormal
e4m3_subnormal-low s b = elim (Bool-cases (leb 8 kept)) [
  | inl large ↦ (8, omega arith, rw large (e4m3_low s 8 (omega arith)))
  | inr small ↦ (kept, ground arith, rw small (e4m3_low s kept (ground arith)))
]
  where
    sig : ℕ
    sig = 0x800000 + b % 2 ^ 23

    shift : ℕ
    shift = 141 - biased b

    kept : ℕ
    kept =
        if rounds_up (sig / 2 ^ shift) (sig % 2 ^ shift) (2 ^ (shift - 1))
        then sig / 2 ^ shift + 1
        else sig / 2 ^ shift

-- A float that is no NaN never becomes one of the two NaN bytes, 0x7f and 0xff, however large it
-- is, and its sign becomes the byte's.
pub e4m3_encode-finite :
    (x : ℕ)
    → x < 2 ^ 32
    → x % 2 ^ 31 ≤ 0x7f800000
    → (e4m3_encode x % 0x80 ≤ 0x7e) × (e4m3_encode x / 0x80 ≡ x / 2 ^ 31)
e4m3_encode-finite x fits number = elim (dec_le (121 * 2 ^ 23) (x % 2 ^ 31)) [
  | yes normal ↦ rw (e4m3_encode-round x fits normal number) (omega arith)
  | no tiny ↦ small tiny
]
  where
    small :
        ¬ (121 * 2 ^ 23 ≤ x % 2 ^ 31)
        → (e4m3_encode x % 0x80 ≤ 0x7e) × (e4m3_encode x / 0x80 ≡ x / 2 ^ 31)
    small tiny =
        let sign : x / 2 ^ 31 % 2 ≡ x / 2 ^ 31 = omega arith in
        let (k, low, e) = e4m3_subnormal-low (x / 2 ^ 31) (x % 2 ^ 31) in
        unfold e4m3_encode in rw sign (ground arith)

bytes_survive : holds_below (λ b. b % 0x80 == 0x7f || e4m3_encode (e4m3_decode b) == b) 256 ≡ true
unfolding holds_below e4m3_encode e4m3_normal e4m3_subnormal e4m3_decode
bytes_survive = refl

-- Every e4m3 byte but the two NaNs survives decoding and encoding.
pub e4m3_encode-decode : (b : ℕ) → b < 256 → b % 0x80 ≢ 0x7f → e4m3_encode (e4m3_decode b) ≡ b
e4m3_encode-decode b fits number = ground (arith, holds_below-at _ 256 b bytes_survive fits)

formats_differ :
    holds_below (λ b. b % 0x40 == 0 || (b % 0x80 == 0x7f || not (e4m3_decode b == fp8_e5m2 b))) 256
    ≡ true
unfolding holds_below e4m3_decode fp8_e5m2
formats_differ = refl

-- A byte that is not 0 or 2 in magnitude, and no NaN of e4m3, means one number in e4m3 and
-- another in e5m2.
pub e4m3_decode-ne-fp8_e5m2 :
    (b : ℕ) → b < 256 → b % 0x40 ≢ 0 → b % 0x80 ≢ 0x7f → e4m3_decode b ≢ fp8_e5m2 b
e4m3_decode-ne-fp8_e5m2 b fits nonzero number =
    ground (arith, holds_below-at _ 256 b formats_differ fits)
