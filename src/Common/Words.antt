-- ===== src/Common/Words.antt =====
-- Words of bytes: what `|`, `&` and the shifts do to each byte of a word.
use Prim.Native.Nat.{
  ℕ, zero, suc, ◌+◌, ◌*◌, ◌/◌, ◌%◌, ◌^◌, ◌≤◌, ◌<◌, bit_and, bit_or, bit_or-bitwise,
}
use mathlib.Core.Path.{◌≡◌, ap, ap₂}
use native.Mathlib.Nat.{pow-zero, le_refl}
use native.Mathlib.Omega.{arith}
use quixi_core_xpu.Common.Bits.{bit_or-halves, bit_and-halves, bit_or-zero, mul-pow-suc}

-- Two numbers of `w` low digits each, with any digits above them.
pub bit_or-join :
    (w a b c d : ℕ)
    → a < 2 ^ w
    → c < 2 ^ w
    → bit_or (b * 2 ^ w + a) (d * 2 ^ w + c) ≡ bit_or b d * 2 ^ w + bit_or a c
bit_or-join zero a b c d p q =
    let e : a ≡ 0 = omega (arith, pow-zero 2, p) in
    let f : c ≡ 0 = omega (arith, pow-zero 2, q) in
    let g : b * 2 ^ 0 + 0 ≡ b = omega arith in
    let h : d * 2 ^ 0 + 0 ≡ d = omega arith in rw (e, f, g, h) (omega (arith, bit_or-zero 0))
bit_or-join (suc w) a b c d p q =
    let e : (b * 2 ^ suc w + a) / 2 ≡ b * 2 ^ w + a / 2 = omega (arith, mul-pow-suc b w) in
    let f : (d * 2 ^ suc w + c) / 2 ≡ d * 2 ^ w + c / 2 = omega (arith, mul-pow-suc d w) in
    omega (
      arith,
      bit_or-halves (b * 2 ^ suc w + a) (d * 2 ^ suc w + c),
      bit_or-halves a c,
      ap₂ bit_or e f,
      bit_or-join w (a / 2) b (c / 2) d (omega (arith, p)) (omega (arith, q)),
      mul-pow-suc b w,
      mul-pow-suc d w,
      mul-pow-suc (bit_or b d) w,
    )

pub bit_and-join :
    (w a b c d : ℕ)
    → a < 2 ^ w
    → c < 2 ^ w
    → bit_and (b * 2 ^ w + a) (d * 2 ^ w + c) ≡ bit_and b d * 2 ^ w + bit_and a c
bit_and-join zero a b c d p q =
    let e : a ≡ 0 = omega (arith, pow-zero 2, p) in
    let f : c ≡ 0 = omega (arith, pow-zero 2, q) in
    let g : b * 2 ^ 0 + 0 ≡ b = omega arith in
    let h : d * 2 ^ 0 + 0 ≡ d = omega arith in rw (e, f, g, h) (omega (arith, bit_and-halves 0 0))
bit_and-join (suc w) a b c d p q =
    let e : (b * 2 ^ suc w + a) / 2 ≡ b * 2 ^ w + a / 2 = omega (arith, mul-pow-suc b w) in
    let f : (d * 2 ^ suc w + c) / 2 ≡ d * 2 ^ w + c / 2 = omega (arith, mul-pow-suc d w) in
    omega (
      arith,
      bit_and-halves (b * 2 ^ suc w + a) (d * 2 ^ suc w + c),
      bit_and-halves a c,
      ap₂ bit_and e f,
      bit_and-join w (a / 2) b (c / 2) d (omega (arith, p)) (omega (arith, q)),
      mul-pow-suc b w,
      mul-pow-suc d w,
      mul-pow-suc (bit_and b d) w,
    )

zero-bit_or : (a : ℕ) → bit_or 0 a ≡ a
zero-bit_or a = simp bit_or-bitwise

and_zero_upto : (n a : ℕ) → a ≤ n → bit_and a 0 ≡ 0
and_zero_upto zero a h = let e : a ≡ 0 = omega arith in rw e (omega (arith, bit_and-halves 0 0))
and_zero_upto (suc n) zero h = omega (arith, bit_and-halves 0 0)
and_zero_upto (suc n) (suc a) h =
    omega (arith, bit_and-halves (suc a) 0, and_zero_upto n (suc a / 2) (omega arith))

pub bit_and-zero : (a : ℕ) → bit_and a 0 ≡ 0
bit_and-zero a = and_zero_upto a a (le_refl a)

-- Low digits, and a number shifted past them.
pub bit_or-shl : (w a d : ℕ) → a < 2 ^ w → bit_or a (d * 2 ^ w) ≡ d * 2 ^ w + a
bit_or-shl w a d p =
    let e : 0 * 2 ^ w + a ≡ a = omega arith in
    let f : d * 2 ^ w + 0 ≡ d * 2 ^ w = omega arith in
    omega (
      arith,
      bit_or-join w a 0 0 d p (omega (arith, p)),
      ap₂ bit_or e f,
      zero-bit_or d,
      ap (λ (t : ℕ). t * 2 ^ w) (zero-bit_or d),
      bit_or-zero a,
    )

pub low_one : (a : ℕ) → bit_and a 1 ≡ a % 2
low_one a = omega (arith, bit_and-halves a 1, bit_and-zero (a / 2))

pub low_two : (a : ℕ) → bit_and a 3 ≡ a % 4
low_two a = omega (arith, bit_and-halves a 3, bit_and-halves (a / 2) 1, bit_and-zero (a / 2 / 2))

pub low_four : (a : ℕ) → bit_and a 15 ≡ a % 16
low_four a = omega (arith, bit_and-halves a 15, bit_and-halves (a / 2) 7, low_two (a / 2 / 2))

pub fifth_digit : (a : ℕ) → bit_and a 16 ≡ a / 16 % 2 * 16
fifth_digit a = omega (
  arith,
  bit_and-halves a 16,
  bit_and-halves (a / 2) 8,
  bit_and-halves (a / 2 / 2) 4,
  bit_and-halves (a / 2 / 2 / 2) 2,
  bit_and-halves (a / 2 / 2 / 2 / 2) 1,
  bit_and-zero (a / 2 / 2 / 2 / 2 / 2),
)

-- A word from its bytes, the lowest first.
abbrev pub bytes4 : ℕ → ℕ → ℕ → ℕ → ℕ
bytes4 a b c d = ((d * 2 ^ 8 + c) * 2 ^ 8 + b) * 2 ^ 8 + a

module _ (a b c d : ℕ) (p : a < 256) (q : b < 256) (r : c < 256) where
  -- The shifts and the `|` that put bytes together.
  pub bytes4-shifts :
      bit_or (bit_or (bit_or a (b * 2 ^ 8)) (c * 2 ^ 16)) (d * 2 ^ 24) ≡ bytes4 a b c d
  bytes4-shifts =
      let low = bit_or-shl 8 a b (omega (arith, p)) in
      let next = bit_or-shl 16 (bit_or a (b * 2 ^ 8)) c (omega (arith, low, p, q)) in
      let top =
        bit_or-shl 24 (bit_or (bit_or a (b * 2 ^ 8)) (c * 2 ^ 16)) d
          (omega (arith, next, low, p, q, r)) in
      omega (arith, low, next, top)

  module _ (e f g h : ℕ) (s : e < 256) (t : f < 256) (u : g < 256) where
    pub bytes4-bit_or :
        bit_or (bytes4 a b c d) (bytes4 e f g h)
        ≡ bytes4 (bit_or a e) (bit_or b f) (bit_or c g) (bit_or d h)
    bytes4-bit_or = omega (
      arith,
      bit_or-join 8 a ((d * 2 ^ 8 + c) * 2 ^ 8 + b) e ((h * 2 ^ 8 + g) * 2 ^ 8 + f) p s,
      bit_or-join 8 b (d * 2 ^ 8 + c) f (h * 2 ^ 8 + g) q t,
      bit_or-join 8 c d g h r u,
    )

    pub bytes4-bit_and :
        bit_and (bytes4 a b c d) (bytes4 e f g h)
        ≡ bytes4 (bit_and a e) (bit_and b f) (bit_and c g) (bit_and d h)
    bytes4-bit_and = omega (
      arith,
      bit_and-join 8 a ((d * 2 ^ 8 + c) * 2 ^ 8 + b) e ((h * 2 ^ 8 + g) * 2 ^ 8 + f) p s,
      bit_and-join 8 b (d * 2 ^ 8 + c) f (h * 2 ^ 8 + g) q t,
      bit_and-join 8 c d g h r u,
    )
