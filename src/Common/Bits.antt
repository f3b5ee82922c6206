-- ===== src/Common/Bits.antt =====
-- The binary digits of a number: what `|`, `&`, the shifts and the casts to narrower words do to
-- each of them, at every width.
use Prim.Native.Nat.{
  ℕ, zero, suc, ◌+◌, ◌*◌, ◌/◌, ◌%◌, ◌^◌, ◌≤◌, ◌<◌, min, max, bit_and, bit_or, digits,
  bit_and-bitwise, bit_or-bitwise,
}
use mathlib.Core.Path.{◌≡◌, refl, sym, ap, ◌∙◌}
use native.Mathlib.Nat.{
  pow-zero, pow-suc, mul-one, add-zero, div-one, div-div-eq-div-mul, le_refl, add-suc, pow-succ',
  mod-zero, div-add-mod, mod-lt, mod-eq_of_lt, mul-add-mod_self_left,
}
use native.Mathlib.Omega.{arith}

-- Digit `k` of `x`, 0 or 1.
unfoldable pub testbit : ℕ → ℕ → ℕ
testbit x zero = x % 2
testbit x (suc k) = testbit (x / 2) k

module _ (rest : ℕ → ℕ) (join : ℕ → ℕ → ℕ) where
  -- Any two amounts of fuel that the number does not use up give one result.
  fuel_agree : (m n x y : ℕ) → x ≤ m → x ≤ n → digits rest join m x y ≡ digits rest join n x y
  fuel_agree zero zero x y p q = refl
  fuel_agree zero (suc n) zero y p q = refl
  fuel_agree zero (suc n) (suc x) y p q = absurd (omega arith)
  fuel_agree (suc m) zero zero y p q = refl
  fuel_agree (suc m) zero (suc x) y p q = absurd (omega arith)
  fuel_agree (suc m) (suc n) zero y p q = refl
  fuel_agree (suc m) (suc n) (suc x) y p q =
      let half_fits : suc x / 2 ≤ x = omega arith in
      ap (λ t. t * 2 + join (suc x % 2) (y % 2))
        (fuel_agree m n (suc x / 2) (y / 2) (omega arith) (omega arith))

pub mul-pow-suc : (x s : ℕ) → x * 2 ^ suc s ≡ x * 2 ^ s * 2
mul-pow-suc x s = omega (arith, ap (λ (t : ℕ). x * t) (pow-suc 2 s))

-- `|` and `&`, a digit at a time.
pub bit_or-halves : (a b : ℕ) → bit_or a b ≡ bit_or (a / 2) (b / 2) * 2 + max (a % 2) (b % 2)
bit_or-halves zero b = simp bit_or-bitwise (omega arith)
bit_or-halves (suc a) b =
    let same =
      fuel_agree (λ y. y) max a (suc a / 2) (suc a / 2) (b / 2) (omega arith) (le_refl _) in
    simp bit_or-bitwise (omega (arith, same))

pub bit_and-halves : (a b : ℕ) → bit_and a b ≡ bit_and (a / 2) (b / 2) * 2 + min (a % 2) (b % 2)
bit_and-halves zero b = simp bit_and-bitwise (omega arith)
bit_and-halves (suc a) b =
    let same =
      fuel_agree (λ y. 0) min a (suc a / 2) (suc a / 2) (b / 2) (omega arith) (le_refl _) in
    simp bit_and-bitwise (omega (arith, same))

pub testbit-le : (x k : ℕ) → testbit x k ≤ 1
unfolding testbit
testbit-le x zero = omega arith
testbit-le x (suc k) = testbit-le (x / 2) k

pub zero-testbit : (k : ℕ) → testbit 0 k ≡ 0
unfolding testbit
zero-testbit zero = refl
zero-testbit (suc k) = zero-testbit k

pub testbit-bit_or : (a b k : ℕ) → testbit (bit_or a b) k ≡ max (testbit a k) (testbit b k)
unfolding testbit
testbit-bit_or a b zero = omega (arith, bit_or-halves a b)
testbit-bit_or a b (suc k) =
    let half : bit_or a b / 2 ≡ bit_or (a / 2) (b / 2) = omega (arith, bit_or-halves a b) in
    rw half (testbit-bit_or (a / 2) (b / 2) k)

pub testbit-bit_and : (a b k : ℕ) → testbit (bit_and a b) k ≡ min (testbit a k) (testbit b k)
unfolding testbit
testbit-bit_and a b zero = omega (arith, bit_and-halves a b)
testbit-bit_and a b (suc k) =
    let half : bit_and a b / 2 ≡ bit_and (a / 2) (b / 2) = omega (arith, bit_and-halves a b) in
    rw half (testbit-bit_and (a / 2) (b / 2) k)

-- `x << s` moves digit `k` to `k + s`, and fills with zeros.
pub testbit-shl_high : (x s k : ℕ) → testbit (x * 2 ^ s) (k + s) ≡ testbit x k
unfolding testbit
testbit-shl_high x zero k = rw (pow-zero, mul-one, add-zero)
testbit-shl_high x (suc s) k =
    let half : x * 2 ^ suc s / 2 ≡ x * 2 ^ s = omega (arith, mul-pow-suc x s) in
    rw (add-suc, testbit, half) (testbit-shl_high x s k)

pub testbit-shl_low : (x s k : ℕ) → k < s → testbit (x * 2 ^ s) k ≡ 0
unfolding testbit
testbit-shl_low x zero k h = absurd (omega arith)
testbit-shl_low x (suc s) zero h = omega (arith, mul-pow-suc x s)
testbit-shl_low x (suc s) (suc k) h =
    let half : x * 2 ^ suc s / 2 ≡ x * 2 ^ s = omega (arith, mul-pow-suc x s) in
    rw half (testbit-shl_low x s k (omega arith))

-- `x >> s` moves digit `k + s` to `k`.
pub testbit-shr : (x s k : ℕ) → testbit (x / 2 ^ s) k ≡ testbit x (k + s)
unfolding testbit
testbit-shr x zero k = rw (pow-zero, div-one, add-zero)
testbit-shr x (suc s) k =
    let half : x / 2 ^ suc s ≡ x / 2 / 2 ^ s =
      rw pow-succ' (sym (div-div-eq-div-mul x 2 (2 ^ s))) in
    rw half (rw add-suc (testbit-shr (x / 2) s k))

-- The remainder by an even number: its lowest digit, and the rest.
mod-double : (x m : ℕ) → (x % (2 * m) % 2 ≡ x % 2) × (x % (2 * m) / 2 ≡ x / 2 % m)
mod-double x zero = (rw mod-zero, rw (mod-zero, mod-zero))
mod-double x (suc m) =
    let n = suc m in
    let q = x / (2 * n) in
    let r = x % (2 * n) in
    let split : 2 * (n * q) + r ≡ x = omega (arith, div-add-mod x (2 * n)) in
    let small : r < 2 * n = mod-lt x (omega arith) in
    let half : x / 2 ≡ n * q + r / 2 = omega arith in
    (omega arith, rw half (sym (mul-add-mod_self_left n q (r / 2) ∙ mod-eq_of_lt (omega arith))))

-- A cast to `w` bits keeps the digits below `w`.
pub testbit-low : (x w k : ℕ) → k < w → testbit (x % 2 ^ w) k ≡ testbit x k
unfolding testbit
testbit-low x zero k h = absurd (omega arith)
testbit-low x (suc w) zero h = rw pow-succ' (mod-double x (2 ^ w)).0
testbit-low x (suc w) (suc k) h =
    rw (pow-succ', (mod-double x (2 ^ w)).1) (testbit-low (x / 2) w k (omega arith))

pub testbit-high : (x w k : ℕ) → x < 2 ^ w → w ≤ k → testbit x k ≡ 0
unfolding testbit
testbit-high x zero k h p = rw x_zero (zero-testbit k)
  where
    x_zero : x ≡ 0
    x_zero = omega arith
testbit-high x (suc w) zero h p = absurd (omega arith)
testbit-high x (suc w) (suc k) h p =
    testbit-high (x / 2) w k (omega (arith, pow-suc 2 w)) (omega arith)

-- Numbers of `w` bits with the same digits are equal.
pub testbit_ext :
    (w x y : ℕ) → x < 2 ^ w → y < 2 ^ w → ((k : ℕ) → k < w → testbit x k ≡ testbit y k) → x ≡ y
unfolding testbit
testbit_ext zero x y p q h = omega (arith, pow-zero 2)
testbit_ext (suc w) x y p q h =
    let halves =
      testbit_ext w (x / 2) (y / 2) (omega (arith, pow-suc 2 w)) (omega (arith, pow-suc 2 w))
        (λ k k<w. h (suc k) (omega arith)) in
    omega (arith, halves, h 0 (omega arith))

or_zero_upto : (n a : ℕ) → a ≤ n → bit_or a 0 ≡ a
or_zero_upto zero a h = let e : a ≡ 0 = omega arith in rw e
or_zero_upto (suc n) zero h = refl
or_zero_upto (suc n) (suc a) h =
    omega (arith, bit_or-halves (suc a) 0, or_zero_upto n (suc a / 2) (omega arith))

pub bit_or-zero : (a : ℕ) → bit_or a 0 ≡ a
bit_or-zero a = or_zero_upto a a (le_refl a)

-- `(q << k) | r` is a sum when `r` has `k` bits.
pub bit_or-disjoint : (k q r : ℕ) → r < 2 ^ k → bit_or (q * 2 ^ k) r ≡ q * 2 ^ k + r
bit_or-disjoint zero q r h =
    let e : r ≡ 0 = omega (arith, pow-zero 2) in rw e (omega (arith, bit_or-zero (q * 2 ^ 0)))
bit_or-disjoint (suc k) q r h =
    let half : q * 2 ^ suc k / 2 ≡ q * 2 ^ k = omega (arith, mul-pow-suc q k) in
    let high : bit_or (q * 2 ^ suc k / 2) (r / 2) ≡ q * 2 ^ k + r / 2 =
      rw half (bit_or-disjoint k q (r / 2) (omega (arith, pow-suc 2 k))) in
    omega (arith, bit_or-halves (q * 2 ^ suc k) r, mul-pow-suc q k, high)

pub bit_or-lt : (w a b : ℕ) → a < 2 ^ w → b < 2 ^ w → bit_or a b < 2 ^ w
bit_or-lt zero a b p q =
    let e : a ≡ 0 = omega (arith, pow-zero 2) in
    let f : b ≡ 0 = omega (arith, pow-zero 2) in rw (e, f) (omega (arith, pow-zero 2))
bit_or-lt (suc w) a b p q =
    let halves =
      bit_or-lt w (a / 2) (b / 2) (omega (arith, pow-suc 2 w)) (omega (arith, pow-suc 2 w)) in
    omega (arith, bit_or-halves a b, pow-suc 2 w, halves)
