-- ===== src/Int4/Stores.antt =====
-- Loops that store a range of a buffer, and nibbles of bytes and words.
use quixi_core_xpu.Common.{
  ℕ, zero, suc, ◌+◌, ◌-◌, ◌*◌, ◌/◌, ◌%◌, ◌^◌, ◌<◌, ◌≡◌, refl, ap, ◌∙◌, ltb, leb, ◌==◌, ◌&&◌,
  if◌then◌else◌, arith, min, true, false, ℕ_discrete, dec_lt,
}
use native.Mathlib.Nat.{div-eq_of_lt-le, div-add-mod'}
use quixi_core_xpu.Common.Int.{ℤ, pos, negsuc}
use quixi_core_xpu.Common.Launch.{Buffer, store}
use quixi_core_xpu.Common.Words.{bit_or-shl}
use quixi_core_xpu.Gguf.{repeat}
use quixi_core_xpu.Int4.{s4, clamp4, low4, packed_byte, word_at}

-- Stores to `c`, `c + 1`, ...
pub repeat-store :
    (addr : ℕ → ℕ) (c : ℕ) (val : ℕ → ℕ) (n : ℕ) (m : Buffer ℕ) (b : ℕ)
    → ((i : ℕ) → addr i ≡ c + i)
    → repeat (λ i m. store m (addr i) (val i)) n m b
      ≡ (if leb c b && ltb b (c + n) then val (b - c) else m b)
unfolding repeat store
repeat-store addr c val zero m b at = ground arith
repeat-store addr c val (suc n) m b at = elim (ℕ_discrete b (c + n)) [
  | yes e ↦
      let back : c + n - c ≡ n = omega arith in
      let low : leb c (c + n) ≡ true = ground arith in
      let high : ltb (c + n) (c + suc n) ≡ true = ground arith in
      let same : (c + n == c + n) ≡ true = ground arith in rw (e, at n, same, low, high, back) refl
  | no ne ↦ ground (arith, at n, ne, repeat-store addr c val n m b at)
]

-- In `n` rounds of `h` each.
pub repeat-rounds :
    (addr : ℕ → ℕ → ℕ) (c h : ℕ) (val : ℕ → ℕ → ℕ) (n : ℕ) (m : Buffer ℕ) (b : ℕ)
    → 0 < h
    → ((v i : ℕ) → addr v i ≡ c + v * h + i)
    → repeat (λ v m. repeat (λ i m. store m (addr v i) (val v i)) h m) n m b
      ≡ (if leb c b && ltb b (c + n * h) then val ((b - c) / h) ((b - c) % h) else m b)
unfolding repeat
repeat-rounds addr c h val zero m b some at = ground arith
repeat-rounds addr c h val (suc n) m b some at =
    repeat-store (addr n) (c + n * h) (val n) h
      (repeat (λ v m. repeat (λ i m. store m (addr v i) (val v i)) h m) n m) b (at n)
    ∙ elim (dec_lt b (c + n * h)) [
      | yes before ↦
          let below : ltb b (c + suc n * h) ≡ ltb b (c + n * h) = ground (arith, before) in
          let early : leb (c + n * h) b ≡ false = ground (arith, before) in
          rw (below, early) (repeat-rounds addr c h val n m b some at)
      | no past ↦ elim (dec_lt b (c + suc n * h)) [
        | yes inside ↦
            let r = b - (c + n * h) in
            let q : (b - c) / h ≡ n =
              div-eq_of_lt-le h (omega (arith, past)) (omega (arith, inside)) in
            let t : (b - c) % h ≡ r =
              omega (arith, past, div-add-mod' (b - c) h, ap (λ (x : ℕ). x * h) q) in
            let a : (leb (c + n * h) b && ltb b (c + n * h + h)) ≡ true =
              ground (arith, past, inside) in
            let d : (leb c b && ltb b (c + suc n * h)) ≡ true = ground (arith, past, inside) in
            rw (a, d, q, t) refl
        | no beyond ↦
            let a : (leb (c + n * h) b && ltb b (c + n * h + h)) ≡ false =
              ground (arith, past, beyond) in
            let d : (leb c b && ltb b (c + suc n * h)) ≡ false = ground (arith, past, beyond) in
            let e : (leb c b && ltb b (c + n * h)) ≡ false = ground (arith, past) in
            rw (a, d) (repeat-rounds addr c h val n m b some at ∙ rw e refl)
      ]
    ]

-- A clamped integer comes back from its nibble.
pub s4-low4 : (q : ℤ) → s4 (low4 (clamp4 q)) ≡ clamp4 q
unfolding s4 low4 clamp4
s4-low4 (pos n) = ground arith
s4-low4 (negsuc n) =
    let big : leb 8 (15 - min 7 n % 16) ≡ true = ground arith in
    let back : 15 - (15 - min 7 n % 16) ≡ min 7 n = omega arith in rw (big, back) refl

low4-lt : (z : ℤ) → low4 z < 16
unfolding low4
low4-lt (pos n) = omega arith
low4-lt (negsuc n) = omega arith

pub packed_byte-nibbles :
    (p q : ℤ)
    → (packed_byte p q % 16 ≡ low4 p) × (packed_byte p q / 16 ≡ low4 q) × (packed_byte p q < 256)
unfolding packed_byte
packed_byte-nibbles p q =
    let a = low4-lt p in
    let b = low4-lt q in
    let joined = bit_or-shl 4 (low4 p) (low4 q) (omega (arith, a)) in
    (omega (arith, joined, a, b), omega (arith, joined, a, b), omega arith)

word_at-sum :
    (w : Buffer ℕ) (o : ℕ)
    → word_at w o ≡ w (o + 0) + 256 * (w (o + 1) + 256 * (w (o + 2) + 256 * w (o + 3)))
unfolding word_at
word_at-sum w o = let e : o + 0 ≡ o = omega arith in rw e refl

-- Nibble `i` of a word.
pub word_at-nibble :
    (w : Buffer ℕ) (o nib : ℕ)
    → ((i : ℕ) → w i < 256)
    → nib < 8
    → word_at w o / 2 ^ (nib * 4) % 16 ≡ w (o + nib / 2) / 16 ^ (nib % 2) % 16
word_at-nibble w o zero small h =
    omega (arith, word_at-sum w o, small (o + 0), small (o + 1), small (o + 2), small (o + 3))
word_at-nibble w o (suc zero) small h =
    omega (arith, word_at-sum w o, small (o + 0), small (o + 1), small (o + 2), small (o + 3))
word_at-nibble w o (suc (suc zero)) small h =
    omega (arith, word_at-sum w o, small (o + 0), small (o + 1), small (o + 2), small (o + 3))
word_at-nibble w o (suc (suc (suc zero))) small h =
    omega (arith, word_at-sum w o, small (o + 0), small (o + 1), small (o + 2), small (o + 3))
word_at-nibble w o (suc (suc (suc (suc zero)))) small h =
    omega (arith, word_at-sum w o, small (o + 0), small (o + 1), small (o + 2), small (o + 3))
word_at-nibble w o (suc (suc (suc (suc (suc zero))))) small h =
    omega (arith, word_at-sum w o, small (o + 0), small (o + 1), small (o + 2), small (o + 3))
word_at-nibble w o (suc (suc (suc (suc (suc (suc zero)))))) small h =
    omega (arith, word_at-sum w o, small (o + 0), small (o + 1), small (o + 2), small (o + 3))
word_at-nibble w o (suc (suc (suc (suc (suc (suc (suc zero))))))) small h =
    omega (arith, word_at-sum w o, small (o + 0), small (o + 1), small (o + 2), small (o + 3))
word_at-nibble w o (suc (suc (suc (suc (suc (suc (suc (suc nib)))))))) small h =
    absurd (omega (arith, h))
