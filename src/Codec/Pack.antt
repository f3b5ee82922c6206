-- ===== src/Codec/Pack.antt =====
-- pack_codes and unpack_code: a row of codes as a stream of bits, lowest bit first.
use quixi_core_xpu.Common.{
  ℕ, ◌+◌, ◌-◌, ◌*◌, ◌/◌, ◌%◌, ◌^◌, ◌≤◌, ◌<◌, max, ◌≡◌, ◌≢◌, sym, ap, ◌∙◌, bit_or, ltb,
  if◌then◌else◌, arith, Bool-cases, inl, inr, dec_lt, ℕ_discrete,
}
use quixi_core_xpu.Common.Bits.{
  testbit, testbit-bit_or, testbit-shl_high, testbit-shl_low, testbit-shr, testbit-low,
  testbit-high, bit_or-lt,
}
use quixi_core_xpu.Common.Launch.{Buffer, store}
use quixi_core_xpu.Codec.{masked, pack_step}

-- Bit `p` of the stream that the bytes of a row are.
abbrev pub bit_at : Buffer ℕ → ℕ → ℕ
bit_at row p = testbit (row (p / 8)) (p % 8)

-- The bit that code `v`, written at position `bit`, contributes at position `p`.
abbrev pub contribution : ℕ → ℕ → ℕ → ℕ
contribution v bit p = if ltb p bit then 0 else testbit v (p - bit)

pub contribution-past :
    (v bits bit p : ℕ) → v < 2 ^ bits → bit + bits ≤ p → contribution v bit p ≡ 0
contribution-past v bits bit p small h =
    ground (arith, testbit-high v bits (p - bit) small (omega arith))

-- What the low part and the spilled part of a code put into each bit of their bytes.
low-bit :
    (v bit k : ℕ)
    → k < 8
    → testbit (v * 2 ^ (bit % 8) % 2 ^ 8) k ≡ contribution v bit (bit / 8 * 8 + k)
low-bit v bit k h = elim (dec_lt k (bit % 8)) [
  | yes below ↦
      testbit-low (v * 2 ^ (bit % 8)) 8 k h ∙ testbit-shl_low v (bit % 8) k below ∙ ground arith
  | no above ↦
      let j = k - bit % 8 in
      let k' : j + bit % 8 ≡ k = omega arith in
      let moved : testbit (v * 2 ^ (bit % 8)) k ≡ testbit v j =
        ap (testbit (v * 2 ^ (bit % 8))) (sym k') ∙ testbit-shl_high v (bit % 8) j in
      let same : bit / 8 * 8 + k - bit ≡ j = omega arith in
      testbit-low (v * 2 ^ (bit % 8)) 8 k h ∙ moved ∙ ground (arith, ap (testbit v) same)
]

high-bit :
    (v bit k : ℕ)
    → k < 8
    → testbit (v / 2 ^ (8 - bit % 8) % 2 ^ 8) k ≡ contribution v bit ((bit / 8 + 1) * 8 + k)
high-bit v bit k h =
    let same : (bit / 8 + 1) * 8 + k - bit ≡ k + (8 - bit % 8) = omega arith in
    testbit-low (v / 2 ^ (8 - bit % 8)) 8 k h
    ∙ testbit-shr v (8 - bit % 8) k
    ∙ ground (arith, ap (testbit v) same)

module _ (codes : Buffer ℕ) (bits i : ℕ) where
  abbrev pub at : ℕ
  at = i * bits / 8

  abbrev pub low_part : ℕ
  low_part = masked bits (codes i) * 2 ^ (i * bits % 8) % 2 ^ 8

  abbrev pub high_part : ℕ
  high_part = masked bits (codes i) / 2 ^ (8 - i * bits % 8) % 2 ^ 8

  -- The bytes that a round changes.
  pub pack_step-here : (out : Buffer ℕ) → pack_step codes bits i out at ≡ bit_or (out at) low_part
  unfolding pack_step store
  pack_step-here out = ground arith

  pub pack_step-next :
      (out : Buffer ℕ)
      → pack_step codes bits i out (at + 1)
        ≡ (if ltb 8 (i * bits % 8 + bits) then bit_or (out (at + 1)) high_part else out (at + 1))
  unfolding pack_step store
  pack_step-next out = ground arith

  pub pack_step-else :
      (out : Buffer ℕ) (b : ℕ) → b ≢ at → b ≢ at + 1 → pack_step codes bits i out b ≡ out b
  unfolding pack_step store
  pack_step-else out b p q = ground arith

  -- Every byte stays a byte.
  pub pack_step-byte : (out : Buffer ℕ) (b : ℕ) → out b < 256 → pack_step codes bits i out b < 256
  unfolding pack_step store
  pack_step-byte out b h =
      ground (arith, bit_or-lt 8 (out at) low_part, bit_or-lt 8 (out (at + 1)) high_part)

  pub pack_step-beyond :
      (out : Buffer ℕ) (b : ℕ)
      → i * bits + bits ≤ b * 8
      → 0 < bits
      → pack_step codes bits i out b ≡ out b
  unfolding pack_step store
  pack_step-beyond out b h pos = ground arith

  module _ (width : bits ≤ 8) (small : masked bits (codes i) < 2 ^ bits) (out : Buffer ℕ) where
    -- A round adds the bits of its code to the stream, and no others.
    pub pack_step-at :
        (b k : ℕ)
        → k < 8
        → testbit (pack_step codes bits i out b) k
          ≡ max (testbit (out b) k) (contribution (masked bits (codes i)) (i * bits) (b * 8 + k))
    pack_step-at b k h = elim (ℕ_discrete b at) [
      | yes here ↦ rw here (
          rw (pack_step-here out) (
            testbit-bit_or (out at) low_part k
            ∙ ap (max (testbit (out at) k)) (low-bit (masked bits (codes i)) (i * bits) k h)))
      | no other ↦ elim (ℕ_discrete b (at + 1)) [
        | yes next ↦ rw next (rw (pack_step-next out) (spilled k h))
        | no elsewhere ↦ rw (pack_step-else out b other elsewhere) (untouched b k h other elsewhere)
      ]
    ]
      where
        spilled :
            (k : ℕ)
            → k < 8
            → testbit
                (if ltb 8 (i * bits % 8 + bits)
                  then bit_or (out (at + 1)) high_part
                  else out (at + 1))
                k
              ≡ max
                  (testbit (out (at + 1)) k)
                  (contribution (masked bits (codes i)) (i * bits) ((at + 1) * 8 + k))
        spilled k h = elim (Bool-cases (ltb 8 (i * bits % 8 + bits))) [
          | inl over ↦ rw over (
              testbit-bit_or (out (at + 1)) high_part k
              ∙ ap (max (testbit (out (at + 1)) k))
                  (high-bit (masked bits (codes i)) (i * bits) k h))
          | inr fits ↦ rw fits (
              ground (
                arith,
                contribution-past (masked bits (codes i)) bits (i * bits) ((at + 1) * 8 + k) small,
              ))
        ]

        untouched :
            (b k : ℕ)
            → k < 8
            → b ≢ at
            → b ≢ at + 1
            → testbit (out b) k
              ≡ max
                  (testbit (out b) k)
                  (contribution (masked bits (codes i)) (i * bits) (b * 8 + k))
        untouched b k h p q =
            ground
              (arith, contribution-past (masked bits (codes i)) bits (i * bits) (b * 8 + k) small)
