-- ===== src/Codec/Unpack.antt =====
-- Packing a row and reading a code back.
use native.Mathlib.Nat.{one-le-pow, mod-lt, suc-mul}
use quixi_core_xpu.Common.{
  ℕ, zero, suc, ◌+◌, ◌-◌, ◌*◌, ◌/◌, ◌%◌, ◌^◌, ◌≤◌, ◌<◌, max, ◌≡◌, refl, ap, ◌∙◌, bit_or, ltb,
  if◌then◌else◌, arith, Bool-cases, inl, inr, dec_lt, ℕ_discrete,
}
use quixi_core_xpu.Common.Bits.{
  testbit, zero-testbit, testbit-bit_or, testbit-shl_high, testbit-shl_low, testbit-shr,
  testbit-low, testbit-high, testbit_ext,
}
use quixi_core_xpu.Common.Launch.{Buffer}
use quixi_core_xpu.Codec.{
  row_bytes, clear_row, masked, pack_step, pack_loop, pack_codes, unpack_code,
}
use quixi_core_xpu.Codec.Pack.{
  bit_at, contribution, contribution-past, pack_step-at, pack_step-byte, pack_step-beyond,
}

-- What is packed of a byte is its remainder by 2 ^ bits.
masked-mod : (bits c : ℕ) → c < 256 → masked bits c ≡ c % 2 ^ bits
masked-mod bits c h = elim (ℕ_discrete bits 8) [
  | yes eight ↦ rw eight (omega arith)
  | no other ↦ ground arith
]

masked-lt : (bits c : ℕ) → c < 256 → masked bits c < 2 ^ bits
masked-lt bits c h = rw (masked-mod bits c h) (mod-lt c (one-le-pow bits 2 (omega arith)))

earlier : (i j k bits : ℕ) → j < i → k < bits → j * bits + k < i * bits
earlier i j k bits p q = grind arith

module _ (codes : Buffer ℕ) (bits : ℕ) (pos : 0 < bits) (width : bits ≤ 8) (n : ℕ)
    (bytes : (j : ℕ) → j < n → codes j < 256) where
  round-bit :
      (i : ℕ) (out : Buffer ℕ)
      → i < n
      → (p : ℕ)
      → bit_at (pack_step codes bits i out) p
        ≡ max (bit_at out p) (contribution (masked bits (codes i)) (i * bits) p)
  round-bit i out h p =
      let whole : p / 8 * 8 + p % 8 ≡ p = omega arith in
      pack_step-at codes bits i width (masked-lt bits (codes i) (bytes i h)) out (p / 8) (p % 8)
        (omega arith)
      ∙ ap (λ (t : ℕ). max (bit_at out p) (contribution (masked bits (codes i)) (i * bits) t)) whole

  -- Past the codes packed so far the cleared stream is blank.
  blank :
      (limit : ℕ) (out : Buffer ℕ)
      → ((p : ℕ) → p < limit → bit_at out p ≡ 0)
      → (i : ℕ) → i ≤ n
      → (p : ℕ) → i * bits ≤ p
      → p < limit
      → bit_at (pack_loop codes bits i out) p ≡ 0
  unfolding pack_loop
  blank limit out clear zero h p after inside = clear p inside
  blank limit out clear (suc i) h p after inside = ground (
    arith,
    suc-mul i bits,
    round-bit i (pack_loop codes bits i out) (omega arith) p,
    blank limit out clear i (omega arith) p (omega (arith, suc-mul i bits)) inside,
    contribution-past (masked bits (codes i)) bits (i * bits) p
        (masked-lt bits (codes i) (bytes i (omega arith))),
  )

  -- Every code packed so far stands at its place.
  written :
      (limit : ℕ) (out : Buffer ℕ)
      → ((p : ℕ) → p < limit → bit_at out p ≡ 0)
      → (i : ℕ) → i ≤ n
      → i * bits ≤ limit
      → (j k : ℕ) → j < i
      → k < bits
      → bit_at (pack_loop codes bits i out) (j * bits + k) ≡ testbit (masked bits (codes j)) k
  unfolding pack_loop
  written limit out clear zero h room j k p q = absurd (omega arith)
  written limit out clear (suc i) h room j k p q = elim (dec_lt j i) [
    | yes before ↦ ground (
      arith,
      round-bit i (pack_loop codes bits i out) (omega arith) (j * bits + k),
      earlier i j k bits before q,
      written limit out clear i (omega arith) (omega (arith, suc-mul i bits)) j k before q,
    )
    | no last ↦
        let e : j ≡ i = omega arith in
        let at_k : i * bits + k - i * bits ≡ k = omega arith in
        rw e (
          ground (
            arith,
            round-bit i (pack_loop codes bits i out) (omega arith) (i * bits + k),
            blank limit out clear i (omega arith) (i * bits + k) (omega arith)
                (omega (arith, suc-mul i bits)),
            ap (testbit (masked bits (codes i))) at_k,
          ))
  ]

  pack_loop-byte :
      (i : ℕ) (out : Buffer ℕ) (b : ℕ) → out b < 256 → pack_loop codes bits i out b < 256
  unfolding pack_loop
  pack_loop-byte zero out b h = h
  pack_loop-byte (suc i) out b h =
      pack_step-byte codes bits i (pack_loop codes bits i out) b (pack_loop-byte i out b h)

  -- No byte past the row is touched.
  pack_loop-beyond :
      (i : ℕ) (out : Buffer ℕ) (b : ℕ) → i * bits ≤ b * 8 → pack_loop codes bits i out b ≡ out b
  unfolding pack_loop
  pack_loop-beyond zero out b h = refl
  pack_loop-beyond (suc i) out b h =
      pack_step-beyond codes bits i (pack_loop codes bits i out) b (omega (arith, suc-mul i bits))
        pos
      ∙ pack_loop-beyond i out b (omega (arith, suc-mul i bits))

-- What unpack_code assembles before it masks.
abbrev assembled : Buffer ℕ → ℕ → ℕ → ℕ
assembled row bit bits =
    if ltb 8 (bit % 8 + bits)
    then bit_or (row (bit / 8) / 2 ^ (bit % 8)) (row (bit / 8 + 1) * 2 ^ (8 - bit % 8))
    else row (bit / 8) / 2 ^ (bit % 8)

unpack_code-mod :
    (row : Buffer ℕ) (i bits : ℕ)
    → unpack_code row i bits ≡ assembled row (i * bits) bits % 2 ^ bits
unfolding unpack_code
unpack_code-mod row i bits = elim (ℕ_discrete bits 8) [
  | yes eight ↦ rw eight
  | no other ↦ ground arith
]

-- Bit `k` of a code that is read is bit `bit + k` of the stream.
assembled-bit :
    (row : Buffer ℕ) (bit bits k : ℕ)
    → row (bit / 8) < 256
    → bits ≤ 8
    → k < bits
    → testbit (assembled row bit bits) k ≡ bit_at row (bit + k)
assembled-bit row bit bits k byte width h = elim (Bool-cases (ltb 8 (bit % 8 + bits))) [
  | inl over ↦ rw over (testbit-bit_or lo hi k ∙ joined (dec_lt (k + bit % 8) 8))
  | inr fits ↦ rw fits (testbit-shr (row (bit / 8)) (bit % 8) k ∙ same_byte (ground arith))
]
  where
    lo : ℕ
    lo = row (bit / 8) / 2 ^ (bit % 8)

    hi : ℕ
    hi = row (bit / 8 + 1) * 2 ^ (8 - bit % 8)

    same_byte : k + bit % 8 < 8 → testbit (row (bit / 8)) (k + bit % 8) ≡ bit_at row (bit + k)
    same_byte p =
        let b : (bit + k) / 8 ≡ bit / 8 = omega arith in
        let r : (bit + k) % 8 ≡ k + bit % 8 = omega arith in rw (b, r)

    joined : Dec (k + bit % 8 < 8) → max (testbit lo k) (testbit hi k) ≡ bit_at row (bit + k)
    joined (yes p) = ground (
      arith,
      same_byte p,
      testbit-shr (row (bit / 8)) (bit % 8) k,
      testbit-shl_low (row (bit / 8 + 1)) (8 - bit % 8) k,
    )
    joined (no p) =
        let b : (bit + k) / 8 ≡ bit / 8 + 1 = omega arith in
        let j = k + bit % 8 - 8 in
        let r : (bit + k) % 8 ≡ j = omega arith in
        let k' : j + (8 - bit % 8) ≡ k = omega arith in
        rw (b, r)
          (ground (
            arith,
            testbit-shr (row (bit / 8)) (bit % 8) k,
            testbit-high (row (bit / 8)) 8 (k + bit % 8) byte,
            ap (testbit hi) k',
            testbit-shl_high (row (bit / 8 + 1)) (8 - bit % 8) j,
          ))

-- The row is cleared as far as its bits go.
clear_row-bit :
    (nbytes : ℕ) (out : Buffer ℕ) (p : ℕ) → p < nbytes * 8 → bit_at (clear_row nbytes out) p ≡ 0
unfolding clear_row
clear_row-bit nbytes out p h =
    let inside : p / 8 < nbytes = omega arith in
    let zero_byte : (if ltb (p / 8) nbytes then 0 else out (p / 8)) ≡ 0 = ground arith in
    rw zero_byte (zero-testbit (p % 8))

-- For codes of 1 to 8 bits, reading back any code of a packed row gives the low bits of what was
-- packed there, and no byte after the row's row_bytes bytes is changed.
pub unpack_code-pack_codes :
    (codes : Buffer ℕ) (n bits : ℕ) (out : Buffer ℕ)
    → 0 < bits
    → bits ≤ 8
    → ((j : ℕ) → j < n → codes j < 256)
    → ((i : ℕ) → i < n → unpack_code (pack_codes codes n bits out) i bits ≡ codes i % 2 ^ bits)
      × ((b : ℕ) → row_bytes n bits ≤ b → pack_codes codes n bits out b ≡ out b)
unfolding pack_codes
unpack_code-pack_codes codes n bits out pos width bytes = (read_back, beyond)
  where
    nbytes : ℕ
    nbytes = row_bytes n bits

    room : n * bits ≤ nbytes * 8
    room = unfold row_bytes in omega arith

    cleared : Buffer ℕ
    cleared = clear_row nbytes out

    packed : Buffer ℕ
    packed = pack_loop codes bits n cleared

    beyond : (b : ℕ) → nbytes ≤ b → packed b ≡ out b
    beyond b h =
        pack_loop-beyond codes bits pos width n bytes n cleared b (omega (arith, room))
        ∙ unfold clear_row in ground arith

    cleared_byte : (i : ℕ) → i < n → cleared (i * bits / 8) < 256
    cleared_byte i h =
        let inside : i * bits / 8 < nbytes = omega (arith, earlier n i 0 bits h pos, room) in
        unfold clear_row in ground arith

    packed_bit :
        (i k : ℕ)
        → i < n
        → k < bits
        → testbit (assembled packed (i * bits) bits) k ≡ testbit (codes i % 2 ^ bits) k
    packed_bit i k h q =
        assembled-bit packed (i * bits) bits k
          (pack_loop-byte codes bits pos width n bytes n cleared (i * bits / 8) (cleared_byte i h))
          width q
        ∙ written codes bits pos width n bytes (nbytes * 8) cleared (clear_row-bit nbytes out) n
            (omega arith) room i k h q
        ∙ ap (λ (t : ℕ). testbit t k) (masked-mod bits (codes i) (bytes i h))

    read_back : (i : ℕ) → i < n → unpack_code packed i bits ≡ codes i % 2 ^ bits
    read_back i h =
        unpack_code-mod packed i bits
        ∙ testbit_ext bits _ _ (mod-lt _ (one-le-pow bits 2 (omega arith)))
            (mod-lt (codes i) (one-le-pow bits 2 (omega arith)))
            (λ k q. testbit-low (assembled packed (i * bits) bits) bits k q ∙ packed_bit i k h q)
