-- ===== src/Gguf/Scales.antt =====
-- The packed scales and fifth bits, byte by byte.
use quixi_core_xpu.Common.{
  ℕ, zero, suc, ◌+◌, ◌-◌, ◌*◌, ◌/◌, ◌%◌, ◌^◌, ◌<◌, ◌≡◌, refl, ap, ap₂, ◌∙◌, ltb, if◌then◌else◌,
  bit_and, bit_or, arith,
}
use quixi_core_xpu.Common.Launch.{Buffer}
use quixi_core_xpu.Common.Words.{
  bytes4, bytes4-shifts, bytes4-bit_or, bytes4-bit_and, bit_or-shl, low_two, low_four, fifth_digit,
}
use quixi_core_xpu.Gguf.Legacy.{rd_u32, aux, scl, kmask1, kmask2}

abbrev pub IsBytes : Buffer ℕ → Type 0
IsBytes p = (i : ℕ) → p i < 256

pub rd_u32-bytes :
    (p : Buffer ℕ) (o : ℕ)
    → IsBytes p
    → rd_u32 p o ≡ bytes4 (p o) (p (o + 1)) (p (o + 2)) (p (o + 3))
unfolding rd_u32
rd_u32-bytes p o small = bytes4-shifts _ _ _ _ (small o) (small (o + 1)) (small (o + 2))

-- Four nibbles and four pairs of bits, one of each to a byte.
join :
    (a b c d e f g h x y : ℕ)
    → a < 256
    → b < 256
    → c < 256
    → d < 256
    → e < 256
    → f < 256
    → g < 256
    → h < 256
    → x ≡ bytes4 a b c d
    → y ≡ bytes4 e f g h
    → bit_or (bit_and x kmask2) (bit_and y kmask1 * 16)
      ≡ bytes4
          (a % 16 + 16 * (e % 4))
          (b % 16 + 16 * (f % 4))
          (c % 16 + 16 * (g % 4))
          (d % 16 + 16 * (h % 4))
join a b c d e f g h x y pa pb pc pd pe pf pg ph is_x is_y =
    let low : bit_and x kmask2 ≡ bytes4 (a % 16) (b % 16) (c % 16) (d % 16) =
      ap (λ t. bit_and t kmask2) is_x
      ∙ bytes4-bit_and a b c d pa pb pc 15 15 15 15 (omega arith) (omega arith) (omega arith)
      ∙ rw (low_four a, low_four b, low_four c, low_four d) refl in
    let pairs : bit_and y kmask1 ≡ bytes4 (e % 4) (f % 4) (g % 4) (h % 4) =
      ap (λ t. bit_and t kmask1) is_y
      ∙ bytes4-bit_and e f g h pe pf pg 3 3 3 3 (omega arith) (omega arith) (omega arith)
      ∙ rw (low_two e, low_two f, low_two g, low_two h) refl in
    let high : bit_and y kmask1 * 16 ≡ bytes4 (e % 4 * 16) (f % 4 * 16) (g % 4 * 16) (h % 4 * 16) =
      omega (arith, pairs) in
    ap₂ bit_or low high
    ∙ bytes4-bit_or _ _ _ _ (omega arith) (omega arith) (omega arith) _ _ _ _ (omega arith)
        (omega arith) (omega arith)
    ∙ rw (one a e, one b f, one c g, one d h) refl
  where
    one : (n t : ℕ) → bit_or (n % 16) (t % 4 * 16) ≡ n % 16 + 16 * (t % 4)
    one n t = omega (arith, bit_or-shl 4 (n % 16) (t % 4) (omega arith))

-- Scale `i` of q3_K, from its nibble and its two bits.
unfoldable pub q3_scale : Buffer ℕ → ℕ → ℕ
q3_scale sc i =
    (if ltb i 8 then sc i % 16 else sc (i - 8) / 16) + 16 * (sc (8 + i % 4) / 4 ^ (i / 4) % 4)

-- Byte `k` of a word.
byte_of :
    (f : ℕ → ℕ) (o k : ℕ)
    → ((j : ℕ) → f j < 256)
    → k < 4
    → bytes4 (f o) (f (o + 1)) (f (o + 2)) (f (o + 3)) / 2 ^ (8 * k) % 256 ≡ f (o + k)
byte_of f o zero small h = let e : o + 0 ≡ o = omega arith in rw e (omega (arith, small o))
byte_of f o (suc zero) small h = omega (arith, small o, small (o + 1))
byte_of f o (suc (suc zero)) small h = omega (arith, small o, small (o + 1), small (o + 2))
byte_of f o (suc (suc (suc zero))) small h =
    omega (arith, small o, small (o + 1), small (o + 2), small (o + 3))
byte_of f o (suc (suc (suc (suc k)))) small h = absurd (omega (arith, h))

q3_scale-lt : (sc : Buffer ℕ) → IsBytes sc → (i : ℕ) → q3_scale sc i < 256
unfolding q3_scale
q3_scale-lt sc small i = ground (arith, small (i - 8))

module _ (sc : Buffer ℕ) (small : IsBytes sc) where
  -- A word of scales.
  aux-bytes :
      (q : ℕ)
      → q < 4
      → aux sc q
        ≡ bytes4
            (q3_scale sc (q * 4))
            (q3_scale sc (q * 4 + 1))
            (q3_scale sc (q * 4 + 2))
            (q3_scale sc (q * 4 + 3))
  unfolding aux q3_scale
  aux-bytes zero h =
      join _ _ _ _ _ _ _ _ _ _ (small 0) (small 1) (small 2) (small 3) (small 8) (small 9)
        (small 10) (small 11) (rd_u32-bytes sc 0 small) (rd_u32-bytes sc 8 small)
      ∙ omega arith
  aux-bytes (suc zero) h =
      join _ _ _ _ (sc 8 / 4 + sc 9 % 4 * 64) (sc 9 / 4 + sc 10 % 4 * 64)
        (sc 10 / 4 + sc 11 % 4 * 64) (sc 11 / 4) _ _ (small 4) (small 5) (small 6) (small 7)
        (omega (arith, small 8)) (omega (arith, small 9)) (omega (arith, small 10))
        (omega (arith, small 11)) (rd_u32-bytes sc 4 small)
        (omega (arith, rd_u32-bytes sc 8 small, small 8, small 9, small 10, small 11))
      ∙ omega arith
  aux-bytes (suc (suc zero)) h =
      join (sc 0 / 16 + sc 1 % 16 * 16) (sc 1 / 16 + sc 2 % 16 * 16) (sc 2 / 16 + sc 3 % 16 * 16)
        (sc 3 / 16) (sc 8 / 16 + sc 9 % 16 * 16) (sc 9 / 16 + sc 10 % 16 * 16)
        (sc 10 / 16 + sc 11 % 16 * 16) (sc 11 / 16) _ _ (omega (arith, small 0))
        (omega (arith, small 1)) (omega (arith, small 2)) (omega (arith, small 3))
        (omega (arith, small 8)) (omega (arith, small 9)) (omega (arith, small 10))
        (omega (arith, small 11))
        (omega (arith, rd_u32-bytes sc 0 small, small 0, small 1, small 2, small 3))
        (omega (arith, rd_u32-bytes sc 8 small, small 8, small 9, small 10, small 11))
      ∙ omega arith
  aux-bytes (suc (suc (suc zero))) h =
      join (sc 4 / 16 + sc 5 % 16 * 16) (sc 5 / 16 + sc 6 % 16 * 16) (sc 6 / 16 + sc 7 % 16 * 16)
        (sc 7 / 16) (sc 8 / 64 + sc 9 % 64 * 4) (sc 9 / 64 + sc 10 % 64 * 4)
        (sc 10 / 64 + sc 11 % 64 * 4) (sc 11 / 64) _ _ (omega (arith, small 4))
        (omega (arith, small 5)) (omega (arith, small 6)) (omega (arith, small 7))
        (omega (arith, small 8)) (omega (arith, small 9)) (omega (arith, small 10))
        (omega (arith, small 11))
        (omega (arith, rd_u32-bytes sc 4 small, small 4, small 5, small 6, small 7))
        (omega (arith, rd_u32-bytes sc 8 small, small 8, small 9, small 10, small 11))
      ∙ omega arith
  aux-bytes (suc (suc (suc (suc q)))) h = absurd (omega (arith, h))

  -- The words hold the sixteen scales of q3_K one to a byte, as the format packs them.
  pub scl-q3_scale : (i : ℕ) → i < 16 → scl sc i ≡ q3_scale sc i
  unfolding scl
  scl-q3_scale i h =
      let whole : i / 4 * 4 + i % 4 ≡ i = omega arith in
      ap (λ (w : ℕ). w / 2 ^ (8 * (i % 4)) % 256) (aux-bytes (i / 4) (omega (arith, h)))
      ∙ byte_of (q3_scale sc) (i / 4 * 4) (i % 4) (q3_scale-lt sc small) (omega arith)
      ∙ ap (λ (j : ℕ). q3_scale sc j) whole

-- A nibble with a fifth bit.
pub fifth-bit_or : (n x : ℕ) → n < 16 → bit_or n (bit_and x 0x10) ≡ n + 16 * (x / 16 % 2)
fifth-bit_or n x h =
    ap (λ (t : ℕ). bit_or n t) (fifth_digit x)
    ∙ omega (arith, bit_or-shl 4 n (x / 16 % 2) (omega (arith, h)))
