-- ===== src/Argmax/Scan.antt =====
-- A thread finds the best of the elements that are its own, the first of them on a tie.
use native.Mathlib.Nat.{div-eq_of_lt-le, add-zero, div-add-mod', mul-le-mul_right}
use quixi_core_xpu.Common.{
  ℕ, zero, suc, ◌+◌, ◌-◌, ◌*◌, ◌/◌, ◌%◌, ◌≤◌, ◌<◌, ◌≡◌, ◌≢◌, refl, ap, ◌∙◌, ltb, if◌then◌else◌,
  arith, inl, inr, Bool-cases, dec_lt, ltb→lt, lt→ltb, min,
}
use quixi_core_xpu.Common.Launch.{Buffer}
use quixi_core_xpu.Argmax.Best.{IsBest, IsBest-none, IsBest-same, IsBest-consider}
use quixi_core_xpu.Argmax.{
  Winner, consider, scan_chunk, scan_vectors, scan_tail, thread_scan, row_threads,
}

quotient-lt : (n c x : ℕ) → x < n * c → x / c < n
quotient-lt n c x h = grind arith

le-quotient : (n c x : ℕ) → 0 < c → n * c ≤ x → n ≤ x / c
le-quotient n c x pos h = grind arith

next_multiple : (a c width : ℕ) → a * width < c * width → a * width + width ≤ c * width
next_multiple a c width h = elim (dec_lt a c) [
  | yes less ↦
      let more : (a + 1) * width ≤ c * width = mul-le-mul_right width (omega (arith, less)) in
      omega (arith, more)
  | no not_less ↦
      let fewer : c * width ≤ a * width = mul-le-mul_right width (omega arith) in
      omega (arith, fewer, h)
]

module _ (logits : Buffer ℕ) where
  -- Thread `lid` has a vector in every round of vectors, and an element in every round of the tail.
  abbrev pub thread : ℕ → ℕ → ℕ → ℕ
  thread width vend j = if ltb j vend then j / width % row_threads else (j - vend) % row_threads

  module _ (width vend lid : ℕ) (wide : 0 < width) (small : lid < row_threads) where
    -- The thread's elements before `n`.
    abbrev pub Seen : ℕ → ℕ → Type 0
    Seen n j = (j < n) × (thread width vend j ≡ lid)

    scan_chunk-IsBest :
        (rounds n : ℕ) (w : Winner)
        → ((i : ℕ) → i < rounds → thread width vend (n + i) ≡ lid)
        → IsBest logits (Seen n) w
        → IsBest logits (Seen (n + rounds)) (scan_chunk logits rounds n w)
    unfolding scan_chunk
    scan_chunk-IsBest zero n w own best = rw (add-zero n) best
    scan_chunk-IsBest (suc rounds) n w own best =
        IsBest-same logits (Seen (n + 1 + rounds)) (Seen (n + suc rounds)) _
          (λ j p. (omega (arith, p.0), p.1)) (λ j p. (omega (arith, p.0), p.1))
          (scan_chunk-IsBest rounds (n + 1) (consider logits n w)
            (λ i h.
              let e : n + 1 + i ≡ n + suc i = omega arith in
              ap (λ x. thread width vend x) e ∙ own (suc i) (omega arith))
            (IsBest-consider logits (Seen n) (Seen (n + 1)) n w
              (λ j p. ((omega (arith, p.0), p.1), p.0))
              (
                omega arith,
                (let e : n ≡ n + 0 = omega arith in
                    ap (λ x. thread width vend x) e ∙ own 0 (omega arith)),
              )
              (λ j q. elim (dec_lt j n) [ yes h ↦ inl (h, q.1) | no h ↦ inr (omega (arith, q.0)) ])
              best))

    -- The elements of the thread's vector `lid + m * row_threads` are its own.
    in_vector :
        (m i : ℕ)
        → i < width
        → (lid + m * row_threads) * width + i < vend
        → thread width vend ((lid + m * row_threads) * width + i) ≡ lid
    in_vector m i h inside =
        let a = lid + m * row_threads in
        let q : (a * width + i) / width ≡ a =
          div-eq_of_lt-le width (omega arith) (omega (arith, h)) in
        rw (lt→ltb (a * width + i) vend inside, q) (omega arith)

    -- Between two of its vectors it has no element.
    between :
        (m j : ℕ)
        → j < vend
        → (lid + m * row_threads) * width + width ≤ j
        → j < (lid + m * row_threads) * width + row_threads * width
        → thread width vend j ≢ lid
    between m j inside lo hi own =
        let a = lid + m * row_threads in
        let above = le-quotient (a + 1) width j wide (omega (arith, lo)) in
        let below = quotient-lt (a + row_threads) width j (omega (arith, hi)) in
        ground (arith, own, inside, above, below)

    scan_vectors-IsBest :
        (c : ℕ)
        → vend ≡ c * width
        → (fuel m base : ℕ) (w : Winner) → base ≡ (lid + m * row_threads) * width
        → vend ≤ base + fuel
        → IsBest logits (Seen (min base vend)) w
        → IsBest logits (Seen vend) (scan_vectors logits width vend fuel base w)
    unfolding scan_vectors
    scan_vectors-IsBest c whole zero m base w at enough best =
        IsBest-same logits (Seen (min base vend)) (Seen vend) _ (λ j p. (omega (arith, p.0), p.1))
          (λ j p. (omega (arith, p.0), p.1)) best
    scan_vectors-IsBest c whole (suc fuel) m base w at enough best =
        elim (Bool-cases (ltb base vend)) [
          | inl inside ↦ rw inside (
              scan_vectors-IsBest c whole fuel (m + 1) (base + row_threads * width)
                (scan_chunk logits width base w) (omega (arith, at)) (omega (arith, enough, wide))
                (IsBest-same logits (Seen (base + width))
                  (Seen (min (base + row_threads * width) vend)) _
                  (λ j p. (omega (arith, p.0, room (ltb→lt base vend inside), wide), p.1))
                  (λ j p. (back j p, p.1))
                  (scan_chunk-IsBest width base w
                    (λ i h.
                      rw at
                        (in_vector m i h (omega (arith, h, at, room (ltb→lt base vend inside)))))
                    (IsBest-same logits (Seen (min base vend)) (Seen base) _
                      (λ j p. (omega (arith, p.0), p.1))
                      (λ j p. (omega (arith, p.0, ltb→lt base vend inside), p.1)) best))))
          | inr past ↦ rw past (
              IsBest-same logits (Seen (min base vend)) (Seen vend) _
                (λ j p. (omega (arith, p.0), p.1)) (λ j p. (ground (arith, p.0, past), p.1)) best)
        ]
      where
        room : base < vend → base + width ≤ vend
        room h = omega (
          arith,
          next_multiple (lid + m * row_threads) c width (omega (arith, at, whole, h)),
          at,
          whole,
        )

        back : (j : ℕ) → Seen (min (base + row_threads * width) vend) j → j < base + width
        back j p = elim (dec_lt j (base + width)) [
          | yes h ↦ h
          | no h ↦
              absurd (
                between m j (omega (arith, p.0)) (omega (arith, h, at)) (omega (arith, p.0, at))
                  p.1)
        ]

    -- In the tail the thread has every 256th element.
    scan_tail-IsBest :
        (vocab : ℕ)
        → vend ≤ vocab
        → (fuel m j : ℕ) (w : Winner) → j ≡ vend + lid + m * row_threads
        → vocab ≤ j + fuel
        → IsBest logits (Seen (min j vocab)) w
        → IsBest logits (Seen vocab) (scan_tail logits vocab fuel j w)
    unfolding scan_tail
    scan_tail-IsBest vocab ends zero m j w at enough best =
        IsBest-same logits (Seen (min j vocab)) (Seen vocab) _ (λ i p. (omega (arith, p.0), p.1))
          (λ i p. (omega (arith, p.0), p.1)) best
    scan_tail-IsBest vocab ends (suc fuel) m j w at enough best = elim (Bool-cases (ltb j vocab)) [
      | inl inside ↦ rw inside (
          scan_tail-IsBest vocab ends fuel (m + 1) (j + row_threads) (consider logits j w)
            (omega (arith, at)) (omega (arith, enough))
            (IsBest-consider logits (Seen (min j vocab)) (Seen (min (j + row_threads) vocab)) j w
              (λ i p. ((omega (arith, p.0), p.1), omega (arith, p.0)))
              (omega (arith, ltb→lt j vocab inside), ground (arith, at))
              (λ i p. elim (dec_lt i j) [
                | yes h ↦ inl (omega (arith, h, p.0), p.1)
                | no h ↦ inr (ground (arith, p.0, p.1, h, at))
              ])
              best))
      | inr past ↦ rw past (
          IsBest-same logits (Seen (min j vocab)) (Seen vocab) _ (λ i p. (omega (arith, p.0), p.1))
            (λ i p. (ground (arith, p.0, past), p.1)) best)
    ]

-- The elements that thread `lid` of a row scans.
abbrev pub Own : ℕ → ℕ → ℕ → ℕ → Type 0
Own width vocab lid j = (j < vocab) × (thread (λ i. 0) width (vocab / width * width) j ≡ lid)

-- After both loops a cell holds the winner of the thread's own elements.
pub thread_scan-IsBest :
    (logits : Buffer ℕ) (width vocab lid : ℕ)
    → 0 < width
    → lid < row_threads
    → IsBest logits (Own width vocab lid) (thread_scan logits width vocab lid)
unfolding thread_scan
thread_scan-IsBest logits width vocab lid wide small =
    let c = vocab / width in
    let vend = c * width in
    let ends : vend ≤ vocab = omega (arith, div-add-mod' vocab width) in
    scan_tail-IsBest logits width vend lid wide small vocab ends vocab 0 (vend + lid) _
      (omega arith) (omega arith)
      (IsBest-same logits (Seen logits width vend lid wide small vend)
        (Seen logits width vend lid wide small (min (vend + lid) vocab)) _
        (λ i p. (omega (arith, p.0, ends), p.1)) (λ i p. (ground (arith, p.0, p.1, small), p.1))
        (scan_vectors-IsBest logits width vend lid wide small c refl vocab 0 (lid * width) _
          (omega arith) (omega (arith, ends))
          (IsBest-none logits _ (λ j p.
            ground (arith, p.0, p.1, small, quotient-lt lid width j (omega (arith, p.0)))))))
