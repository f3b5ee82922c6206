-- ===== src/Conv1d/Row.antt =====
-- One channel of one slot: a prefill gives what decoding the samples one by one gives.
use quixi_core_xpu.Common.{
  ℕ, zero, suc, ◌+◌, ◌-◌, ◌*◌, ◌≤◌, ◌<◌, ◌≡◌, refl, sym, ap, ap₂, ◌∙◌, Bool, true, false, ltb, leb,
  if◌then◌else◌, Option, arith, Bool-cases, lt→ltb, dec_lt, inl, inr,
}
use quixi_core_xpu.Common.Launch.{Buffer}
use quixi_core_xpu.Conv1d.{
  ConvOps, taps, conv_out, decode_window, shifted, sample, prefill_window, written_back,
}

-- Saving a float to the state and loading it again loses nothing of what comes from the state or
-- from an activation, and nothing of zero. This holds if the state is at least as wide as both.
pub record Keeps {T S F : Type 0} (ops : ConvOps T S F) : Type 0 where
  pub keeps_state : (s : S) → ops.load_state (ops.save_state (ops.load_state s)) ≡ ops.load_state s
  pub keeps_sample : (v : T) → ops.load_state (ops.save_state (ops.widen v)) ≡ ops.widen v
  pub keeps_zero : ops.load_state (ops.save_state ops.zero_float) ≡ ops.zero_float

module _ {T S F : Type 0} (ops : ConvOps T S F) (silu : Bool) (state_len kernel : ℕ)
    (weight : Buffer T) (bias : Option (Buffer T)) where
  -- The state after the first `n` samples, decoded one by one.
  unfoldable pub decode_rows : Buffer T → ℕ → Buffer S → Buffer S
  unfolding shifted
  decode_rows x zero srow = srow
  decode_rows x (suc n) srow =
      shifted ops silu state_len kernel weight bias (decode_rows x n srow) (x n)

  -- The state that a sequence starts from.
  unfoldable pub start_row : Bool → Buffer S → Buffer S
  start_row init srow = λ k. if init then srow k else ops.save_state ops.zero_float

  pub conv_out_ext :
      (c : ℕ) (u v : Buffer F)
      → ((k : ℕ) → k < kernel → u k ≡ v k)
      → conv_out ops silu state_len kernel weight bias c u
        ≡ conv_out ops silu state_len kernel weight bias c v
  unfolding conv_out taps
  conv_out_ext c u v same =
      ap (λ acc. ops.narrow (if silu then ops.conv1d_silu acc else acc)) (upto kernel (omega arith))
    where
      upto :
          (n : ℕ)
          → n ≤ kernel
          → taps ops silu state_len kernel weight bias c u n
            ≡ taps ops silu state_len kernel weight bias c v n
      upto zero h = refl
      upto (suc n) h =
          ap₂ (λ acc w. ops.accumulate acc w (ops.widen (weight (c * kernel + n))))
            (upto n (omega (arith, h))) (same n h)

  module _ (keeps : Keeps ops) (init : Bool) (srow : Buffer S) (x : Buffer T) where
    -- The start state followed by the sequence.
    abbrev stream : ℕ → F
    stream i = sample ops silu state_len kernel weight bias state_len init srow x i

    stream_kept : (i : ℕ) → ops.load_state (ops.save_state (stream i)) ≡ stream i
    unfolding sample
    stream_kept i = elim (Bool-cases (leb state_len i)) [
      | inl here ↦ rw here (keeps.keeps_sample (x (i - state_len)))
      | inr before ↦ elim (Bool-cases init) [
        | inl kept ↦ rw (before, kept) (keeps.keeps_state (srow (state_len + i - state_len)))
        | inr fresh ↦ rw (before, fresh) keeps.keeps_zero
      ]
    ]

    stream_sample : (t : ℕ) → stream (t + state_len) ≡ ops.widen (x t)
    unfolding sample
    stream_sample t =
        let late : leb state_len (t + state_len) ≡ true = ground arith in
        let at : t + state_len - state_len ≡ t = omega arith in rw (late, at) refl

    -- A window over a state that holds the samples before `t`.
    window_over :
        (t k : ℕ) (row : Buffer S)
        → k ≤ state_len
        → (k < state_len → ops.load_state (row k) ≡ stream (t + k))
        → decode_window ops silu state_len kernel weight bias row (x t) k ≡ stream (t + k)
    unfolding decode_window
    window_over t k row h held = elim (dec_lt k state_len) [
      | yes less ↦ rw (lt→ltb k state_len less) (held less)
      | no last ↦
          let past : ltb k state_len ≡ false = ground (arith, last) in
          let at : k ≡ state_len = omega (arith, h, last) in
          rw past (sym (ap (λ (i : ℕ). stream (t + i)) at ∙ stream_sample t))
    ]

    decode_rows-stream :
        (t k : ℕ)
        → k < state_len
        → ops.load_state (decode_rows x t (start_row init srow) k) ≡ stream (t + k)
    unfolding decode_rows start_row sample shifted
    decode_rows-stream zero k h =
        let early : leb state_len (0 + k) ≡ false = ground (arith, h) in
        let at : state_len + (0 + k) - state_len ≡ k = omega arith in
        elim (Bool-cases init) [
          | inl kept ↦ rw (kept, early, at) refl
          | inr fresh ↦ rw (fresh, early) keeps.keeps_zero
        ]
    decode_rows-stream (suc t) k h =
        let row = decode_rows x t (start_row init srow) in
        let next : t + (k + 1) ≡ suc t + k = omega arith in
        let held =
          window_over t (k + 1) row (omega (arith, h))
            (λ less. decode_rows-stream t (k + 1) less) in
        rw (lt→ltb k state_len h, held, stream_kept) (ap stream next)

    -- Token `t` of a prefill comes out as decoding it after the samples before it.
    pub prefill_window-decode :
        kernel ≡ state_len + 1
        → (c t : ℕ)
        → conv_out ops silu state_len kernel weight bias c
            (prefill_window ops silu state_len kernel weight bias init srow x t)
          ≡ conv_out ops silu state_len kernel weight bias c (
              decode_window ops silu state_len kernel weight bias
                (decode_rows x t (start_row init srow))
                (x t))
    unfolding prefill_window
    prefill_window-decode fits c t = conv_out_ext c _ _ (λ k h.
        let below : kernel - 1 ≡ state_len = omega (arith, fits) in
        rw below (
          sym (
            window_over t k (decode_rows x t (start_row init srow)) (omega (arith, h, fits))
              (λ less. decode_rows-stream t k less))))

    -- The state written back after a prefill is the state after its last sample.
    pub written_back-decode :
        (n k : ℕ)
        → 0 < n
        → k < state_len
        → written_back ops silu state_len kernel weight bias init srow x n k
          ≡ decode_rows x n (start_row init srow) k
    unfolding written_back decode_rows shifted
    written_back-decode (suc n) k some_samples h =
        let row = decode_rows x n (start_row init srow) in
        let next : n + (k + 1) ≡ suc n + k = omega arith in
        let held =
          window_over n (k + 1) row (omega (arith, h))
            (λ less. decode_rows-stream n (k + 1) less) in
        rw (lt→ltb k state_len h, held) (ap (λ (i : ℕ). ops.save_state (stream i)) (sym next))
    written_back-decode zero k some_samples h = absurd (omega (arith, some_samples))
