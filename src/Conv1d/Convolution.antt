-- ===== src/Conv1d/Convolution.antt =====
-- What a decode step computes of one row, said apart from the code: the convolution of a state and
-- the sample after it, and the state that is left.
use quixi_core_xpu.Common.{
  ℕ, zero, suc, ◌+◌, ◌*◌, ◌<◌, ◌≤◌, ◌≡◌, refl, ap, sym, ◌∙◌, Bool, ltb, if◌then◌else◌, Option, none,
  some, arith,
}
use quixi_core_xpu.Common.Launch.{Buffer}
use quixi_core_xpu.Conv1d.{ConvOps, taps, bias_of, conv_out, decode_window, shifted}

module _ {T S F : Type 0} (ops : ConvOps T S F) (silu : Bool) (state_len kernel : ℕ)
    (weight : Buffer T) (bias : Option (Buffer T)) where
  -- The products of `left` taps from tap `k` on, added to `acc` one after the other.
  abbrev pub tap_products : (ℕ → F) → ℕ → F → ℕ → ℕ → F
  tap_products window c acc k zero = acc
  tap_products window c acc k (suc left) =
      tap_products window c (ops.accumulate acc (window k) (ops.widen (weight (c * kernel + k))))
        (k + 1) left

  abbrev pub start_value : Option (Buffer T) → ℕ → F
  start_value none c = ops.zero_float
  start_value (some values) c = ops.widen (values c)

  -- A state row and the sample after it, widened.
  abbrev pub samples : Buffer S → T → ℕ → F
  samples srow v k = if ltb k state_len then ops.load_state (srow k) else ops.widen v

  -- Their convolution at channel `c`, from the bias on.
  abbrev pub convolution : ℕ → Buffer S → T → T
  convolution c srow v =
      let sum = tap_products (samples srow v) c (start_value bias c) 0 kernel in
      ops.narrow (if silu then ops.conv1d_silu sum else sum)

  -- Each element of a state is the one that stood after it, and the last one the new sample.
  abbrev pub MovedUp : Buffer S → T → Buffer S → Type 0
  MovedUp before v after =
      (k : ℕ)
      → (k + 1 < state_len → after k ≡ ops.save_state (ops.load_state (before (k + 1))))
        × (k + 1 ≡ state_len → after k ≡ ops.save_state (ops.widen v))
        × (state_len ≤ k → after k ≡ before k)

  pub shifted-MovedUp :
      (srow : Buffer S) (v : T)
      → MovedUp srow v (shifted ops silu state_len kernel weight bias srow v)
  unfolding shifted decode_window
  shifted-MovedUp srow v k =
      (λ h. ground (arith, h), λ h. ground (arith, h), λ h. ground (arith, h))

  abbrev partial : (ℕ → F) → ℕ → ℕ → F
  partial window c k = taps ops silu state_len kernel weight bias c window k

  tap_products-taps :
      (window : ℕ → F) (c k left : ℕ)
      → tap_products window c (partial window c k) k left ≡ partial window c (k + left)
  unfolding taps
  tap_products-taps window c k zero = ap (partial window c) (omega arith)
  tap_products-taps window c k (suc left) =
      let next : suc k ≡ k + 1 = omega arith in
      let total : k + 1 + left ≡ k + suc left = omega arith in
      ap (λ (t : ℕ). tap_products window c (partial window c t) (k + 1) left) next
      ∙ tap_products-taps window c (k + 1) left
      ∙ ap (partial window c) total

  start_value-bias_of :
      (b : Option (Buffer T)) (c : ℕ)
      → start_value b c ≡ bias_of ops silu state_len kernel weight bias b c
  unfolding bias_of
  start_value-bias_of none c = refl
  start_value-bias_of (some values) c = refl

  pub conv_out-convolution :
      (c : ℕ) (srow : Buffer S) (v : T)
      → conv_out ops silu state_len kernel weight bias c
          (decode_window ops silu state_len kernel weight bias srow v)
        ≡ convolution c srow v
  unfolding conv_out decode_window taps
  conv_out-convolution c srow v =
      let all : 0 + kernel ≡ kernel = omega arith in
      ap (λ (sum : F). ops.narrow (if silu then ops.conv1d_silu sum else sum))
        (sym (
          ap (λ (b : F). tap_products (samples srow v) c b 0 kernel) (start_value-bias_of bias c)
          ∙ tap_products-taps (samples srow v) c 0 kernel
          ∙ ap (partial (samples srow v) c) all))
