-- ===== src/Conv1d/Prefill.antt =====
-- A prefill launch: packed sequences, each as if its samples were decoded one by one.
use quixi_core_xpu.Common.{
  ℕ, ◌+◌, ◌-◌, ◌*◌, ◌/◌, ◌<◌, ◌≡◌, ◌≢◌, refl, ap, ◌∙◌, Bool, leb, if◌then◌else◌, Option, none, some,
  List, arith, Bool-cases, inl, inr,
}
use quixi_core_xpu.Common.Int.{ℤ}
use quixi_core_xpu.Common.Launch.{Buffer, store, count, IsSchedule}
use quixi_core_xpu.Common.Steps.{run_steps, run_steps-keep, run_steps-once}
use quixi_core_xpu.Common.Rows.{row_fits, row_div}
use quixi_core_xpu.Conv1d.{
  ConvOps, Memory, live_slot, use_init, written_back, prefill_value, output_item, slot_state,
  state_item,
}
use quixi_core_xpu.Conv1d.Slots.{DistinctSlots, others_miss, unused_miss}

module _ {T S F : Type 0} (ops : ConvOps T S F) (silu : Bool) (state_len kernel : ℕ)
    (weight : Buffer T) (bias : Option (Buffer T)) (dim nslots batch : ℕ) (qsl : Buffer ℕ)
    (indices : ℕ → ℤ) (has_init : Option (ℕ → Bool)) (x : ℕ → Buffer T) where
  abbrev output_step : ℕ → Memory T S → Memory T S
  output_step =
      output_item ops silu state_len kernel weight bias dim nslots batch qsl indices has_init x

  abbrev state_step : ℕ → Memory T S → Memory T S
  state_step =
      state_item ops silu state_len kernel weight bias dim nslots batch qsl indices has_init x

  -- Kernel (A) only reads the states.
  pub outputs_done :
      (n : ℕ) (order : List ℕ)
      → IsSchedule n order
      → (mem : Memory T S) (gid : ℕ) → gid < n
      → (run_steps output_step order mem).out gid
        ≡ prefill_value ops silu state_len kernel weight bias dim nslots batch qsl indices has_init
            x mem.conv_state gid
  unfolding output_item store
  outputs_done n order launched mem gid h =
      (run_steps-once output_step (λ m. m.conv_state ≡ mem.conv_state)
        (λ m. (m.conv_state ≡ mem.conv_state) × (m.out gid ≡ value mem.conv_state)) gid
        (λ m p.
          let own : (output_step gid m).out gid ≡ value m.conv_state = ground arith in
          (p, own ∙ ap value p))
        order (λ j ran ne m p. p)
        (λ j ran ne m q.
          let other : (output_step j m).out gid ≡ m.out gid = ground (arith, ne) in
          (q.0, other ∙ q.1))
        (ground (arith, launched gid, h)) mem refl).1
    where
      value : Buffer (Buffer S) → T
      value conv_state =
          prefill_value ops silu state_len kernel weight bias dim nslots batch qsl indices has_init
            x conv_state gid

  pub outputs_keep :
      (order : List ℕ) (mem : Memory T S)
      → (run_steps output_step order mem).conv_state ≡ mem.conv_state
  unfolding output_item
  outputs_keep order mem =
      run_steps-keep output_step (λ m. m.conv_state ≡ mem.conv_state) order (λ j ran m p. p) mem
        refl

  -- Kernel (B) only writes states.
  slot_state-out :
      (m : Memory T S) (c s bos eos : ℕ) (slot : Option ℕ)
      → (slot_state ops silu state_len kernel weight bias dim nslots batch qsl indices has_init x m
          c s bos eos slot).out
        ≡ m.out
  unfolding slot_state
  slot_state-out m c s bos eos none = refl
  slot_state-out m c s bos eos (some slot) = elim (Bool-cases (leb eos bos)) [
    | inl empty ↦ rw empty refl
    | inr full ↦ rw full refl
  ]

  pub states_keep :
      (order : List ℕ) (mem : Memory T S) → (run_steps state_step order mem).out ≡ mem.out
  unfolding state_item
  states_keep order mem =
      run_steps-keep state_step (λ m. m.out ≡ mem.out) order
        (λ j ran m p.
          slot_state-out m (j - j / dim * dim) (j / dim) (qsl (j / dim)) (qsl (j / dim + 1))
            (live_slot nslots (indices (j / dim)))
          ∙ p)
        mem refl

  slot_state-other :
      (m : Memory T S) (c s bos eos cell : ℕ) (found : Option ℕ)
      → ((slot : ℕ) → found ≡ some slot → slot * dim + c ≢ cell)
      → (slot_state ops silu state_len kernel weight bias dim nslots batch qsl indices has_init x m
            c s bos eos found).conv_state
          cell
        ≡ m.conv_state cell
  unfolding slot_state store
  slot_state-other m c s bos eos cell none other = refl
  slot_state-other m c s bos eos cell (some slot) other = elim (Bool-cases (leb eos bos)) [
    | inl empty ↦ rw empty refl
    | inr full ↦ rw full (ground (arith, other slot refl))
  ]

  -- The row that an item of (B) leaves behind.
  abbrev pub row_after : ℕ → ℕ → Buffer S → Buffer S
  row_after s c srow =
      if leb (qsl (s + 1)) (qsl s)
      then srow
      else written_back ops silu state_len kernel weight bias (use_init has_init s) srow
          (λ i. x c (qsl s + i)) (qsl (s + 1) - qsl s)

  state_step-live :
      (s c slot : ℕ)
      → c < dim
      → live_slot nslots (indices s) ≡ some slot
      → (srow : Buffer S) (m : Memory T S) → m.conv_state (slot * dim + c) ≡ srow
      → (state_step (s * dim + c) m).conv_state (slot * dim + c) ≡ row_after s c srow
  unfolding state_item slot_state store
  state_step-live s c slot hc e srow m p =
      let column : s * dim + c - s * dim ≡ c = omega arith in
      elim (Bool-cases (leb (qsl (s + 1)) (qsl s))) [
        | inl empty ↦ rw (row_div s c dim hc, column, e, empty) p
        | inr full ↦ rw (row_div s c dim hc, column, e, full, p) (ground arith)
      ]

  module _ (order : List ℕ) (launched : IsSchedule (batch * dim) order) where
    pub states_done :
        DistinctSlots nslots batch indices
        → (s c slot : ℕ) → s < batch
        → c < dim
        → live_slot nslots (indices s) ≡ some slot
        → (mem : Memory T S)
        → (run_steps state_step order mem).conv_state (slot * dim + c)
          ≡ row_after s c (mem.conv_state (slot * dim + c))
    unfolding state_item
    states_done distinct s c slot hs hc e mem =
        let cell = slot * dim + c in
        let keep : (j : ℕ)
            → 0 < count j order
            → j ≢ s * dim + c
            → (m : Memory T S) → (state_step j m).conv_state cell ≡ m.conv_state cell =
          λ j ran ne m.
            slot_state-other m (j - j / dim * dim) (j / dim) (qsl (j / dim)) (qsl (j / dim + 1))
              cell (live_slot nslots (indices (j / dim)))
              (others_miss nslots dim indices batch order launched distinct s c hs hc slot e j ran
                ne) in
        run_steps-once state_step (λ m. m.conv_state cell ≡ mem.conv_state cell)
          (λ m. m.conv_state cell ≡ row_after s c (mem.conv_state cell)) (s * dim + c)
          (state_step-live s c slot hc e (mem.conv_state cell)) order
          (λ j ran ne m p. keep j ran ne m ∙ p) (λ j ran ne m p. keep j ran ne m ∙ p)
          (ground (arith, launched (s * dim + c), row_fits s batch c dim hs hc)) mem refl

    pub states_idle :
        (c slot : ℕ)
        → c < dim
        → ((s : ℕ) → s < batch → ¬ (live_slot nslots (indices s) ≡ some slot))
        → (mem : Memory T S)
        → (run_steps state_step order mem).conv_state (slot * dim + c)
          ≡ mem.conv_state (slot * dim + c)
    unfolding state_item
    states_idle c slot hc unused mem =
        run_steps-keep state_step
          (λ m. m.conv_state (slot * dim + c) ≡ mem.conv_state (slot * dim + c)) order
          (λ j ran m p.
            slot_state-other m (j - j / dim * dim) (j / dim) (qsl (j / dim)) (qsl (j / dim + 1))
              (slot * dim + c) (live_slot nslots (indices (j / dim)))
              (unused_miss nslots dim indices batch order launched slot c hc unused j ran)
            ∙ p)
          mem refl
