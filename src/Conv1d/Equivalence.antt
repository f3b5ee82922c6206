-- ===== src/Conv1d/Equivalence.antt =====
-- A prefill launch against the decode steps that it stands for.
use quixi_core_xpu.Common.{
  ℕ, ◌+◌, ◌-◌, ◌*◌, ◌<◌, ◌≡◌, refl, ap, ◌∙◌, Bool, true, false, leb, Option, none, some, List,
  arith,
}
use quixi_core_xpu.Common.Int.{ℤ}
use quixi_core_xpu.Common.Launch.{Buffer, IsSchedule}
use quixi_core_xpu.Common.Rows.{row_fits, row_div}
use quixi_core_xpu.Conv1d.{
  ConvOps, Memory, live_slot, use_init, conv_out, decode_window, prefill_value, slot_value,
  rejected, causal_conv1d_prefill,
}
use quixi_core_xpu.Conv1d.Sequences.{IsPacked, cp_find_seq-owner, packed_mono}
use quixi_core_xpu.Conv1d.Slots.{DistinctSlots}
use quixi_core_xpu.Conv1d.Prefill.{
  outputs_done, outputs_keep, states_keep, states_done, states_idle, row_after,
}
use quixi_core_xpu.Conv1d.Row.{
  Keeps, decode_rows, start_row, prefill_window-decode, written_back-decode,
}

module _ {T S F : Type 0} (ops : ConvOps T S F) (silu : Bool) (state_len kernel : ℕ)
    (weight : Buffer T) (bias : Option (Buffer T)) (dim nslots batch : ℕ) (qsl : Buffer ℕ)
    (indices : ℕ → ℤ) (has_init : Option (ℕ → Bool)) (x : ℕ → Buffer T) where
  abbrev prefill : List ℕ → List ℕ → Memory T S → Memory T S
  prefill =
      causal_conv1d_prefill ops silu state_len kernel weight bias dim nslots batch qsl indices
        has_init x

  -- The samples of channel `c` of sequence `s`, and the state that decoding starts from.
  abbrev samples : ℕ → ℕ → Buffer T
  samples s c = λ i. x c (qsl s + i)

  abbrev start : Memory T S → ℕ → ℕ → ℕ → Buffer S
  start mem s c slot =
      start_row ops silu state_len kernel weight bias (use_init has_init s)
        (mem.conv_state (slot * dim + c))

  fits : rejected ops silu state_len kernel weight bias ≡ false → kernel ≡ state_len + 1
  unfolding rejected
  fits h = ground (arith, h)

  -- What kernel (A) computes for token `t` of sequence `s`.
  value_at :
      IsPacked qsl batch
      → (states : Buffer (Buffer S)) (s t c : ℕ) → s < batch
      → c < dim
      → qsl s + t < qsl (s + 1)
      → prefill_value ops silu state_len kernel weight bias dim nslots batch qsl indices has_init x
          states
          ((qsl s + t) * dim + c)
        ≡ slot_value ops silu state_len kernel weight bias dim nslots batch qsl indices has_init x
            states c s
            (qsl s)
            t
            (live_slot nslots (indices s))
  unfolding prefill_value
  value_at packed states s t c hs hc h =
      let column : (qsl s + t) * dim + c - (qsl s + t) * dim ≡ c = omega arith in
      let token : qsl s + t - qsl s ≡ t = omega arith in
      rw (row_div (qsl s + t) c dim hc, column, cp_find_seq-owner qsl batch s t packed hs h, token)
        refl

  module _ (outputs states : List ℕ) (launched_a : IsSchedule (qsl batch * dim) outputs)
      (launched_b : IsSchedule (batch * dim) states) (mem : Memory T S) where
    -- The output after both launches, and a state row.
    out_after :
        rejected ops silu state_len kernel weight bias ≡ false
        → IsPacked qsl batch
        → (s t c : ℕ) → s < batch
        → c < dim
        → qsl s + t < qsl (s + 1)
        → (prefill outputs states mem).out ((qsl s + t) * dim + c)
          ≡ slot_value ops silu state_len kernel weight bias dim nslots batch qsl indices has_init x
              mem.conv_state c s
              (qsl s)
              t
              (live_slot nslots (indices s))
    unfolding causal_conv1d_prefill
    out_after inside packed s t c hs hc h =
        let gid = (qsl s + t) * dim + c in
        let last : s + 1 + (batch - (s + 1)) ≡ batch = omega (arith, hs) in
        let token : qsl s + t < qsl batch = omega (
          arith,
          h,
          packed_mono qsl batch (s + 1) (batch - (s + 1)) packed (omega (arith, hs)),
          ap qsl last,
        ) in
        rw inside (
          ap (λ (m : Buffer T). m gid)
            (states_keep ops silu state_len kernel weight bias dim nslots batch qsl indices has_init
              x states _)
          ∙ outputs_done ops silu state_len kernel weight bias dim nslots batch qsl indices has_init
              x (qsl batch * dim) outputs launched_a mem gid
              (row_fits (qsl s + t) (qsl batch) c dim token hc)
          ∙ value_at packed mem.conv_state s t c hs hc h)

    state_after :
        rejected ops silu state_len kernel weight bias ≡ false
        → DistinctSlots nslots batch indices
        → (s c slot : ℕ) → s < batch
        → c < dim
        → live_slot nslots (indices s) ≡ some slot
        → (prefill outputs states mem).conv_state (slot * dim + c)
          ≡ row_after ops silu state_len kernel weight bias dim nslots batch qsl indices has_init x
              s c
              (mem.conv_state (slot * dim + c))
    unfolding causal_conv1d_prefill
    state_after inside distinct s c slot hs hc e = rw inside (
        states_done ops silu state_len kernel weight bias dim nslots batch qsl indices has_init x
          states launched_b distinct s c slot hs hc e _
        ∙ ap
            (λ (m : Buffer (Buffer S)).
              row_after ops silu state_len kernel weight bias dim nslots batch qsl indices has_init
                x s c (m (slot * dim + c)))
            (outputs_keep ops silu state_len kernel weight bias dim nslots batch qsl indices
              has_init x outputs mem))

    state_idle :
        rejected ops silu state_len kernel weight bias ≡ false
        → (c slot : ℕ) → c < dim
        → ((s : ℕ) → s < batch → ¬ (live_slot nslots (indices s) ≡ some slot))
        → (prefill outputs states mem).conv_state (slot * dim + c) ≡ mem.conv_state (slot * dim + c)
    unfolding causal_conv1d_prefill
    state_idle inside c slot hc unused = rw inside (
        states_idle ops silu state_len kernel weight bias dim nslots batch qsl indices has_init x
          states launched_b c slot hc unused _
        ∙ ap (λ (m : Buffer (Buffer S)). m (slot * dim + c))
            (outputs_keep ops silu state_len kernel weight bias dim nslots batch qsl indices
              has_init x outputs mem))

  -- Outside the envelope of kernel taps a prefill changes nothing.
  -- Within it, for packed sequences with distinct live slots, a state format that keeps what is
  -- saved in it, and items that run in any order within each of the two launches: token t of a
  -- sequence comes out as the decode step for it after the samples before it were decoded one by
  -- one, from the slot's state or from zeros; the state after a sequence that is not empty is the
  -- state after decoding all its samples; an empty sequence leaves its state; the tokens of a null
  -- slot are zero; and the state of a slot that no sequence has stays.
  pub causal_conv1d_prefill-decode :
      Keeps ops
      → IsPacked qsl batch
      → DistinctSlots nslots batch indices
      → (outputs states : List ℕ) → IsSchedule (qsl batch * dim) outputs
      → IsSchedule (batch * dim) states
      → (mem : Memory T S)
      → (rejected ops silu state_len kernel weight bias ≡ true → prefill outputs states mem ≡ mem)
        × (rejected ops silu state_len kernel weight bias ≡ false
            → (c : ℕ) → c < dim
            → ((s slot : ℕ)
                → s < batch
                → live_slot nslots (indices s) ≡ some slot
                → ((t : ℕ)
                    → qsl s + t < qsl (s + 1)
                    → (prefill outputs states mem).out ((qsl s + t) * dim + c)
                      ≡ conv_out ops silu state_len kernel weight bias c (
                          decode_window ops silu state_len kernel weight bias
                            (decode_rows ops silu state_len kernel weight bias
                              (samples s c)
                              t
                              (start mem s c slot))
                            (samples s c t)))
                  × (qsl s < qsl (s + 1)
                      → (k : ℕ) → k < state_len
                      → (prefill outputs states mem).conv_state (slot * dim + c) k
                        ≡ decode_rows ops silu state_len kernel weight bias
                            (samples s c)
                            (qsl (s + 1) - qsl s)
                            (start mem s c slot)
                            k)
                  × (qsl s ≡ qsl (s + 1)
                      → (prefill outputs states mem).conv_state (slot * dim + c)
                        ≡ mem.conv_state (slot * dim + c)))
              × ((s t : ℕ)
                  → s < batch
                  → live_slot nslots (indices s) ≡ none
                  → qsl s + t < qsl (s + 1)
                  → (prefill outputs states mem).out ((qsl s + t) * dim + c) ≡ ops.zero_out)
              × ((slot : ℕ)
                  → ((s : ℕ) → s < batch → ¬ (live_slot nslots (indices s) ≡ some slot))
                  → (prefill outputs states mem).conv_state (slot * dim + c)
                    ≡ mem.conv_state (slot * dim + c)))
  unfolding causal_conv1d_prefill slot_value
  causal_conv1d_prefill-decode keeps packed distinct outputs states launched_a launched_b mem = (
    λ out. rw out refl,
    λ inside c hc. (
      λ s slot hs e.
          let init = use_init has_init s in
          let srow = mem.conv_state (slot * dim + c) in
          let final =
            state_after outputs states launched_a launched_b mem inside distinct s c slot hs hc e in
          (
            λ t h.
                out_after outputs states launched_a launched_b mem inside packed s t c hs hc h
                ∙ rw e (
                    prefill_window-decode ops silu state_len kernel weight bias keeps init srow
                      (samples s c) (fits inside) c t),
            λ full k hk.
                let ends : leb (qsl (s + 1)) (qsl s) ≡ false = ground (arith, full) in
                ap (λ (m : Buffer S). m k) final
                ∙ rw ends (
                    written_back-decode ops silu state_len kernel weight bias keeps init srow
                      (samples s c) (qsl (s + 1) - qsl s) k (omega (arith, full)) hk),
            λ empty.
                let ends : leb (qsl (s + 1)) (qsl s) ≡ true = ground (arith, empty) in
                final ∙ rw ends refl,
          ),
      λ s t hs e h.
          out_after outputs states launched_a launched_b mem inside packed s t c hs hc h
          ∙ rw e refl,
      λ slot unused. state_idle outputs states launched_a launched_b mem inside c slot hc unused,
    ),
  )
