-- ===== src/Conv1d/Decode.antt =====
-- A decode launch: each item steps its own channel, in any order.
use quixi_core_xpu.Common.{
  ℕ, ◌+◌, ◌-◌, ◌*◌, ◌/◌, ◌<◌, ◌≡◌, ◌≢◌, refl, ap, ◌∙◌, Bool, true, false, Option, none, some, List,
  arith, inl, inr,
}
use quixi_core_xpu.Common.Int.{ℤ}
use quixi_core_xpu.Common.Launch.{Buffer, store, count, IsSchedule}
use quixi_core_xpu.Common.Steps.{run_steps, run_steps-keep, run_steps-once}
use quixi_core_xpu.Common.Rows.{row_fits, row_div}
use quixi_core_xpu.Conv1d.Slots.{live_slot_cases, DistinctSlots, others_miss, unused_miss}
use quixi_core_xpu.Conv1d.Convolution.{convolution, MovedUp, shifted-MovedUp, conv_out-convolution}
use quixi_core_xpu.Conv1d.{
  ConvOps, Memory, live_slot, conv_out, decode_window, shifted, decode_item, decode_slot, rejected,
  causal_conv1d_decode,
}

module _ {T S F : Type 0} (ops : ConvOps T S F) (silu : Bool) (state_len kernel : ℕ)
    (weight : Buffer T) (bias : Option (Buffer T)) (dim nslots : ℕ) (indices : ℕ → ℤ)
    (x : Buffer T) where
  abbrev step : ℕ → Memory T S → Memory T S
  step = decode_item ops silu state_len kernel weight bias dim nslots indices x

  -- An item writes no output but its own.
  step-out : (a j : ℕ) → j ≢ a → (mem : Memory T S) → (step j mem).out a ≡ mem.out a
  unfolding decode_item decode_slot store
  step-out a j ne mem = elim (live_slot_cases nslots (indices (j / dim))) [
    | inl e ↦ rw e (ground (arith, ne))
    | inr (slot, e) ↦ rw e (ground (arith, ne))
  ]

  -- It writes no state row but that of its slot and channel.
  step-conv_state :
      (cell j : ℕ)
      → ((slot : ℕ)
          → live_slot nslots (indices (j / dim)) ≡ some slot
          → slot * dim + (j - j / dim * dim) ≢ cell)
      → (mem : Memory T S) → (step j mem).conv_state cell ≡ mem.conv_state cell
  unfolding decode_item decode_slot store
  step-conv_state cell j other mem = elim (live_slot_cases nslots (indices (j / dim))) [
    | inl e ↦ rw e refl
    | inr (slot, e) ↦ rw e (ground (arith, other slot e))
  ]

  -- The item of a live slot.
  step-live :
      (b c slot : ℕ)
      → c < dim
      → live_slot nslots (indices b) ≡ some slot
      → (srow : Buffer S) (mem : Memory T S) → mem.conv_state (slot * dim + c) ≡ srow
      → let v = x (b * dim + c) in
        ((step (b * dim + c) mem).out (b * dim + c)
          ≡ conv_out ops silu state_len kernel weight bias c
              (decode_window ops silu state_len kernel weight bias srow v))
        × ((step (b * dim + c) mem).conv_state (slot * dim + c)
            ≡ shifted ops silu state_len kernel weight bias srow v)
  unfolding decode_item decode_slot store
  step-live b c slot hc e srow mem p =
      let column : b * dim + c - b * dim ≡ c = omega arith in
      rw (row_div b c dim hc, column, e, p) (ground arith, ground arith)

  step-null :
      (gid : ℕ)
      → live_slot nslots (indices (gid / dim)) ≡ none
      → (mem : Memory T S) → (step gid mem).out gid ≡ ops.zero_out
  unfolding decode_item decode_slot store
  step-null gid e mem = rw e (ground arith)

  module _ (batch : ℕ) (order : List ℕ) (launched : IsSchedule (batch * dim) order) where
    runs_once : (gid : ℕ) → gid < batch * dim → count gid order ≡ 1
    runs_once gid h = ground (arith, launched gid, h)

    module _ (distinct : DistinctSlots nslots batch indices) (b c : ℕ) (hb : b < batch)
        (hc : c < dim) where
      decoded :
          (slot : ℕ)
          → live_slot nslots (indices b) ≡ some slot
          → (mem : Memory T S)
          → let srow = mem.conv_state (slot * dim + c) in
            ((run_steps step order mem).out (b * dim + c)
              ≡ conv_out ops silu state_len kernel weight bias c
                  (decode_window ops silu state_len kernel weight bias srow (x (b * dim + c))))
            × ((run_steps step order mem).conv_state (slot * dim + c)
                ≡ shifted ops silu state_len kernel weight bias srow (x (b * dim + c)))
      decoded slot e mem =
          let gid = b * dim + c in
          let srow = mem.conv_state (slot * dim + c) in
          let after = shifted ops silu state_len kernel weight bias srow (x gid) in
          run_steps-once step (λ m. m.conv_state (slot * dim + c) ≡ srow)
            (λ m.
              (m.out gid
                ≡ conv_out ops silu state_len kernel weight bias c
                    (decode_window ops silu state_len kernel weight bias srow (x gid)))
              × (m.conv_state (slot * dim + c) ≡ after))
            gid (step-live b c slot hc e srow) order
            (λ j ran ne m p.
              step-conv_state (slot * dim + c) j
                (others_miss nslots dim indices batch order launched distinct b c hb hc slot e j ran
                  ne)
                m
              ∙ p)
            (λ j ran ne m q. (
              step-out gid j ne m ∙ q.0,
              step-conv_state (slot * dim + c) j
                    (others_miss nslots dim indices batch order launched distinct b c hb hc slot e j
                      ran ne)
                    m
                  ∙ q.1,
            ))
            (runs_once gid (row_fits b batch c dim hb hc)) mem refl

      nulled :
          live_slot nslots (indices b) ≡ none
          → (mem : Memory T S) → (run_steps step order mem).out (b * dim + c) ≡ ops.zero_out
      nulled e mem =
          let gid = b * dim + c in
          run_steps-once step (λ m. Unit) (λ m. m.out gid ≡ ops.zero_out) gid
            (λ m p.
              step-null gid (ap (λ (t : ℕ). live_slot nslots (indices t)) (row_div b c dim hc) ∙ e)
                m)
            order (λ j ran ne m p. tt) (λ j ran ne m q. step-out gid j ne m ∙ q)
            (runs_once gid (row_fits b batch c dim hb hc)) mem tt

    idle :
        (slot c : ℕ)
        → c < dim
        → ((b : ℕ) → b < batch → ¬ (live_slot nslots (indices b) ≡ some slot))
        → (mem : Memory T S)
        → (run_steps step order mem).conv_state (slot * dim + c) ≡ mem.conv_state (slot * dim + c)
    idle slot c hc unused mem =
        run_steps-keep step (λ m. m.conv_state (slot * dim + c) ≡ mem.conv_state (slot * dim + c))
          order
          (λ j ran m p.
            step-conv_state (slot * dim + c) j
              (unused_miss nslots dim indices batch order launched slot c hc unused j ran) m
            ∙ p)
          mem refl

  -- Outside the envelope of kernel taps a decode step changes nothing. Within it, for a batch whose
  -- live rows have distinct slots and items that run in any order: the row of a live slot gives the
  -- convolution of the state before and the new sample, the products of all taps added to the bias
  -- in order; each element of its state becomes the one after it, and the last the new sample; the row of a null slot gives zero; and the state of
  -- a slot that no row of the batch has stays.
  pub causal_conv1d_decode_lem :
      (batch : ℕ) (order : List ℕ)
      → IsSchedule (batch * dim) order
      → DistinctSlots nslots batch indices
      → (mem : Memory T S)
      → (rejected ops silu state_len kernel weight bias ≡ true
          → causal_conv1d_decode ops silu state_len kernel weight bias dim nslots indices x order
              mem
            ≡ mem)
        × (rejected ops silu state_len kernel weight bias ≡ false
            → (c : ℕ) → c < dim
            → ((b slot : ℕ)
                → b < batch
                → live_slot nslots (indices b) ≡ some slot
                → let after =
                    causal_conv1d_decode ops silu state_len kernel weight bias dim nslots indices x
                      order mem in
                  let srow = mem.conv_state (slot * dim + c) in
                  (after.out (b * dim + c)
                    ≡ convolution ops silu state_len kernel weight bias c srow (x (b * dim + c)))
                  × MovedUp ops silu state_len kernel weight bias srow
                      (x (b * dim + c))
                      (after.conv_state (slot * dim + c)))
              × ((b : ℕ)
                  → b < batch
                  → live_slot nslots (indices b) ≡ none
                  → (causal_conv1d_decode ops silu state_len kernel weight bias dim nslots indices x
                        order mem).out
                      (b * dim + c)
                    ≡ ops.zero_out)
              × ((slot : ℕ)
                  → ((b : ℕ) → b < batch → ¬ (live_slot nslots (indices b) ≡ some slot))
                  → (causal_conv1d_decode ops silu state_len kernel weight bias dim nslots indices x
                        order mem).conv_state
                      (slot * dim + c)
                    ≡ mem.conv_state (slot * dim + c)))
  unfolding causal_conv1d_decode
  causal_conv1d_decode_lem batch order launched distinct mem = (
    λ out. rw out refl,
    λ inside c hc. rw inside (
      λ b slot hb e.
          let (out, state) = decoded batch order launched distinct b c hb hc slot e mem in
          let srow = mem.conv_state (slot * dim + c) in
          (
            out
                ∙ conv_out-convolution ops silu state_len kernel weight bias c srow
                    (x (b * dim + c)),
            rw state (shifted-MovedUp ops silu state_len kernel weight bias srow (x (b * dim + c))),
          ),
      λ b hb e. nulled batch order launched distinct b c hb hc e mem,
      λ slot unused. idle batch order launched slot c hc unused mem,
    ),
  )
