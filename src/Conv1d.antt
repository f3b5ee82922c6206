-- ===== src/Conv1d.antt =====
-- The causal convolution of kernels/ssm/causal_conv1d/variants/xpu_sycl: one decode step, which
-- shifts the rolling window of a slot, and the prefill of packed sequences. The strides of the
-- source are taken to give every element its own address: a state is one row of state_len elements
-- for each slot and channel, at slot * dim + c, and the output of a token is at tok * dim + c. An item
-- runs as one step; no two live items of a launch share a row when the slots are distinct.
pub mod Row
pub mod Slots
pub mod Sequences
pub mod Convolution
pub mod Decode
pub mod Prefill
pub mod Equivalence
mod Tests
use quixi_core_xpu.Common.{
  ℕ, zero, suc, ◌+◌, ◌-◌, ◌*◌, ◌/◌, ◌≡◌, Bool, true, false, not, ltb, leb, ◌&&◌, ◌||◌, ◌==◌,
  if◌then◌else◌, Option, none, some, List, [], ◌∷◌,
}
use quixi_core_xpu.Common.Int.{ℤ, pos, negsuc}
use quixi_core_xpu.Common.Launch.{Buffer, store}
use quixi_core_xpu.Common.Steps.{run_steps}

-- What the kernels do with floats F, activations T and states S: `accumulate acc v w` is
-- acc += v * w.
pub record ConvOps (T S F : Type 0) : Type 0 where
  pub zero_float : F
  pub zero_out : T
  pub accumulate : F → F → F → F
  pub conv1d_silu : F → F
  pub widen : T → F
  pub narrow : F → T
  pub load_state : S → F
  pub save_state : F → S

abbrev pub max_taps : ℕ
max_taps = 8

-- The slot of a batch row, if it is not a null slot.
unfoldable pub live_slot : ℕ → ℤ → Option ℕ
live_slot nslots (negsuc _) = none
live_slot nslots (pos slot) = if leb nslots slot then none else some slot

-- Locate the sequence that owns a packed token: `rest` sequences from `s` on are left to try.
unfoldable pub find_seq_from : Buffer ℕ → ℕ → ℕ → ℕ → ℕ → ℕ
find_seq_from qsl batch tok s zero = batch - 1
find_seq_from qsl batch tok s (suc rest) =
    let later = find_seq_from qsl batch tok (s + 1) rest in
    if ltb tok (qsl (s + 1)) then s else later

unfoldable pub cp_find_seq : Buffer ℕ → ℕ → ℕ → ℕ
unfolding find_seq_from
cp_find_seq qsl batch tok = find_seq_from qsl batch tok 0 batch

unfoldable pub use_init : Option (ℕ → Bool) → ℕ → Bool
use_init none s = false
use_init (some has_init) s = has_init s

-- The conv state as one row for each slot and channel, and the output.
pub record Memory (T S : Type 0) : Type 0 where
  pub conv_state : Buffer (Buffer S)
  pub out : Buffer T

module _ {T S F : Type 0} (ops : ConvOps T S F) (silu : Bool) (state_len kernel : ℕ)
    (weight : Buffer T) (bias : Option (Buffer T)) where
  unfoldable pub bias_of : Option (Buffer T) → ℕ → F
  bias_of none c = ops.zero_float
  bias_of (some values) c = ops.widen (values c)

  -- acc after the first taps of a window.
  unfoldable pub taps : ℕ → Buffer F → ℕ → F
  unfolding bias_of
  taps c window zero = bias_of bias c
  taps c window (suc k) =
      ops.accumulate (taps c window k) (window k) (ops.widen (weight (c * kernel + k)))

  unfoldable pub conv_out : ℕ → Buffer F → T
  unfolding taps
  conv_out c window =
      let acc = taps c window kernel in ops.narrow (if silu then ops.conv1d_silu acc else acc)

  -- window = [state[0], .., state[state_len - 1], x]
  unfoldable pub decode_window : Buffer S → T → Buffer F
  decode_window srow x = λ k. if ltb k state_len then ops.load_state (srow k) else ops.widen x

  -- state <- window[1:]
  unfoldable pub shifted : Buffer S → T → Buffer S
  unfolding decode_window
  shifted srow x =
      λ k. if ltb k state_len then ops.save_state (decode_window srow x (k + 1)) else srow k

  -- What the item of channel `c` of batch row `b` does, at the slot of the row.
  unfoldable pub decode_slot : ℕ → Buffer T → ℕ → Memory T S → ℕ → ℕ → Option ℕ → Memory T S
  unfolding store conv_out shifted
  decode_slot dim x gid mem b c none = record mem { out = store mem.out gid ops.zero_out }
  decode_slot dim x gid mem b c (some slot) =
      let srow = mem.conv_state (slot * dim + c) in
      record mem {
        out = store mem.out gid (conv_out c (decode_window srow (x (b * dim + c))));
        conv_state = store mem.conv_state (slot * dim + c) (shifted srow (x (b * dim + c)));
      }

  unfoldable pub decode_item : ℕ → ℕ → (ℕ → ℤ) → Buffer T → ℕ → Memory T S → Memory T S
  unfolding live_slot decode_slot
  decode_item dim nslots indices x gid mem =
      let b = gid / dim in
      let c = gid - b * dim in decode_slot dim x gid mem b c (live_slot nslots (indices b))

  -- Outside the envelope of the register window nothing is submitted.
  unfoldable pub rejected : Bool
  rejected = ltb max_taps kernel || not (kernel == state_len + 1)

  -- causal_conv1d_decode_sycl, with the order of the items below batch * dim.
  unfoldable pub causal_conv1d_decode :
      ℕ → ℕ → (ℕ → ℤ) → Buffer T → List ℕ → Memory T S → Memory T S
  unfolding rejected decode_item run_steps
  causal_conv1d_decode dim nslots indices x order mem =
      if rejected then mem else run_steps (decode_item dim nslots indices x) order mem

  -- Sample `src - below` of the sequence, or the initial state's when src < below: `src` is the
  -- source's signed index, `below` more.
  unfoldable pub sample : ℕ → Bool → Buffer S → Buffer T → ℕ → F
  sample below init srow x src =
      if leb below src
      then ops.widen (x (src - below))
      else if init
      then ops.load_state (srow (state_len + src - below))
      else ops.zero_float

  -- The taps that end at token `t` of its sequence.
  unfoldable pub prefill_window : Bool → Buffer S → Buffer T → ℕ → Buffer F
  unfolding sample
  prefill_window init srow x t = λ k. sample (kernel - 1) init srow x (t + k)

  -- The last state_len samples of a sequence.
  unfoldable pub written_back : Bool → Buffer S → Buffer T → ℕ → Buffer S
  unfolding sample
  written_back init srow x seqlen = λ m.
      if ltb m state_len then ops.save_state (sample state_len init srow x (seqlen + m)) else srow m

  module _ (dim nslots batch : ℕ) (qsl : Buffer ℕ) (indices : ℕ → ℤ) (has_init : Option (ℕ → Bool))
      (x : ℕ → Buffer T) where
    -- The output for token `t` of sequence `s`, which begins at `bos`.
    unfoldable pub slot_value : Buffer (Buffer S) → ℕ → ℕ → ℕ → ℕ → Option ℕ → T
    unfolding use_init conv_out prefill_window
    slot_value conv_state c s bos t none = ops.zero_out
    slot_value conv_state c s bos t (some slot) =
        conv_out c (
          prefill_window (use_init has_init s) (conv_state (slot * dim + c)) (λ i. x c (bos + i)) t)

    -- The output of kernel (A) at tok * dim + c, from the state before the launch. `x c` is the row
    -- of channel c.
    unfoldable pub prefill_value : Buffer (Buffer S) → ℕ → T
    unfolding cp_find_seq live_slot slot_value
    prefill_value conv_state gid =
        let tok = gid / dim in
        let c = gid - tok * dim in
        let s = cp_find_seq qsl batch tok in
        slot_value conv_state c s (qsl s) (tok - qsl s) (live_slot nslots (indices s))

    unfoldable pub output_item : ℕ → Memory T S → Memory T S
    unfolding store prefill_value
    output_item gid mem = record mem { out = store mem.out gid (prefill_value mem.conv_state gid) }

    -- What an item of kernel (B) does for a sequence from `bos` to `eos`.
    unfoldable pub slot_state : Memory T S → ℕ → ℕ → ℕ → ℕ → Option ℕ → Memory T S
    unfolding store use_init written_back
    slot_state mem c s bos eos none = mem
    slot_state mem c s bos eos (some slot) =
        let srow = mem.conv_state (slot * dim + c) in
        if leb eos bos then mem else record mem {
          conv_state =
              store mem.conv_state (slot * dim + c)
                (written_back (use_init has_init s) srow (λ i. x c (bos + i)) (eos - bos));
        }

    -- One item of kernel (B), for sequence s and channel c.
    unfoldable pub state_item : ℕ → Memory T S → Memory T S
    unfolding live_slot slot_state
    state_item gid mem =
        let s = gid / dim in
        let c = gid - s * dim in
        slot_state mem c s (qsl s) (qsl (s + 1)) (live_slot nslots (indices s))

    -- causal_conv1d_prefill_sycl: (B) depends on (A).
    unfoldable pub causal_conv1d_prefill : List ℕ → List ℕ → Memory T S → Memory T S
    unfolding rejected output_item state_item run_steps
    causal_conv1d_prefill outputs states mem =
        if rejected then mem else run_steps state_item states (run_steps output_item outputs mem)
