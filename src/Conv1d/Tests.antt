-- ===== src/Conv1d/Tests.antt =====
-- Two sequences of three and one tokens over a window of two, for one channel.
use quixi_core_xpu.Common.{
  ℕ, zero, suc, ◌+◌, ◌*◌, ◌<◌, ◌≤◌, ◌≡◌, refl, true, false, none, some, List, [], ◌∷◌, arith,
}
use quixi_core_xpu.Common.Int.{ℤ, pos, negsuc}
use quixi_core_xpu.Common.Launch.{Buffer, count, IsSchedule}
use quixi_core_xpu.Conv1d.{
  ConvOps, Memory, live_slot, rejected, use_init, conv_out, decode_window, causal_conv1d_decode,
  causal_conv1d_prefill,
}
use quixi_core_xpu.Conv1d.Sequences.{IsPacked}
use quixi_core_xpu.Conv1d.Slots.{DistinctSlots}
use quixi_core_xpu.Conv1d.Row.{Keeps, decode_rows, start_row}
use quixi_core_xpu.Conv1d.Convolution.{convolution}
use quixi_core_xpu.Conv1d.Decode.{causal_conv1d_decode_lem}
use quixi_core_xpu.Conv1d.Equivalence.{causal_conv1d_prefill-decode}

abbrev natural : ConvOps ℕ ℕ ℕ
natural = record {
  zero_float = 0;
  zero_out = 0;
  accumulate = λ acc v w. acc + v * w;
  conv1d_silu = λ v. v;
  widen = λ v. v;
  narrow = λ v. v;
  load_state = λ v. v;
  save_state = λ v. v;
}

natural-Keeps : Keeps natural
natural-Keeps = record { keeps_state = λ s. refl; keeps_sample = λ v. refl; keeps_zero = refl }

abbrev slots : ℕ → ℤ
slots zero = pos 1
slots (suc _) = negsuc 0

slots-DistinctSlots : DistinctSlots 2 2 slots
unfolding live_slot
slots-DistinctSlots zero zero slot ha hb p q = refl
slots-DistinctSlots zero (suc b) slot ha hb p q = absurd (grind (arith, q))
slots-DistinctSlots (suc a) b slot ha hb p q = absurd (grind (arith, p))

abbrev offsets : Buffer ℕ
offsets zero = 0
offsets (suc zero) = 3
offsets (suc (suc _)) = 4

offsets-IsPacked : IsPacked offsets 2
offsets-IsPacked = record { from_zero = refl; grows = offsets_grow }
  where
    offsets_grow : (s : ℕ) → s < 2 → offsets s ≤ offsets (s + 1)
    offsets_grow zero h = omega arith
    offsets_grow (suc zero) h = omega arith
    offsets_grow (suc (suc s)) h = absurd (omega (arith, h))

abbrev order_2 : List ℕ
order_2 = 1 ∷ 0 ∷ []

abbrev order_4 : List ℕ
order_4 = 3 ∷ 1 ∷ 0 ∷ 2 ∷ []

order_2-IsSchedule : IsSchedule 2 order_2
unfolding count
order_2-IsSchedule i = ground arith

order_4-IsSchedule : IsSchedule 4 order_4
unfolding count
order_4-IsSchedule i = ground arith

abbrev memory : Memory ℕ ℕ
memory = record { conv_state = λ row k. 10 * row + k; out = λ a. 99 }

abbrev weights : Buffer ℕ
weights k = k + 1

abbrev inputs : ℕ → Buffer ℕ
inputs c i = i + 5

abbrev prefilled : Memory ℕ ℕ
prefilled =
    causal_conv1d_prefill natural false 2 3 weights none 1 2 2 offsets slots (some (λ s. true))
      inputs order_4 order_2 memory

third_token : prefilled.out 2 ≡ 5 * 1 + 6 * 2 + 7 * 3
unfolding causal_conv1d_prefill
third_token = refl

not_rejected : rejected natural false 2 3 weights none ≡ false
unfolding rejected
not_rejected = refl

live : live_slot 2 (slots 0) ≡ some 1
unfolding live_slot
live = refl

causal_conv1d_prefill-decode_example :
    prefilled.out ((offsets 0 + 2) * 1 + 0)
    ≡ conv_out natural false 2 3 weights none 0 (
        decode_window natural false 2 3 weights none
          (decode_rows natural false 2 3 weights none
            (λ i. inputs 0 (offsets 0 + i))
            2
            (start_row natural false 2 3 weights none
              (use_init (some (λ s. true)) 0)
              (memory.conv_state (1 * 1 + 0))))
          (inputs 0 (offsets 0 + 2)))
causal_conv1d_prefill-decode_example =
    ((((causal_conv1d_prefill-decode natural false 2 3 weights none 1 2 2 offsets slots
            (some (λ s. true)) inputs natural-Keeps offsets-IsPacked slots-DistinctSlots order_4
            order_2 order_4-IsSchedule order_2-IsSchedule memory).1
          not_rejected 0 (omega arith)).0
        0 1 (omega arith) live).0)
      2 (omega arith)

causal_conv1d_decode_lem_example :
    (causal_conv1d_decode natural false 2 3 weights none 1 2 slots (inputs 0) order_2 memory).out
      (0 * 1 + 0)
    ≡ convolution natural false 2 3 weights none 0
        (memory.conv_state (1 * 1 + 0))
        (inputs 0 (0 * 1 + 0))
causal_conv1d_decode_lem_example =
    (((causal_conv1d_decode_lem natural false 2 3 weights none 1 2 slots (inputs 0) 2 order_2
          order_2-IsSchedule slots-DistinctSlots memory).1
        not_rejected 0 (omega arith)).0
      0 1 (omega arith) live).0
