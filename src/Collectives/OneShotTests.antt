-- ===== src/Collectives/OneShotTests.antt =====
-- One rank with one element, in a whole one-shot call.
use quixi_core_xpu.Common.{ℕ, ◌+◌, ◌≤◌, ◌<◌, ◌≡◌, refl, true, arith}
use quixi_core_xpu.Common.Launch.{Buffer}
use quixi_core_xpu.Collectives.{SumUnit, rank_sum}
use quixi_core_xpu.Collectives.Meeting.{begin, read, publish, observe, write, leave, rested}
use quixi_core_xpu.Collectives.OneShot.{
  one_shot_calls, group_of, Summing, Summed, Acts, stage, launch, meet, sum, call_begins,
}
use quixi_core_xpu.Collectives.OneShot.Sum.{depart-summed}

up_to : (n : ℕ) → n ≤ n
up_to n = omega arith

above : (n : ℕ) → n < n + 1
above n = omega arith

abbrev numbers : SumUnit ℕ
numbers = record { to_float = λ x. x; from_float = λ x. x; add = λ x y. x + y }

abbrev inputs : ℕ → Buffer ℕ
inputs r i = 7

abbrev junk : ℕ → Buffer ℕ
junk r i = 99

abbrev call_start : Summing ℕ
call_start = call_begins junk junk (λ b. rested 5 (λ r p l. 4))

abbrev Reached : Type 0
Reached = (x : Summing ℕ) × Acts numbers inputs 1 1 call_start x

is_launched : Reached
is_launched = (
  _,
  Acts.later (Acts.later Acts.start (stage 0 0 (omega arith) (omega arith) refl))
      (launch 0 (omega arith) (λ i p. ground arith)),
)

arrived : Reached
unfolding is_launched one_shot_calls Summed group_of
arrived = (
  _,
  Acts.later
      (Acts.later
        (Acts.later
          (Acts.later
            (Acts.later
              (Acts.later is_launched.1
                (meet 0 _ (begin 0 (omega arith) (omega arith) refl refl (refl))))
              (meet 0 _ (read 0 0 (omega arith) (omega arith) (omega arith))))
            (meet 0 _ (publish 0 0 (omega arith) (omega arith) refl (omega arith))))
          (meet 0 _ (observe 0 0 (omega arith) (omega arith) refl (omega arith) (up_to _))))
        (meet 0 _ (
          write 0 (omega arith) (omega arith) refl (λ _ l p. ground arith)
            (λ _ l p. ground arith))))
      (meet 0 _ (leave 0 (omega arith) (above _) (λ l p. ground arith))),
)

is_summed : Reached
unfolding is_launched arrived one_shot_calls Summed group_of
is_summed = (_, Acts.later arrived.1 (sum 0 0 0 (omega arith) (omega arith) (omega arith) refl))

departed : Reached
unfolding is_launched arrived is_summed one_shot_calls Summed group_of
departed = (
  _,
  Acts.later
      (Acts.later
        (Acts.later
          (Acts.later
            (Acts.later
              (Acts.later is_summed.1
                (meet 0 _ (begin 0 (omega arith) (omega arith) refl refl (λ i p e. ground arith))))
              (meet 0 _ (read 0 0 (omega arith) (omega arith) (omega arith))))
            (meet 0 _ (publish 0 0 (omega arith) (omega arith) refl (omega arith))))
          (meet 0 _ (observe 0 0 (omega arith) (omega arith) refl (omega arith) (up_to _))))
        (meet 0 _ (
          write 0 (omega arith) (omega arith) refl (λ _ l p. ground arith)
            (λ _ l p. ground arith))))
      (meet 0 _ (leave 0 (omega arith) (above _) (λ l p. ground arith))),
)

depart-summed_example :
    (departed.0.summed 0 0 ≡ true) × (departed.0.out 0 0 ≡ rank_sum numbers inputs 1 0)
unfolding is_launched arrived is_summed departed one_shot_calls Summed group_of
depart-summed_example =
    depart-summed numbers inputs 1 1 junk junk (λ b. 5) (λ b r p l. 4) departed.0 0 0 0 0
      (λ b. omega arith) (λ b r p l _ _. omega arith) departed.1 (λ b. ground arith) (omega arith)
      (omega arith) (omega arith) (omega arith) refl
