-- ===== src/Collectives/MeetingTests.antt =====
-- Two ranks at their first rendezvous, and one rank through whole calls.
use quixi_core_xpu.Common.{ℕ, ◌+◌, ◌<◌, ◌≤◌, ◌≡◌, ◌⊎◌, refl, true, false, arith}
use quixi_core_xpu.Common.Launch.{Buffer}
use quixi_core_xpu.Collectives.{SumUnit, rank_sum, InSlice, slice_lo, slice_hi, Reach}
use quixi_core_xpu.Collectives.TwoShot.{before}
use quixi_core_xpu.Collectives.Meeting.{
  Meeting, begin, read, publish, observe, write, leave, Turns, rested,
}
use quixi_core_xpu.Collectives.Meeting.Order.{left-begun}
use quixi_core_xpu.Collectives.Meeting.Progress.{meetings_finish, CanTurn}
use quixi_core_xpu.Collectives.Meeting.Work.{most_steps}
use quixi_core_xpu.Collectives.Meeting.Lockstep.{departs, lockstep_needed}
use quixi_core_xpu.Collectives.Meeting.Wrap.{generation_wraps}
use quixi_core_xpu.Collectives.Joint.{two_shot_calls, Move, Ranks, Ready, Moves}
use quixi_core_xpu.Collectives.Joint.Refinement.{flags-meet, depart-gathered, call_begins, IsQuiet}

abbrev no_flags : ℕ → ℕ → ℕ → ℕ
no_flags r p l = 0

abbrev Always : ℕ → ℕ → Type 0
Always r n = ℕ

up_to : (n : ℕ) → n ≤ n
up_to n = omega arith

above : (n : ℕ) → n < n + 1
above n = omega arith

-- Rank 0 goes on from the first rendezvous of two ranks.
first_left :
    (x : Meeting) × Turns true 2 3 two_shot_calls Always (rested 0 no_flags) 11 x
    × (x.expired ≡ false)
    × (x.left 0 ≡ 1)
unfolding two_shot_calls
first_left = (
  _,
  (Turns.later
      (Turns.later
        (Turns.later
          (Turns.later
            (Turns.later
              (Turns.later
                (Turns.later
                  (Turns.later
                    (Turns.later
                      (Turns.later
                        (Turns.later Turns.start (begin 0 (omega arith) (omega arith) refl refl 0))
                        (read 0 0 (omega arith) (omega arith) (omega arith)))
                      (read 0 1 (omega arith) (omega arith) (omega arith)))
                    (publish 0 0 (omega arith) (omega arith) refl (omega arith)))
                  (publish 0 1 (omega arith) (omega arith) refl (omega arith)))
                (begin 1 (omega arith) (omega arith) refl refl 0))
              (read 1 0 (omega arith) (omega arith) (omega arith)))
            (publish 1 0 (omega arith) (omega arith) refl (omega arith)))
          (observe 0 0 (omega arith) (omega arith) refl (omega arith) (up_to _)))
        (observe 0 1 (omega arith) (omega arith) refl (omega arith) (omega arith)))
      (leave 0 (omega arith) (above _) (λ l p. ground arith))),
  refl,
  refl,
)

left-begun_example : first_left.0.left 0 ≤ first_left.0.begun 1
left-begun_example =
    left-begun 2 3 two_shot_calls Always 0 no_flags 11 first_left.0 (omega arith)
      (λ r p l _ _. omega arith) first_left.1 first_left.2 0 1 (omega arith) (omega arith)

meetings_finish_example :
    (11 ≤ most_steps 2 3)
    × (((r : ℕ) → r < 2 → first_left.0.left r ≡ 3)
        ⊎ CanTurn true 2 3 two_shot_calls Always first_left.0)
meetings_finish_example =
    meetings_finish 2 3 two_shot_calls Always 0 no_flags 11 first_left.0 (omega arith)
      (λ r p l _ _. omega arith) first_left.1 (λ r. 0)

generation_wraps_example :
    (k : ℕ) × (x : Meeting) × Turns true 2 3 two_shot_calls Always (rested 4294967295 no_flags) k x
    × (x.left 0 ≡ 1)
    × (x.begun 1 ≡ 0)
    × (x.expired ≡ false)
generation_wraps_example = generation_wraps 3 two_shot_calls Always no_flags (omega arith) 0

lockstep_needed_example :
    (k : ℕ) × (x : Meeting) × Turns false 2 1 departs Always (rested 0 no_flags) k x
    × (x.expired ≡ false)
    × (x.left 0 ≡ 0)
    × (x.left 1 ≡ 1)
    × (¬ CanTurn false 2 1 departs Always x)
lockstep_needed_example = lockstep_needed Always 0 no_flags (λ r n. 0) (omega arith)

abbrev numbers : SumUnit ℕ
numbers = record { to_float = λ x. x; from_float = λ x. x; add = λ x y. x + y }

abbrev inputs : ℕ → Buffer ℕ
inputs r i = 7

abbrev junk : ℕ → Buffer ℕ
junk r i = 99

first_slice : InSlice 1 1 0 0 0
unfolding slice_lo slice_hi
first_slice = (omega arith, omega arith)

only_first : (b owner i : ℕ) → owner < 1 → InSlice 1 1 b owner i → i ≡ 0
unfolding slice_lo slice_hi
only_first b owner i o_in mine = omega (arith, mine.1, o_in)

-- One rank with one element, in a whole two-shot call.
abbrev call_start : Ranks ℕ
call_start = call_begins junk junk (λ b. 5) (λ b r p l. 0)

abbrev Reached : Type 0
Reached = (x : Ranks ℕ) × Moves numbers inputs 1 1 call_start x

is_launched : Reached
unfolding two_shot_calls Ready
is_launched = (
  _,
  Moves.later (Moves.later Moves.start (Move.stage 0 0 (omega arith) (omega arith) refl))
      (Move.launch 0 (omega arith) (λ i p. ground arith)),
)

arrived : Reached
unfolding is_launched two_shot_calls Ready
arrived = (
  _,
  Moves.later
      (Moves.later
        (Moves.later
          (Moves.later
            (Moves.later
              (Moves.later is_launched.1
                (Move.meet 0 _ (begin 0 (omega arith) (omega arith) refl refl (refl))))
              (Move.meet 0 _ (read 0 0 (omega arith) (omega arith) (omega arith))))
            (Move.meet 0 _ (publish 0 0 (omega arith) (omega arith) refl (omega arith))))
          (Move.meet 0 _ (observe 0 0 (omega arith) (omega arith) refl (omega arith) (up_to _))))
        (Move.meet 0 _ (
          write 0 (omega arith) (omega arith) refl (λ _ l p. ground arith)
            (λ _ l p. ground arith))))
      (Move.meet 0 _ (leave 0 (omega arith) (above _) (λ l p. ground arith))),
)

is_reduced : Reached
unfolding is_launched arrived two_shot_calls Ready
is_reduced = (
  _,
  Moves.later
      (Moves.later (Moves.later arrived.1 (Move.enter 0 0 (omega arith) (omega arith)))
        (Move.reduce 0 0 0 (omega arith) refl first_slice refl))
      (Move.announce 0 0 (omega arith) refl
        (λ i m. ground (arith, only_first 0 0 i (omega arith) m))),
)

is_mid : Reached
unfolding is_launched arrived is_reduced two_shot_calls Ready
is_mid = (
  _,
  Moves.later
      (Moves.later
        (Moves.later
          (Moves.later
            (Moves.later
              (Moves.later is_reduced.1
                (Move.meet 0 _ (begin 0 (omega arith) (omega arith) refl refl (refl))))
              (Move.meet 0 _ (read 0 0 (omega arith) (omega arith) (omega arith))))
            (Move.meet 0 _ (publish 0 0 (omega arith) (omega arith) refl (omega arith))))
          (Move.meet 0 _ (observe 0 0 (omega arith) (omega arith) refl (omega arith) (up_to _))))
        (Move.meet 0 _ (
          write 0 (omega arith) (omega arith) refl (λ _ l p. ground arith)
            (λ _ l p. ground arith))))
      (Move.meet 0 _ (leave 0 (omega arith) (above _) (λ l p. ground arith))),
)

is_gathered : Reached
unfolding is_launched arrived is_reduced is_mid two_shot_calls Ready
is_gathered = (
  _,
  Moves.later is_mid.1 (Move.gather 0 0 0 0 (omega arith) (omega arith) (omega arith) first_slice),
)

departed : Reached
unfolding is_launched arrived is_reduced is_mid is_gathered two_shot_calls Ready
departed = (
  _,
  Moves.later
      (Moves.later
        (Moves.later
          (Moves.later
            (Moves.later
              (Moves.later is_gathered.1 (
                Move.meet 0 _ (
                  begin 0 (omega arith) (omega arith) refl refl
                    (λ owner i o_in m. ground (arith, only_first 0 owner i o_in m)))))
              (Move.meet 0 _ (read 0 0 (omega arith) (omega arith) (omega arith))))
            (Move.meet 0 _ (publish 0 0 (omega arith) (omega arith) refl (omega arith))))
          (Move.meet 0 _ (observe 0 0 (omega arith) (omega arith) refl (omega arith) (up_to _))))
        (Move.meet 0 _ (
          write 0 (omega arith) (omega arith) refl (λ _ l p. ground arith)
            (λ _ l p. ground arith))))
      (Move.meet 0 _ (leave 0 (omega arith) (above _) (λ l p. ground arith))),
)

departed_patient : (b : ℕ) → (departed.0.meeting b).expired ≡ false
unfolding is_launched arrived is_reduced is_mid is_gathered departed two_shot_calls Ready
departed_patient b = ground arith

quiet : IsQuiet numbers inputs 1 1 junk junk (λ b. 5) (λ b r p l. 0)
quiet = (λ b. omega arith, λ b r p l _ _. omega arith)

flags-meet_example : Reach numbers inputs 1 1 (before junk junk) departed.0.memory
unfolding is_launched arrived is_reduced is_mid is_gathered departed two_shot_calls Ready
flags-meet_example =
    flags-meet numbers inputs 1 1 junk junk (λ b. 5) (λ b r p l. 0) departed.0 quiet departed.1
      departed_patient

depart-gathered_example :
    (departed.0.memory.gathered 0 0 ≡ true)
    × (departed.0.memory.out 0 0 ≡ rank_sum numbers inputs 1 0)
unfolding is_launched arrived is_reduced is_mid is_gathered departed two_shot_calls Ready
depart-gathered_example =
    depart-gathered numbers inputs 1 1 junk junk (λ b. 5) (λ b r p l. 0) departed.0 0 0 0 0 0 quiet
      departed.1 departed_patient (omega arith) (omega arith) (omega arith) (omega arith)
      first_slice
