-- ===== src/Collectives/Tests.antt =====
-- One rank with one element.
use quixi_core_xpu.Common.{ℕ, ◌+◌, ◌<◌, ◌≤◌, ◌≡◌, refl, true, arith}
use quixi_core_xpu.Common.Launch.{Buffer}
use quixi_core_xpu.Collectives.{
  SumUnit, World, rank_sum, put, Reach, start, later, stage, launch, enter, reduce, announce,
  gather, blocks, wg_size, iteration, slice_lo, slice_hi, InSlice,
}
use quixi_core_xpu.Collectives.Slices.{slice_covers}
use quixi_core_xpu.Collectives.TwoShot.{before, Reach-rank_sum}

abbrev numbers : SumUnit ℕ
numbers = record { to_float = λ x. x; from_float = λ x. x; add = λ x y. x + y }

abbrev inputs : ℕ → Buffer ℕ
inputs r i = 7

abbrev junk : ℕ → Buffer ℕ
junk r i = 99

slice_covers_example :
    (owner : ℕ) × (b : ℕ) × (owner < 3)
    × (b < blocks)
    × (slice_lo 1000 3 b owner ≤ 700)
    × (700 < slice_hi 1000 3 b owner)
    × (lid : ℕ) × (k : ℕ) × (lid < wg_size)
    × (iteration (slice_lo 1000 3 b owner) lid k ≡ 700)
slice_covers_example = slice_covers 1000 3 700 (omega arith) (omega arith)

first_slice : InSlice 1 1 0 0 0
unfolding slice_lo slice_hi
first_slice = (omega arith, omega arith)

only_first : (i : ℕ) → InSlice 1 1 0 0 i → i ≡ 0
unfolding slice_lo slice_hi
only_first i mine = omega (arith, mine.1)

abbrev w0 : World ℕ
w0 = before junk junk

abbrev w1 : World ℕ
w1 = record w0 { staging = put w0.staging 0 0 7; staged = put w0.staged 0 0 true }

abbrev w2 : World ℕ
w2 = record w1 { launched = put w1.launched 0 0 true }

abbrev w3 : World ℕ
w3 = record w2 { entered = put w2.entered 0 0 true }

abbrev w4 : World ℕ
w4 = record w3 {
  staging = put w3.staging 0 0 (rank_sum numbers w3.staging 1 0);
  reduced = put w3.reduced 0 0 true;
}

abbrev w5 : World ℕ
w5 = record w4 { announced = put w4.announced 0 0 true }

abbrev w6 : World ℕ
w6 = record w5 { out = put w5.out 0 0 (w5.staging 0 0); gathered = put w5.gathered 0 0 true }

all_six : Reach numbers inputs 1 1 w0 w6
all_six =
    later
      (later
        (later
          (later
            (later (later start (stage 0 0 (omega arith) (omega arith) refl))
              (launch 0 (omega arith) (λ i p. ground arith)))
            (enter 0 0 (omega arith) (λ s p. ground arith)))
          (reduce 0 0 0 (omega arith) refl first_slice refl))
        (announce 0 0 (omega arith) refl (λ i m. ground (arith, only_first i m))))
      (gather 0 0 0 0 (omega arith) (omega arith) (λ s p. ground arith) first_slice)

Reach-rank_sum_example : w6.out 0 0 ≡ rank_sum numbers inputs 1 0
Reach-rank_sum_example = Reach-rank_sum numbers inputs 1 1 junk junk w6 all_six 0 0 refl
