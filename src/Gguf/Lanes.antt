-- ===== src/Gguf/Lanes.antt =====
-- The lanes of a subgroup share out the blocks of a row.
use quixi_core_xpu.Common.{
  ℕ, zero, suc, ◌+◌, ◌-◌, ◌%◌, ◌≤◌, ◌<◌, ◌≡◌, refl, sym, ap, ◌∙◌, ltb, ◌==◌, if◌then◌else◌, arith,
  min, Bool-cases, inl, inr, ltb→lt, dec_lt,
}
use quixi_core_xpu.Common.Launch.{sum_below}
use quixi_core_xpu.Common.Sums.{sum_below_next, sum_below_plus, sum_gap, pick_one}
use quixi_core_xpu.Gguf.Formats.{lanes, lane_loop}

-- The part of `h` that is lane `lane`'s.
abbrev pub own_part : (ℕ → ℕ) → ℕ → ℕ → ℕ
own_part h lane b = if b % lanes == lane then h b else 0

module _ (h : ℕ → ℕ) (step : ℕ → ℕ → ℕ) (adds : (b acc : ℕ) → step b acc ≡ acc + h b)
    (blocks lane : ℕ) where
  lane_loop_sum :
      (fuel b acc : ℕ)
      → b % lanes ≡ lane
      → blocks ≤ b + fuel
      → lane_loop step blocks fuel b acc + sum_below (own_part h lane) (min b blocks)
        ≡ acc + sum_below (own_part h lane) blocks
  unfolding lane_loop
  lane_loop_sum zero b acc own enough =
      let all : min b blocks ≡ blocks = omega (arith, enough) in rw all refl
  lane_loop_sum (suc fuel) b acc own enough = elim (Bool-cases (ltb b blocks)) [
    | inl inside ↦
        let g = own_part h lane in
        let less : b < blocks = ltb→lt b blocks inside in
        let d = min (b + lanes) blocks - (b + 1) in
        let reach : min (b + lanes) blocks ≡ b + 1 + d = omega (arith, less) in
        let here : min b blocks ≡ b = omega (arith, less) in
        let mine : g b ≡ h b = ground (arith, own) in
        let next = sum_below_next g b in
        let gap : sum_below g (b + 1 + d) ≡ sum_below g (b + 1) =
          sum_gap g (b + 1) d (λ i p. ground (arith, own, p)) in
        let later =
          lane_loop_sum fuel (b + lanes) (step b acc) (omega (arith, own))
            (omega (arith, enough)) in
        rw (inside, here)
          (omega (arith, later, ap (λ (m : ℕ). sum_below g m) reach, gap, next, mine, adds b acc))
    | inr past ↦ let all : min b blocks ≡ blocks = ground (arith, past) in rw (past, all) refl
  ]

-- With as many rounds as there are blocks or more, lane `lane` adds its own blocks.
pub lane_sum :
    (h : ℕ → ℕ) (step : ℕ → ℕ → ℕ)
    → ((b acc : ℕ) → step b acc ≡ acc + h b)
    → (blocks fuel lane acc : ℕ) → lane < lanes
    → blocks ≤ fuel
    → lane_loop step blocks fuel lane acc ≡ acc + sum_below (own_part h lane) blocks
unfolding sum_below
lane_sum h step adds blocks fuel lane acc small enough = elim (dec_lt lane blocks) [
  | yes inside ↦
      let g = own_part h lane in
      let none_before : sum_below g (0 + lane) ≡ sum_below g 0 =
        sum_gap g 0 lane (λ i p. ground (arith, p, small)) in
      let here : min lane blocks ≡ 0 + lane = omega (arith, inside) in
      omega (
        arith,
        lane_loop_sum h step adds blocks lane fuel lane acc (ground (arith, small))
            (omega (arith, enough)),
        none_before,
        ap (λ (m : ℕ). sum_below g m) here,
        nothing g,
      )
  | no past ↦
      let all : min lane blocks ≡ blocks = omega (arith, past) in
      omega (
        arith,
        lane_loop_sum h step adds blocks lane fuel lane acc (ground (arith, small))
            (omega (arith, enough)),
        ap (λ (m : ℕ). sum_below (own_part h lane) m) all,
        empty past,
      )
]
  where
    nothing : (g : ℕ → ℕ) → sum_below g 0 ≡ 0
    nothing g = refl

    empty : ¬ (lane < blocks) → sum_below (own_part h lane) blocks ≡ 0
    empty past =
        let from_zero : 0 + blocks ≡ blocks = omega arith in
        ap (λ (m : ℕ). sum_below (own_part h lane) m) (sym from_zero)
        ∙ sum_gap (own_part h lane) 0 blocks (λ i p. ground (arith, p, small, past))

shared :
    (h : ℕ → ℕ) (n blocks : ℕ)
    → lanes ≤ n
    → sum_below (λ lane. sum_below (own_part h lane) blocks) n ≡ sum_below h blocks
unfolding sum_below
shared h n zero wide = zeros n
  where
    zeros : (n : ℕ) → sum_below (λ lane. 0) n ≡ 0
    zeros zero = refl
    zeros (suc n) = omega (arith, zeros n)
shared h n (suc b) wide = ground (
  arith,
  wide,
  shared h n b wide,
  pick_one (b % lanes) (h b) n,
  sum_below_plus (λ lane. sum_below (own_part h lane) b) (λ lane. own_part h lane b) n,
)

-- All lanes together add every block once.
pub lanes_sum :
    (h : ℕ → ℕ) (blocks : ℕ)
    → sum_below (λ lane. sum_below (own_part h lane) blocks) lanes ≡ sum_below h blocks
lanes_sum h blocks = shared h lanes blocks (omega arith)
