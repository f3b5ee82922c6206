-- ===== src/Route/Select.antt =====
-- Each pass selects the best expert that is not selected yet.
use quixi_core_xpu.Common.{
  ℕ, zero, suc, ◌+◌, ◌≤◌, ◌<◌, ◌≡◌, ◌≢◌, refl, ap, Bool, true, false, not, ltb, ◌&&◌, ◌==◌,
  if◌then◌else◌, arith, inl, inr, ◌⊎◌, Bool-cases, dec_lt,
}
use quixi_core_xpu.Common.Float.{float_gt, neg_infinity}
use quixi_core_xpu.Common.Launch.{Buffer, sum_below}
use quixi_core_xpu.Argmax.{nothing_seen, consider}
use quixi_core_xpu.Argmax.Best.{IsBest, IsBest-none, IsBest-same, IsBest-consider}
use quixi_core_xpu.Route.{taken, scan_experts}

-- The logits above -infinity among the first `n`.
abbrev pub above : Buffer ℕ → ℕ → ℕ
above row n = sum_below (λ e. if float_gt (row e) neg_infinity then 1 else 0) n

pub taken-hit : (sel : Buffer ℕ) (i e : ℕ) → taken sel i e ≡ true → (j : ℕ) × (j < i) × (sel j ≡ e)
unfolding taken
taken-hit sel zero e h = absurd (ground (arith, h))
taken-hit sel (suc i) e h = elim (Bool-cases (taken sel i e)) [
  | inl before ↦ let (j, p, q) = taken-hit sel i e before in (j, omega (arith, p), q)
  | inr now ↦ (i, omega arith, ground (arith, now, h))
]

pub taken-miss : (sel : Buffer ℕ) (i e : ℕ) → taken sel i e ≡ false → (j : ℕ) → j < i → sel j ≢ e
unfolding taken
taken-miss sel zero e h j p = absurd (omega (arith, p))
taken-miss sel (suc i) e h j p = elim (dec_lt j i) [
  | yes q ↦ taken-miss sel i e (ground (arith, h)) j q
  | no q ↦ let at : j ≡ i = omega (arith, p, q) in rw at (ground (arith, h))
]

pub not_taken : (sel : Buffer ℕ) (i e : ℕ) → ((j : ℕ) → j < i → sel j ≢ e) → taken sel i e ≡ false
not_taken sel i e h = elim (Bool-cases (taken sel i e)) [
  | inl hit ↦ let (j, p, q) = taken-hit sel i e hit in absurd (h j p q)
  | inr miss ↦ miss
]

-- An expert fills one place, so `i` selections take at most `i` experts.
place_of : (c n : ℕ) → sum_below (λ e. if c == e then 1 else 0) n ≡ (if ltb c n then 1 else 0)
unfolding sum_below
place_of c zero = ground arith
place_of c (suc n) = ground (arith, place_of c n)

sum_below_add :
    (f g h : ℕ → ℕ) (n : ℕ)
    → ((e : ℕ) → f e ≤ g e + h e)
    → sum_below f n ≤ sum_below g n + sum_below h n
unfolding sum_below
sum_below_add f g h zero le = omega arith
sum_below_add f g h (suc n) le = omega (arith, sum_below_add f g h n le, le n)

pub taken_few : (sel : Buffer ℕ) (i n : ℕ) → sum_below (λ e. if taken sel i e then 1 else 0) n ≤ i
unfolding taken sum_below
taken_few sel zero n = none_taken n
  where
    none_taken : (n : ℕ) → sum_below (λ e. if taken sel 0 e then 1 else 0) n ≤ 0
    none_taken zero = omega arith
    none_taken (suc n) = omega (arith, none_taken n)
taken_few sel (suc i) n = ground (
  arith,
  sum_below_add (λ e. if taken sel (suc i) e then 1 else 0) (λ e. if taken sel i e then 1 else 0)
      (λ e. if sel i == e then 1 else 0) n (λ e. ground arith),
  taken_few sel i n,
  place_of (sel i) n,
)

-- An expert of one kind and not of another, where there are more of the first.
pub spare :
    (f g : ℕ → Bool) (n : ℕ)
    → sum_below (λ e. if g e then 1 else 0) n < sum_below (λ e. if f e then 1 else 0) n
    → (e : ℕ) × (e < n) × (f e ≡ true) × (g e ≡ false)
unfolding sum_below
spare f g zero h = absurd (omega (arith, h))
spare f g (suc n) h = elim (Bool-cases (f n && not (g n))) [
  | inl here ↦ (n, omega arith, ground (arith, here), ground (arith, here))
  | inr elsewhere ↦
      let (e, p, q, r) = spare f g n (ground (arith, h, elsewhere)) in (e, omega (arith, p), q, r)
]

module _ (row : Buffer ℕ) (n_experts : ℕ) where
  -- The experts that are not among the first `i` selections.
  abbrev pub Left : Buffer ℕ → ℕ → ℕ → ℕ → Type 0
  Left sel i n e = (e < n) × (taken sel i e ≡ false)

  pub scan_experts-IsBest :
      (sel : Buffer ℕ) (i n : ℕ) → IsBest row (Left sel i n) (scan_experts row sel i n)
  unfolding scan_experts
  scan_experts-IsBest sel i zero = IsBest-none row _ (λ j p. absurd (omega (arith, p.0)))
  scan_experts-IsBest sel i (suc n) = elim (Bool-cases (taken sel i n)) [
    | inl hit ↦ rw hit (
        IsBest-same row (Left sel i n) (Left sel i (suc n)) _ (λ j p. (omega (arith, p.0), p.1))
          (λ j p. elim (dec_lt j n) [
            | yes q ↦ (q, p.1)
            | no q ↦
                let at : j ≡ n = omega (arith, p.0, q) in
                absurd (ground (arith, hit, p.1, ap (taken sel i) at))
          ])
          (scan_experts-IsBest sel i n))
    | inr free ↦ rw free (
        IsBest-consider row (Left sel i n) (Left sel i (suc n)) n _
          (λ j p. ((omega (arith, p.0), p.1), p.0)) (omega arith, free)
          (λ j p. elim (dec_lt j n) [ yes q ↦ inl (q, p.1) | no q ↦ inr (omega (arith, p.0, q)) ])
          (scan_experts-IsBest sel i n))
  ]

  -- The value of a scan is a logit, unless nothing was above -infinity.
  pub scan_experts-value :
      (sel : Buffer ℕ) (i n : ℕ)
      → (scan_experts row sel i n ≡ nothing_seen)
        ⊎ ((scan_experts row sel i n).value ≡ row (scan_experts row sel i n).index)
  unfolding scan_experts consider
  scan_experts-value sel i zero = inl refl
  scan_experts-value sel i (suc n) = elim (Bool-cases (taken sel i n)) [
    | inl hit ↦ rw hit (scan_experts-value sel i n)
    | inr free ↦ elim (Bool-cases (float_gt (row n) (scan_experts row sel i n).value)) [
      | inl better ↦ rw (free, better) (inr refl)
      | inr worse ↦ rw (free, worse) (scan_experts-value sel i n)
    ]
  ]
