-- ===== src/Argmax/Result.antt =====
-- argmax is the first of the greatest logits.
use quixi_core_xpu.Common.{ℕ, ◌≤◌, ◌<◌, ◌≡◌, sym, ◌∙◌, true, false, arith, inl, inr, ltb→lt}
use quixi_core_xpu.Common.Float.{
  is_nan, rank, lowest, neg_infinity, float_gt, float_eq, float_gt-rank, eq_rank, rank-is_number,
  gt_neg_infinity,
}
use quixi_core_xpu.Common.Launch.{Buffer}
use quixi_core_xpu.Argmax.{Winner, argmax}
use quixi_core_xpu.Argmax.Best.{IsBest}
use quixi_core_xpu.Argmax.Tree.{argmax-IsBest}

-- For vectors of any width above 0: if some logit of the row is greater than -infinity, argmax is
-- the index of a number in the row than which no logit is greater, and no logit equal to it stands
-- before it. If none is, NaNs included, argmax is 0.
pub argmax_lem :
    (width : ℕ) (logits : Buffer ℕ) (vocab : ℕ)
    → 0 < width
    → ((k : ℕ)
        → k < vocab
        → float_gt (logits k) neg_infinity ≡ true
        → (argmax width logits vocab < vocab)
          × (is_nan (logits (argmax width logits vocab)) ≡ false)
          × ((j : ℕ) → j < vocab → float_gt (logits j) (logits (argmax width logits vocab)) ≡ false)
          × ((j : ℕ)
              → j < vocab
              → float_eq (logits j) (logits (argmax width logits vocab)) ≡ true
              → argmax width logits vocab ≤ j))
      × (((k : ℕ) → k < vocab → float_gt (logits k) neg_infinity ≡ false)
          → argmax width logits vocab ≡ 0)
argmax_lem width logits vocab wide =
    let (w, e, best) = argmax-IsBest logits width vocab wide in rw e (greatest w best, none w best)
  where
    above_lowest : (k : ℕ) → float_gt (logits k) neg_infinity ≡ true → lowest < rank (logits k)
    above_lowest k high = ltb→lt _ _ (sym (gt_neg_infinity (logits k)) ∙ high)

    at_lowest : (k : ℕ) → float_gt (logits k) neg_infinity ≡ false → rank (logits k) ≤ lowest
    at_lowest k low = ground (arith, gt_neg_infinity (logits k), low)

    greatest :
        (w : Winner)
        → IsBest logits (λ j. j < vocab) w
        → (k : ℕ) → k < vocab
        → float_gt (logits k) neg_infinity ≡ true
        → (w.index < vocab)
          × (is_nan (logits w.index) ≡ false)
          × ((j : ℕ) → j < vocab → float_gt (logits j) (logits w.index) ≡ false)
          × ((j : ℕ) → j < vocab → float_eq (logits j) (logits w.index) ≡ true → w.index ≤ j)
    greatest w best k inside high = elim best.found [
      | inl none ↦ absurd (omega (arith, none.0, best.top k inside, above_lowest k high))
      | inr (p, same, h) ↦
          let number = rank-is_number (logits w.index) (omega (arith, same, h)) in
          (
            p,
            number,
            λ j q.
                ground
                  (arith, float_gt-rank (logits j) (logits w.index) number, best.top j q, same),
            λ j q tie. best.first j q h (eq_rank (logits j) (logits w.index) tie ∙ same),
          )
    ]

    none :
        (w : Winner)
        → IsBest logits (λ j. j < vocab) w
        → ((k : ℕ) → k < vocab → float_gt (logits k) neg_infinity ≡ false)
        → w.index ≡ 0
    none w best low = elim best.found [
      | inl nothing ↦ nothing.1
      | inr (p, same, h) ↦ absurd (omega (arith, same, h, at_lowest w.index (low w.index p)))
    ]
