-- ===== src/Argmax/Best.antt =====
-- The winner among some elements of a row, the first of the greatest.
use quixi_core_xpu.Common.{
  ℕ, ◌≤◌, ◌<◌, ◌≡◌, refl, sym, ◌∙◌, true, false, arith, ◌⊎◌, inl, inr, Bool-cases, ltb→lt,
}
use quixi_core_xpu.Common.Float.{
  float_gt-number, is_nan, rank, lowest, float_gt, float_gt-rank, rank-number, rank-neg_infinity,
}
use quixi_core_xpu.Common.Launch.{Buffer}
use quixi_core_xpu.Argmax.{Winner, nothing_seen, consider}

module _ (logits : Buffer ℕ) where
  -- The winner among the elements of `P`: its value is a number, none of them is greater, and it is
  -- the first of those as great; or it is index 0, if none of them is above -infinity.
  pub record IsBest (P : ℕ → Type 0) (w : Winner) : Type 0 where
    pub number : is_nan w.value ≡ false
    pub top : (j : ℕ) → P j → rank (logits j) ≤ rank w.value
    pub found :
        ((rank w.value ≡ lowest) × (w.index ≡ 0))
        ⊎ (P w.index × (rank (logits w.index) ≡ rank w.value) × (lowest < rank w.value))
    pub first : (j : ℕ) → P j → lowest < rank w.value → rank (logits j) ≡ rank w.value → w.index ≤ j

  pub IsBest-none : (P : ℕ → Type 0) → ((j : ℕ) → ¬ P j) → IsBest P nothing_seen
  unfolding is_nan
  IsBest-none P none = record {
    number = refl;
    top = λ j p. absurd (none j p);
    found = inl (rank-neg_infinity, refl);
    first = λ j p. absurd (none j p);
  }

  pub IsBest-same :
      (P Q : ℕ → Type 0) (w : Winner)
      → ((j : ℕ) → P j → Q j)
      → ((j : ℕ) → Q j → P j)
      → IsBest P w
      → IsBest Q w
  IsBest-same P Q w there back best = record {
    number = best.number;
    top = λ j q. best.top j (back j q);
    found = elim best.found [ inl none ↦ inl none | inr (p, e, h) ↦ inr (there w.index p, e, h) ];
    first = λ j q. best.first j (back j q);
  }

  -- One more element, after all that were seen.
  pub IsBest-consider :
      (P Q : ℕ → Type 0) (n : ℕ) (w : Winner)
      → ((j : ℕ) → P j → Q j × (j < n))
      → Q n
      → ((j : ℕ) → Q j → P j ⊎ (j ≡ n))
      → IsBest P w
      → IsBest Q (consider logits n w)
  unfolding consider
  IsBest-consider P Q n w there new back best = elim (Bool-cases (float_gt (logits n) w.value)) [
    | inl better ↦ rw better (record {
      number = float_gt-number (logits n) w.value better;
      top = λ j q. elim (back j q) [
        | inl p ↦ omega (arith, best.top j p, above better)
        | inr e ↦ rw e (omega arith)
      ];
      found = inr (new, refl, omega (arith, above better, rank-number w.value best.number));
      first = λ j q high same. elim (back j q) [
        | inl p ↦ absurd (omega (arith, best.top j p, above better, same))
        | inr e ↦ omega arith
      ];
    })
    | inr worse ↦ rw worse (record {
      number = best.number;
      top = λ j q. elim (back j q) [ inl p ↦ best.top j p | inr e ↦ rw e (below worse) ];
      found = elim best.found [
        | inl none ↦ inl none
        | inr (p, e, h) ↦ inr ((there w.index p).0, e, h)
      ];
      first = λ j q high same. elim (back j q) [
        | inl p ↦ best.first j p high same
        | inr e ↦ elim best.found [
          | inl none ↦ absurd (omega (arith, none.0, high))
          | inr (p, same_rank, h) ↦ omega (arith, (there w.index p).1)
        ]
      ];
    })
  ]
    where
      above : float_gt (logits n) w.value ≡ true → rank w.value < rank (logits n)
      above better = ltb→lt _ _ (sym (float_gt-rank (logits n) w.value best.number) ∙ better)

      below : float_gt (logits n) w.value ≡ false → rank (logits n) ≤ rank w.value
      below worse = ground (arith, worse, float_gt-rank (logits n) w.value best.number)
