-- ===== src/Route/Topk.antt =====
-- All passes: the experts of a token in the order of their logits.
use quixi_core_xpu.Common.{
  ℕ, zero, suc, ◌≤◌, ◌<◌, ◌≡◌, ◌≢◌, refl, sym, ap, ◌∙◌, true, false, ◌==◌, arith, inl, inr, dec_lt,
  ltb→lt,
}
use quixi_core_xpu.Common.Float.{
  float_gt, float_eq, neg_infinity, rank, lowest, gt_neg_infinity, rank-is_number, float_gt-rank,
  eq_rank, rank-neg_infinity,
}
use quixi_core_xpu.Common.Launch.{Buffer, store}
use quixi_core_xpu.Argmax.{Winner}
use quixi_core_xpu.Route.{taken, scan_experts, Selection, select}
use quixi_core_xpu.Route.Select.{
  above, taken-miss, not_taken, spare, taken_few, scan_experts-IsBest, scan_experts-value,
}

module _ (row : Buffer ℕ) (n_experts : ℕ) (fresh : Selection) where
  -- What pass `i` finds.
  abbrev pub pass : ℕ → Winner
  pass i = scan_experts row (select row n_experts fresh i).sel i n_experts

  -- Later passes leave an earlier one's cell.
  pub select-pass :
      (i j : ℕ)
      → j < i
      → ((select row n_experts fresh i).sel j ≡ (pass j).index)
        × ((select row n_experts fresh i).val j ≡ (pass j).value)
  unfolding select store
  select-pass zero j h = absurd (omega (arith, h))
  select-pass (suc i) j h = elim (dec_lt j i) [
    | yes q ↦
        let before = select-pass i j q in
        let other : (j == i) ≡ false = ground (arith, q) in rw other before
    | no q ↦
        let at : j ≡ i = omega (arith, h, q) in
        let here : (i == i) ≡ true = ground arith in rw (at, here) (refl, refl)
  ]

  -- What holds of pass `i` while an expert above -infinity is left.
  pub record IsPick (i : ℕ) : Type 0 where
    pub inside : (pass i).index < n_experts
    pub unpicked : (j : ℕ) → j < i → (pass j).index ≢ (pass i).index
    pub high : lowest < rank (row (pass i).index)
    pub value : (pass i).value ≡ row (pass i).index
    pub best :
        (e : ℕ)
        → e < n_experts
        → ((j : ℕ) → j < i → (pass j).index ≢ e)
        → (rank (row e) ≤ rank (row (pass i).index))
          × (rank (row e) ≡ rank (row (pass i).index) → (pass i).index ≤ e)

  pub pass-IsPick : (i : ℕ) → i < above row n_experts → IsPick i
  pass-IsPick i h =
      let sel = (select row n_experts fresh i).sel in
      let (e, p, q, r) =
        spare (λ e. float_gt (row e) neg_infinity) (taken sel i) n_experts
          (omega (arith, h, taken_few sel i n_experts)) in
      let good = scan_experts-IsBest row n_experts sel i n_experts in
      let raised : lowest < rank (pass i).value =
        omega (arith, good.top e (p, r), ltb→lt _ _ (sym (gt_neg_infinity (row e)) ∙ q)) in
      elim good.found [
        | inl none ↦ absurd (omega (arith, none.0, raised))
        | inr (at, same, up) ↦ record {
          inside = at.0;
          unpicked = λ j hj e. taken-miss sel i _ at.1 j hj ((select-pass i j hj).0 ∙ e);
          high = omega (arith, same, up);
          value = elim (scan_experts-value row n_experts sel i n_experts) [
            | inl nothing ↦ absurd (
                omega (arith, raised, rank-neg_infinity, ap (λ (w : Winner). rank w.value) nothing))
            | inr e ↦ e
          ];
          best = λ f hf free.
              let left = not_taken sel i f (λ j hj e. free j hj (sym (select-pass i j hj).0 ∙ e)) in
              (
                omega (arith, same, good.top f (hf, left)),
                λ tie. good.first f (hf, left) up (tie ∙ same),
              );
        }
      ]

  -- When no expert above -infinity is left, a pass finds expert 0.
  pub pass-exhausted :
      (i : ℕ)
      → ((e : ℕ)
          → e < n_experts
          → float_gt (row e) neg_infinity ≡ true
          → (j : ℕ) × (j < i) × ((pass j).index ≡ e))
      → (pass i).index ≡ 0
  pass-exhausted i all =
      let sel = (select row n_experts fresh i).sel in
      let good = scan_experts-IsBest row n_experts sel i n_experts in
      elim good.found [
        | inl none ↦ none.1
        | inr (at, same, up) ↦
            let e = (pass i).index in
            let raised : float_gt (row e) neg_infinity ≡ true =
              ground (arith, gt_neg_infinity (row e), same, up) in
            let (j, hj, hit) = all e at.0 raised in
            absurd (taken-miss sel i e at.1 j hj ((select-pass i j hj).0 ∙ hit))
      ]

-- The first `k` ids are the experts of a row in the order of their logits: they are experts, none
-- twice, a later one has no greater logit, and an expert that is left out none greater than any;
-- where two logits are equal the lower expert comes first.
pub record IsTop (row : Buffer ℕ) (n_experts k : ℕ) (ids : Buffer ℕ) : Type 0 where
  pub inside : (i : ℕ) → i < k → ids i < n_experts
  pub distinct : (i j : ℕ) → i < j → j < k → ids i ≢ ids j
  pub sorted :
      (i j : ℕ)
      → i < j
      → j < k
      → (float_gt (row (ids j)) (row (ids i)) ≡ false)
        × (float_eq (row (ids j)) (row (ids i)) ≡ true → ids i < ids j)
  pub rest :
      (e : ℕ)
      → e < n_experts
      → ((j : ℕ) → j < k → ids j ≢ e)
      → (i : ℕ) → i < k
      → (float_gt (row e) (row (ids i)) ≡ false)
        × (float_eq (row e) (row (ids i)) ≡ true → ids i < e)

pub IsTop-picks :
    (row : Buffer ℕ) (n_experts k : ℕ) (fresh : Selection) (ids : Buffer ℕ)
    → ((i : ℕ) → i < k → IsPick row n_experts fresh i)
    → ((i : ℕ) → i < k → ids i ≡ (pass row n_experts fresh i).index)
    → IsTop row n_experts k ids
IsTop-picks row n_experts k fresh ids picks at = record {
  inside = λ i hi. rw (at i hi) ((picks i hi).inside);
  distinct = apart;
  sorted = λ i j hij hj.
      let hi : i < k = omega (arith, hij, hj) in
      beaten (ids j) (rw (at j hj) ((picks j hj).inside)) i hi
        (λ l hl e. apart l j (omega (arith, hl, hij)) hj (at l (omega (arith, hl, hi)) ∙ e))
        (apart i j hij hj);
  rest = λ e he free i hi.
      beaten e he i hi
        (λ l hl same. free l (omega (arith, hl, hi)) (at l (omega (arith, hl, hi)) ∙ same))
        (free i hi);
}
  where
    apart : (i j : ℕ) → i < j → j < k → ids i ≢ ids j
    apart i j hij hj same =
        (picks j hj).unpicked i hij (sym (at i (omega (arith, hij, hj))) ∙ same ∙ at j hj)

    beaten :
        (e : ℕ)
        → e < n_experts
        → (i : ℕ) → i < k
        → ((l : ℕ) → l < i → (pass row n_experts fresh l).index ≢ e)
        → ids i ≢ e
        → (float_gt (row e) (row (ids i)) ≡ false)
          × (float_eq (row e) (row (ids i)) ≡ true → ids i < e)
    beaten e he i hi free ne =
        let pick = picks i hi in
        let (le, tie) = pick.best e he free in
        let number = rank-is_number (row (pass row n_experts fresh i).index) pick.high in
        let apart : (pass row n_experts fresh i).index ≢ e = λ same. ne (at i hi ∙ same) in
        rw (at i hi) (
          ground (arith, float_gt-rank (row e) (row (pass row n_experts fresh i).index) number, le),
          λ eq.
              omega
                (arith, tie (eq_rank (row e) (row (pass row n_experts fresh i).index) eq), apart),
        )
