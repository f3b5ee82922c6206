-- ===== src/Argmax/Tree.antt =====
-- The tree combines the winners of the threads.
use native.Mathlib.Nat.{
  mod-one, mod-lt, mod-eq_of_lt, mod-mod_of_dvd, mod-eq-sub-mod, dvd_of_mod-eq-zero, add-mod_right,
  mod_self,
}
use quixi_core_xpu.Common.{
  ℕ, zero, suc, ◌+◌, ◌-◌, ◌*◌, ◌/◌, ◌%◌, ◌≤◌, ◌<◌, ◌≡◌, refl, sym, ap, ◌∙◌, Bool, true, false, ltb,
  ◌&&◌, ◌||◌, ◌==◌, arith, ◌⊎◌, inl, inr, Bool-cases, dec_lt, lt→ltb,
}
use quixi_core_xpu.Common.Float.{rank, float_gt, float_eq, float_gt-rank, float_eq-rank}
use quixi_core_xpu.Common.Launch.{Buffer}
use quixi_core_xpu.Argmax.{Winner, combine, tree, tree_round, thread_scan, row_threads, argmax}
use quixi_core_xpu.Argmax.Best.{IsBest, IsBest-same}
use quixi_core_xpu.Argmax.Scan.{thread, thread_scan-IsBest, Own}

-- The remainder by `s` from the remainder by twice as much.
half_mod :
    (x s : ℕ)
    → 0 < s
    → ((x % (s + s) < s) × (x % s ≡ x % (s + s)))
      ⊎ ((x % (s + s) < s + s) × (x % s + s ≡ x % (s + s)))
half_mod x s pos =
    let r = x % (s + s) in
    let two : r % s ≡ x % s =
      mod-mod_of_dvd s x (dvd_of_mod-eq-zero s (add-mod_right s s ∙ mod_self s)) in
    elim (dec_lt r s) [
      | yes h ↦ inl (h, sym two ∙ mod-eq_of_lt h)
      | no h ↦
          let less : r < s + s = mod-lt x (omega (arith, pos)) in
          let down : x % s ≡ r - s =
            sym two ∙ mod-eq-sub-mod (omega (arith, h)) ∙ mod-eq_of_lt (omega (arith, h, less)) in
          inr (less, omega (arith, down, h))
    ]

abbrev doubled : ℕ → ℕ
doubled zero = 1
doubled (suc k) = doubled k + doubled k

doubled_pos : (k : ℕ) → 0 < doubled k
doubled_pos zero = omega arith
doubled_pos (suc k) = omega (arith, doubled_pos k)

module _ (logits : Buffer ℕ) where
  combine-IsBest :
      (P Q : ℕ → Type 0) (a b : Winner)
      → IsBest logits P a
      → IsBest logits Q b
      → IsBest logits (λ j. P j ⊎ Q j) (combine a b)
  unfolding combine
  combine-IsBest P Q a b best_a best_b = elim (Bool-cases takes) [
    | inl other ↦ rw other (record {
      number = best_b.number;
      top = λ j p. elim p [
        | inl q ↦ omega (arith, best_a.top j q, (taken other))
        | inr q ↦ best_b.top j q
      ];
      found = elim best_b.found [ inl none ↦ inl none | inr (q, e, h) ↦ inr (inr q, e, h) ];
      first = λ j p high same. elim p [
        | inl q ↦
            let (le, lower) = taken other in
            let tie : rank b.value ≡ rank a.value = omega (arith, best_a.top j q, le, same) in
            omega (
              arith,
              best_a.first j q (omega (arith, high, tie)) (omega (arith, same, tie)),
              lower tie,
            )
        | inr q ↦ best_b.first j q high same
      ];
    })
    | inr own ↦ rw own (record {
      number = best_a.number;
      top = λ j p. elim p [
        | inl q ↦ best_a.top j q
        | inr q ↦ omega (arith, best_b.top j q, (kept own).0)
      ];
      found = elim best_a.found [ inl none ↦ inl none | inr (q, e, h) ↦ inr (inl q, e, h) ];
      first = λ j p high same. elim p [
        | inl q ↦ best_a.first j q high same
        | inr q ↦
            let (le, lower) = kept own in
            let tie : rank b.value ≡ rank a.value = omega (arith, best_b.top j q, le, same) in
            omega (
              arith,
              best_b.first j q (omega (arith, high, tie)) (omega (arith, same, tie)),
              lower tie,
            )
      ];
    })
  ]
    where
      takes : Bool
      takes = float_gt b.value a.value || (float_eq b.value a.value && ltb b.index a.index)

      by_rank : takes ≡ (
          ltb (rank a.value) (rank b.value)
          || (rank b.value == rank a.value && ltb b.index a.index))
      by_rank =
          rw
            (
              float_gt-rank b.value a.value best_a.number,
              float_eq-rank b.value a.value best_b.number best_a.number,
            )
            refl

      taken :
          takes ≡ true
          → (rank a.value ≤ rank b.value) × (rank b.value ≡ rank a.value → b.index < a.index)
      taken h = ground (arith, sym by_rank ∙ h)

      kept :
          takes ≡ false
          → (rank b.value ≤ rank a.value) × (rank b.value ≡ rank a.value → a.index ≤ b.index)
      kept h = ground (arith, sym by_rank ∙ h)

  module _ (width vocab : ℕ) where
    -- The elements of the threads that cell `lid` stands for, of `n` cells.
    abbrev Cover : ℕ → ℕ → ℕ → Type 0
    Cover n lid j = (j < vocab) × (thread (λ i. 0) width (vocab / width * width) j % n ≡ lid)

    round-IsBest :
        (s : ℕ) (cells : Buffer Winner)
        → 0 < s
        → ((lid : ℕ) → lid < s + s → IsBest logits (Cover (s + s) lid) (cells lid))
        → (lid : ℕ) → lid < s
        → IsBest logits (Cover s lid) (tree_round s cells lid)
    unfolding tree_round
    round-IsBest s cells pos best lid h = rw (lt→ltb lid s h) (
        IsBest-same logits (λ j. Cover (s + s) lid j ⊎ Cover (s + s) (lid + s) j) (Cover s lid) _
          (λ j p. elim p [ inl q ↦ (q.0, low j q.1) | inr q ↦ (q.0, high j q.1) ])
          (λ j q. split j q)
          (combine-IsBest (Cover (s + s) lid) (Cover (s + s) (lid + s)) (cells lid)
            (cells (lid + s)) (best lid (omega (arith, h))) (best (lid + s) (omega (arith, h)))))
      where
        at : ℕ → ℕ
        at j = thread (λ i. 0) width (vocab / width * width) j

        low : (j : ℕ) → at j % (s + s) ≡ lid → at j % s ≡ lid
        low j e = elim (half_mod (at j) s pos) [
          | inl small ↦ omega (arith, e, small)
          | inr big ↦ absurd (omega (arith, e, big, h, mod-lt (at j) pos))
        ]

        high : (j : ℕ) → at j % (s + s) ≡ lid + s → at j % s ≡ lid
        high j e = elim (half_mod (at j) s pos) [
          | inl small ↦ absurd (omega (arith, e, small))
          | inr big ↦ omega (arith, e, big)
        ]

        split : (j : ℕ) → Cover s lid j → Cover (s + s) lid j ⊎ Cover (s + s) (lid + s) j
        split j q = elim (half_mod (at j) s pos) [
          | inl small ↦ inl (q.0, sym small.1 ∙ q.1)
          | inr big ↦ inr (q.0, sym big.1 ∙ ap (λ (t : ℕ). t + s) q.1)
        ]

    stopped :
        (fuel : ℕ) (cells : Buffer Winner)
        → IsBest logits (Cover 1 0) (cells 0)
        → IsBest logits (Cover 1 0) (tree fuel 0 cells 0)
    unfolding tree
    stopped zero cells best = best
    stopped (suc fuel) cells best = best

    tree-IsBest :
        (k fuel : ℕ) (cells : Buffer Winner)
        → k < fuel
        → ((lid : ℕ)
            → lid < doubled k + doubled k
            → IsBest logits (Cover (doubled k + doubled k) lid) (cells lid))
        → IsBest logits (Cover 1 0) (tree fuel (doubled k) cells 0)
    unfolding tree
    tree-IsBest k zero cells h best = absurd (omega (arith, h))
    tree-IsBest zero (suc fuel) cells h best =
        stopped fuel (tree_round 1 cells) (round-IsBest 1 cells (omega arith) best 0 (omega arith))
    tree-IsBest (suc k) (suc fuel) cells h best =
        let s = doubled (suc k) in
        let pos = doubled_pos (suc k) in
        let half : s / 2 ≡ doubled k = omega arith in
        rw (lt→ltb 0 s pos, half)
          (tree-IsBest k fuel (tree_round s cells) (omega (arith, h))
            (λ lid small. round-IsBest s cells pos best lid small))

  pub argmax-IsBest :
      (width vocab : ℕ)
      → 0 < width
      → (w : Winner) × (argmax width logits vocab ≡ w.index) × IsBest logits (λ j. j < vocab) w
  unfolding argmax
  argmax-IsBest width vocab wide = (
    tree row_threads (row_threads / 2) (thread_scan logits width vocab) 0,
    refl,
    IsBest-same logits (Cover width vocab 1 0) (λ j. j < vocab) _ (λ j p. p.0)
        (λ j p. (p, mod-one _))
        (tree-IsBest width vocab 7 row_threads (thread_scan logits width vocab) (omega arith)
          (λ lid small.
            IsBest-same logits (Own width vocab lid) (Cover width vocab row_threads lid) _
              (λ j p. (p.0, ground (arith, p.1, small))) (λ j p. (p.0, ground (arith, p.1, small)))
              (thread_scan-IsBest logits width vocab lid wide small))),
  )
