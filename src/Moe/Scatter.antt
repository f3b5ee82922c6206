-- ===== src/Moe/Scatter.antt =====
-- Each item of the scatter keeps the invariant, and so does the whole launch, in any order.
use mathlib.Core.Path.{subst}
use native.Mathlib.Nat.{div-eq_of_lt-le}
use quixi_core_xpu.Common.{
  ℕ, ◌+◌, ◌*◌, ◌/◌, ◌<◌, ◌≤◌, ◌≡◌, ◌≢◌, refl, sym, ap, ◌∙◌, true, false, ltb, leb, ◌&&◌, List, [],
  ◌∷◌, arith, inl, inr, Bool-cases, ℕ_discrete,
}
use quixi_core_xpu.Common.Int.{ℤ, pos, negsuc}
use quixi_core_xpu.Common.Launch.{Buffer, store, count, count-split, total}
use quixi_core_xpu.Moe.{Buffers, copy_row, scatter_item, scatter, hit}
use quixi_core_xpu.Moe.Invariant.{
  IsValid, Skipped, first_row, taken, fresh-row, kept, store-here, store-there,
}

-- Two rows that share a cell are one.
same-row : (c p q x : ℕ) → p * c ≤ x → x < p * c + c → q * c ≤ x → x < q * c + c → p ≡ q
same-row c p q x a b d e =
    sym (div-eq_of_lt-le c a (omega (arith, b))) ∙ div-eq_of_lt-le c d (omega (arith, e))

pos_inj : {m n : ℕ} → pos m ≡ pos n → m ≡ n
pos_inj e = cc

module _ {T : Type 0} (hidden : Buffer T) (ids : ℕ → ℤ) (top_k hidden_dim n_experts pairs : ℕ) where
  -- A pair that is skipped.
  abbrev marked : ℕ → Buffers T → Buffers T
  marked idx b = record b { row_map = store b.row_map idx (negsuc 0) }

  scatter-skip :
      (done rest : List ℕ) (b : Buffers T) (idx : ℕ)
      → IsValid hidden ids top_k hidden_dim n_experts pairs done (idx ∷ rest) b
      → Skipped n_experts (ids idx)
      → ((e : ℕ) → e < n_experts → hit e (ids idx) ≡ 0)
      → ((e : ℕ) → ids idx ≡ pos e → e < n_experts → ⊥)
      → IsValid hidden ids top_k hidden_dim n_experts pairs (idx ∷ done) rest (marked idx b)
  unfolding count total
  scatter-skip done rest b idx ok skip none_hit not_valid = record {
    once = λ i. ground (arith, ok.once i);
    all = λ e. omega (arith, ok.all e);
    cursor = λ e h. omega (arith, ok.cursor e h, none_hit e h);
    skipped = λ i p s. elim (ℕ_discrete i idx) [
      | yes same ↦ rw same (store-here b.row_map idx (negsuc 0))
      | no other ↦ store-there b.row_map idx i (negsuc 0) other ∙ ok.skipped i (older i p other) s
    ];
    placed = λ i e p at h.
        let other = differs i e at h in
        let (d, place) = ok.placed i e (older i p other) at h in
        (
          d,
          kept hidden ids top_k hidden_dim n_experts pairs idx i e done b (marked idx b) d
              (store-there b.row_map idx i (negsuc 0) other) (λ a lo hi. refl) place,
        );
    distinct = λ i j e k d p q ne at_i at_j he hk row_i row_j.
        let i_old = differs i e at_i he in
        let j_old = differs j k at_j hk in
        ok.distinct i j e k d (older i p i_old) (older j q j_old) ne at_i at_j he hk
          (sym (store-there b.row_map idx i (negsuc 0) i_old) ∙ row_i)
          (sym (store-there b.row_map idx j (negsuc 0) j_old) ∙ row_j);
  }
    where
      older : (i : ℕ) → 0 < count i (idx ∷ done) → i ≢ idx → 0 < count i done
      older i p other = elim (count-split i idx done p) [
        | inl same ↦ absurd (other same)
        | inr old ↦ old
      ]

      differs : (i e : ℕ) → ids i ≡ pos e → e < n_experts → i ≢ idx
      differs i e at h same = not_valid e (ap ids (sym same) ∙ at) h

  -- A pair that takes the next row of its expert.
  abbrev moved : ℕ → ℕ → Buffers T → Buffers T
  moved idx e b = record b {
    cursors = store b.cursors e (b.cursors e + 1);
    row_map = store b.row_map idx (pos (b.cursors e));
    permuted =
        copy_row hidden ids top_k hidden_dim n_experts (idx / top_k) (b.cursors e) b.permuted;
  }

  copied-here :
      (t dst j : ℕ) (out : Buffer T)
      → j < hidden_dim
      → copy_row hidden ids top_k hidden_dim n_experts t dst out (dst * hidden_dim + j)
        ≡ hidden (t * hidden_dim + j)
  unfolding copy_row
  copied-here t dst j out h =
      let inside : (leb (dst * hidden_dim) (dst * hidden_dim + j)
            && ltb (dst * hidden_dim + j) (dst * hidden_dim + hidden_dim))
          ≡ true =
        ground arith in
      rw inside (ap (λ k. hidden (t * hidden_dim + k)) (omega arith))

  copied-there :
      (t dst d a : ℕ) (out : Buffer T)
      → d ≢ dst
      → d * hidden_dim ≤ a
      → a < d * hidden_dim + hidden_dim
      → copy_row hidden ids top_k hidden_dim n_experts t dst out a ≡ out a
  unfolding copy_row
  copied-there t dst d a out apart lo hi =
      let outside : (leb (dst * hidden_dim) a && ltb a (dst * hidden_dim + hidden_dim)) ≡ false =
        ground (arith, apart, same-row hidden_dim d dst a lo hi) in
      rw outside refl

  scatter-place :
      (done rest : List ℕ) (b : Buffers T) (idx e : ℕ)
      → IsValid hidden ids top_k hidden_dim n_experts pairs done (idx ∷ rest) b
      → ids idx ≡ pos e
      → e < n_experts
      → IsValid hidden ids top_k hidden_dim n_experts pairs (idx ∷ done) rest (moved idx e b)
  unfolding count total
  scatter-place done rest b idx e ok at valid = record {
    once = λ i. ground (arith, ok.once i);
    all = λ k. omega (arith, ok.all k);
    cursor = λ k h. elim (ℕ_discrete k e) [
      | yes same ↦
          subst (λ x. store b.cursors e (b.cursors e + 1) x ≡ starts x + ends x) (sym same)
            (omega (arith, store-here b.cursors e (b.cursors e + 1), ok.cursor e valid, one_hit))
      | no other ↦
          let none_hit : hit k (ids idx) ≡ 0 = rw at (ground (arith, other)) in
          omega (arith, store-there b.cursors e k (b.cursors e + 1) other, ok.cursor k h, none_hit)
    ];
    skipped = λ i p s.
        let other : i ≢ idx = λ same.
          let early : Skipped n_experts (pos e) =
            subst (λ z. Skipped n_experts z) (ap ids same ∙ at) s in
          absurd (omega (arith, early, valid)) in
        store-there b.row_map idx i (pos (b.cursors e)) other ∙ ok.skipped i (older i p other) s;
    placed = λ i k p at_i h. elim (ℕ_discrete i idx) [
      | yes same ↦
          let k_is_e : k ≡ e = pos_inj (sym at_i ∙ ap ids same ∙ at) in
          (
            b.cursors e,
            (
              rw same (store-here b.row_map idx (pos (b.cursors e))),
              rw k_is_e (omega (arith, ok.cursor e valid)),
              subst (λ x. b.cursors e < starts x + ends x) (sym k_is_e)
                  (omega (arith, ok.cursor e valid, one_hit)),
              λ j hj. rw same (copied-here (idx / top_k) (b.cursors e) j b.permuted hj),
            ),
          )
      | no other ↦
          let (d, place) = ok.placed i k (older i p other) at_i h in
          (
            d,
            kept hidden ids top_k hidden_dim n_experts pairs idx i k done b (moved idx e b) d
                (store-there b.row_map idx i (pos (b.cursors e)) other)
                (λ a lo hi.
                  copied-there (idx / top_k) (b.cursors e) d a b.permuted
                    (new_row k d place.1 place.2) lo hi)
                place,
          )
    ];
    distinct = λ i j a k d p q ne at_i at_j ha hk row_i row_j. elim (ℕ_discrete i idx) [
      | yes i_new ↦
          let other : j ≢ idx = λ j_new. ne (i_new ∙ sym j_new) in
          let d_new : d ≡ b.cursors e =
            pos_inj (sym row_i ∙ rw i_new (store-here b.row_map idx (pos (b.cursors e)))) in
          clash j k d (older j q other) at_j hk
            (sym (store-there b.row_map idx j (pos (b.cursors e)) other) ∙ row_j) d_new
      | no i_old ↦ elim (ℕ_discrete j idx) [
        | yes j_new ↦
            let d_new : d ≡ b.cursors e =
              pos_inj (sym row_j ∙ rw j_new (store-here b.row_map idx (pos (b.cursors e)))) in
            clash i a d (older i p i_old) at_i ha
              (sym (store-there b.row_map idx i (pos (b.cursors e)) i_old) ∙ row_i) d_new
        | no j_old ↦
            ok.distinct i j a k d (older i p i_old) (older j q j_old) ne at_i at_j ha hk
              (sym (store-there b.row_map idx i (pos (b.cursors e)) i_old) ∙ row_i)
              (sym (store-there b.row_map idx j (pos (b.cursors e)) j_old) ∙ row_j)
      ]
    ];
  }
    where
      starts : ℕ → ℕ
      starts = first_row hidden ids top_k hidden_dim n_experts pairs

      ends : ℕ → ℕ
      ends x = taken hidden ids top_k hidden_dim n_experts pairs x (idx ∷ done)

      one_hit : hit e (ids idx) ≡ 1
      one_hit = rw at (ground arith)

      older : (i : ℕ) → 0 < count i (idx ∷ done) → i ≢ idx → 0 < count i done
      older i p other = elim (count-split i idx done p) [
        | inl same ↦ absurd (other same)
        | inr old ↦ old
      ]

      new_row :
          (k d : ℕ)
          → first_row hidden ids top_k hidden_dim n_experts pairs k ≤ d
          → d
            < first_row hidden ids top_k hidden_dim n_experts pairs k
              + taken hidden ids top_k hidden_dim n_experts pairs k done
          → d ≢ b.cursors e
      new_row k d lo hi same =
          fresh-row hidden ids top_k hidden_dim n_experts pairs done rest b idx e k d ok at lo hi
            (same ∙ ok.cursor e valid)

      clash :
          (j k d : ℕ)
          → 0 < count j done
          → ids j ≡ pos k
          → k < n_experts
          → b.row_map j ≡ pos d
          → d ≢ b.cursors e
      clash j k d p at_j hk row same =
          let (c, place) = ok.placed j k p at_j hk in
          new_row k c place.1 place.2 (pos_inj (sym place.0 ∙ row) ∙ same)

  scatter-item :
      (done rest : List ℕ) (b : Buffers T) (idx : ℕ) (z : ℤ)
      → ids idx ≡ z
      → IsValid hidden ids top_k hidden_dim n_experts pairs done (idx ∷ rest) b
      → IsValid hidden ids top_k hidden_dim n_experts pairs
          (idx ∷ done)
          rest
          (scatter_item hidden ids top_k hidden_dim n_experts idx z b)
  unfolding scatter_item
  scatter-item done rest b idx (negsuc m) at ok =
      scatter-skip done rest b idx ok (rw at tt) (λ e h. rw at refl) (λ e is_pos h. absurd (cc))
  scatter-item done rest b idx (pos e) at ok = elim (Bool-cases (ltb e n_experts)) [
    | inl valid ↦ rw valid (scatter-place done rest b idx e ok at (ground (arith, valid)))
    | inr invalid ↦ rw invalid (
        scatter-skip done rest b idx ok (rw at (ground (arith, invalid)))
          (λ k h. rw at (ground (arith, invalid)))
          (λ k is_pos h. absurd (omega (arith, le_of invalid, pos_inj (sym at ∙ is_pos)))))
  ]
    where
      le_of : ltb e n_experts ≡ false → n_experts ≤ e
      le_of invalid = ground arith

  pub scatter-all :
      (done rest : List ℕ) (b : Buffers T)
      → IsValid hidden ids top_k hidden_dim n_experts pairs done rest b
      → (end : List ℕ) × ((i : ℕ) → count i end ≡ count i done + count i rest)
        × IsValid hidden ids top_k hidden_dim n_experts pairs end []
            (scatter hidden ids top_k hidden_dim n_experts rest b)
  unfolding scatter count
  scatter-all done [] b ok = (done, λ i. omega arith, ok)
  scatter-all done (idx ∷ rest) b ok =
      let (end, counted, valid) =
        scatter-all (idx ∷ done) rest
          (scatter_item hidden ids top_k hidden_dim n_experts idx (ids idx) b)
          (scatter-item done rest b idx (ids idx) refl ok) in
      (end, λ i. ground (arith, counted i), valid)

  pub scatter-rows_per_expert :
      (order : List ℕ) (b : Buffers T)
      → (scatter hidden ids top_k hidden_dim n_experts order b).rows_per_expert ≡ b.rows_per_expert
  unfolding scatter scatter_item
  scatter-rows_per_expert [] b = refl
  scatter-rows_per_expert (idx ∷ rest) b =
      scatter-rows_per_expert rest
        (scatter_item hidden ids top_k hidden_dim n_experts idx (ids idx) b)
      ∙ same (ids idx)
    where
      same :
          (z : ℤ)
          → (scatter_item hidden ids top_k hidden_dim n_experts idx z b).rows_per_expert
            ≡ b.rows_per_expert
      same (negsuc _) = refl
      same (pos e) = elim (Bool-cases (ltb e n_experts)) [
        | inl valid ↦ rw valid refl
        | inr invalid ↦ rw invalid refl
      ]
