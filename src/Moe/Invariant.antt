-- ===== src/Moe/Invariant.antt =====
-- What holds while the scatter runs.
use quixi_core_xpu.Common.{
  ℕ, zero, suc, ◌+◌, ◌*◌, ◌/◌, ◌<◌, ◌≤◌, ◌≡◌, ◌≢◌, refl, sym, ap, ◌∙◌, ◌==◌, List, [], ◌∷◌, arith,
  inl, inr, Bool-cases, dec_lt,
}
use quixi_core_xpu.Common.Int.{ℤ, pos, negsuc}
use quixi_core_xpu.Common.Launch.{Buffer, store, count, total, sum_below, sum_below_mono}
use quixi_core_xpu.Moe.{Buffers, hit, count_item, count_pairs, scan}

-- The counting and the scan.
pub count_pairs-total :
    (n_experts : ℕ) (ids : ℕ → ℤ) (order : List ℕ) (rows : Buffer ℕ) (e : ℕ)
    → e < n_experts
    → count_pairs n_experts ids order rows e ≡ rows e + total (λ i. hit e (ids i)) order
unfolding count_pairs total count_item store
count_pairs-total n_experts ids [] rows e h = omega arith
count_pairs-total n_experts ids (idx ∷ rest) rows e h = omega (
  arith,
  count_pairs-total n_experts ids rest (count_item n_experts (ids idx) rows) e h,
  one (ids idx),
)
  where
    one : (z : ℤ) → count_item n_experts z rows e ≡ rows e + hit e z
    one (negsuc _) = omega arith
    one (pos k) = ground arith

pub scan-acc :
    (rows : Buffer ℕ) (n : ℕ) (cursors : Buffer ℕ) → (scan rows n cursors).0 ≡ sum_below rows n
unfolding scan sum_below
scan-acc rows zero cursors = refl
scan-acc rows (suc n) cursors = ap (λ (t : ℕ). t + rows n) (scan-acc rows n cursors)

pub scan-at :
    (rows : Buffer ℕ) (n : ℕ) (cursors : Buffer ℕ) (e : ℕ)
    → e < n
    → (scan rows n cursors).1 e ≡ sum_below rows e
unfolding scan store
scan-at rows zero cursors e h = absurd (omega arith)
scan-at rows (suc n) cursors e h = elim (Bool-cases (e == n)) [
  | inl last ↦
      let here : e ≡ n = ground arith in
      rw last (scan-acc rows n cursors ∙ ap (sum_below rows) (sym here))
  | inr before ↦ rw before (scan-at rows n cursors e (ground arith))
]

-- A pair belongs to an expert, or it is skipped.
abbrev pub Skipped : ℕ → ℤ → Type 0
Skipped n_experts (negsuc _) = Unit
Skipped n_experts (pos e) = n_experts ≤ e

module _ {T : Type 0} (hidden : Buffer T) (ids : ℕ → ℤ) (top_k hidden_dim n_experts pairs : ℕ) where
  -- The pairs of an expert, and where its rows begin.
  abbrev pub pairs_of : ℕ → ℕ
  pairs_of e = sum_below (λ i. hit e (ids i)) pairs

  abbrev pub first_row : ℕ → ℕ
  first_row e = sum_below pairs_of e

  abbrev pub taken : ℕ → List ℕ → ℕ
  taken e done = total (λ i. hit e (ids i)) done

  -- Pair `i` has a row of expert `e` among those that the pairs of `done` took, with its token's
  -- hidden row in it.
  abbrev pub Placed : ℕ → ℕ → List ℕ → Buffers T → ℕ → Type 0
  Placed i e done b d =
      (b.row_map i ≡ pos d)
      × (first_row e ≤ d)
      × (d < first_row e + taken e done)
      × ((j : ℕ)
          → j < hidden_dim
          → b.permuted (d * hidden_dim + j) ≡ hidden (i / top_k * hidden_dim + j))

  -- After the pairs of `done`, with those of `rest` to come.
  pub record IsValid (done rest : List ℕ) (b : Buffers T) : Type 0 where
    pub once : (i : ℕ) → count i done + count i rest ≤ 1
    pub all : (e : ℕ) → taken e done + taken e rest ≡ pairs_of e
    pub cursor : (e : ℕ) → e < n_experts → b.cursors e ≡ first_row e + taken e done
    pub skipped : (i : ℕ) → 0 < count i done → Skipped n_experts (ids i) → b.row_map i ≡ negsuc 0
    pub placed :
        (i e : ℕ) → 0 < count i done → ids i ≡ pos e → e < n_experts → (d : ℕ) × Placed i e done b d
    pub distinct :
        (i j e k d : ℕ)
        → 0 < count i done
        → 0 < count j done
        → i ≢ j
        → ids i ≡ pos e
        → ids j ≡ pos k
        → e < n_experts
        → k < n_experts
        → b.row_map i ≡ pos d
        → b.row_map j ≢ pos d

  -- The rows of two experts do not meet.
  segments :
      (e k d : ℕ)
      → first_row e ≤ d
      → d < first_row e + pairs_of e
      → first_row k ≤ d
      → d < first_row k + pairs_of k
      → e ≡ k
  unfolding sum_below
  segments e k d a b c f = elim (dec_lt e k) [
    | yes less ↦ absurd (omega (arith, sum_below_mono pairs_of (suc e) k (omega arith)))
    | no more ↦ elim (dec_lt k e) [
      | yes greater ↦ absurd (omega (arith, sum_below_mono pairs_of (suc k) e (omega arith)))
      | no less ↦ omega arith
    ]
  ]

  -- The row that the next pair takes is not one of those taken.
  pub fresh-row :
      (done rest : List ℕ) (b : Buffers T) (idx e k d : ℕ)
      → IsValid done (idx ∷ rest) b
      → ids idx ≡ pos e
      → first_row k ≤ d
      → d < first_row k + taken k done
      → d ≢ first_row e + taken e done
  unfolding total
  fresh-row done rest b idx e k d ok at lo hi same =
      let one : hit e (ids idx) ≡ 1 = rw at (ground arith) in
      let here = ok.all e in
      let there = ok.all k in
      let expert =
        segments k e d lo (omega (arith, hi, there)) (omega (arith, same))
          (omega (arith, same, here, one)) in
      let hi_here : d < first_row e + taken e done = rw (← expert) hi in
      omega (arith, hi_here, same)

  -- Taking one more pair keeps a place that it does not overwrite.
  pub kept :
      (idx i e : ℕ) (done : List ℕ) (b x : Buffers T) (d : ℕ)
      → x.row_map i ≡ b.row_map i
      → ((a : ℕ)
          → d * hidden_dim ≤ a
          → a < d * hidden_dim + hidden_dim
          → x.permuted a ≡ b.permuted a)
      → Placed i e done b d
      → Placed i e (idx ∷ done) x d
  unfolding total
  kept idx i e done b x d mapped copied (row, lo, hi, copy) = (
    mapped ∙ row,
    lo,
    omega (arith, hi),
    λ j h. copied (d * hidden_dim + j) (omega arith) (omega arith) ∙ copy j h,
  )

pub store-here : {A : Type 0} (m : Buffer A) (c : ℕ) (v : A) → store m c v c ≡ v
unfolding store
store-here m c v = ground arith

pub store-there : {A : Type 0} (m : Buffer A) (c a : ℕ) (v : A) → a ≢ c → store m c v a ≡ m a
unfolding store
store-there m c a v h = ground arith
