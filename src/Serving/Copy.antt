-- ===== src/Serving/Copy.antt =====
-- Scatter and gather, whatever the order of the work-items.
use native.Mathlib.Nat.{
  mul-add-mod_self_right, mod-eq_of_lt, mul-add-div_right, div-eq_of_lt, add-zero, mod-lt,
  div-add-mod',
}
use quixi_core_xpu.Common.{
  ℕ, ◌+◌, ◌*◌, ◌/◌, ◌%◌, ◌<◌, ◌≤◌, ◌≡◌, ◌≢◌, refl, sym, ap, ◌∙◌, true, false, some, List, arith,
}
use quixi_core_xpu.Common.Int.{ℤ, pos, negsuc}
use quixi_core_xpu.Common.Launch.{
  Buffer, run, IsSchedule, run-hit, run-miss, schedule-runs, schedule-bound,
}
use quixi_core_xpu.Serving.{
  gather_store, scatter_store, indexed_copy_item, indexed_copy, kv_cache_scatter, kv_cache_gather,
  embedding_lookup,
}

-- Row and column of an id.
pub id-row : (row i j : ℕ) → j < row → (i * row + j) / row ≡ i
id-row row i j h =
    mul-add-div_right (omega arith) i j ∙ ap (λ (t : ℕ). i + t) (div-eq_of_lt h) ∙ add-zero i

pub id-col : (row i j : ℕ) → j < row → (i * row + j) % row ≡ j
id-col row i j h = mul-add-mod_self_right i row j ∙ mod-eq_of_lt h

pub id-lt : (n row i j : ℕ) → i < n → j < row → i * row + j < n * row
id-lt n row i j p q = grind arith

-- An id below n * row has its row below n.
pub row-lt : (n row id : ℕ) → id < n * row → id / row < n
row-lt n row id h = grind arith

-- Two places of a row-major array are one only if the rows and the columns are.
pub place_inj :
    (row i j k l : ℕ) → j < row → l < row → i * row + j ≡ k * row + l → (i ≡ k) × (j ≡ l)
place_inj row i j k l p q e = (
  sym (id-row row i j p) ∙ ap (λ (t : ℕ). t / row) e ∙ id-row row k l q,
  sym (id-col row i j p) ∙ ap (λ (t : ℕ). t % row) e ∙ id-col row k l q,
)

pub pos-ne-negsuc : {m n : ℕ} → ¬ (pos m ≡ negsuc n)
pos-ne-negsuc e = cc

pub pos_inj : {m n : ℕ} → pos m ≡ pos n → m ≡ n
pos_inj e = cc

module _ {W : Type 0} (src : Buffer W) (index : ℕ → ℤ) (row : ℕ) where
  -- What an item stores, read backwards.
  gather_store-inv :
      (z : ℤ) (i j c : ℕ) (u : W)
      → gather_store src index row z i j ≡ some (c, u)
      → (p : ℕ) × (z ≡ pos p) × (c ≡ i * row + j) × (u ≡ src (p * row + j))
  gather_store-inv (negsuc _) i j c u e = absurd (cc)
  gather_store-inv (pos p) i j c u e = (p, refl, cc, cc)

  scatter_store-inv :
      (z : ℤ) (i j c : ℕ) (u : W)
      → scatter_store src index row z i j ≡ some (c, u)
      → (p : ℕ) × (z ≡ pos p) × (c ≡ p * row + j) × (u ≡ src (i * row + j))
  scatter_store-inv (negsuc _) i j c u e = absurd (cc)
  scatter_store-inv (pos p) i j c u e = (p, refl, cc, cc)

  -- What the item of row i and column j stores.
  item-gather :
      (i j p : ℕ)
      → j < row
      → index i ≡ pos p
      → indexed_copy_item src index row true (i * row + j) ≡ some (i * row + j, src (p * row + j))
  unfolding indexed_copy_item
  item-gather i j p h e = rw (id-row row i j h, id-col row i j h) (rw e refl)

  item-scatter :
      (i j p : ℕ)
      → j < row
      → index i ≡ pos p
      → indexed_copy_item src index row false (i * row + j) ≡ some (p * row + j, src (i * row + j))
  unfolding indexed_copy_item
  item-scatter i j p h e = rw (id-row row i j h, id-col row i j h) (rw e refl)

  -- An item that stores to row i, column j is that of row i and column j.
  gathered-at :
      (i j : ℕ)
      → j < row
      → (id : ℕ) (u : W) → indexed_copy_item src index row true id ≡ some (i * row + j, u)
      → (p : ℕ) × (index i ≡ pos p) × (u ≡ src (p * row + j))
  unfolding indexed_copy_item
  gathered-at i j h id u st =
      let (p, e, at, same) = gather_store-inv (index (id / row)) (id / row) (id % row) _ u st in
      let (r, c) = place_inj row i j (id / row) (id % row) h (mod-lt id (omega arith)) at in
      (p, rw r e, rw c same)

  scattered-at :
      (p j : ℕ)
      → j < row
      → (id : ℕ) (u : W) → indexed_copy_item src index row false id ≡ some (p * row + j, u)
      → (index (id / row) ≡ pos p) × (u ≡ src (id / row * row + j))
  unfolding indexed_copy_item
  scattered-at p j h id u st =
      let (q, e, at, same) = scatter_store-inv (index (id / row)) (id / row) (id % row) _ u st in
      let (r, c) = place_inj row p j q (id % row) h (mod-lt id (omega arith)) at in
      (rw r e, rw c same)

  module _ (n : ℕ) (order : List ℕ) (launched : IsSchedule (n * row) order) (dst : Buffer W) where
    -- Gather: output row i is source row index[i]; an output row whose index is negative, and all
    -- that lies past the n rows, is left as it was.
    pub gather-row :
        ((i j p : ℕ)
          → i < n
          → j < row
          → index i ≡ pos p
          → indexed_copy src index row true order dst (i * row + j) ≡ src (p * row + j))
        × ((i j m : ℕ)
            → i < n
            → j < row
            → index i ≡ negsuc m
            → indexed_copy src index row true order dst (i * row + j) ≡ dst (i * row + j))
        × ((c : ℕ) → n * row ≤ c → indexed_copy src index row true order dst c ≡ dst c)
    unfolding indexed_copy
    gather-row = (filled, skipped, beyond)
      where
        filled :
            (i j p : ℕ)
            → i < n
            → j < row
            → index i ≡ pos p
            → run (indexed_copy_item src index row true) order dst (i * row + j) ≡ src (p * row + j)
        filled i j p hi hj e =
            run-hit (indexed_copy_item src index row true) (i * row + j) (src (p * row + j)) order
              dst (i * row + j) (schedule-runs _ order launched _ (id-lt n row i j hi hj))
              (item-gather i j p hj e)
              (λ id u ran st.
                let (q, eq, same) = gathered-at i j hj id u st in
                same ∙ ap (λ (t : ℕ). src (t * row + j)) (pos_inj (sym eq ∙ e)))

        skipped :
            (i j m : ℕ)
            → i < n
            → j < row
            → index i ≡ negsuc m
            → run (indexed_copy_item src index row true) order dst (i * row + j) ≡ dst (i * row + j)
        skipped i j m hi hj e =
            run-miss (indexed_copy_item src index row true) (i * row + j) order dst (λ id u ran st.
              let (q, eq, same) = gathered-at i j hj id u st in pos-ne-negsuc (sym eq ∙ e))

        beyond :
            (c : ℕ) → n * row ≤ c → run (indexed_copy_item src index row true) order dst c ≡ dst c
        beyond c h = run-miss (indexed_copy_item src index row true) c order dst (λ id u ran st.
            let (q, eq, at, same) =
              gather_store-inv (index (id / row)) (id / row) (id % row) c u
                (unfold indexed_copy_item in st) in
            absurd (omega (arith, schedule-bound _ order launched id ran, div-add-mod' id row)))

    -- Scatter, to distinct slots: slot index[i] is source row i, and a slot that no index names is
    -- left as it was.
    pub scatter-row :
        ((i k p : ℕ) → i < n → k < n → index i ≡ pos p → index k ≡ pos p → i ≡ k)
        → ((i j p : ℕ)
            → i < n
            → j < row
            → index i ≡ pos p
            → indexed_copy src index row false order dst (p * row + j) ≡ src (i * row + j))
          × ((p j : ℕ)
              → j < row
              → ((i : ℕ) → i < n → index i ≢ pos p)
              → indexed_copy src index row false order dst (p * row + j) ≡ dst (p * row + j))
    unfolding indexed_copy
    scatter-row distinct = (filled, untouched)
      where
        filled :
            (i j p : ℕ)
            → i < n
            → j < row
            → index i ≡ pos p
            → run (indexed_copy_item src index row false) order dst (p * row + j)
              ≡ src (i * row + j)
        filled i j p hi hj e =
            run-hit (indexed_copy_item src index row false) (p * row + j) (src (i * row + j)) order
              dst (i * row + j) (schedule-runs _ order launched _ (id-lt n row i j hi hj))
              (item-scatter i j p hj e)
              (λ id u ran st.
                let (eq, same) = scattered-at p j hj id u st in
                let inside = row-lt n row id (schedule-bound _ order launched id ran) in
                same ∙ ap (λ (t : ℕ). src (t * row + j)) (distinct (id / row) i p inside hi eq e))

        untouched :
            (p j : ℕ)
            → j < row
            → ((i : ℕ) → i < n → index i ≢ pos p)
            → run (indexed_copy_item src index row false) order dst (p * row + j)
              ≡ dst (p * row + j)
        untouched p j hj none_named =
            run-miss (indexed_copy_item src index row false) (p * row + j) order dst (λ id u ran st.
              let (eq, same) = scattered-at p j hj id u st in
              none_named (id / row) (row-lt n row id (schedule-bound _ order launched id ran)) eq)

-- Gathering the slots that were just scattered gives the rows back, for distinct slots that are
-- not negative, whatever the order of the work-items in either launch.
pub kv_cache_gather-scatter :
    {W : Type 0} (src : Buffer W) (slots : ℕ → ℤ) (row n : ℕ) (first second : List ℕ)
    → IsSchedule (n * row) first
    → IsSchedule (n * row) second
    → ((i k p : ℕ) → i < n → k < n → slots i ≡ pos p → slots k ≡ pos p → i ≡ k)
    → (cache out : Buffer W) (i j p : ℕ) → i < n
    → j < row
    → slots i ≡ pos p
    → kv_cache_gather
        (kv_cache_scatter src slots row first cache)
        slots
        row
        second
        out
        (i * row + j)
      ≡ src (i * row + j)
unfolding kv_cache_gather kv_cache_scatter
kv_cache_gather-scatter src slots row n first second f s distinct cache out i j p hi hj e =
    (gather-row (indexed_copy src slots row false first cache) slots row n second s out).0 i j p hi
      hj e
    ∙ (scatter-row src slots row n first f cache distinct).0 i j p hi hj e

-- The embedding lookup: output row i is table row ids[i], the rows of negative ids and all that
-- lies past the n rows are left as they were, whatever the order of the work-items.
embedding_lookup-rows :
    {W : Type 0} (table : Buffer W) (ids : ℕ → ℤ) (dim n : ℕ) (order : List ℕ)
    → IsSchedule (n * dim) order
    → (out : Buffer W)
    → ((i j p : ℕ)
        → i < n
        → j < dim
        → ids i ≡ pos p
        → embedding_lookup table ids dim order out (i * dim + j) ≡ table (p * dim + j))
      × ((i j m : ℕ)
          → i < n
          → j < dim
          → ids i ≡ negsuc m
          → embedding_lookup table ids dim order out (i * dim + j) ≡ out (i * dim + j))
      × ((c : ℕ) → n * dim ≤ c → embedding_lookup table ids dim order out c ≡ out c)
unfolding embedding_lookup
embedding_lookup-rows table ids dim n order launched out =
    gather-row table ids dim n order launched out
