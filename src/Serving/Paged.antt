-- ===== src/Serving/Paged.antt =====
-- The paged cache: no two elements share a cell, and what is written is read back.
use native.Mathlib.Nat.{mod-lt, div-add-mod'}
use quixi_core_xpu.Common.{
  ℕ, ◌+◌, ◌*◌, ◌/◌, ◌%◌, ◌<◌, ◌≤◌, ◌≡◌, ◌≢◌, refl, sym, ap, ap₂, ◌∙◌, some, List, arith,
}
use quixi_core_xpu.Common.Int.{ℤ, pos, negsuc}
use quixi_core_xpu.Common.Launch.{
  Buffer, run, IsSchedule, run-hit, run-miss, schedule-runs, schedule-bound,
}
use quixi_core_xpu.Serving.{
  Layout, row_of, place, write_store, paged_write_item, paged_write, gathered, paged_gather_item,
  paged_gather,
}
use quixi_core_xpu.Serving.Copy.{id-row, id-col, id-lt, row-lt, place_inj}

-- Pages do not overlap: a page's slots fit the pitch between two pages.
pub record IsLayout (l : Layout) : Type 0 where
  pub paged : 0 < l.page_size
  pub fits : l.page_size * row_of l ≤ l.page_stride_elems

in_page :
    (l : Layout)
    → IsLayout l
    → (s e : ℕ) → e < row_of l
    → s % l.page_size * row_of l + e < l.page_stride_elems
in_page l ok s e h =
    omega (arith, id-lt l.page_size (row_of l) (s % l.page_size) e (mod-lt s ok.paged) h, ok.fits)

-- A cell belongs to one slot and one element.
pub cell_inj :
    (l : Layout)
    → IsLayout l
    → (s t e f : ℕ) → e < row_of l
    → f < row_of l
    → place l s e ≡ place l t f
    → (s ≡ t) × (e ≡ f)
unfolding place
cell_inj l ok s t e f he hf same =
    let (page, within) =
      place_inj l.page_stride_elems (s / l.page_size) (s % l.page_size * row_of l + e)
        (t / l.page_size) (t % l.page_size * row_of l + f) (in_page l ok s e he)
        (in_page l ok t f hf) (omega (arith, same)) in
    let (off, elem) = place_inj (row_of l) (s % l.page_size) e (t % l.page_size) f he hf within in
    (
      sym (div-add-mod' s l.page_size)
          ∙ ap₂ (λ a b. a * l.page_size + b) page off
          ∙ div-add-mod' t l.page_size,
      elem,
    )

-- Where a page fits the pitch, a cache that has room for `pages` pitches holds every element of the
-- slots of its first `pages` pages.
place-lt :
    (l : Layout)
    → IsLayout l
    → (pages s e : ℕ) → s < pages * l.page_size
    → e < row_of l
    → place l s e < pages * l.page_stride_elems
unfolding place
place-lt l ok pages s e hs he =
    let page = row-lt pages l.page_size s hs in
    omega (
      arith,
      id-lt pages l.page_stride_elems (s / l.page_size) (s % l.page_size * row_of l + e) page
          (in_page l ok s e he),
    )

module _ {T C : Type 0} (encode : T → C) (decode : C → T) (zero_element : T) (l : Layout)
    (ok : IsLayout l) (slots : ℕ → ℤ) (n : ℕ) where
  write_store-inv :
      (elements : Buffer T) (z : ℤ) (t e c : ℕ) (u : C)
      → write_store encode l elements slots z t e ≡ some (c, u)
      → (s : ℕ) × (z ≡ pos s) × (c ≡ place l s e) × (u ≡ encode (elements (t * row_of l + e)))
  write_store-inv elements (negsuc _) t e c u h = absurd (cc)
  write_store-inv elements (pos s) t e c u h = (s, refl, cc, cc)

  written-at :
      (elements : Buffer T) (s e : ℕ)
      → e < row_of l
      → (id : ℕ) (u : C) → paged_write_item encode l elements slots id ≡ some (place l s e, u)
      → (slots (id / row_of l) ≡ pos s) × (u ≡ encode (elements (id / row_of l * row_of l + e)))
  unfolding paged_write_item
  written-at elements s e h id u st =
      let (q, eq, at, same) =
        write_store-inv elements (slots (id / row_of l)) (id / row_of l) (id % row_of l) _ u st in
      let (r, c) = cell_inj l ok s q e (id % row_of l) h (mod-lt id (omega arith)) at in
      (eq ∙ ap pos (sym r), rw c same)

  item-writes :
      (elements : Buffer T) (t e s : ℕ)
      → e < row_of l
      → slots t ≡ pos s
      → paged_write_item encode l elements slots (t * row_of l + e)
        ≡ some (place l s e, encode (elements (t * row_of l + e)))
  unfolding paged_write_item
  item-writes elements t e s h eq =
      rw (id-row (row_of l) t e h, id-col (row_of l) t e h) (rw eq refl)

  -- The paged write to distinct slots: each named slot holds its token's encoded row, and the
  -- cells of the slots that no token names are left as they were.
  pub paged_write-slots :
      (elements : Buffer T) (order : List ℕ) (cache : Buffer C)
      → IsSchedule (n * row_of l) order
      → ((t k s : ℕ) → t < n → k < n → slots t ≡ pos s → slots k ≡ pos s → t ≡ k)
      → ((t e s : ℕ)
          → t < n
          → e < row_of l
          → slots t ≡ pos s
          → paged_write encode l elements slots order cache (place l s e)
            ≡ encode (elements (t * row_of l + e)))
        × ((s e : ℕ)
            → e < row_of l
            → ((t : ℕ) → t < n → slots t ≢ pos s)
            → paged_write encode l elements slots order cache (place l s e) ≡ cache (place l s e))
  unfolding paged_write
  paged_write-slots elements order cache launched distinct = (filled, untouched)
    where
      filled :
          (t e s : ℕ)
          → t < n
          → e < row_of l
          → slots t ≡ pos s
          → run (paged_write_item encode l elements slots) order cache (place l s e)
            ≡ encode (elements (t * row_of l + e))
      filled t e s ht he eq =
          run-hit (paged_write_item encode l elements slots) (place l s e)
            (encode (elements (t * row_of l + e))) order cache (t * row_of l + e)
            (schedule-runs _ order launched _ (id-lt n (row_of l) t e ht he))
            (item-writes elements t e s he eq)
            (λ id u ran st.
              let (z, same) = written-at elements s e he id u st in
              let inside = row-lt n (row_of l) id (schedule-bound _ order launched id ran) in
              same
              ∙ ap (λ (k : ℕ). encode (elements (k * row_of l + e)))
                  (distinct (id / row_of l) t s inside ht z eq))

      untouched :
          (s e : ℕ)
          → e < row_of l
          → ((t : ℕ) → t < n → slots t ≢ pos s)
          → run (paged_write_item encode l elements slots) order cache (place l s e)
            ≡ cache (place l s e)
      untouched s e he none_named =
          run-miss (paged_write_item encode l elements slots) (place l s e) order cache
            (λ id u ran st.
              let (z, same) = written-at elements s e he id u st in
              none_named (id / row_of l)
                (row-lt n (row_of l) id (schedule-bound _ order launched id ran)) z)

  -- The paged gather: output row t is the decoded row of its slot, and zeros for a negative slot.
  pub paged_gather-rows :
      (cache : Buffer C) (order : List ℕ) (out : Buffer T)
      → IsSchedule (n * row_of l) order
      → (t e : ℕ) → t < n
      → e < row_of l
      → paged_gather decode zero_element l cache slots order out (t * row_of l + e)
        ≡ gathered decode zero_element l cache slots (slots t) e
  unfolding paged_gather paged_gather_item
  paged_gather-rows cache order out launched t e ht he =
      run-hit (paged_gather_item decode zero_element l cache slots) (t * row_of l + e) _ order out
        (t * row_of l + e) (schedule-runs _ order launched _ (id-lt n (row_of l) t e ht he))
        (rw (id-row (row_of l) t e he, id-col (row_of l) t e he) refl)
        (λ id u ran st.
          let id_is : id ≡ t * row_of l + e = cc in
          let u_is : u
              ≡ gathered decode zero_element l cache slots (slots (id / row_of l)) (id % row_of l) =
            cc in
          u_is
          ∙ ap
              (λ (k : ℕ).
                gathered decode zero_element l cache slots (slots (k / row_of l)) (k % row_of l))
              id_is
          ∙ rw (id-row (row_of l) t e he, id-col (row_of l) t e he) refl)

-- Gathering the slots of a paged cache that were just written gives each token's row back through
-- the encoder and the decoder of the mode, and a negative slot reads as zeros, for distinct slots,
-- a pitch that a page fits, and whatever the order of the work-items in either launch.
pub paged_gather-write :
    {T C : Type 0} (encode : T → C) (decode : C → T) (zero_element : T) (l : Layout)
    → IsLayout l
    → (slots : ℕ → ℤ) (n : ℕ) (elements : Buffer T) (first second : List ℕ)
    → IsSchedule (n * row_of l) first
    → IsSchedule (n * row_of l) second
    → ((t k s : ℕ) → t < n → k < n → slots t ≡ pos s → slots k ≡ pos s → t ≡ k)
    → (cache : Buffer C) (out : Buffer T) (t e : ℕ) → t < n
    → e < row_of l
    → ((s : ℕ)
        → slots t ≡ pos s
        → paged_gather decode zero_element l
            (paged_write encode l elements slots first cache)
            slots
            second
            out
            (t * row_of l + e)
          ≡ decode (encode (elements (t * row_of l + e))))
      × ((m : ℕ)
          → slots t ≡ negsuc m
          → paged_gather decode zero_element l
              (paged_write encode l elements slots first cache)
              slots
              second
              out
              (t * row_of l + e)
            ≡ zero_element)
paged_gather-write {T} {C} encode decode zero_element l ok slots n elements first second f g
      distinct cache out t e ht he =
    (
      λ s eq.
          row_read
          ∙ by_slot (slots t) (pos s) eq
          ∙ ap decode (
              (paged_write-slots encode decode zero_element l ok slots n elements first cache f
                  distinct).0
                t e s ht he eq),
      λ m eq. row_read ∙ by_slot (slots t) (negsuc m) eq,
    )
  where
    filled : Buffer C
    filled = paged_write encode l elements slots first cache

    row_read :
        paged_gather decode zero_element l filled slots second out (t * row_of l + e)
        ≡ gathered decode zero_element l filled slots (slots t) e
    row_read =
        paged_gather-rows encode decode zero_element l ok slots n filled second out g t e ht he

    by_slot :
        (y z : ℤ)
        → y ≡ z
        → gathered decode zero_element l filled slots y e
          ≡ gathered decode zero_element l filled slots z e
    by_slot y z h = ap (λ (w : ℤ). gathered decode zero_element l filled slots w e) h
