-- ===== src/Grouped/Tiles.antt =====
-- Which rows a tile of the grid stands for.
use quixi_core_xpu.Common.{
  ℕ, zero, suc, ◌+◌, ◌-◌, ◌*◌, ◌/◌, ◌≤◌, ◌<◌, ◌≡◌, refl, true, false, ltb, leb, ◌&&◌, some, arith,
  Bool-cases, inl, inr, dec_lt, ◌==◌,
}
use mathlib.Core.Path.{subst}
use quixi_core_xpu.Common.Launch.{Buffer, store, sum_below, sum_below_mono}
use quixi_core_xpu.Common.Sums.{sum_below_next}
use quixi_core_xpu.Grouped.{
  tile_m, tiles_of, fill_seg, segments, locate, RowTile, tile_at, map_tile,
}

-- The tiles of all experts before `e`.
abbrev pub first_tile : Buffer ℕ → ℕ → ℕ
first_tile rows e = sum_below (λ i. tiles_of (rows i)) e

fill_seg-at :
    (rows seg : Buffer ℕ) (n : ℕ)
    → ((fill_seg rows n seg).0 ≡ first_tile rows n)
      × ((e : ℕ) → e < n → (fill_seg rows n seg).1 e ≡ first_tile rows e)
unfolding fill_seg store sum_below
fill_seg-at rows seg zero = (refl, λ e h. absurd (omega (arith, h)))
fill_seg-at rows seg (suc n) =
    let (total, before) = fill_seg-at rows seg n in
    (
      omega (arith, total),
      λ e h. elim (dec_lt e n) [
        | yes less ↦ let other : (e == n) ≡ false = ground (arith, less) in rw other (before e less)
        | no last ↦
            let at : e ≡ n = omega (arith, h, last) in
            let here : (n == n) ≡ true = ground arith in rw (at, here) total
      ],
    )

segments-at : (rows seg : Buffer ℕ) (n e : ℕ) → e ≤ n → segments rows n seg e ≡ first_tile rows e
unfolding segments store
segments-at rows seg n e h = elim (dec_lt e n) [
  | yes less ↦
      let other : (e == n) ≡ false = ground (arith, less) in
      rw other ((fill_seg-at rows seg n).1 e less)
  | no last ↦
      let at : e ≡ n = omega (arith, h, last) in
      let here : (n == n) ≡ true = ground arith in rw (at, here) (fill_seg-at rows seg n).0
]

-- The walk stops at an expert whose tiles reach beyond `mt`, and never skips one.
locate-stops :
    (n_experts : ℕ) (seg : Buffer ℕ) (mt fuel e : ℕ)
    → e < n_experts
    → n_experts ≤ e + fuel
    → seg e ≤ mt
    → mt < seg n_experts
    → (locate n_experts seg mt fuel e < n_experts)
      × (seg (locate n_experts seg mt fuel e) ≤ mt)
      × (mt < seg (locate n_experts seg mt fuel e + 1))
unfolding locate
locate-stops n_experts seg mt zero e inside enough lo hi = absurd (omega (arith, inside, enough))
locate-stops n_experts seg mt (suc fuel) e inside enough lo hi =
    elim (Bool-cases (ltb (e + 1) n_experts && leb (seg (e + 1)) mt)) [
      | inl walk ↦ rw walk (
          locate-stops n_experts seg mt fuel (e + 1) (ground (arith, walk)) (omega (arith, enough))
            (ground (arith, walk)) hi)
      | inr stop ↦ rw stop (
        inside,
        lo,
        elim (dec_lt (e + 1) n_experts) [
          | yes more ↦ ground (arith, stop, more)
          | no last ↦ let at : e + 1 ≡ n_experts = omega (arith, inside, last) in rw at hi
        ],
      )
    ]

-- Tiles before different experts do not overlap.
pub tile_owner :
    (f : ℕ → ℕ) (d e at : ℕ)
    → sum_below f d ≤ at
    → at < sum_below f (d + 1)
    → sum_below f e ≤ at
    → at < sum_below f (e + 1)
    → d ≡ e
tile_owner f d e at p q r s = elim (dec_lt d e) [
  | yes less ↦ absurd (omega (arith, sum_below_mono f (d + 1) e (omega (arith, less)), q, r))
  | no not_less ↦ elim (dec_lt e d) [
    | yes more ↦ absurd (omega (arith, sum_below_mono f (e + 1) d (omega (arith, more)), s, p))
    | no not_more ↦ omega (arith, not_less, not_more)
  ]
]

-- Row `l` of `rows` rows is in one of their tiles.
tile_in : (rows l : ℕ) → l < rows → l / tile_m < tiles_of rows
unfolding tiles_of
tile_in rows l h = omega (arith, h)

module _ (rows : Buffer ℕ) (n_experts : ℕ) (fresh : Buffer ℕ) where
  located :
      (mt : ℕ)
      → 0 < n_experts
      → mt < first_tile rows n_experts
      → let e = locate n_experts (segments rows n_experts fresh) mt n_experts 0 in
        (e < n_experts) × (first_tile rows e ≤ mt) × (mt < first_tile rows (e + 1))
  unfolding sum_below
  located mt some_experts h =
      let seg = segments rows n_experts fresh in
      let (inside, lo, hi) =
        locate-stops n_experts seg mt n_experts 0 some_experts (omega arith)
          (omega (arith, segments-at rows fresh n_experts 0 (omega arith)))
          (omega (arith, segments-at rows fresh n_experts n_experts (omega arith), h)) in
      let e = locate n_experts seg mt n_experts 0 in
      (
        inside,
        omega (arith, lo, segments-at rows fresh n_experts e (omega (arith, inside))),
        omega (arith, hi, segments-at rows fresh n_experts (e + 1) (omega (arith, inside))),
      )

  -- Row `l` of expert `e` belongs to a tile of the grid.
  pub row_in_grid :
      (e l : ℕ)
      → e < n_experts
      → l < rows e
      → first_tile rows e + l / tile_m < first_tile rows n_experts
  row_in_grid e l he hl = omega (
    arith,
    tile_in (rows e) l hl,
    sum_below_next (λ i. tiles_of (rows i)) e,
    sum_below_mono (λ i. tiles_of (rows i)) (e + 1) n_experts (omega (arith, he)),
  )

  -- The tile with rows l / 8 * 8 to l / 8 * 8 + 7 of expert `e` is in its place in the grid.
  pub map_tile-row :
      (e l : ℕ)
      → e < n_experts
      → l < rows e
      → map_tile rows n_experts fresh (first_tile rows e + l / tile_m)
        ≡ some (record { expert = e; row0 = sum_below rows e; rlocal0 = l / tile_m * tile_m })
  unfolding map_tile
  map_tile-row e l he hl =
      let seg = segments rows n_experts fresh in
      let mt = first_tile rows e + l / tile_m in
      let inside = row_in_grid e l he hl in
      let (_, lo, hi) = located mt (omega (arith, he)) inside in
      let found : locate n_experts seg mt n_experts 0 ≡ e =
        tile_owner (λ i. tiles_of (rows i)) _ e mt lo hi (omega arith)
          (omega (arith, tile_in (rows e) l hl, sum_below_next (λ i. tiles_of (rows i)) e)) in
      let within : leb (seg n_experts) mt ≡ false =
        ground (arith, segments-at rows fresh n_experts n_experts (omega arith), inside) in
      let offset : mt - seg e ≡ l / tile_m =
        omega (arith, segments-at rows fresh n_experts e (omega (arith, he))) in
      rw (within, found, offset) refl

  -- A tile that is mapped is one of its expert's.
  pub map_tile_sound :
      (mt : ℕ) (tile : RowTile)
      → map_tile rows n_experts fresh mt ≡ some tile
      → (tile.expert < n_experts) × (tile.row0 ≡ sum_below rows tile.expert)
  unfolding map_tile sum_below
  map_tile_sound mt tile e = elim (Bool-cases (leb (segments rows n_experts fresh n_experts) mt)) [
    | inl past ↦ absurd (grind (arith, past, e))
    | inr inside ↦
        let at = locate n_experts (segments rows n_experts fresh) mt n_experts 0 in
        let same : tile_at rows (segments rows n_experts fresh) mt at ≡ tile =
          grind (arith, inside, e) in
        let few : mt < first_tile rows n_experts =
          ground (arith, inside, segments-at rows fresh n_experts n_experts (omega arith)) in
        subst (λ (t : RowTile). (t.expert < n_experts) × (t.row0 ≡ sum_below rows t.expert)) same
          ((located mt (some_expert n_experts few) few).0, refl)
  ]
    where
      some_expert : (n : ℕ) → mt < first_tile rows n → 0 < n
      some_expert zero h = absurd (omega (arith, h))
      some_expert (suc n) h = omega arith
