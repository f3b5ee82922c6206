-- ===== src/Int4/Quantize.antt =====
-- The quantization writes every byte and every scale once, in any order of its work-items.
use native.Mathlib.Nat.{div-eq_of_lt-le, div-add-mod', mod-zero, mod-lt}
use quixi_core_xpu.Common.{
  ℕ, ◌+◌, ◌-◌, ◌*◌, ◌/◌, ◌%◌, ◌<◌, ◌≤◌, ◌≡◌, ◌≢◌, refl, sym, ap, ◌∙◌, List, true, ltb, leb, ◌==◌,
  ◌&&◌, if◌then◌else◌, arith, Bool-cases, inl, inr, ℕ_discrete,
}
use quixi_core_xpu.Common.Int.{ℤ}
use quixi_core_xpu.Common.Launch.{Buffer, IsSchedule, store}
use quixi_core_xpu.Common.Steps.{run_steps, run_steps-keep, run_steps-once}
use quixi_core_xpu.Common.Rows.{row_lt}
use quixi_core_xpu.Int4.{QuantUnit, Weights, clamp4, packed_byte, group_scale, quantize_item}
use quixi_core_xpu.Int4.Stores.{repeat-rounds, packed_byte-nibbles}

-- The shapes that the kernel is for: whole groups of whole vectors of an even width.
pub record IsShape (k_cols group width : ℕ) : Type 0 where
  pub some : 0 < group
  pub groups : k_cols % group ≡ 0
  pub vectors : group % width ≡ 0
  pub pairs : width % 2 ≡ 0

module _ {T F H : Type 0} (u : QuantUnit T F H) (w : Buffer T) (k_cols group width : ℕ)
    (ok : IsShape k_cols group width) where
  -- The int4 of element `e` of the matrix.
  abbrev pub quant_at : ℕ → ℤ
  quant_at e =
      clamp4 (u.rounded (w e) (u.inverse (group_scale u w k_cols group width (e / group * group))))

  abbrev pub byte_at : ℕ → ℕ
  byte_at b = packed_byte (quant_at (2 * b)) (quant_at (2 * b + 1))

  -- Groups are whole bytes, and rows are whole groups.
  pub half_group : group ≡ 2 * (group / 2)
  half_group =
      let n = group / width in
      let whole : group ≡ n * width = omega (arith, div-add-mod' group width, ok.vectors) in
      let even : width ≡ width / 2 * 2 = omega (arith, ok.pairs) in
      let parts : n * width ≡ n * (width / 2 * 2) = ap (λ (t : ℕ). n * t) even in
      omega (arith, whole, parts)

  -- A vector is some pairs.
  half_width : 0 < width / 2
  half_width = elim (ℕ_discrete width 0) [
    | yes e ↦
        let none : group % 0 ≡ 0 = ap (λ (t : ℕ). group % t) (sym e) ∙ ok.vectors in
        absurd (omega (arith, none, mod-zero group, ok.some))
    | no other ↦ omega (arith, other, ok.pairs)
  ]

  even_width : width ≡ width / 2 * 2
  even_width = omega (arith, ok.pairs)

  vector_bytes : group / width * (width / 2) ≡ group / 2
  vector_bytes =
      let n = group / width in
      let parts : n * width ≡ n * (width / 2 * 2) = ap (λ (t : ℕ). n * t) even_width in
      omega (arith, div-add-mod' group width, ok.vectors, parts)

  pub row_groups : k_cols ≡ k_cols / group * group
  row_groups = omega (arith, div-add-mod' k_cols group, ok.groups)

  pub row_bytes : k_cols / 2 ≡ k_cols / group * (group / 2)
  row_bytes =
      let halves : k_cols / group * group ≡ k_cols / group * (2 * (group / 2)) =
        ap (λ (t : ℕ). k_cols / group * t) half_group in
      omega (arith, row_groups, halves)

  -- Work-item `t` has group `t` of the matrix.
  item_base : (t : ℕ) → t / (k_cols / group) * k_cols + t % (k_cols / group) * group ≡ t * group
  item_base t =
      let gpr = k_cols / group in
      let row : t / gpr * k_cols ≡ t / gpr * (gpr * group) =
        ap (λ (x : ℕ). t / gpr * x) row_groups in
      let whole : (t / gpr * gpr + t % gpr) * group ≡ t * group =
        ap (λ (x : ℕ). x * group) (div-add-mod' t gpr) in
      omega (arith, row, whole)

  item_byte :
      (t : ℕ)
      → t / (k_cols / group) * (k_cols / 2) + t % (k_cols / group) * group / 2 ≡ t * (group / 2)
  item_byte t =
      let gpr = k_cols / group in
      let row : t / gpr * (k_cols / 2) ≡ t / gpr * (gpr * (group / 2)) =
        ap (λ (x : ℕ). t / gpr * x) row_bytes in
      let rest : t % gpr * group ≡ t % gpr * (2 * (group / 2)) =
        ap (λ (x : ℕ). t % gpr * x) half_group in
      let whole : (t / gpr * gpr + t % gpr) * (group / 2) ≡ t * (group / 2) =
        ap (λ (x : ℕ). x * (group / 2)) (div-add-mod' t gpr) in
      omega (arith, row, rest, whole)

  -- The pair that is stored at byte `b` of the matrix.
  value :
      (t b : ℕ) (mem : Weights H)
      → let c = t * (group / 2) in
        let quant = λ (i : ℕ). clamp4 (
          u.rounded
            (w (t * group + i))
            (u.inverse (group_scale u w k_cols group width (t * group)))) in
        let v = (b - c) / (width / 2) in
        let i = (b - c) % (width / 2) in
        (if leb c b && ltb b (c + group / 2)
          then packed_byte (quant (v * width + 2 * i)) (quant (v * width + (2 * i + 1)))
          else mem.bytes b)
        ≡ (if leb c b && ltb b (c + group / 2) then byte_at b else mem.bytes b)
  value t b mem =
      elim (Bool-cases (leb (t * (group / 2)) b && ltb b (t * (group / 2) + group / 2))) [
        | inr outside ↦ rw outside refl
        | inl inside ↦
            let c = t * (group / 2) in
            let h = width / 2 in
            let v = (b - c) / h in
            let i = (b - c) % h in
            let group_pos : t * group ≡ t * (2 * (group / 2)) = ap (λ (x : ℕ). t * x) half_group in
            let pairs : v * width ≡ v * (h * 2) = ap (λ (x : ℕ). v * x) even_width in
            let low : c ≤ b = ground (arith, inside) in
            let high : b < c + group / 2 = ground (arith, inside) in
            let first : t * group + (v * width + 2 * i) ≡ 2 * b =
              omega (arith, group_pos, pairs, div-add-mod' (b - c) h, low) in
            let second : t * group + (v * width + (2 * i + 1)) ≡ 2 * b + 1 = omega (arith, first) in
            let own : 2 * b / group ≡ t =
              div-eq_of_lt-le group (omega (arith, group_pos, low))
                (omega (arith, group_pos, high, half_group)) in
            let own' : (2 * b + 1) / group ≡ t =
              div-eq_of_lt-le group (omega (arith, group_pos, low))
                (omega (arith, group_pos, high, half_group)) in
            rw (inside, first, second, own, own') refl
      ]

  item_bytes :
      (t b : ℕ) (mem : Weights H)
      → (quantize_item u w k_cols group width t mem).bytes b ≡ (
          if leb (t * (group / 2)) b && ltb b (t * (group / 2) + group / 2)
          then byte_at b
          else mem.bytes b)
  unfolding quantize_item
  item_bytes t b mem =
      let byte0 = t / (k_cols / group) * (k_cols / 2) + t % (k_cols / group) * group / 2 in
      let base = t / (k_cols / group) * k_cols + t % (k_cols / group) * group in
      let h = width / 2 in
      let inv = u.inverse (group_scale u w k_cols group width base) in
      let quant = λ (i : ℕ). clamp4 (u.rounded (w (base + i)) inv) in
      repeat-rounds (λ v i. byte0 + (v * width + 2 * i) / 2) byte0 h
        (λ v i. packed_byte (quant (v * width + 2 * i)) (quant (v * width + (2 * i + 1))))
        (group / width) mem.bytes b half_width
        (λ v i.
          let pairs : v * width ≡ v * (h * 2) = ap (λ (x : ℕ). v * x) even_width in
          omega (arith, pairs))
      ∙ rw (item_byte t, item_base t, vector_bytes) (value t b mem)

  pub item_scales :
      (t e : ℕ) (mem : Weights H)
      → (quantize_item u w k_cols group width t mem).scales e ≡ (
          if e == t
          then u.to_half (group_scale u w k_cols group width (t * group))
          else mem.scales e)
  unfolding quantize_item store
  item_scales t e mem =
      let own : t / (k_cols / group) * (k_cols / group) + t % (k_cols / group) ≡ t =
        div-add-mod' t (k_cols / group) in
      rw (own, item_base t) refl

  pub half_group_pos : 0 < group / 2
  half_group_pos = omega (arith, half_group, ok.some)

  module _ (n_rows : ℕ) (s : List ℕ) (fair : IsSchedule (n_rows * (k_cols / group)) s)
      (mem : Weights H) where
    abbrev pub after : Weights H
    after = run_steps (quantize_item u w k_cols group width) s mem

    -- Each byte of the matrix is written once.
    pub quantized_bytes :
        (b : ℕ) → b < n_rows * (k_cols / group) * (group / 2) → after.bytes b ≡ byte_at b
    quantized_bytes b inside =
        let hg = group / 2 in
        let t = b / hg in
        let parts = div-add-mod' b hg in
        let rest = mod-lt b half_group_pos in
        let mine : (leb (t * hg) b && ltb b (t * hg + hg)) ≡ true = ground (arith, parts, rest) in
        let early : t < n_rows * (k_cols / group) = row_lt b hg _ inside in
        run_steps-once (quantize_item u w k_cols group width) (λ _. ℕ) (λ m. m.bytes b ≡ byte_at b)
          t (λ m _. item_bytes t b m ∙ rw mine refl) s (λ j _ _ m p. p)
          (λ j _ ne m old. item_bytes j b m ∙ skip j ne m old) (ground (arith, fair t, early)) mem 0
      where
        skip :
            (j : ℕ)
            → j ≢ b / (group / 2)
            → (m : Weights H) → m.bytes b ≡ byte_at b
            → (if leb (j * (group / 2)) b && ltb b (j * (group / 2) + group / 2)
                then byte_at b
                else m.bytes b)
              ≡ byte_at b
        skip j ne m old =
            elim (Bool-cases (leb (j * (group / 2)) b && ltb b (j * (group / 2) + group / 2))) [
              | inl inside_it ↦ rw inside_it refl
              | inr outside ↦ rw outside old
            ]

    pub quantized_scales :
        (t : ℕ)
        → t < n_rows * (k_cols / group)
        → after.scales t ≡ u.to_half (group_scale u w k_cols group width (t * group))
    quantized_scales t inside =
        run_steps-once (quantize_item u w k_cols group width) (λ _. ℕ)
          (λ m. m.scales t ≡ u.to_half (group_scale u w k_cols group width (t * group))) t
          (λ m _. item_scales t t m ∙ ground arith) s (λ j _ _ m p. p)
          (λ j _ ne m old. item_scales j t m ∙ ground (arith, ne, old))
          (ground (arith, fair t, inside)) mem 0

    -- Bytes stay bytes.
    pub quantized-IsBytes : ((b : ℕ) → mem.bytes b < 256) → (b : ℕ) → after.bytes b < 256
    quantized-IsBytes small b =
        run_steps-keep (quantize_item u w k_cols group width) (λ m. m.bytes b < 256) s
          (λ j _ m old. rw (item_bytes j b m) (
            ground (arith, old, (packed_byte-nibbles (quant_at (2 * b)) (quant_at (2 * b + 1))).2)))
          mem (small b)
