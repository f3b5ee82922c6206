-- ===== src/Serving/Tests.antt =====
-- Two tokens of rows of two elements, and caches written with them.
use quixi_core_xpu.Common.{
  ℕ, zero, suc, ◌+◌, ◌*◌, ◌≡◌, ◌≢◌, ◌<◌, refl, List, [], ◌∷◌, arith, some, none,
}
use quixi_core_xpu.Common.Int.{ℤ, pos, negsuc}
use quixi_core_xpu.Common.Launch.{Buffer, count, IsSchedule}
use quixi_core_xpu.Codec.{e4m3_normal, e4m3_encode, e4m3_decode, fp8_e5m2 as e5m2_value}
use quixi_core_xpu.Serving.{
  Layout, FloatUnit, kv_cache_scatter, kv_cache_gather, paged_write, paged_gather, fp8_e5m2, kv_at,
  scatter_encode,
}
use quixi_core_xpu.Serving.Copy.{kv_cache_gather-scatter, pos_inj}
use quixi_core_xpu.Serving.Paged.{IsLayout, paged_gather-write}
use quixi_core_xpu.Serving.Formats.{fp8_e5m2-misread}

-- Slots 3 and 1, and nothing for the tokens after.
abbrev slots : ℕ → ℤ
slots zero = pos 3
slots (suc zero) = pos 1
slots (suc (suc _)) = negsuc 0

abbrev order : List ℕ
order = 2 ∷ 0 ∷ 3 ∷ 1 ∷ []

order-IsSchedule : IsSchedule 4 order
unfolding count
order-IsSchedule i = ground arith

slots-distinct : (i k p : ℕ) → i < 2 → k < 2 → slots i ≡ pos p → slots k ≡ pos p → i ≡ k
slots-distinct zero zero p hi hk e f = refl
slots-distinct zero (suc zero) p hi hk e f = absurd (omega (arith, pos_inj e, pos_inj f))
slots-distinct (suc zero) zero p hi hk e f = absurd (omega (arith, pos_inj e, pos_inj f))
slots-distinct (suc zero) (suc zero) p hi hk e f = refl
slots-distinct (suc (suc i)) k p hi hk e f = absurd (omega arith)
slots-distinct i (suc (suc k)) p hi hk e f = absurd (omega arith)

abbrev rows : Buffer ℕ
rows i = i + 10

abbrev zeros : Buffer ℕ
zeros i = 0

kv_cache_gather-scatter_example :
    kv_cache_gather (kv_cache_scatter rows slots 2 order zeros) slots 2 order zeros (1 * 2 + 1)
    ≡ rows (1 * 2 + 1)
kv_cache_gather-scatter_example =
    kv_cache_gather-scatter rows slots 2 2 order order order-IsSchedule order-IsSchedule
      slots-distinct zeros zeros 1 1 1 (omega arith) (omega arith) refl

-- Pages of two slots, six cells apart.
abbrev small_cache : Layout
small_cache = record { n_kv_heads = 1; d = 2; page_size = 2; page_stride_elems = 6 }

small_cache-IsLayout : IsLayout small_cache
small_cache-IsLayout = record { paged = omega arith; fits = omega arith }

paged_gather-write_example :
    ((s : ℕ)
      → slots 0 ≡ pos s
      → paged_gather
          (λ c. c)
          0
          small_cache
          (paged_write (λ x. x) small_cache rows slots order zeros)
          slots
          order
          zeros
          (0 * 2 + 1)
        ≡ rows (0 * 2 + 1))
    × ((m : ℕ)
        → slots 0 ≡ negsuc m
        → paged_gather
            (λ c. c)
            0
            small_cache
            (paged_write (λ x. x) small_cache rows slots order zeros)
            slots
            order
            zeros
            (0 * 2 + 1)
          ≡ 0)
paged_gather-write_example =
    paged_gather-write (λ x. x) (λ c. c) 0 small_cache small_cache-IsLayout slots 2 rows order order
      order-IsSchedule order-IsSchedule slots-distinct zeros zeros 0 1 (omega arith) (omega arith)

-- Elements that are floats, and quotients and products that keep the first operand.
abbrev float_unit : FloatUnit ℕ
float_unit = record {
  to_float = λ x. x;
  from_float = λ f. f;
  divide = λ x y. x;
  multiply = λ x y. x;
  zero_element = 0;
}

-- 3.0 is the e4m3 byte 0x44, which e5m2 reads as 4.0.
fp8_e5m2-misread_example :
    (kv_at float_unit none fp8_e5m2 (scatter_encode float_unit none fp8_e5m2 0x40400000)
      ≡ some (e5m2_value (e4m3_encode 0x40400000)))
    × (e5m2_value (e4m3_encode 0x40400000) ≢ e4m3_decode (e4m3_encode 0x40400000))
unfolding e4m3_encode e4m3_normal
fp8_e5m2-misread_example =
    fp8_e5m2-misread float_unit none 0x40400000 (omega arith) (omega arith) (omega arith)
