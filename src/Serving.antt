-- ===== src/Serving.antt =====
-- The serving family's indexed row copies: kernels/serving/variants/xpu_sycl/serving.sycl.cpp
-- (embedding lookup, KV-cache scatter and gather) and kv_cache_paged.sycl.cpp (the paged cache).
-- A kernel is what each of its work-items stores; the item's number is its linear id, and a launch
-- is any order of the items. Source and destination do not overlap.
pub mod Copy
pub mod Paged
pub mod Formats
mod Tests
use quixi_core_xpu.Common.{
  ℕ, zero, suc, ◌+◌, ◌*◌, ◌/◌, ◌%◌, ◌==◌, ◌≡◌, Bool, true, false, if◌then◌else◌, Option, none, some,
  List,
}
use quixi_core_xpu.Common.Int.{ℤ, pos, negsuc}
use quixi_core_xpu.Common.Launch.{Buffer, run}
use quixi_core_xpu.Codec
use quixi_core_xpu.Codec.{e4m3_encode, e4m3_decode}
use quixi_core_xpu.Runtime.{DType, dtype_size}

module _ {W : Type 0} (src : Buffer W) (index : ℕ → ℤ) (row : ℕ) where
  -- indexed_copy with INDEX_SRC, at row i and column j.
  abbrev pub gather_store : ℤ → ℕ → ℕ → Option (ℕ × W)
  gather_store (negsuc _) i j = none
  gather_store (pos idx) i j = some (i * row + j, src (idx * row + j))

  abbrev pub scatter_store : ℤ → ℕ → ℕ → Option (ℕ × W)
  scatter_store (negsuc _) i j = none
  scatter_store (pos idx) i j = some (idx * row + j, src (i * row + j))

  -- One work-item of the range (n, row): its row is id / row and its column id % row.
  unfoldable pub indexed_copy_item : Bool → ℕ → Option (ℕ × W)
  indexed_copy_item index_src id =
      let i = id / row in
      let j = id % row in
      if index_src then gather_store (index i) i j else scatter_store (index i) i j

  -- The launch, its items in the order `order`.
  unfoldable pub indexed_copy : Bool → List ℕ → Buffer W → Buffer W
  indexed_copy index_src order dst = run (indexed_copy_item index_src) order dst

-- by_width copies whole elements, by 4 bytes for f32 and by 2 for the rest.
unfoldable pub copy_width : DType → ℕ
copy_width dt = if dtype_size dt == 4 then 4 else 2

module _ {W : Type 0} where
  unfoldable pub embedding_lookup : Buffer W → (ℕ → ℤ) → ℕ → List ℕ → Buffer W → Buffer W
  unfolding indexed_copy
  embedding_lookup table ids dim order out = indexed_copy table ids dim true order out

  unfoldable pub kv_cache_scatter : Buffer W → (ℕ → ℤ) → ℕ → List ℕ → Buffer W → Buffer W
  unfolding indexed_copy
  kv_cache_scatter src slots row order cache = indexed_copy src slots row false order cache

  unfoldable pub kv_cache_gather : Buffer W → (ℕ → ℤ) → ℕ → List ℕ → Buffer W → Buffer W
  unfolding indexed_copy
  kv_cache_gather cache idx row order out = indexed_copy cache idx row true order out

-- What the paged kernels take of the hardware's floats, as bit patterns: the conversions between an
-- element and a float, the quotient and the product.
pub record FloatUnit (T : Type 0) : Type 0 where
  pub to_float : T → ℕ
  pub from_float : ℕ → T
  pub divide : ℕ → ℕ → ℕ
  pub multiply : ℕ → ℕ → ℕ
  pub zero_element : T

-- The shape of a paged cache.
pub record Layout : Type 0 where
  pub n_kv_heads : ℕ
  pub d : ℕ
  pub page_size : ℕ
  pub page_stride_elems : ℕ

abbrev pub row_of : Layout → ℕ
row_of l = l.n_kv_heads * l.d

-- The place of element `e` of a flat slot.
unfoldable pub place : Layout → ℕ → ℕ → ℕ
place l slot e =
    let page = slot / l.page_size in
    let off = slot % l.page_size in page * l.page_stride_elems + off * row_of l + e

-- *scale, or 1.0f for a null pointer.
abbrev pub scale_or_one : Option ℕ → ℕ
scale_or_one none = 0x3f800000
scale_or_one (some s) = s

-- paged_write_typed for one of the two caches, which it treats alike: `C` is what a cell holds and
-- `encode` what is stored of an element.
module _ {T C : Type 0} (encode : T → C) (l : Layout) (elements : Buffer T) (slots : ℕ → ℤ) where
  abbrev pub write_store : ℤ → ℕ → ℕ → Option (ℕ × C)
  write_store (negsuc _) t e = none
  write_store (pos slot) t e = some (place l slot e, encode (elements (t * row_of l + e)))

  unfoldable pub paged_write_item : ℕ → Option (ℕ × C)
  paged_write_item id = let t = id / row_of l in let e = id % row_of l in write_store (slots t) t e

  unfoldable pub paged_write : List ℕ → Buffer C → Buffer C
  paged_write order cache = run paged_write_item order cache

-- paged_gather_typed for one of the two caches; a negative slot reads as zeros.
module _ {T C : Type 0} (decode : C → T) (zero_element : T) (l : Layout) (cache : Buffer C)
    (slots : ℕ → ℤ) where
  abbrev pub gathered : ℤ → ℕ → T
  gathered (negsuc _) e = zero_element
  gathered (pos slot) e = decode (cache (place l slot e))

  unfoldable pub paged_gather_item : ℕ → Option (ℕ × T)
  paged_gather_item id =
      let t = id / row_of l in let e = id % row_of l in some (id, gathered (slots t) e)

  unfoldable pub paged_gather : List ℕ → Buffer T → Buffer T
  paged_gather order out = run paged_gather_item order out

-- The fp8 mode: divide by the scale and encode; decode and multiply by it.
abbrev pub fp8_encode : {T : Type 0} → FloatUnit T → Option ℕ → T → ℕ
fp8_encode u scale x = e4m3_encode (u.divide (u.to_float x) (scale_or_one scale))

abbrev pub fp8_decode : {T : Type 0} → FloatUnit T → Option ℕ → ℕ → T
fp8_decode u scale byte = u.from_float (u.multiply (e4m3_decode byte) (scale_or_one scale))

-- enum class KvCacheDType
pub data KvCacheDType : Type 0 where
  same fp8_e4m3 fp8_e5m2 : KvCacheDType

-- static_cast<int>
unfoldable pub kv_cache_dtype_code : KvCacheDType → ℕ
kv_cache_dtype_code same = 0
kv_cache_dtype_code fp8_e4m3 = 1
kv_cache_dtype_code fp8_e5m2 = 2

-- A cell of a paged cache: an element of the activation type, or an fp8 byte.
pub data Cell (T : Type 0) : Type 0 where
  element : T → Cell T
  byte : ℕ → Cell T

-- The flag `kv_dt == KvCacheDType::same ? 0 : 1` of ops::kv_cache_scatter_paged and
-- ops::kv_cache_gather_paged.
unfoldable pub fp8_flag : KvCacheDType → Bool
fp8_flag same = false
fp8_flag fp8_e4m3 = true
fp8_flag fp8_e5m2 = true

module _ {T : Type 0} (u : FloatUnit T) (scale : Option ℕ) where
  -- What ops::kv_cache_scatter_paged stores of an element.
  unfoldable pub scatter_encode : KvCacheDType → T → Cell T
  unfolding fp8_flag
  scatter_encode kv_dt x = if fp8_flag kv_dt then byte (fp8_encode u scale x) else element x

  -- What paged attention makes of a cell: kv_at with KvDt 0, 1 and 2, before the product by the
  -- scale. `none` is a cell of the other kind, whose bytes the kernel would reinterpret.
  unfoldable pub kv_at : KvCacheDType → Cell T → Option ℕ
  kv_at same (element x) = some (u.to_float x)
  kv_at same (byte b) = none
  kv_at fp8_e4m3 (byte b) = some (u.multiply (e4m3_decode b) (scale_or_one scale))
  kv_at fp8_e5m2 (byte b) = some (u.multiply (Codec.fp8_e5m2 b) (scale_or_one scale))
  kv_at _ (element x) = none
