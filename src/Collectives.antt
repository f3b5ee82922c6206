-- ===== src/Collectives.antt =====
-- The sum all-reduce: kernels/collectives/all_reduce/variants/xpu_sycl/all_reduce.sycl.cpp. In its
-- two-shot kernel every rank stages its input, meets the others, sums its own chunk over all ranks,
-- meets them again and copies every owner's chunk. A meeting is between the work-groups of one number
-- only, so the chunks are sliced by work-group. The steps below are single loop iterations of single
-- work-groups, of any rank, in any interleaving in which a rank waits where it has to; Meeting has the
-- flags by which it waits, Joint these steps over the flags, OneShot the kernel for small payloads.
pub mod Meeting
pub mod Joint
pub mod OneShot
pub mod Cells
pub mod Slices
pub mod TwoShot
mod MeetingTests
mod OneShotTests
mod Tests
use quixi_core_xpu.Common.{
  ℕ, zero, suc, ◌+◌, ◌-◌, ◌*◌, ◌/◌, ◌%◌, ◌<◌, ◌≤◌, ◌≡◌, min, Bool, true, false, ltb, ◌==◌, ◌&&◌,
  if◌then◌else◌,
}
use quixi_core_xpu.Common.Launch.{Buffer}

-- kArBlocks and kArWgSize.
abbrev pub blocks : ℕ
blocks = 64

abbrev pub wg_size : ℕ
wg_size = 256

-- sizeof(ArSignal): three flag phases and the generations of every block, in a multiple of 128 bytes.
unfoldable pub region_bytes : ℕ → ℕ
region_bytes staging_bytes = 3 * 64 * 8 * 4 + 64 * 4 + staging_bytes

abbrev pub chunk : ℕ → ℕ → ℕ
chunk numel world = (numel + world - 1) / world

abbrev pub per_block : ℕ → ℕ
per_block c = (c + blocks - 1) / blocks

unfoldable pub slice_lo : ℕ → ℕ → ℕ → ℕ → ℕ
slice_lo numel world block owner = owner * chunk numel world + block * per_block (chunk numel world)

unfoldable pub slice_hi : ℕ → ℕ → ℕ → ℕ → ℕ
slice_hi numel world block owner =
    let within = min ((block + 1) * per_block (chunk numel world)) (chunk numel world) in
    min (owner * chunk numel world + within) numel

-- Element `i` is in the slice of `owner` for work-group `b`.
abbrev pub InSlice : ℕ → ℕ → ℕ → ℕ → ℕ → Type 0
InSlice numel world b owner i =
    (slice_lo numel world b owner ≤ i) × (i < slice_hi numel world b owner)

-- Iteration `k` of work-item `lid` over a slice.
abbrev pub iteration : ℕ → ℕ → ℕ → ℕ
iteration lo lid k = lo + lid + k * wg_size

-- The float operations of the sum.
pub record SumUnit (T : Type 0) : Type 0 where
  pub to_float : T → ℕ
  pub from_float : ℕ → T
  pub add : ℕ → ℕ → ℕ

module _ {T : Type 0} (u : SumUnit T) where
  -- The loop over the ranks, in rank order from 0.0f.
  unfoldable pub accumulate : (ℕ → Buffer T) → ℕ → ℕ → ℕ
  accumulate staging zero i = 0
  accumulate staging (suc r) i = u.add (accumulate staging r i) (u.to_float (staging r i))

  abbrev pub rank_sum : (ℕ → Buffer T) → ℕ → ℕ → T
  rank_sum staging world i = u.from_float (accumulate staging world i)

-- A value per rank and index, changed at one.
abbrev pub put : {A : Type 0} → (ℕ → ℕ → A) → ℕ → ℕ → A → ℕ → ℕ → A
put f r i a = λ s j. if (s == r) && (j == i) then a else f s j

-- The memory of all ranks, and how far each has come: which elements it has staged, whether its
-- reduce kernel runs, which work-groups have passed the first meeting, which elements are summed,
-- which work-groups have announced their sums, and which elements are gathered.
pub record World (T : Type 0) : Type 0 where
  pub staging : ℕ → Buffer T
  pub out : ℕ → Buffer T
  pub staged : ℕ → ℕ → Bool
  pub launched : ℕ → ℕ → Bool
  pub entered : ℕ → ℕ → Bool
  pub reduced : ℕ → ℕ → Bool
  pub announced : ℕ → ℕ → Bool
  pub gathered : ℕ → ℕ → Bool

module _ {T : Type 0} (u : SumUnit T) (input : ℕ → Buffer T) (numel world : ℕ) where
  -- One step of one rank.
  pub data Step (w : World T) : World T → Type 0 where
    stage :
        (r i : ℕ)
        → r < world
        → i < numel
        → w.launched r 0 ≡ false
        → Step w
            (record w { staging = put w.staging r i (input r i); staged = put w.staged r i true })
    launch :
        (r : ℕ)
        → r < world
        → ((i : ℕ) → i < numel → w.staged r i ≡ true)
        → Step w (record w { launched = put w.launched r 0 true })
    enter :
        (r b : ℕ)
        → r < world
        → ((s : ℕ) → s < world → w.launched s 0 ≡ true)
        → Step w (record w { entered = put w.entered r b true })
    reduce :
        (r b i : ℕ)
        → r < world
        → w.entered r b ≡ true
        → InSlice numel world b r i
        → w.reduced r i ≡ false
        → Step w (record w {
          staging = put w.staging r i (rank_sum u w.staging world i);
          reduced = put w.reduced r i true;
        })
    announce :
        (r b : ℕ)
        → r < world
        → w.entered r b ≡ true
        → ((i : ℕ) → InSlice numel world b r i → w.reduced r i ≡ true)
        → Step w (record w { announced = put w.announced r b true })
    gather :
        (r b owner i : ℕ)
        → r < world
        → owner < world
        → ((s : ℕ) → s < world → w.announced s b ≡ true)
        → InSlice numel world b owner i
        → Step w (record w {
          out = put w.out r i (w.staging owner i);
          gathered = put w.gathered r i true;
        })

  pub data Reach (w : World T) : World T → Type 0 where
    start : Reach w w
    later : {v x : World T} → Reach w v → Step v x → Reach w x
