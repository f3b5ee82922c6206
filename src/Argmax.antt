-- ===== src/Argmax.antt =====
-- Greedy argmax over a row of logits: kernels/sampling/argmax/variants/xpu_sycl/argmax.sycl.cpp.
-- A row belongs to one work-group of 256 threads. A thread scans its vectors of `width` elements and
-- then its part of the tail, and a tree of halving strides combines the threads. In a round of the
-- tree a thread writes its own cell, which no other thread reads, so a round is a function of the
-- cells before it. A logit is the float that it converts to.
pub mod Best
pub mod Scan
pub mod Tree
pub mod Result
mod Tests
use quixi_core_xpu.Common.{ℕ, zero, suc, ◌+◌, ◌*◌, ◌/◌, Bool, ltb, ◌&&◌, ◌||◌, if◌then◌else◌}
use quixi_core_xpu.Common.Float.{neg_infinity, float_gt, float_eq}
use quixi_core_xpu.Common.Launch.{Buffer}

-- kRowThreads
abbrev pub row_threads : ℕ
row_threads = 256

-- A thread's best value and its index, the cells of svals and sidx.
pub record Winner : Type 0 where
  pub value : ℕ
  pub index : ℕ

abbrev pub nothing_seen : Winner
nothing_seen = record { value = neg_infinity; index = 0 }

module _ (logits : Buffer ℕ) where
  unfoldable pub consider : ℕ → Winner → Winner
  consider j best =
      if float_gt (logits j) best.value then record { value = logits j; index = j } else best

  -- The elements of a vector from its element `k` on, `rounds` of them.
  unfoldable pub scan_chunk : ℕ → ℕ → Winner → Winner
  unfolding consider
  scan_chunk zero j best = best
  scan_chunk (suc rounds) j best = scan_chunk rounds (j + 1) (consider j best)

  -- for (base = lid * V; base < vend; base += kRowThreads * V)
  unfoldable pub scan_vectors : ℕ → ℕ → ℕ → ℕ → Winner → Winner
  unfolding scan_chunk
  scan_vectors width vend zero base best = best
  scan_vectors width vend (suc fuel) base best =
      let rest =
        scan_vectors width vend fuel (base + row_threads * width) (scan_chunk width base best) in
      if ltb base vend then rest else best

  -- for (j = vend + lid; j < vocab; j += kRowThreads)
  unfoldable pub scan_tail : ℕ → ℕ → ℕ → Winner → Winner
  unfolding consider
  scan_tail vocab zero j best = best
  scan_tail vocab (suc fuel) j best =
      let rest = scan_tail vocab fuel (j + row_threads) (consider j best) in
      if ltb j vocab then rest else best

  -- What thread `lid` puts into svals and sidx. A loop makes at most as many rounds as there are
  -- elements.
  unfoldable pub thread_scan : ℕ → ℕ → ℕ → Winner
  unfolding scan_vectors scan_tail
  thread_scan width vocab lid =
      let vend = vocab / width * width in
      scan_tail vocab vocab (vend + lid) (scan_vectors width vend vocab (lid * width) nothing_seen)

-- The better of a cell and the one `stride` above it.
unfoldable pub combine : Winner → Winner → Winner
combine own other =
    if float_gt other.value own.value
      || (float_eq other.value own.value && ltb other.index own.index)
    then other
    else own

unfoldable pub tree_round : ℕ → Buffer Winner → Buffer Winner
unfolding combine
tree_round stride cells =
    λ lid. if ltb lid stride then combine (cells lid) (cells (lid + stride)) else cells lid

-- for (stride = kRowThreads / 2; stride > 0; stride >>= 1)
unfoldable pub tree : ℕ → ℕ → Buffer Winner → Buffer Winner
unfolding tree_round
tree zero stride cells = cells
tree (suc fuel) stride cells =
    let rest = tree fuel (stride / 2) (tree_round stride cells) in
    if ltb 0 stride then rest else cells

-- The index that argmax_typed writes for a row.
unfoldable pub argmax : ℕ → Buffer ℕ → ℕ → ℕ
unfolding thread_scan tree
argmax width logits vocab =
    (tree row_threads (row_threads / 2) (thread_scan logits width vocab) 0).index
