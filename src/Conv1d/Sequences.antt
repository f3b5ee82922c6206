-- ===== src/Conv1d/Sequences.antt =====
-- Packed sequences: cp_find_seq finds the owner of a token.
use quixi_core_xpu.Common.{ℕ, zero, suc, ◌+◌, ◌<◌, ◌≤◌, ◌≡◌, ap, ◌∙◌, true, false, ltb, arith}
use quixi_core_xpu.Common.Launch.{Buffer}
use quixi_core_xpu.Conv1d.{cp_find_seq, find_seq_from}

-- The offsets of packed sequences.
pub record IsPacked (qsl : Buffer ℕ) (batch : ℕ) : Type 0 where
  pub from_zero : qsl 0 ≡ 0
  pub grows : (s : ℕ) → s < batch → qsl s ≤ qsl (s + 1)

pub packed_mono :
    (qsl : Buffer ℕ) (batch a n : ℕ) → IsPacked qsl batch → a + n ≤ batch → qsl a ≤ qsl (a + n)
packed_mono qsl batch a zero packed h =
    let here : a + 0 ≡ a = omega arith in omega (arith, ap qsl here)
packed_mono qsl batch a (suc n) packed h =
    let next : a + n + 1 ≡ a + suc n = omega arith in
    omega (
      arith,
      packed_mono qsl batch a n packed (omega (arith, h)),
      packed.grows (a + n) (omega (arith, h)),
      ap qsl next,
    )

find_seq_from-owner :
    (qsl : Buffer ℕ) (batch tok a d rest : ℕ)
    → IsPacked qsl batch
    → a + d < batch
    → d < rest
    → qsl (a + d) ≤ tok
    → tok < qsl (a + d + 1)
    → find_seq_from qsl batch tok a rest ≡ a + d
unfolding find_seq_from
find_seq_from-owner qsl batch tok a d zero packed inside left lo hi = absurd (omega (arith, left))
find_seq_from-owner qsl batch tok a zero (suc rest) packed inside left lo hi =
    let at : ltb tok (qsl (a + 1)) ≡ true = ground (arith, hi) in rw at (omega arith)
find_seq_from-owner qsl batch tok a (suc d) (suc rest) packed inside left lo hi =
    let next : a + 1 + d ≡ a + suc d = omega arith in
    let before : qsl (a + 1) ≤ tok =
      omega
        (arith, packed_mono qsl batch (a + 1) d packed (omega (arith, inside)), ap qsl next, lo) in
    let past : ltb tok (qsl (a + 1)) ≡ false = ground (arith, before) in
    rw past (
      find_seq_from-owner qsl batch tok (a + 1) d rest packed (omega (arith, inside))
        (omega (arith, left)) (omega (arith, ap qsl next, lo))
        (omega (arith, ap (λ (k : ℕ). qsl (k + 1)) next, hi))
      ∙ next)

-- Token `t` of sequence `s` is found in `s`, however many sequences are empty.
pub cp_find_seq-owner :
    (qsl : Buffer ℕ) (batch s t : ℕ)
    → IsPacked qsl batch
    → s < batch
    → qsl s + t < qsl (s + 1)
    → cp_find_seq qsl batch (qsl s + t) ≡ s
unfolding cp_find_seq
cp_find_seq-owner qsl batch s t packed inside h =
    let here : 0 + s ≡ s = omega arith in
    find_seq_from-owner qsl batch (qsl s + t) 0 s batch packed (omega (arith, inside)) inside
      (omega (arith, ap qsl here)) (omega (arith, ap (λ (k : ℕ). qsl (k + 1)) here, h))
    ∙ here
