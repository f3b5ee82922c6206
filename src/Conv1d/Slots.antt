-- ===== src/Conv1d/Slots.antt =====
-- Slots: which items of a launch over batch rows and channels can touch a state row.
use quixi_core_xpu.Common.{
  ℕ, ◌+◌, ◌-◌, ◌*◌, ◌/◌, ◌<◌, ◌≡◌, ◌≢◌, refl, sym, ap, ap₂, ◌∙◌, leb, none, some, List, Bool-cases,
  ◌⊎◌, inl, inr,
}
use quixi_core_xpu.Common.Int.{ℤ, pos, negsuc}
use quixi_core_xpu.Common.Launch.{count, IsSchedule, schedule-bound}
use quixi_core_xpu.Common.Rows.{row_unique, row_lt, row_join, column_lt}
use quixi_core_xpu.Conv1d.{live_slot}

pub live_slot_cases :
    (nslots : ℕ) (z : ℤ)
    → (live_slot nslots z ≡ none) ⊎ ((slot : ℕ) × (live_slot nslots z ≡ some slot))
unfolding live_slot
live_slot_cases nslots (negsuc _) = inl refl
live_slot_cases nslots (pos slot) = elim (Bool-cases (leb nslots slot)) [
  | inl out ↦ rw out (inl refl)
  | inr inside ↦ rw inside (inr (slot, refl))
]

-- No two live rows of a batch have one slot.
abbrev pub DistinctSlots : ℕ → ℕ → (ℕ → ℤ) → Type 0
DistinctSlots nslots batch indices =
    (a b slot : ℕ)
    → a < batch
    → b < batch
    → live_slot nslots (indices a) ≡ some slot
    → live_slot nslots (indices b) ≡ some slot
    → a ≡ b

module _ (nslots dim : ℕ) (indices : ℕ → ℤ) (batch : ℕ) (order : List ℕ)
    (launched : IsSchedule (batch * dim) order) where
  -- Only the item at b * dim + c has the state row of its slot and channel.
  pub others_miss :
      DistinctSlots nslots batch indices
      → (b c : ℕ) → b < batch
      → c < dim
      → (slot : ℕ) → live_slot nslots (indices b) ≡ some slot
      → (j : ℕ) → 0 < count j order
      → j ≢ b * dim + c
      → (other : ℕ) → live_slot nslots (indices (j / dim)) ≡ some other
      → other * dim + (j - j / dim * dim) ≢ slot * dim + c
  others_miss distinct b c hb hc slot e j ran ne other f same =
      let inside = schedule-bound (batch * dim) order launched j ran in
      let (slots, columns) =
        row_unique other slot (j - j / dim * dim) c dim (column_lt j dim batch inside) hc same in
      let rows : j / dim ≡ b =
        distinct (j / dim) b slot (row_lt j dim batch inside) hb (f ∙ ap some slots) e in
      ne (sym (row_join j dim) ∙ ap₂ (λ (t r : ℕ). t * dim + r) rows columns)

  -- No item has a row of a slot that is not in the batch.
  pub unused_miss :
      (slot c : ℕ)
      → c < dim
      → ((b : ℕ) → b < batch → ¬ (live_slot nslots (indices b) ≡ some slot))
      → (j : ℕ) → 0 < count j order
      → (other : ℕ) → live_slot nslots (indices (j / dim)) ≡ some other
      → other * dim + (j - j / dim * dim) ≢ slot * dim + c
  unused_miss slot c hc unused j ran other f same =
      let inside = schedule-bound (batch * dim) order launched j ran in
      let (slots, _) =
        row_unique other slot (j - j / dim * dim) c dim (column_lt j dim batch inside) hc same in
      unused (j / dim) (row_lt j dim batch inside) (f ∙ ap some slots)
