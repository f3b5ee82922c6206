-- ===== src/Collectives/Meeting/Wrap.antt =====
-- The rendezvous when the generation, which the code keeps in 32 bits, wraps around.
use quixi_core_xpu.Common.{ℕ, ◌-◌, ◌^◌, ◌<◌, ◌≡◌, refl, true, false, arith}
use quixi_core_xpu.Collectives.Meeting.{
  Call, Meeting, begin, read, publish, observe, leave, Turns, start, later, rested,
}

-- From two regions at rest at generation 2 ^ 32 - 1, whatever their flags: rank 0 can go on from its
-- next rendezvous while rank 1 has not entered it, and no spin has reached its cap. The target wraps
-- to 0, and no flag is less.
pub generation_wraps :
    (meetings : ℕ) (calls : ℕ → Call) (Ready : ℕ → ℕ → Type 0) (flags : ℕ → ℕ → ℕ → ℕ)
    → 0 < meetings
    → Ready 0 0
    → (k : ℕ) × (x : Meeting) × Turns true 2 meetings calls Ready (rested (2 ^ 32 - 1) flags) k x
      × (x.left 0 ≡ 1)
      × (x.begun 1 ≡ 0)
      × (x.expired ≡ false)
generation_wraps meetings calls Ready flags some ready = (
  _,
  _,
  later
      (later
        (later
          (later
            (later
              (later
                (later (later start (begin 0 (omega arith) some refl refl ready))
                  (read 0 0 (omega arith) (omega arith) (omega arith)))
                (read 0 1 (omega arith) (omega arith) (omega arith)))
              (publish 0 0 (omega arith) (omega arith) refl (omega arith)))
            (publish 0 1 (omega arith) (omega arith) refl (omega arith)))
          (observe 0 0 (omega arith) (omega arith) refl (omega arith) (omega arith)))
        (observe 0 1 (omega arith) (omega arith) refl (omega arith) (omega arith)))
      (leave 0 (omega arith) (omega arith) (λ l p. ground arith)),
  refl,
  refl,
  refl,
)
