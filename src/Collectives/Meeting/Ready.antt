-- ===== src/Collectives/Meeting/Ready.antt =====
-- What the steps of a rendezvous keep, for the kernels that hold several.
use quixi_core_xpu.Common.{
  inl, inr, Bool, Bool-cases, ℕ, ◌<◌, ◌≡◌, false, ◌==◌, if◌then◌else◌, arith, ℕ_discrete,
}
use quixi_core_xpu.Collectives.Meeting.{
  Call, Meeting, Turn, begin, read, publish, observe, expire, write, leave,
}

-- A cap that is reached stays reached.
pub Turn-patient :
    {lockstep : Bool} {world meetings : ℕ} {calls : ℕ → Call} {Ready : ℕ → ℕ → Type 0}
    {m k : Meeting}
    → Turn lockstep world meetings calls Ready m k
    → k.expired ≡ false
    → m.expired ≡ false
Turn-patient (begin r _ _ _ _ _) h = h
Turn-patient (read r l _ _ _) h = h
Turn-patient (publish r l _ _ _ _) h = h
Turn-patient (observe r l _ _ _ _ _) h = h
Turn-patient (expire r l _ _ _ _) h = absurd (ground (arith, h))
Turn-patient (write r _ _ _ _ _) h = h
Turn-patient (leave r _ _ _) h = h

-- What is ready at each rendezvous that a rank has begun stays so when it was at those before.
pub Turn-ready :
    {lockstep : Bool} {world meetings : ℕ} {calls : ℕ → Call} {Ready : ℕ → ℕ → Type 0}
    {m k : Meeting}
    → Turn lockstep world meetings calls Ready m k
    → ((r n : ℕ) → r < world → n < m.begun r → Ready r n)
    → (r n : ℕ) → r < world
    → n < k.begun r
    → Ready r n
Turn-ready {m} (begin s s_in more idle written ready) h r n r_in p = elim (ℕ_discrete r s) [
  | no other ↦ h r n r_in (ground (arith, p, other))
  | yes same ↦ elim (ℕ_discrete n (m.begun r)) [
    | yes now ↦ rw (now, same) ready
    | no earlier ↦ h r n r_in (ground (arith, p, earlier, same))
  ]
]
Turn-ready (read _ _ _ _ _) h r n r_in p = h r n r_in p
Turn-ready (publish _ _ _ _ _ _) h r n r_in p = h r n r_in p
Turn-ready (observe _ _ _ _ _ _ _) h r n r_in p = h r n r_in p
Turn-ready (expire _ _ _ _ _ _) h r n r_in p = h r n r_in p
Turn-ready (write _ _ _ _ _ _) h r n r_in p = h r n r_in p
Turn-ready (leave _ _ _ _) h r n r_in p = h r n r_in p

-- The meeting of work-groups `c` after a step of work-groups `b`.
pub meeting_case :
    (P : ℕ → Meeting → Type 0) (f : ℕ → Meeting) (b c : ℕ) (m : Meeting)
    → P b m
    → P c (f c)
    → P c (if c == b then m else f c)
meeting_case P f b c m new old = elim (Bool-cases (c == b)) [
  | inl same ↦ let e : c ≡ b = ground arith in rw (same, e) new
  | inr other ↦ rw other old
]
