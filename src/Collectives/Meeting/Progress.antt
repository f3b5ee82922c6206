-- ===== src/Collectives/Meeting/Progress.antt =====
-- The ranks get through all their rendezvous: no state is stuck before the end, and every step counts.
use quixi_core_xpu.Common.{
  ℕ, ◌+◌, ◌^◌, ◌<◌, ◌≤◌, ◌≡◌, ◌≢◌, ◌⊎◌, inl, inr, refl, Bool, true, false, arith,
}
use native.Mathlib.Decide.{ℕ_discrete, dec_lt}
use quixi_core_xpu.Common.Search.{same_or_other, least}
use quixi_core_xpu.Collectives.Meeting.{
  Call, Meeting, AllSeen, Turn, begin, read, publish, observe, expire, write, leave, Turns, rested,
}
use quixi_core_xpu.Collectives.Meeting.Order.{IsValid, Turns-IsValid, rested-IsValid}
use quixi_core_xpu.Collectives.Meeting.Work.{most_steps, work-bound, Turns-work}

-- Whether a step is a spin that reaches its cap.
abbrev pub gives_up :
    {lockstep : Bool} {world meetings : ℕ} {calls : ℕ → Call} {Ready : ℕ → ℕ → Type 0}
    {m k : Meeting}
    → Turn lockstep world meetings calls Ready m k
    → Bool
gives_up (expire _ _ _ _ _ _) = true
gives_up _ = false

-- Some rank can take a step other than that.
abbrev pub CanTurn :
    (lockstep : Bool) (world meetings : ℕ) (calls : ℕ → Call) (Ready : ℕ → ℕ → Type 0)
    → Meeting
    → Type 0
CanTurn lockstep world meetings calls Ready m =
    (k : Meeting) × (t : Turn lockstep world meetings calls Ready m k) × (gives_up t ≡ false)

module _ (world meetings : ℕ) (calls : ℕ → Call) (g : ℕ) {Ready : ℕ → ℕ → Type 0} (m : Meeting)
    (ok : IsValid world meetings calls g m) (ready : (r : ℕ) → Ready r (m.begun r)) where
  -- A rank between two rendezvous writes its generation or begins the next.
  between :
      (r : ℕ)
      → r < world
      → m.left r ≡ m.begun r
      → m.begun r < meetings
      → CanTurn true world meetings calls Ready m
  between r r_in idle more = elim (ℕ_discrete (m.wrote r) (m.begun r)) [
    | yes e ↦ (_, begin r r_in more idle e (ready r), refl)
    | no ne ↦ (
      _,
      write r r_in (omega (arith, ok.write_one r r_in, ne)) (every 0 (omega arith)) (λ _. every)
          (λ _ l q. omega (arith, every l q, ok.load_one r l r_in q, ok.see_one r l r_in q)),
      refl,
    )
  ]
    where
      every : AllSeen world m r
      every l q = omega (arith, ok.see_one r l r_in q, ok.send_one r l r_in q)

  -- An item that has not published reads the generation or publishes.
  outgoing :
      (r l : ℕ)
      → r < world
      → l < world
      → m.sent r l ≢ m.begun r
      → CanTurn true world meetings calls Ready m
  outgoing r l r_in l_in ne = elim (ℕ_discrete (m.loaded r l) (m.begun r)) [
    | yes e ↦ (_, publish r l r_in l_in e (omega (arith, ok.send_one r l r_in l_in, ne)), refl)
    | no unread ↦ (_, read r l r_in l_in (omega (arith, ok.load_one r l r_in l_in, unread)), refl)
  ]

  -- The rank that has left fewest waits for a flag which is there, or whose writer can go on.
  waiting :
      (r p : ℕ)
      → r < world
      → p < world
      → m.left r < m.begun r
      → m.left r ≤ m.left p
      → m.sent r p ≡ m.begun r
      → m.seen r p < m.begun r
      → CanTurn true world meetings calls Ready m
  waiting r p r_in p_in inside low sent_it unseen = elim (ℕ_discrete (m.sent p r) (m.begun p)) [
    | no ne ↦ outgoing p r p_in r_in ne
    | yes e ↦ elim (ℕ_discrete (m.left p) (m.begun p)) [
      | yes idle ↦ elim (dec_lt (m.begun p) (m.begun r)) [
        | yes behind ↦ between p p_in idle (omega (arith, behind, ok.within r r_in))
        | no up ↦ arrived e (omega (arith, up))
      ]
      | no busy ↦ arrived e (omega (arith, busy, ok.one p p_in, ok.one r r_in, low))
    ]
  ]
    where
      arrived :
          m.sent p r ≡ m.begun p → m.begun r ≤ m.begun p → CanTurn true world meetings calls Ready m
      arrived e up = (
        _,
        observe r p r_in p_in sent_it unseen (
            omega (
              arith,
              ok.aimed r p r_in p_in,
              ok.load_one r p r_in p_in,
              ok.one r r_in,
              ok.delivered r (m.left r) p r_in p_in (omega (arith, e, up, inside)),
            )),
        refl,
      )

  -- Some rank has not gone on from all its rendezvous.
  unfinished : (r : ℕ) → r < world → m.left r < meetings → CanTurn true world meetings calls Ready m
  unfinished s s_in more =
      let (r, r_in, low) = least m.left world (omega (arith, s_in)) in
      elim (ℕ_discrete (m.left r) (m.begun r)) [
        | yes idle ↦ between r r_in idle (omega (arith, idle, low s s_in, more))
        | no busy ↦ elim (same_or_other (m.sent r) (m.begun r) world) [
          | inr (p, p_in, ne) ↦ outgoing r p r_in p_in ne
          | inl all_sent ↦ elim (same_or_other (m.seen r) (m.begun r) world) [
            | inl all ↦ (_, leave r r_in (omega (arith, ok.one r r_in, busy)) all, refl)
            | inr (p, p_in, ne) ↦
                waiting r p r_in p_in (omega (arith, ok.one r r_in, busy)) (low p p_in)
                  (all_sent p p_in)
                  (omega (arith, ne, ok.see_one r p r_in p_in, ok.send_one r p r_in p_in))
          ]
        ]
      ]

-- From regions at rest at generation `g`, with `g + meetings` below 2 ^ 32, on a device that runs
-- the items of a rank in lockstep, and when every rank does what comes before each rendezvous: in every state that the ranks reach together in `k` steps, in
-- whatever order, `k` is at most `most_steps world meetings`, and either all ranks have gone on from
-- all their rendezvous or some rank can take a step, which is not a spin that reaches its cap. So
-- the ranks never wait for each other in a circle, and whoever goes on as long as there is a step
-- gets all of them through.
pub meetings_finish :
    (world meetings : ℕ) (calls : ℕ → Call) (Ready : ℕ → ℕ → Type 0) (g : ℕ) (flags : ℕ → ℕ → ℕ → ℕ)
    (k : ℕ) (x : Meeting)
    → g + meetings < 2 ^ 32
    → ((r p l : ℕ) → r < world → l < world → flags r p l ≤ g)
    → Turns true world meetings calls Ready (rested g flags) k x
    → ((r : ℕ) → Ready r (x.begun r))
    → (k ≤ most_steps world meetings)
      × (((r : ℕ) → r < world → x.left r ≡ meetings) ⊎ CanTurn true world meetings calls Ready x)
meetings_finish world meetings calls Ready g flags k x small old path ready =
    let ok =
      Turns-IsValid world meetings calls g small (rested-IsValid world meetings calls g flags old)
        path in
    (
      omega (
        arith,
        Turns-work world meetings calls g flags small old path,
        work-bound world meetings calls g x ok,
      ),
      elim (same_or_other x.left meetings world) [
        | inl all ↦ inl all
        | inr (r, r_in, ne) ↦ inr (
            unfinished world meetings calls g x ok ready r r_in
              (omega (arith, ne, ok.within r r_in, ok.one r r_in)))
      ],
    )
