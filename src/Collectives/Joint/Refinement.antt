-- ===== src/Collectives/Joint/Refinement.antt =====
-- The rendezvous keep the promises that the steps of the two-shot all-reduce rely on.
use quixi_core_xpu.Common.{ℕ, zero, suc, ◌+◌, ◌^◌, ◌<◌, ◌≤◌, ◌≡◌, true, false, arith}
use quixi_core_xpu.Common.Launch.{Buffer}
use quixi_core_xpu.Collectives.{SumUnit, World, InSlice, rank_sum, Step, Reach}
use quixi_core_xpu.Collectives.Meeting.{rested}
use quixi_core_xpu.Collectives.Meeting.Ready.{Turn-patient, Turn-ready, meeting_case}
use quixi_core_xpu.Collectives.Meeting.Order
use quixi_core_xpu.Collectives.Meeting.Order.{IsValid, Turn-IsValid, rested-IsValid}
use quixi_core_xpu.Collectives.Joint.{
  two_shot_calls, Ranks, Ready, Move, stage, launch, meet, enter, reduce, announce, gather, Moves,
  start, later,
}
use quixi_core_xpu.Collectives.Cells.{put-flag-kept}
use quixi_core_xpu.Collectives.TwoShot.{before, Reach-rank_sum}

-- No spin of any work-group has reached its cap.
abbrev pub IsPatient : {T : Type 0} → Ranks T → Type 0
IsPatient s = (b : ℕ) → (s.meeting b).expired ≡ false

module _ {T : Type 0} (u : SumUnit T) (input : ℕ → Buffer T) (numel world : ℕ) (g : ℕ → ℕ) where
  -- The flags of a memory that `Ready` reads only grow.
  abbrev Grows : World T → World T → Type 0
  Grows w v =
      ((r i : ℕ) → w.launched r i ≡ true → v.launched r i ≡ true)
      × ((r b : ℕ) → w.announced r b ≡ true → v.announced r b ≡ true)
      × ((r i : ℕ) → w.gathered r i ≡ true → v.gathered r i ≡ true)

  Ready-Grows :
      (w v : World T)
      → Grows w v
      → (b r n : ℕ) → Ready u input numel world w b r n
      → Ready u input numel world v b r n
  unfolding Ready
  Ready-Grows w v more b r zero h = more.0 r 0 h
  Ready-Grows w v more b r (suc zero) h = more.1 r b h
  Ready-Grows w v more b r (suc (suc n)) h = λ owner i p q. more.2 r i (h owner i p q)

  pub record IsLinked (s : Ranks T) : Type 0 where
    pub sound : (b : ℕ) → IsValid world 3 two_shot_calls (g b) (s.meeting b)
    pub ready :
        (b r n : ℕ)
        → r < world
        → n < (s.meeting b).begun r
        → Ready u input numel world s.memory b r n

  memory-IsLinked :
      (s : Ranks T) (v : World T)
      → Grows s.memory v
      → IsLinked s
      → IsLinked (record s { memory = v })
  memory-IsLinked s v more ok = record {
    sound = ok.sound;
    ready = λ b r n p q. Ready-Grows s.memory v more b r n (ok.ready b r n p q);
  }

  Move-IsLinked :
      {s t : Ranks T}
      → ((b : ℕ) → g b + 3 < 2 ^ 32)
      → IsLinked s
      → Move u input numel world s t
      → IsLinked t
  Move-IsLinked {s} small ok (stage r i _ _ _) =
      memory-IsLinked s _ (λ _ _ h. h, λ _ _ h. h, λ _ _ h. h) ok
  Move-IsLinked {s} small ok (launch r _ _) =
      memory-IsLinked s _ (put-flag-kept s.memory.launched r 0, λ _ _ h. h, λ _ _ h. h) ok
  Move-IsLinked {s} small ok (meet b m turn) = record {
    sound = λ c.
        meeting_case (λ d k. IsValid world 3 two_shot_calls (g d) k) s.meeting b c m
          (Turn-IsValid world 3 two_shot_calls (g b) (small b) (ok.sound b) turn) (ok.sound c);
    ready = λ c r n p.
        meeting_case (λ d k. n < k.begun r → Ready u input numel world s.memory d r n) s.meeting b c
          m (Turn-ready turn (ok.ready b) r n p) (ok.ready c r n p);
  }
  Move-IsLinked {s} small ok (enter r b _ _) =
      memory-IsLinked s _ (λ _ _ h. h, λ _ _ h. h, λ _ _ h. h) ok
  Move-IsLinked {s} small ok (reduce r b i _ _ _ _) =
      memory-IsLinked s _ (λ _ _ h. h, λ _ _ h. h, λ _ _ h. h) ok
  Move-IsLinked {s} small ok (announce r b _ _ _) =
      memory-IsLinked s _ (λ _ _ h. h, put-flag-kept s.memory.announced r b, λ _ _ h. h) ok
  Move-IsLinked {s} small ok (gather r b owner i _ _ _ _) =
      memory-IsLinked s _ (λ _ _ h. h, λ _ _ h. h, put-flag-kept s.memory.gathered r i) ok

  -- Every rank has entered a rendezvous that one has gone on from.
  caught_up :
      (s : Ranks T)
      → IsLinked s
      → IsPatient s
      → (b r l : ℕ) → r < world
      → l < world
      → (s.meeting b).left r ≤ (s.meeting b).begun l
  caught_up s ok calm b r l r_in l_in =
      Order.caught_up world 3 two_shot_calls (g b) (s.meeting b) (ok.sound b) (calm b) r l r_in l_in

  -- A step is one step of the parent module, or none.
  Move-Reach :
      {w : World T} {s t : Ranks T}
      → IsLinked s
      → IsPatient s
      → Reach u input numel world w s.memory
      → Move u input numel world s t
      → Reach u input numel world w t.memory
  unfolding Ready
  Move-Reach ok calm path (stage r i r_in i_in idle) =
      Reach.later path (Step.stage r i r_in i_in idle)
  Move-Reach ok calm path (launch r r_in full) = Reach.later path (Step.launch r r_in full)
  Move-Reach ok calm path (meet b m turn) = path
  Move-Reach {s = s} ok calm path (enter r b r_in past) = Reach.later path (
      Step.enter r b r_in
        (λ l p. ok.ready b l 0 p (omega (arith, caught_up s ok calm b r l r_in p, past))))
  Move-Reach ok calm path (reduce r b i r_in passed mine unsummed) =
      Reach.later path (Step.reduce r b i r_in passed mine unsummed)
  Move-Reach ok calm path (announce r b r_in passed all) =
      Reach.later path (Step.announce r b r_in passed all)
  Move-Reach {s = s} ok calm path (gather r b owner i r_in o_in past mine) = Reach.later path (
      Step.gather r b owner i r_in o_in
        (λ l p. ok.ready b l 1 p (omega (arith, caught_up s ok calm b r l r_in p, past))) mine)

  Move-IsPatient : {s t : Ranks T} → Move u input numel world s t → IsPatient t → IsPatient s
  Move-IsPatient (stage r i _ _ _) calm = calm
  Move-IsPatient (launch r _ _) calm = calm
  Move-IsPatient {s} (meet b m turn) calm = λ c.
      meeting_case (λ d k. k.expired ≡ false → (s.meeting d).expired ≡ false) s.meeting b c m
        (Turn-patient turn) (λ h. h) (calm c)
  Move-IsPatient (enter r b _ _) calm = calm
  Move-IsPatient (reduce r b i _ _ _ _) calm = calm
  Move-IsPatient (announce r b _ _ _) calm = calm
  Move-IsPatient (gather r b owner i _ _ _ _) calm = calm

  Moves-IsLinked :
      {s t : Ranks T}
      → ((b : ℕ) → g b + 3 < 2 ^ 32)
      → IsLinked s
      → Moves u input numel world s t
      → IsLinked t
  Moves-IsLinked small ok start = ok
  Moves-IsLinked small ok (later path move) =
      Move-IsLinked small (Moves-IsLinked small ok path) move

  Moves-Reach :
      {s t : Ranks T}
      → ((b : ℕ) → g b + 3 < 2 ^ 32)
      → IsLinked s
      → Moves u input numel world s t
      → IsPatient t
      → Reach u input numel world s.memory t.memory
  Moves-Reach small ok start calm = Reach.start
  Moves-Reach small ok (later path move) calm =
      let before = Move-IsPatient move calm in
      Move-Reach (Moves-IsLinked small ok path) before (Moves-Reach small ok path before) move

-- A call begins: nothing is staged, and every work-group is at rest at its generation.
abbrev pub call_begins :
    {T : Type 0} → (ℕ → Buffer T) → (ℕ → Buffer T) → (ℕ → ℕ) → (ℕ → ℕ → ℕ → ℕ → ℕ) → Ranks T
call_begins old_staging old_out g flags = record {
  memory = before old_staging old_out;
  meeting = λ b. rested (g b) (flags b);
}

module _ {T : Type 0} (u : SumUnit T) (input : ℕ → Buffer T) (numel world : ℕ)
    (old_staging old_out : ℕ → Buffer T) (g : ℕ → ℕ) (flags : ℕ → ℕ → ℕ → ℕ → ℕ) where
  -- The regions at the start: the generations are far from wrapping, and no flag is ahead.
  abbrev pub IsQuiet : Type 0
  IsQuiet =
      ((b : ℕ) → g b + 3 < 2 ^ 32) × ((b r p l : ℕ) → r < world → l < world → flags b r p l ≤ g b)

  begins-IsLinked :
      IsQuiet → IsLinked u input numel world g (call_begins old_staging old_out g flags)
  begins-IsLinked quiet = record {
    sound = λ b. rested-IsValid world 3 two_shot_calls (g b) (flags b) (quiet.1 b);
    ready = λ b r n p h. absurd (omega arith);
  }

  -- From regions at rest whose generations are not about to wrap, on a device that runs the items of
  -- a rank in lockstep: whatever the ranks reach together with the flags alone, in whatever
  -- interleaving, while no spin has reached its cap, is reached by
  -- the steps in which a rank waits until all others have started or have announced their sums.
  pub flags-meet :
      (x : Ranks T)
      → IsQuiet
      → Moves u input numel world (call_begins old_staging old_out g flags) x
      → IsPatient x
      → Reach u input numel world (before old_staging old_out) x.memory
  flags-meet x quiet path calm =
      Moves-Reach u input numel world g quiet.0 (begins-IsLinked quiet) path calm

  -- From regions at rest whose generations are not about to wrap, on a device that runs the items of
  -- a rank in lockstep: while no spin has reached its cap, once a rank has gone on from the depart rendezvous of work-groups `b`, every rank has gathered
  -- each element of their slices, and it is the sum of the inputs in rank order. So the staging may
  -- be overwritten.
  pub depart-gathered :
      (x : Ranks T) (r b s owner i : ℕ)
      → IsQuiet
      → Moves u input numel world (call_begins old_staging old_out g flags) x
      → IsPatient x
      → r < world
      → s < world
      → owner < world
      → 3 ≤ (x.meeting b).left r
      → InSlice numel world b owner i
      → (x.memory.gathered s i ≡ true) × (x.memory.out s i ≡ rank_sum u input world i)
  unfolding Ready
  depart-gathered x r b s owner i quiet path calm r_in s_in o_in over mine =
      let ok = Moves-IsLinked u input numel world g quiet.0 (begins-IsLinked quiet) path in
      let near = caught_up u input numel world g x ok calm b r s r_in s_in in
      let done = ok.ready b s 2 s_in (omega (arith, near, over)) owner i o_in mine in
      (
        done,
        Reach-rank_sum u input numel world old_staging old_out x.memory
            (flags-meet x quiet path calm) s i done,
      )
