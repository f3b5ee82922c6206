-- ===== src/Collectives/OneShot/Sum.antt =====
-- Every rank sums the inputs of all ranks, in rank order.
use quixi_core_xpu.Common.{
  ℕ, zero, suc, ◌+◌, ◌^◌, ◌<◌, ◌≤◌, ◌≡◌, ap, ap₂, sym, ◌∙◌, true, false, arith, inl, inr,
}
use quixi_core_xpu.Common.Launch.{Buffer}
use quixi_core_xpu.Collectives.{SumUnit, rank_sum}
use quixi_core_xpu.Collectives.Cells.{put-eq, put-flag, put-flag-kept, accumulate-ext}
use quixi_core_xpu.Collectives.Meeting.{rested}
use quixi_core_xpu.Collectives.Meeting.Order
use quixi_core_xpu.Collectives.Meeting.Order.{IsValid, Turn-IsValid, rested-IsValid}
use quixi_core_xpu.Collectives.Meeting.Ready.{Turn-patient, Turn-ready, meeting_case}
use quixi_core_xpu.Collectives.OneShot.{
  one_shot_calls, group_of, Summing, Summed, Act, stage, launch, meet, sum, Acts, start, later,
  call_begins,
}

-- No spin of any work-group has reached its cap.
abbrev pub IsPatient : {T : Type 0} → Summing T → Type 0
IsPatient w = (b : ℕ) → (w.meeting b).expired ≡ false

module _ {T : Type 0} (u : SumUnit T) (input : ℕ → Buffer T) (numel world : ℕ) (g : ℕ → ℕ) where
  pub record IsLinked (w : Summing T) : Type 0 where
    pub sound : (b : ℕ) → IsValid world 2 one_shot_calls (g b) (w.meeting b)
    pub ready :
        (b r n : ℕ) → r < world → n < (w.meeting b).begun r → Summed u input numel world w b r n
    pub fresh : (r i : ℕ) → w.staged r i ≡ true → w.staging r i ≡ input r i
    pub held : (r i : ℕ) → w.launched r 0 ≡ true → i < numel → w.staged r i ≡ true
    pub right : IsPatient w → (r i : ℕ) → w.summed r i ≡ true → w.out r i ≡ rank_sum u input world i

  Summed-grows :
      (w v : Summing T)
      → ((r i : ℕ) → w.launched r i ≡ true → v.launched r i ≡ true)
      → ((r i : ℕ) → w.summed r i ≡ true → v.summed r i ≡ true)
      → (b r n : ℕ) → Summed u input numel world w b r n
      → Summed u input numel world v b r n
  unfolding Summed
  Summed-grows w v more_launched more_summed b r zero h = more_launched r 0 h
  Summed-grows w v more_launched more_summed b r (suc n) h = λ i p e. more_summed r i (h i p e)

  caught_up :
      (w : Summing T)
      → IsLinked w
      → IsPatient w
      → (b r l : ℕ) → r < world
      → l < world
      → (w.meeting b).left r ≤ (w.meeting b).begun l
  caught_up w ok calm b r l r_in l_in =
      Order.caught_up world 2 one_shot_calls (g b) (w.meeting b) (ok.sound b) (calm b) r l r_in l_in

  -- Past the arrive rendezvous, the staging of all ranks holds their inputs.
  sum-inputs :
      (w : Summing T)
      → IsLinked w
      → IsPatient w
      → (r b i : ℕ) → r < world
      → 1 ≤ (w.meeting b).left r
      → i < numel
      → rank_sum u w.staging world i ≡ rank_sum u input world i
  unfolding Summed
  sum-inputs w ok calm r b i r_in past i_in =
      ap (λ x. u.from_float x)
        (accumulate-ext u w.staging input world i (λ s p. ok.fresh s i (
          ok.held s i (ok.ready b s 0 p (omega (arith, caught_up w ok calm b r s r_in p, past)))
            i_in)))

  Act-IsPatient : {w v : Summing T} → Act u input numel world w v → IsPatient v → IsPatient w
  Act-IsPatient (stage r i _ _ _) calm = calm
  Act-IsPatient (launch r _ _) calm = calm
  Act-IsPatient {w} (meet b m turn) calm = λ c.
      meeting_case (λ d k. k.expired ≡ false → (w.meeting d).expired ≡ false) w.meeting b c m
        (Turn-patient turn) (λ h. h) (calm c)
  Act-IsPatient (sum r b i _ _ _ _) calm = calm

  Act-IsLinked :
      {w v : Summing T}
      → ((b : ℕ) → g b + 2 < 2 ^ 32)
      → IsLinked w
      → Act u input numel world w v
      → IsLinked v
  unfolding Summed
  Act-IsLinked {w} {v} small ok (stage r i _ _ idle) = record {
    sound = ok.sound;
    ready = λ b s n p q. Summed-grows w v (λ _ _ h. h) (λ _ _ h. h) b s n (ok.ready b s n p q);
    fresh = λ s j e.
        put-eq w.staging r i (input r i) s j (input s j) (λ x y. ap₂ input (sym x) (sym y))
          (λ other. elim (put-flag w.staged r i s j e) [
            | inl same ↦ absurd (other same)
            | inr old ↦ ok.fresh s j old
          ]);
    held = λ s j e p. put-flag-kept w.staged r i s j (ok.held s j e p);
    right = ok.right;
  }
  Act-IsLinked {w} {v} small ok (launch r _ full) = record {
    sound = ok.sound;
    ready = λ b s n p q.
        Summed-grows w v (put-flag-kept w.launched r 0) (λ _ _ h. h) b s n (ok.ready b s n p q);
    fresh = ok.fresh;
    held = λ s j e p. elim (put-flag w.launched r 0 s 0 e) [
      | inl same ↦ rw same.0 (full j p)
      | inr old ↦ ok.held s j old p
    ];
    right = ok.right;
  }
  Act-IsLinked {w} {v} small ok (meet b m turn) = record {
    sound = λ c.
        meeting_case (λ d k. IsValid world 2 one_shot_calls (g d) k) w.meeting b c m
          (Turn-IsValid world 2 one_shot_calls (g b) (small b) (ok.sound b) turn) (ok.sound c);
    ready = λ c r n p q.
        Summed-grows w v (λ _ _ h. h) (λ _ _ h. h) c r n
          (meeting_case (λ d k. n < k.begun r → Summed u input numel world w d r n) w.meeting b c m
            (Turn-ready turn (ok.ready b) r n p) (ok.ready c r n p) q);
    fresh = ok.fresh;
    held = ok.held;
    right = λ calm. ok.right (Act-IsPatient {w = w} {v = v} (meet b m turn) calm);
  }
  Act-IsLinked {w} {v} small ok (sum r b i r_in past i_in mine) = record {
    sound = ok.sound;
    ready = λ c s n p q.
        Summed-grows w v (λ _ _ h. h) (put-flag-kept w.summed r i) c s n (ok.ready c s n p q);
    fresh = ok.fresh;
    held = ok.held;
    right = λ calm s j e.
        put-eq w.out r i _ s j _
          (λ x y.
            sum-inputs w ok calm r b i r_in past i_in ∙ ap (λ k. rank_sum u input world k) (sym y))
          (λ other. elim (put-flag w.summed r i s j e) [
            | inl same ↦ absurd (other same)
            | inr old ↦ ok.right calm s j old
          ]);
  }

  Acts-IsLinked :
      {w v : Summing T}
      → ((b : ℕ) → g b + 2 < 2 ^ 32)
      → IsLinked w
      → Acts u input numel world w v
      → IsLinked v
  Acts-IsLinked small ok start = ok
  Acts-IsLinked small ok (later path act) = Act-IsLinked small (Acts-IsLinked small ok path) act

module _ {T : Type 0} (u : SumUnit T) (input : ℕ → Buffer T) (numel world : ℕ)
    (old_staging old_out : ℕ → Buffer T) (g : ℕ → ℕ) (flags : ℕ → ℕ → ℕ → ℕ → ℕ) where
  begins-IsLinked :
      ((b r p l : ℕ) → r < world → l < world → flags b r p l ≤ g b)
      → IsLinked u input numel world g
          (call_begins old_staging old_out (λ b. rested (g b) (flags b)))
  begins-IsLinked old = record {
    sound = λ b. rested-IsValid world 2 one_shot_calls (g b) (flags b) (old b);
    ready = λ b r n p h. absurd (omega arith);
    fresh = λ r i h. absurd (ground (arith, h));
    held = λ r i h. absurd (ground (arith, h));
    right = λ calm r i h. absurd (ground (arith, h));
  }

  -- From regions at rest whose generations are not about to wrap, with whatever in the memory, on a
  -- device that runs the items of a rank in lockstep, and in whatever interleaving: while no spin has reached its cap, once a rank has gone on from the
  -- depart rendezvous of work-groups `b`, every rank has summed each element of theirs, and it holds
  -- the sum of the inputs of ranks 0, 1, 2 and so on in this order, as in the two-shot kernel.
  pub depart-summed :
      (x : Summing T) (r b s i : ℕ)
      → ((b : ℕ) → g b + 2 < 2 ^ 32)
      → ((b r p l : ℕ) → r < world → l < world → flags b r p l ≤ g b)
      → Acts u input numel world (call_begins old_staging old_out (λ b. rested (g b) (flags b))) x
      → IsPatient x
      → r < world
      → s < world
      → 2 ≤ (x.meeting b).left r
      → i < numel
      → group_of i ≡ b
      → (x.summed s i ≡ true) × (x.out s i ≡ rank_sum u input world i)
  unfolding Summed
  depart-summed x r b s i small old path calm r_in s_in over i_in mine =
      let ok = Acts-IsLinked u input numel world g small (begins-IsLinked old) path in
      let near = caught_up u input numel world g x ok calm b r s r_in s_in in
      let done = ok.ready b s 1 s_in (omega (arith, near, over)) i i_in mine in
      (done, ok.right calm s i done)
