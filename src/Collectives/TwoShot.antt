-- ===== src/Collectives/TwoShot.antt =====
-- Whatever the interleaving, every rank gathers the sum of all inputs in rank order.
use quixi_core_xpu.Common.{ℕ, ◌<◌, ◌≡◌, sym, ap, ap₂, ◌∙◌, true, false, arith, inl, inr, Bool-cases}
use quixi_core_xpu.Common.Launch.{Buffer}
use quixi_core_xpu.Collectives.{
  SumUnit, rank_sum, World, InSlice, Step, stage, launch, enter, reduce, announce, gather, Reach,
  start, later, slice_hi,
}
use quixi_core_xpu.Collectives.Cells.{
  put-eq, put-flag, put-flag-kept, put-flag-false, accumulate-ext,
}
use quixi_core_xpu.Collectives.Slices.{slice_unique}

slice-inside : (numel world b owner i : ℕ) → InSlice numel world b owner i → i < numel
unfolding slice_hi
slice-inside numel world b owner i mine = omega (arith, mine.1)

module _ {T : Type 0} (u : SumUnit T) (input : ℕ → Buffer T) (numel world : ℕ) where
  pub record IsValid (w : World T) : Type 0 where
    -- What is staged and not yet summed is the input.
    pub fresh : (r i : ℕ) → w.reduced r i ≡ false → w.staged r i ≡ true → w.staging r i ≡ input r i
    -- A rank whose reduce kernel runs has staged everything.
    pub held : (r i : ℕ) → w.launched r 0 ≡ true → i < numel → w.staged r i ≡ true
    -- Past the first meeting, the reduce kernels of all ranks run.
    pub met : (r b s : ℕ) → w.entered r b ≡ true → s < world → w.launched s 0 ≡ true
    pub summed : (r i : ℕ) → w.reduced r i ≡ true → w.staging r i ≡ rank_sum u input world i
    -- A rank sums elements of its own slices only.
    pub own :
        (r i : ℕ)
        → w.reduced r i ≡ true
        → (r < world) × ((b : ℕ) × InSlice numel world b r i × (w.entered r b ≡ true))
    pub told :
        (r b i : ℕ) → w.announced r b ≡ true → InSlice numel world b r i → w.reduced r i ≡ true
    pub right : (r i : ℕ) → w.gathered r i ≡ true → w.out r i ≡ rank_sum u input world i

  sum-inputs :
      (w : World T)
      → IsValid w
      → (r b i : ℕ) → w.entered r b ≡ true
      → InSlice numel world b r i
      → w.reduced r i ≡ false
      → rank_sum u w.staging world i ≡ rank_sum u input world i
  sum-inputs w ok r b i passed mine unsummed =
      ap (λ x. u.from_float x)
        (accumulate-ext u w.staging input world i (λ s p.
          ok.fresh s i (still s)
            (ok.held s i (ok.met r b s passed p) (slice-inside numel world b r i mine))))
    where
      still : (s : ℕ) → w.reduced s i ≡ false
      still s = elim (Bool-cases (w.reduced s i)) [
        | inl early ↦
            let (_, (c, theirs, _)) = ok.own s i early in
            let same = slice_unique numel world c s b r i theirs.0 theirs.1 mine.0 mine.1 in
            rw same.0 unsummed
        | inr unsummed_there ↦ unsummed_there
      ]

  -- A rank that has not started its reduce kernel has summed nothing.
  nothing-summed :
      (w : World T)
      → IsValid w
      → (r s j : ℕ) → w.reduced s j ≡ true
      → s ≡ r
      → ¬ (w.launched r 0 ≡ false)
  nothing-summed w ok r s j e same idle =
      let (lt, (c, _, passed)) = ok.own s j e in
      let running = ok.met s c s passed lt in
      ground (arith, ap (λ t. w.launched t 0) same, running, idle)

  Step-IsValid : {w x : World T} → IsValid w → Step u input numel world w x → IsValid x
  Step-IsValid {w} ok (stage r i hr hi idle) = record {
    fresh = λ s j e done.
        put-eq w.staging r i (input r i) s j (input s j) (λ x y. ap₂ input (sym x) (sym y))
          (λ other. elim (put-flag w.staged r i s j done) [
            | inl same ↦ absurd (other same)
            | inr old ↦ ok.fresh s j e old
          ]);
    held = λ s j l p. put-flag-kept w.staged r i s j (ok.held s j l p);
    met = ok.met;
    summed = λ s j e.
        put-eq w.staging r i (input r i) s j _ (λ x y. absurd (nothing-summed w ok r s j e x idle))
          (λ other. ok.summed s j e);
    own = ok.own;
    told = ok.told;
    right = ok.right;
  }
  Step-IsValid {w} ok (launch r hr full) = record {
    fresh = ok.fresh;
    held = λ s j l p. elim (put-flag w.launched r 0 s 0 l) [
      | inl same ↦ rw same.0 (full j p)
      | inr old ↦ ok.held s j old p
    ];
    met = λ a b s e p. put-flag-kept w.launched r 0 s 0 (ok.met a b s e p);
    summed = ok.summed;
    own = ok.own;
    told = ok.told;
    right = ok.right;
  }
  Step-IsValid {w} ok (enter r b hr all) = record {
    fresh = ok.fresh;
    held = ok.held;
    met = λ a c s e p. elim (put-flag w.entered r b a c e) [
      | inl same ↦ all s p
      | inr old ↦ ok.met a c s old p
    ];
    summed = ok.summed;
    own = λ s j e.
        let (lt, (c, mine, passed)) = ok.own s j e in
        (lt, (c, mine, put-flag-kept w.entered r b s c passed));
    told = ok.told;
    right = ok.right;
  }
  Step-IsValid {w} ok (reduce r b i hr passed mine unsummed) = record {
    fresh = λ s j e done.
        let (old, other) = put-flag-false w.reduced r i s j e in
        put-eq w.staging r i _ s j _ (λ x y. absurd (other (x, y))) (λ _. ok.fresh s j old done);
    held = ok.held;
    met = ok.met;
    summed = λ s j e.
        put-eq w.staging r i _ s j _
          (λ x y.
            sum-inputs w ok r b i passed mine unsummed ∙ ap (λ k. rank_sum u input world k) (sym y))
          (λ other. elim (put-flag w.reduced r i s j e) [
            | inl same ↦ absurd (other same)
            | inr old ↦ ok.summed s j old
          ]);
    own = λ s j e. elim (put-flag w.reduced r i s j e) [
      | inl same ↦ rw (same.0, same.1) (hr, (b, mine, passed))
      | inr old ↦ ok.own s j old
    ];
    told = λ a c j e m. put-flag-kept w.reduced r i a j (ok.told a c j e m);
    right = ok.right;
  }
  Step-IsValid {w} ok (announce r b hr passed all) = record {
    fresh = ok.fresh;
    held = ok.held;
    met = ok.met;
    summed = ok.summed;
    own = ok.own;
    told = λ a c j e m. elim (put-flag w.announced r b a c e) [
      | inl same ↦ rw same.0 (all j (rw (← same.0, ← same.1) m))
      | inr old ↦ ok.told a c j old m
    ];
    right = ok.right;
  }
  Step-IsValid {w} ok (gather r b owner i hr ho all mine) = record {
    fresh = ok.fresh;
    held = ok.held;
    met = ok.met;
    summed = ok.summed;
    own = ok.own;
    told = ok.told;
    right = λ s j e.
        put-eq w.out r i _ s j _
          (λ x y.
            ok.summed owner i (ok.told owner b i (all owner ho) mine)
            ∙ ap (λ k. rank_sum u input world k) (sym y))
          (λ other. elim (put-flag w.gathered r i s j e) [
            | inl same ↦ absurd (other same)
            | inr old ↦ ok.right s j old
          ]);
  }

  Reach-IsValid : {w x : World T} → IsValid w → Reach u input numel world w x → IsValid x
  Reach-IsValid ok start = ok
  Reach-IsValid ok (later path step) = Step-IsValid (Reach-IsValid ok path) step

-- Before the call: nothing is staged, and the memory holds anything.
abbrev pub before : {T : Type 0} → (ℕ → Buffer T) → (ℕ → Buffer T) → World T
before old_staging old_out = record {
  staging = old_staging;
  out = old_out;
  staged = λ r i. false;
  launched = λ r b. false;
  entered = λ r b. false;
  reduced = λ r i. false;
  announced = λ r b. false;
  gathered = λ r i. false;
}

before-IsValid :
    {T : Type 0} (u : SumUnit T) (input : ℕ → Buffer T) (numel world : ℕ)
    (old_staging old_out : ℕ → Buffer T)
    → IsValid u input numel world (before old_staging old_out)
before-IsValid u input numel world old_staging old_out = record {
  fresh = λ r i e f. absurd (ground (arith, f));
  held = λ r i f. absurd (ground (arith, f));
  met = λ r b s f. absurd (ground (arith, f));
  summed = λ r i f. absurd (ground (arith, f));
  own = λ r i f. absurd (ground (arith, f));
  told = λ r b i f. absurd (ground (arith, f));
  right = λ r i f. absurd (ground (arith, f));
}

-- In every state that the ranks reach together, in whatever interleaving, each element that a rank
-- has gathered is the sum of the inputs of ranks 0, 1, 2 and so on in this order, whichever rank it
-- is and whatever the memory held before. So all ranks hold the same bits.
pub Reach-rank_sum :
    {T : Type 0} (u : SumUnit T) (input : ℕ → Buffer T) (numel world : ℕ)
    (old_staging old_out : ℕ → Buffer T) (x : World T)
    → Reach u input numel world (before old_staging old_out) x
    → (r i : ℕ) → x.gathered r i ≡ true
    → x.out r i ≡ rank_sum u input world i
Reach-rank_sum u input numel world old_staging old_out x path =
    (Reach-IsValid u input numel world (before-IsValid u input numel world old_staging old_out)
      path).right
