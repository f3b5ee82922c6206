-- ===== src/Route/Launched.antt =====
-- The launch over the tokens, and the weights of the selected experts.
use quixi_core_xpu.Common.{
  ℕ, zero, suc, ◌+◌, ◌-◌, ◌*◌, ◌≤◌, ◌<◌, ◌≡◌, ◌≢◌, refl, sym, ap, ap₂, ◌∙◌, Bool, true, false, ltb,
  leb, ◌&&◌, some, List, arith, Bool-cases, inl, inr,
}
use quixi_core_xpu.Common.Float.{neg_infinity, float_gt}
use quixi_core_xpu.Common.Launch.{Buffer, IsSchedule}
use quixi_core_xpu.Common.Steps.{run_steps, run_steps-once}
use quixi_core_xpu.Common.Rows.{row_unique}
use quixi_core_xpu.Route.{
  Selection, select, RouteMath, max_from, sum_scores, score_of, inverse, route_weight, Routed,
  route_item, logit_row, moe_route_topk, max_k,
}
use quixi_core_xpu.Route.Select.{above}
use quixi_core_xpu.Route.Topk.{pass, select-pass, pass-IsPick, pass-exhausted, IsTop, IsTop-picks}

module _ (math : RouteMath) where
  max_from_ext :
      (u v : Buffer ℕ) (n : ℕ)
      → ((j : ℕ) → j ≤ n → u j ≡ v j)
      → max_from math u n ≡ max_from math v n
  unfolding max_from
  max_from_ext u v zero h = h 0 (omega arith)
  max_from_ext u v (suc n) h =
      ap₂ (λ a b. math.max_float a b) (max_from_ext u v n (λ j p. h j (omega (arith, p))))
        (h (n + 1) (omega arith))

  sum_scores_ext :
      (u v : Buffer ℕ) (n : ℕ)
      → ((j : ℕ) → j < n → u j ≡ v j)
      → sum_scores math u n ≡ sum_scores math v n
  unfolding sum_scores
  sum_scores_ext u v zero h = refl
  sum_scores_ext u v (suc n) h =
      ap₂ (λ a b. math.plus a b) (sum_scores_ext u v n (λ j p. h j (omega (arith, p))))
        (h n (omega arith))

  score_of_ext :
      (k gating : ℕ) (u v : Buffer ℕ)
      → ((j : ℕ) → j < k → u j ≡ v j)
      → (j : ℕ) → j < k
      → score_of math k gating u j ≡ score_of math k gating v j
  unfolding score_of
  score_of_ext k gating u v h j hj =
      rw (h j hj, max_from_ext u v (k - 1) (λ l p. h l (omega (arith, p, hj)))) refl

  -- The weights are read off the first `k` values.
  route_weight_ext :
      (k gating : ℕ) (renormalize : Bool) (scaling : ℕ) (u v : Buffer ℕ) (i : ℕ)
      → i < k
      → ((j : ℕ) → j < k → u j ≡ v j)
      → route_weight math k gating renormalize scaling u i
        ≡ route_weight math k gating renormalize scaling v i
  unfolding route_weight
  route_weight_ext k gating renormalize scaling u v i hi h =
      let same = score_of_ext k gating u v h in
      ap₂ (λ a sum. math.times (math.times a (inverse math gating renormalize sum)) scaling)
        (same i hi) (sum_scores_ext _ _ k same)

module _ (math : RouteMath) (logits : Buffer ℕ) (n_experts k gating : ℕ) (renormalize : Bool)
    (routed_scaling : ℕ) (fresh : Selection) where
  abbrev step : ℕ → Routed → Routed
  step = route_item math logits n_experts k gating renormalize routed_scaling fresh

  abbrev selected : ℕ → Selection
  selected t =
      select (logit_row math logits n_experts k gating renormalize routed_scaling fresh t) n_experts
        fresh k

  -- The cell of token `t` for its selection `i`, after the token's item.
  abbrev Done : ℕ → ℕ → Routed → Type 0
  Done t i mem =
      (mem.ids (t * k + i) ≡ (selected t).sel i)
      × (mem.weights (t * k + i)
          ≡ route_weight math k gating renormalize routed_scaling (selected t).val i)

  step-Done : (t i : ℕ) → i < k → (mem : Routed) → Done t i (step t mem)
  unfolding route_item
  step-Done t i hi mem =
      let own : (leb (t * k) (t * k + i) && ltb (t * k + i) (t * k + k)) ≡ true =
        ground (arith, hi) in
      let at : t * k + i - t * k ≡ i = omega arith in rw (own, at) (refl, refl)

  step-other : (t s i : ℕ) → i < k → s ≢ t → (mem : Routed) → Done t i mem → Done t i (step s mem)
  unfolding route_item
  step-other t s i hi ne mem done =
      let miss : (leb (s * k) (t * k + i) && ltb (t * k + i) (s * k + k)) ≡ false = elsewhere in
      rw miss done
    where
      elsewhere : (leb (s * k) (t * k + i) && ltb (t * k + i) (s * k + k)) ≡ false
      elsewhere = elim (Bool-cases (leb (s * k) (t * k + i) && ltb (t * k + i) (s * k + k))) [
        | inl hit ↦
            let lo : s * k ≤ t * k + i = ground (arith, hit) in
            let hi' : t * k + i < s * k + k = ground (arith, hit) in
            absurd (
              ne
                (row_unique s t (t * k + i - s * k) i k (omega (arith, lo, hi')) hi
                  (omega (arith, lo))).0)
        | inr miss ↦ miss
      ]

  routed-Done :
      (n_tokens : ℕ) (order : List ℕ)
      → IsSchedule n_tokens order
      → (t i : ℕ) → t < n_tokens
      → i < k
      → (mem : Routed) → Done t i (run_steps step order mem)
  routed-Done n_tokens order launched t i ht hi mem =
      run_steps-once step (λ m. Unit) (Done t i) t (λ m p. step-Done t i hi m) order
        (λ j ran ne m p. tt) (λ j ran ne m. step-other t j i hi ne m)
        (ground (arith, launched t, ht)) mem tt

  -- The value of each pass is the logit of the expert it selects.
  values :
      (t : ℕ)
      → k
        ≤ above
            (logit_row math logits n_experts k gating renormalize routed_scaling fresh t)
            n_experts
      → (j : ℕ) → j < k
      → (selected t).val j
        ≡ logit_row math logits n_experts k gating renormalize routed_scaling fresh t
            ((selected t).sel j)
  values t many j hj =
      let row = logit_row math logits n_experts k gating renormalize routed_scaling fresh t in
      let (at, value) = select-pass row n_experts fresh k j hj in
      value ∙ (pass-IsPick row n_experts fresh j (omega (arith, hj, many))).value ∙ ap row (sym at)

-- For at most 16 selections and items that run in any order: of a token with at least k logits above
-- -infinity, the k expert ids are the experts of its greatest logits in descending order, none twice
-- and the lower expert first where logits are equal; and the k weights are the gate's weights of just
-- these logits.
pub moe_route_topk_lem :
    (math : RouteMath) (logits : Buffer ℕ) (n_experts k gating : ℕ) (renormalize : Bool)
    (routed_scaling : ℕ) (fresh : Selection) (n_tokens : ℕ) (order : List ℕ) (mem : Routed) (t : ℕ)
    → IsSchedule n_tokens order
    → k ≤ max_k
    → t < n_tokens
    → k ≤ above (λ e. logits (t * n_experts + e)) n_experts
    → (r : Routed) × (moe_route_topk math logits n_experts k gating renormalize routed_scaling fresh
          order mem
        ≡ some r)
      × IsTop (λ e. logits (t * n_experts + e)) n_experts k (λ i. r.ids (t * k + i))
      × ((i : ℕ)
          → i < k
          → r.weights (t * k + i)
            ≡ route_weight math k gating renormalize routed_scaling
                (λ j. logits (t * n_experts + r.ids (t * k + j)))
                i)
unfolding moe_route_topk
moe_route_topk_lem math logits n_experts k gating renormalize routed_scaling fresh n_tokens order
      mem t launched small ht many =
    let row : Buffer ℕ = λ e. logits (t * n_experts + e) in
    let fits : ltb max_k k ≡ false = ground (arith, small) in
    let done : (i : ℕ)
        → i < k
        → Done math logits n_experts k gating renormalize routed_scaling fresh t i (
            run_steps (step math logits n_experts k gating renormalize routed_scaling fresh) order
              mem) =
      λ i hi.
        routed-Done math logits n_experts k gating renormalize routed_scaling fresh n_tokens order
          launched t i ht hi mem in
    (
      run_steps (step math logits n_experts k gating renormalize routed_scaling fresh) order mem,
      rw fits refl,
      IsTop-picks row n_experts k fresh _
          (λ i hi. pass-IsPick row n_experts fresh i (omega (arith, hi, many)))
          (λ i hi. (done i hi).0 ∙ (select-pass row n_experts fresh k i hi).0),
      λ i hi.
          (done i hi).1
          ∙ route_weight_ext math k gating renormalize routed_scaling _ _ i hi (λ j hj.
            values math logits n_experts k gating renormalize routed_scaling fresh t many j hj
            ∙ ap row (sym (done j hj).0)),
    )

-- For at most 16 selections and items that run in any order: once the earlier ids of a token have
-- every expert whose logit is above -infinity, the next id is expert 0, selected before or not.
pub moe_route_topk-exhausted :
    (math : RouteMath) (logits : Buffer ℕ) (n_experts k gating : ℕ) (renormalize : Bool)
    (routed_scaling : ℕ) (fresh : Selection) (n_tokens : ℕ) (order : List ℕ) (mem r : Routed)
    (t i : ℕ)
    → IsSchedule n_tokens order
    → moe_route_topk math logits n_experts k gating renormalize routed_scaling fresh order mem
      ≡ some r
    → t < n_tokens
    → i < k
    → ((e : ℕ)
        → e < n_experts
        → float_gt (logits (t * n_experts + e)) neg_infinity ≡ true
        → (j : ℕ) × (j < i) × (r.ids (t * k + j) ≡ e))
    → r.ids (t * k + i) ≡ 0
unfolding moe_route_topk
moe_route_topk-exhausted math logits n_experts k gating renormalize routed_scaling fresh n_tokens
      order mem r t i launched ran ht hi all =
    let row : Buffer ℕ = λ e. logits (t * n_experts + e) in
    let result =
      run_steps (step math logits n_experts k gating renormalize routed_scaling fresh) order mem in
    let same : result ≡ r = grind (arith, ran) in
    let at : (j : ℕ) → j < k → r.ids (t * k + j) ≡ (pass row n_experts fresh j).index = λ j hj.
      ap (λ (m : Routed). m.ids (t * k + j)) (sym same)
      ∙ (routed-Done math logits n_experts k gating renormalize routed_scaling fresh n_tokens order
          launched t j ht hj mem).0
      ∙ (select-pass row n_experts fresh k j hj).0 in
    at i hi
    ∙ pass-exhausted row n_experts fresh i (λ e he high.
      let (j, hj, hit) = all e he high in (j, hj, sym (at j (omega (arith, hj, hi))) ∙ hit))
