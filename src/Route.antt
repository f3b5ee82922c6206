-- ===== src/Route.antt =====
-- The top-k routing of tokens to experts, route_typed of
-- kernels/moe/moe_route/variants/xpu_sycl/moe_route.sycl.cpp: one item for each token. Logits are the
-- bit patterns of floats; an element type narrower than float is widened exactly before. The float
-- arithmetic of the weights is an argument. Selecting more than max_k experts would write past the
-- arrays of an item, which has no result here.
pub mod Select
pub mod Topk
pub mod Launched
mod Tests
use quixi_core_xpu.Common.{
  ℕ, zero, suc, ◌+◌, ◌-◌, ◌*◌, ◌≤◌, ◌<◌, Bool, true, false, ltb, leb, ◌&&◌, ◌||◌, ◌==◌,
  if◌then◌else◌, Option, none, some, List,
}
use quixi_core_xpu.Common.Launch.{Buffer, store}
use quixi_core_xpu.Common.Steps.{run_steps}
use quixi_core_xpu.Argmax.{Winner, nothing_seen, consider}

abbrev pub max_k : ℕ
max_k = 16

-- taken: whether expert `e` is among the first selections.
unfoldable pub taken : Buffer ℕ → ℕ → ℕ → Bool
taken sel zero e = false
taken sel (suc j) e = taken sel j e || sel j == e

-- best and best_e after the experts below a bound.
unfoldable pub scan_experts : Buffer ℕ → Buffer ℕ → ℕ → ℕ → Winner
unfolding taken consider
scan_experts row sel i zero = nothing_seen
scan_experts row sel i (suc e) =
    let best = scan_experts row sel i e in if taken sel i e then best else consider row e best

-- The arrays of an item.
pub record Selection : Type 0 where
  pub sel : Buffer ℕ
  pub val : Buffer ℕ

-- The first passes of the selection, over arrays that hold anything before.
unfoldable pub select : Buffer ℕ → ℕ → Selection → ℕ → Selection
unfolding scan_experts store
select row n_experts fresh zero = fresh
select row n_experts fresh (suc i) =
    let before = select row n_experts fresh i in
    let best = scan_experts row before.sel i n_experts in
    record { sel = store before.sel i best.index; val = store before.val i best.value }

-- The float operations of the weights.
pub record RouteMath : Type 0 where
  pub zero_float : ℕ
  pub one_float : ℕ
  pub twenty : ℕ
  pub plus : ℕ → ℕ → ℕ
  pub minus : ℕ → ℕ → ℕ
  pub times : ℕ → ℕ → ℕ
  pub quotient : ℕ → ℕ → ℕ
  pub negative : ℕ → ℕ
  pub max_float : ℕ → ℕ → ℕ
  pub exp : ℕ → ℕ
  pub log : ℕ → ℕ
  pub sqrt : ℕ → ℕ
  pub at_most : ℕ → ℕ → Bool
  pub above_zero : ℕ → Bool

module _ (math : RouteMath) where
  -- m = max(m, val[i]) for i in 1 .. i - 1
  unfoldable pub max_from : Buffer ℕ → ℕ → ℕ
  max_from val zero = val 0
  max_from val (suc i) = math.max_float (max_from val i) (val (i + 1))

  unfoldable pub sum_scores : Buffer ℕ → ℕ → ℕ
  sum_scores score zero = math.zero_float
  sum_scores score (suc i) = math.plus (sum_scores score i) (score i)

  unfoldable pub gate_score : ℕ → ℕ → ℕ
  gate_score gating v =
      if gating == 1
      then math.quotient math.one_float (math.plus math.one_float (math.exp (math.negative v)))
      else math.sqrt (
          if math.at_most v math.twenty
          then math.log (math.plus math.one_float (math.exp v))
          else v)

  -- What val[j] becomes.
  unfoldable pub score_of : ℕ → ℕ → Buffer ℕ → ℕ → ℕ
  unfolding max_from gate_score
  score_of k gating val j =
      if gating == 0
      then math.exp (math.minus (val j) (max_from val (k - 1)))
      else gate_score gating (val j)

  unfoldable pub inverse : ℕ → Bool → ℕ → ℕ
  inverse gating renormalize sum =
      if gating == 0 || (renormalize && math.above_zero sum)
      then math.quotient math.one_float sum
      else math.one_float

  -- The weight of selection `i` of `k`.
  unfoldable pub route_weight : ℕ → ℕ → Bool → ℕ → Buffer ℕ → ℕ → ℕ
  unfolding score_of sum_scores inverse
  route_weight k gating renormalize routed_scaling val i =
      let sum = sum_scores (score_of k gating val) k in
      math.times (math.times (score_of k gating val i) (inverse gating renormalize sum))
        routed_scaling

-- expert_ids and expert_weights.
pub record Routed : Type 0 where
  pub ids : Buffer ℕ
  pub weights : Buffer ℕ

module _ (math : RouteMath) (logits : Buffer ℕ) (n_experts k gating : ℕ) (renormalize : Bool)
    (routed_scaling : ℕ) (fresh : Selection) where
  -- The logits of token `t`.
  abbrev pub logit_row : ℕ → Buffer ℕ
  logit_row t = λ e. logits (t * n_experts + e)

  unfoldable pub route_item : ℕ → Routed → Routed
  unfolding select route_weight
  route_item t mem =
      let chosen = select (logit_row t) n_experts fresh k in
      let own : ℕ → Bool = λ a. leb (t * k) a && ltb a (t * k + k) in
      record {
        ids = λ a. if own a then chosen.sel (a - t * k) else mem.ids a;
        weights = λ a.
            if own a
            then route_weight math k gating renormalize routed_scaling chosen.val (a - t * k)
            else mem.weights a;
      }

  -- route_typed, with the order of its items.
  unfoldable pub moe_route_topk : List ℕ → Routed → Option Routed
  unfolding route_item run_steps
  moe_route_topk order mem = if ltb max_k k then none else some (run_steps route_item order mem)
