-- ===== src/Route/Tests.antt =====
-- Two of three experts for one token, with a tie; and a row with one logit above -infinity.
use quixi_core_xpu.Common.{
  ℕ, zero, suc, ◌+◌, ◌*◌, ◌<◌, ◌≤◌, ◌≡◌, refl, true, Option, none, some, List, [], ◌∷◌, arith,
}
use quixi_core_xpu.Common.Float.{float_gt, neg_infinity}
use quixi_core_xpu.Common.Launch.{Buffer, count, IsSchedule, sum_below}
use quixi_core_xpu.Route.{Selection, RouteMath, Routed, moe_route_topk, route_weight}
use quixi_core_xpu.Route.Select.{above}
use quixi_core_xpu.Route.Topk.{IsTop}
use quixi_core_xpu.Route.Launched.{moe_route_topk_lem, moe_route_topk-exhausted}

abbrev natural : RouteMath
natural = record {
  zero_float = 0;
  one_float = 1;
  twenty = 20;
  plus = λ a b. a + b;
  minus = λ a b. a;
  times = λ a b. a * b;
  quotient = λ a b. a;
  negative = λ a. a;
  max_float = λ a b. a;
  exp = λ a. a;
  log = λ a. a;
  sqrt = λ a. a;
  at_most = λ a b. true;
  above_zero = λ a. true;
}

-- 1.0, 2.0, 2.0
abbrev logits : Buffer ℕ
logits zero = 0x3f800000
logits (suc _) = 0x40000000

-- -infinity, 1.0, a NaN
abbrev masked : Buffer ℕ
masked zero = 0xff800000
masked (suc zero) = 0x3f800000
masked (suc (suc _)) = 0x7fc00000

abbrev fresh : Selection
fresh = record { sel = λ i. 7; val = λ i. 7 }

abbrev before : Routed
before = record { ids = λ a. 9; weights = λ a. 9 }

abbrev one_token : List ℕ
one_token = 0 ∷ []

one_token-IsSchedule : IsSchedule 1 one_token
unfolding count
one_token-IsSchedule i = ground arith

two_above : 2 ≤ above (λ e. logits (0 * 3 + e)) 3
unfolding sum_below float_gt
two_above = omega arith

moe_route_topk_lem_example :
    (r : Routed) × (moe_route_topk natural logits 3 2 0 true 1 fresh one_token before ≡ some r)
    × IsTop (λ e. logits (0 * 3 + e)) 3 2 (λ i. r.ids (0 * 2 + i))
    × ((i : ℕ)
        → i < 2
        → r.weights (0 * 2 + i)
          ≡ route_weight natural 2 0 true 1 (λ j. logits (0 * 3 + r.ids (0 * 2 + j))) i)
moe_route_topk_lem_example =
    moe_route_topk_lem natural logits 3 2 0 true 1 fresh 1 one_token before 0 one_token-IsSchedule
      (omega arith) (omega arith) two_above

abbrev ids_of : Option Routed → ℕ → ℕ
ids_of none a = 9
ids_of (some r) a = r.ids a

tied : ids_of (moe_route_topk natural logits 3 2 0 true 1 fresh one_token before) 0 ≡ 1
unfolding moe_route_topk float_gt
tied = refl

abbrev got : Option Routed → Routed
got none = before
got (some r) = r

abbrev masked_result : Routed
masked_result = got (moe_route_topk natural masked 3 2 0 true 1 fresh one_token before)

masked_ran : moe_route_topk natural masked 3 2 0 true 1 fresh one_token before ≡ some masked_result
unfolding moe_route_topk
masked_ran = refl

only_one :
    (e : ℕ)
    → e < 3
    → float_gt (masked (0 * 3 + e)) neg_infinity ≡ true
    → (j : ℕ) × (j < 1) × (masked_result.ids (0 * 2 + j) ≡ e)
unfolding moe_route_topk float_gt
only_one zero h high = absurd (ground (arith, high))
only_one (suc zero) h high = (0, omega arith, refl)
only_one (suc (suc zero)) h high = absurd (ground (arith, high))
only_one (suc (suc (suc e))) h high = absurd (omega (arith, h))

moe_route_topk-exhausted_example : masked_result.ids (0 * 2 + 1) ≡ 0
moe_route_topk-exhausted_example =
    moe_route_topk-exhausted natural masked 3 2 0 true 1 fresh 1 one_token before masked_result 0 1
      one_token-IsSchedule masked_ran (omega arith) (omega arith) only_one
