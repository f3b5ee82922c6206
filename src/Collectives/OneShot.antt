-- ===== src/Collectives/OneShot.antt =====
-- The one-shot kernel with its rendezvous:
-- kernels/collectives/all_reduce/variants/xpu_sycl/all_reduce.sycl.cpp. Every rank sums the staging
-- of all ranks between an arrive and a depart rendezvous.
pub mod Sum
use quixi_core_xpu.Common.{
  ℕ, zero, suc, ◌*◌, ◌/◌, ◌%◌, ◌<◌, ◌≤◌, ◌≡◌, Bool, true, false, ◌==◌, if◌then◌else◌,
}
use quixi_core_xpu.Common.Launch.{Buffer}
use quixi_core_xpu.Collectives.{SumUnit, put, rank_sum, blocks, wg_size}
use quixi_core_xpu.Collectives.Meeting.{Call, Meeting, Turn}

unfoldable pub one_shot_calls : ℕ → Call
one_shot_calls zero = record { phase = 0; trailing = true }
one_shot_calls (suc n) = record { phase = 2; trailing = false }

-- The work-group that comes to element `i`, in strides of the whole launch.
unfoldable pub group_of : ℕ → ℕ
group_of i = i % (blocks * wg_size) / wg_size

pub record Summing (T : Type 0) : Type 0 where
  pub staging : ℕ → Buffer T
  pub out : ℕ → Buffer T
  pub staged : ℕ → ℕ → Bool
  pub launched : ℕ → ℕ → Bool
  pub summed : ℕ → ℕ → Bool
  pub meeting : ℕ → Meeting

module _ {T : Type 0} (u : SumUnit T) (input : ℕ → Buffer T) (numel world : ℕ) where
  -- What work-group `b` of rank `r` does before its rendezvous.
  unfoldable pub Summed : Summing T → ℕ → ℕ → ℕ → Type 0
  Summed w b r zero = w.launched r 0 ≡ true
  Summed w b r (suc n) = (i : ℕ) → i < numel → group_of i ≡ b → w.summed r i ≡ true

  pub data Act (w : Summing T) : Summing T → Type 0 where
    stage :
        (r i : ℕ)
        → r < world
        → i < numel
        → w.launched r 0 ≡ false
        → Act w
            (record w { staging = put w.staging r i (input r i); staged = put w.staged r i true })
    launch :
        (r : ℕ)
        → r < world
        → ((i : ℕ) → i < numel → w.staged r i ≡ true)
        → Act w (record w { launched = put w.launched r 0 true })
    meet :
        (b : ℕ) (m : Meeting)
        → Turn true world 2 one_shot_calls (Summed w b) (w.meeting b) m
        → Act w (record w { meeting = λ c. if c == b then m else w.meeting c })
    sum :
        (r b i : ℕ)
        → r < world
        → 1 ≤ (w.meeting b).left r
        → i < numel
        → group_of i ≡ b
        → Act w (record w {
          out = put w.out r i (rank_sum u w.staging world i);
          summed = put w.summed r i true;
        })

  pub data Acts (w : Summing T) : Summing T → Type 0 where
    start : Acts w w
    later : {v x : Summing T} → Acts w v → Act v x → Acts w x

-- A call begins.
abbrev pub call_begins : {T : Type 0} → (ℕ → Buffer T) → (ℕ → Buffer T) → (ℕ → Meeting) → Summing T
call_begins old_staging old_out meeting = record {
  staging = old_staging;
  out = old_out;
  staged = λ r i. false;
  launched = λ r b. false;
  summed = λ r i. false;
  meeting = meeting;
}
