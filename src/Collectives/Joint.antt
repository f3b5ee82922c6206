-- ===== src/Collectives/Joint.antt =====
-- The two-shot kernel with its rendezvous in place:
-- kernels/collectives/all_reduce/variants/xpu_sycl/all_reduce.sycl.cpp. The steps are those of the
-- parent module, but no rank looks at what another has done: a work-group goes on from a meeting when
-- its own items have observed their flags.
pub mod Refinement
use quixi_core_xpu.Common.{ℕ, zero, suc, ◌<◌, ◌≤◌, ◌≡◌, true, false, ◌==◌, if◌then◌else◌}
use quixi_core_xpu.Common.Launch.{Buffer}
use quixi_core_xpu.Collectives.{SumUnit, World, InSlice, put, rank_sum}
use quixi_core_xpu.Collectives.Meeting.{Call, Meeting, Turn}

-- The arrive, mid and depart rendezvous of a two-shot call.
unfoldable pub two_shot_calls : ℕ → Call
two_shot_calls zero = record { phase = 0; trailing = true }
two_shot_calls (suc zero) = record { phase = 1; trailing = true }
two_shot_calls (suc (suc n)) = record { phase = 2; trailing = false }

pub record Ranks (T : Type 0) : Type 0 where
  pub memory : World T
  pub meeting : ℕ → Meeting

module _ {T : Type 0} (u : SumUnit T) (input : ℕ → Buffer T) (numel world : ℕ) where
  -- What work-group `b` of rank `r` does before its rendezvous: its kernel has started, which it does
  -- when all is staged; it has summed its slice; it has copied its slices of all owners.
  unfoldable pub Ready : World T → ℕ → ℕ → ℕ → Type 0
  Ready w b r zero = w.launched r 0 ≡ true
  Ready w b r (suc zero) = w.announced r b ≡ true
  Ready w b r (suc (suc n)) =
      (owner i : ℕ) → owner < world → InSlice numel world b owner i → w.gathered r i ≡ true

  pub data Move (s : Ranks T) : Ranks T → Type 0 where
    stage :
        (r i : ℕ)
        → r < world
        → i < numel
        → s.memory.launched r 0 ≡ false
        → Move s (record s {
          memory = record s.memory {
            staging = put s.memory.staging r i (input r i);
            staged = put s.memory.staged r i true;
          };
        })
    launch :
        (r : ℕ)
        → r < world
        → ((i : ℕ) → i < numel → s.memory.staged r i ≡ true)
        → Move s
            (record s { memory = record s.memory { launched = put s.memory.launched r 0 true } })
    -- One step of a rendezvous of the work-groups `b`.
    meet :
        (b : ℕ) (m : Meeting)
        → Turn true world 3 two_shot_calls (Ready s.memory b) (s.meeting b) m
        → Move s (record s { meeting = λ c. if c == b then m else s.meeting c })
    -- Past the arrive rendezvous.
    enter :
        (r b : ℕ)
        → r < world
        → 1 ≤ (s.meeting b).left r
        → Move s (record s { memory = record s.memory { entered = put s.memory.entered r b true } })
    reduce :
        (r b i : ℕ)
        → r < world
        → s.memory.entered r b ≡ true
        → InSlice numel world b r i
        → s.memory.reduced r i ≡ false
        → Move s (record s {
          memory = record s.memory {
            staging = put s.memory.staging r i (rank_sum u s.memory.staging world i);
            reduced = put s.memory.reduced r i true;
          };
        })
    -- The barrier before the mid rendezvous.
    announce :
        (r b : ℕ)
        → r < world
        → s.memory.entered r b ≡ true
        → ((i : ℕ) → InSlice numel world b r i → s.memory.reduced r i ≡ true)
        → Move s
            (record s { memory = record s.memory { announced = put s.memory.announced r b true } })
    -- Past the mid rendezvous.
    gather :
        (r b owner i : ℕ)
        → r < world
        → owner < world
        → 2 ≤ (s.meeting b).left r
        → InSlice numel world b owner i
        → Move s (record s {
          memory = record s.memory {
            out = put s.memory.out r i (s.memory.staging owner i);
            gathered = put s.memory.gathered r i true;
          };
        })

  pub data Moves (s : Ranks T) : Ranks T → Type 0 where
    start : Moves s s
    later : {v x : Ranks T} → Moves s v → Move v x → Moves s x
