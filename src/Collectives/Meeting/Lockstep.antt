-- ===== src/Collectives/Meeting/Lockstep.antt =====
-- The last rendezvous of a call on a device that does not run the items of a rank in lockstep.
use quixi_core_xpu.Common.{ℕ, zero, suc, ◌+◌, ◌^◌, ◌%◌, ◌<◌, ◌≤◌, ◌≡◌, refl, true, false, arith}
use quixi_core_xpu.Collectives.Meeting.{
  Call, Meeting, Turn, begin, read, publish, observe, expire, write, leave, Turns, start, later,
  rested,
}
use quixi_core_xpu.Collectives.Meeting.Progress.{gives_up, CanTurn}

-- The depart rendezvous: phase 2, and no barrier after it.
abbrev pub departs : ℕ → Call
departs n = record { phase = 2; trailing = false }

-- Item 1 of rank 0 waits for a flag that nobody will write; all else is done.
record IsStuck (x : Meeting) : Type 0 where
  begun_all : (r : ℕ) → r < 2 → x.begun r ≡ 1
  wrote_all : (r : ℕ) → r < 2 → x.wrote r ≡ 1
  loaded_all : (r l : ℕ) → r < 2 → l < 2 → x.loaded r l ≡ 1
  sent_all : (r l : ℕ) → r < 2 → l < 2 → x.sent r l ≡ 1
  left_one : x.left 1 ≡ 1
  unseen : x.seen 0 1 ≡ 0
  seen_own : x.seen 0 0 ≡ 1
  seen_one : (l : ℕ) → l < 2 → x.seen 1 l ≡ 1
  late : x.sync 0 2 1 < x.target 0 1

only_expire :
    {Ready : ℕ → ℕ → Type 0} {x k : Meeting}
    → IsStuck x
    → (t : Turn false 2 1 departs Ready x k) → gives_up t ≡ true
only_expire s (begin r r_in more _ _ _) = absurd (omega (arith, s.begun_all r r_in, more))
only_expire s (read r l r_in l_in due) =
    absurd (omega (arith, s.begun_all r r_in, s.loaded_all r l r_in l_in, due))
only_expire s (publish r l r_in l_in _ due) =
    absurd (omega (arith, s.begun_all r r_in, s.sent_all r l r_in l_in, due))
only_expire s (observe zero zero r_in _ _ due _) =
    absurd (omega (arith, s.begun_all 0 r_in, s.seen_own, due))
only_expire s (observe zero (suc zero) _ _ _ _ there) = absurd (omega (arith, s.late, there))
only_expire s (observe zero (suc (suc l)) _ l_in _ _ _) = absurd (omega (arith, l_in))
only_expire s (observe (suc zero) l r_in l_in _ due _) =
    absurd (omega (arith, s.begun_all 1 r_in, s.seen_one l l_in, due))
only_expire s (observe (suc (suc r)) l r_in _ _ _ _) = absurd (omega (arith, r_in))
only_expire s (expire r l _ _ _ _) = refl
only_expire s (write r r_in due _ _ _) =
    absurd (omega (arith, s.begun_all r r_in, s.wrote_all r r_in, due))
only_expire s (leave zero r_in _ all) =
    absurd (omega (arith, s.begun_all 0 r_in, s.unseen, all 1 (omega arith)))
only_expire s (leave (suc zero) r_in due _) =
    absurd (omega (arith, s.begun_all 1 r_in, s.left_one, due))
only_expire s (leave (suc (suc r)) r_in _ _) = absurd (omega (arith, r_in))

up_to : (n : ℕ) → n ≤ n
up_to n = omega arith

above : (n : ℕ) → n < n + 1
above n = omega arith

both : (P : ℕ → Type 0) → P 0 → P 1 → (l : ℕ) → l < 2 → P l
both P first second zero h = first
both P first second (suc zero) h = second
both P first second (suc (suc l)) h = absurd (omega (arith, h))

no : {A : Type 0} → false ≡ true → A
no e = absurd (ground (arith, e))

module _ (Ready : ℕ → ℕ → Type 0) (ready : (r n : ℕ) → Ready r n) (g : ℕ) (small : g + 2 < 2 ^ 32)
    (flags : ℕ → ℕ → ℕ → ℕ) where
  abbrev Reached : Type 0
  Reached = (k : ℕ) × (x : Meeting) × Turns false 2 1 departs Ready (rested g flags) k x

  -- Rank 0 writes the generation when its item 0 has met itself; its item 1 reads it after that.
  is_late : Reached
  is_late = (
    _,
    _,
    later
        (later
          (later
            (later
              (later
                (later (later start (begin 0 (omega arith) (omega arith) refl refl (ready 0 0)))
                  (read 0 0 (omega arith) (omega arith) (above _)))
                (publish 0 0 (omega arith) (omega arith) refl (above _)))
              (observe 0 0 (omega arith) (omega arith) refl (above _) (up_to _)))
            (write 0 (omega arith) (above _) refl no no))
          (read 0 1 (omega arith) (omega arith) (above _)))
        (publish 0 1 (omega arith) (omega arith) refl (above _)),
  )

  later_target : (g + 1) % 2 ^ 32 < ((g + 1) % 2 ^ 32 + 1) % 2 ^ 32
  later_target = omega (arith, small)

  later_reached : (g + 1) % 2 ^ 32 ≤ ((g + 1) % 2 ^ 32 + 1) % 2 ^ 32
  later_reached = omega (arith, later_target)

  -- Rank 1 publishes and meets both, and is through.
  is_through : Reached
  unfolding is_late
  is_through = (
    _,
    _,
    later
        (later
          (later
            (later
              (later
                (later
                  (later
                    (later
                      (later is_late.2 (begin 1 (omega arith) (omega arith) refl refl (ready 1 0)))
                      (read 1 0 (omega arith) (omega arith) (above _)))
                    (read 1 1 (omega arith) (omega arith) (above _)))
                  (publish 1 0 (omega arith) (omega arith) refl (above _)))
                (publish 1 1 (omega arith) (omega arith) refl (above _)))
              (observe 1 0 (omega arith) (omega arith) refl (above _) later_reached))
            (observe 1 1 (omega arith) (omega arith) refl (above _) (up_to _)))
          (write 1 (omega arith) (above _) refl no no))
        (leave 1 (omega arith) (above _) (both _ refl refl)),
  )

  is_through-IsStuck : IsStuck is_through.1
  unfolding is_late is_through
  is_through-IsStuck = record {
    begun_all = both _ refl refl;
    wrote_all = both _ refl refl;
    loaded_all = λ r l p q.
        both (λ r. (l : ℕ) → l < 2 → is_through.1.loaded r l ≡ 1) (both _ refl refl)
          (both _ refl refl) r p l q;
    sent_all = λ r l p q.
        both (λ r. (l : ℕ) → l < 2 → is_through.1.sent r l ≡ 1) (both _ refl refl)
          (both _ refl refl) r p l q;
    left_one = refl;
    unseen = refl;
    seen_own = refl;
    seen_one = both _ refl refl;
    late = later_target;
  }

-- Without lockstep the rendezvous of two ranks at the end of a call can get stuck, from regions at
-- rest at any generation `g` with `g + 2` below 2 ^ 32, whatever their flags and with nothing else
-- to wait for: the ranks reach a state with no spin at its cap in which rank 1 is through, rank 0
-- has not gone on, and no step is left but a spin that reaches its cap.
pub lockstep_needed :
    (Ready : ℕ → ℕ → Type 0) (g : ℕ) (flags : ℕ → ℕ → ℕ → ℕ)
    → ((r n : ℕ) → Ready r n)
    → g + 2 < 2 ^ 32
    → (k : ℕ) × (x : Meeting) × Turns false 2 1 departs Ready (rested g flags) k x
      × (x.expired ≡ false)
      × (x.left 0 ≡ 0)
      × (x.left 1 ≡ 1)
      × (¬ CanTurn false 2 1 departs Ready x)
unfolding is_late is_through
lockstep_needed Ready g flags ready small =
    let (k, x, path) = is_through Ready ready g small flags in
    (
      k,
      x,
      path,
      refl,
      refl,
      refl,
      λ can.
          absurd (
            ground
              (arith, can.2, only_expire (is_through-IsStuck Ready ready g small flags) can.1)),
    )
