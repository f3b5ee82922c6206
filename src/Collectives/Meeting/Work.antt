-- ===== src/Collectives/Meeting/Work.antt =====
-- The steps of the rendezvous counted: every step adds one to what the ranks have done.
use quixi_core_xpu.Common.{ℕ, ◌+◌, ◌*◌, ◌^◌, ◌<◌, ◌≤◌, ◌≡◌, true, arith}
use quixi_core_xpu.Common.Launch.{sum_below, sum_below-ext}
use quixi_core_xpu.Common.Sums.{sum_below_bump, sum_below_bound}
use quixi_core_xpu.Collectives.Meeting.{
  Call, Meeting, Turn, begin, read, publish, observe, expire, write, leave, Turns, start, later,
  rested,
}
use quixi_core_xpu.Collectives.Meeting.Order.{IsValid, Turns-IsValid, rested-IsValid}

-- What a rank has done, counted.
rank_work : ℕ → Meeting → ℕ → ℕ
rank_work world m r =
    m.begun r + m.wrote r + m.left r + sum_below (λ l. m.loaded r l + m.sent r l + m.seen r l) world

pub work : ℕ → Meeting → ℕ
work world m = sum_below (rank_work world m) world

-- The steps that `meetings` rendezvous of `world` ranks take.
unfoldable pub most_steps : ℕ → ℕ → ℕ
most_steps world meetings = world * (3 * meetings + world * (3 * meetings))

pub work-bound :
    (world meetings : ℕ) (calls : ℕ → Call) (g : ℕ) (m : Meeting)
    → IsValid world meetings calls g m
    → work world m ≤ most_steps world meetings
unfolding work rank_work most_steps
work-bound world meetings calls g m ok = sum_below_bound (rank_work world m) _ world (λ r p. omega (
  arith,
  ok.within r p,
  ok.one r p,
  ok.write_one r p,
  sum_below_bound (λ l. m.loaded r l + m.sent r l + m.seen r l) (3 * meetings) world
      (λ l q. omega (arith, ok.within r p, ok.load_one r l p q, ok.see_one r l p q)),
))

items-bump :
    (a : ℕ → ℕ) (f h : ℕ → ℕ → ℕ) (r l n : ℕ)
    → r < n
    → l < n
    → h r l ≡ f r l + 1
    → ((s j : ℕ) → ¬ ((s ≡ r) × (j ≡ l)) → h s j ≡ f s j)
    → sum_below (λ s. a s + sum_below (h s) n) n ≡ sum_below (λ s. a s + sum_below (f s) n) n + 1
items-bump a f h r l n r_in l_in e other =
    sum_below_bump (λ s. a s + sum_below (f s) n) (λ s. a s + sum_below (h s) n) r n r_in
      (omega (arith, sum_below_bump (f r) (h r) l n l_in e (λ j ne. other r j (λ same. ne same.1))))
      (λ s ne. omega (arith, sum_below-ext (h s) (f s) n (λ j _. other s j (λ same. ne same.0))))

module _ (world meetings : ℕ) (calls : ℕ → Call) (g : ℕ) {Ready : ℕ → ℕ → Type 0} where
  -- Every step adds one to the work.
  Turn-work :
      {m k : Meeting}
      → IsValid world meetings calls g m
      → Turn true world meetings calls Ready m k
      → work world k ≡ work world m + 1
  unfolding work rank_work
  Turn-work {m} {k} ok (begin r r_in more idle written ready) =
      sum_below_bump (rank_work world m) (rank_work world k) r world r_in (ground arith)
        (λ j other. ground arith)
  Turn-work {m} {k} ok (read r l r_in l_in due) =
      items-bump _ (λ s j. m.loaded s j + m.sent s j + m.seen s j)
        (λ s j. k.loaded s j + k.sent s j + k.seen s j) r l world r_in l_in
        (ground (arith, ok.load_one r l r_in l_in, ok.write_one r r_in, due))
        (λ s j other. ground (arith, other))
  Turn-work {m} {k} ok (publish r l r_in l_in loaded due) =
      items-bump _ (λ s j. m.loaded s j + m.sent s j + m.seen s j)
        (λ s j. k.loaded s j + k.sent s j + k.seen s j) r l world r_in l_in
        (ground (arith, ok.send_one r l r_in l_in, due)) (λ s j other. ground (arith, other))
  Turn-work {m} {k} ok (observe r l r_in l_in done due there) =
      items-bump _ (λ s j. m.loaded s j + m.sent s j + m.seen s j)
        (λ s j. k.loaded s j + k.sent s j + k.seen s j) r l world r_in l_in
        (ground (arith, ok.see_one r l r_in l_in, ok.one r r_in, due))
        (λ s j other. ground (arith, other))
  Turn-work {m} {k} ok (expire r l r_in l_in done due) =
      items-bump _ (λ s j. m.loaded s j + m.sent s j + m.seen s j)
        (λ s j. k.loaded s j + k.sent s j + k.seen s j) r l world r_in l_in
        (ground (arith, ok.see_one r l r_in l_in, ok.one r r_in, due))
        (λ s j other. ground (arith, other))
  Turn-work {m} {k} ok (write r r_in due first rest lockstep) =
      sum_below_bump (rank_work world m) (rank_work world k) r world r_in
        (ground (arith, ok.write_one r r_in)) (λ j other. ground arith)
  Turn-work {m} {k} ok (leave r r_in due all) =
      sum_below_bump (rank_work world m) (rank_work world k) r world r_in
        (ground (arith, ok.one r r_in)) (λ j other. ground arith)

  pub Turns-work :
      (flags : ℕ → ℕ → ℕ → ℕ) {k : ℕ} {x : Meeting}
      → g + meetings < 2 ^ 32
      → ((r p l : ℕ) → r < world → l < world → flags r p l ≤ g)
      → Turns true world meetings calls Ready (rested g flags) k x
      → work world x ≡ k
  unfolding work rank_work
  Turns-work flags small old start = omega (
    arith,
    sum_below_bound (rank_work world (rested g flags)) 0 world
        (λ r p. omega (arith, sum_below_bound (λ l. 0) 0 world (λ l q. omega arith))),
  )
  Turns-work flags small old (later path step) =
      let ok =
        Turns-IsValid world meetings calls g small (rested-IsValid world meetings calls g flags old)
          path in
      omega (arith, Turn-work ok step, Turns-work flags small old path)
