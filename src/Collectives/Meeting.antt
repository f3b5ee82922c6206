-- ===== src/Collectives/Meeting.antt =====
-- The rendezvous of the all-reduce: kernels/collectives/all_reduce/variants/xpu_sycl/all_reduce.sycl.cpp.
-- One work-group of every rank takes part, for a sequence of meetings: those of one call, or of many
-- calls and graph replays. Work-item `l` of a rank serves rank `l`. A poll that fails changes nothing
-- and is not a step. Every item reads the generation for itself. Where no barrier follows the exchange,
-- nothing in the code makes item 0 wait for these reads before it writes; `lockstep` says whether the
-- device runs the items of a rank, at most eight and so of one sub-group, in lockstep, which would.
-- Counters that the code does not keep say how far each item has come.
pub mod Order
pub mod Work
pub mod Progress
pub mod Wrap
pub mod Ready
pub mod Lockstep
use quixi_core_xpu.Common.{
  ℕ, zero, suc, ◌+◌, ◌%◌, ◌^◌, ◌<◌, ◌≤◌, ◌≡◌, Bool, true, false, ◌==◌, ◌&&◌, if◌then◌else◌,
}

-- The phase whose flags a rendezvous uses, and whether a group barrier follows the exchange.
pub record Call : Type 0 where
  pub phase : ℕ
  pub trailing : Bool

-- `sync r p l` is the flag of phase `p` that rank `l` writes in the region of rank `r`. `begun`,
-- `wrote` and `left` count the rendezvous that a rank has entered, written the generation for and
-- gone on from; `loaded r l`, `sent r l` and `seen r l` those in which its item `l` has read the
-- generation, published and observed, and `target r l` is what it computed last.
pub record Meeting : Type 0 where
  pub generation : ℕ → ℕ
  pub sync : ℕ → ℕ → ℕ → ℕ
  pub target : ℕ → ℕ → ℕ
  pub begun : ℕ → ℕ
  pub wrote : ℕ → ℕ
  pub left : ℕ → ℕ
  pub loaded : ℕ → ℕ → ℕ
  pub sent : ℕ → ℕ → ℕ
  pub seen : ℕ → ℕ → ℕ
  pub expired : Bool

-- A number per rank, changed at one; and a number per rank and item.
abbrev pub at : (ℕ → ℕ) → ℕ → ℕ → ℕ → ℕ
at f r x = λ s. if s == r then x else f s

abbrev pub at_item : (ℕ → ℕ → ℕ) → ℕ → ℕ → ℕ → ℕ → ℕ → ℕ
at_item f r l x = λ s k. if (s == r) && (k == l) then x else f s k

abbrev pub at_flag : (ℕ → ℕ → ℕ → ℕ) → ℕ → ℕ → ℕ → ℕ → ℕ → ℕ → ℕ → ℕ
at_flag f r p l x = λ s q k. if (s == r) && ((q == p) && (k == l)) then x else f s q k

-- Every item of the rank has observed its flag.
abbrev pub AllSeen : ℕ → Meeting → ℕ → Type 0
AllSeen world m r = (l : ℕ) → l < world → m.seen r l ≡ m.begun r

-- Every item of the rank has read the generation.
abbrev pub AllLoaded : ℕ → Meeting → ℕ → Type 0
AllLoaded world m r = (l : ℕ) → l < world → m.loaded r l ≡ m.begun r

module _ (lockstep : Bool) (world meetings : ℕ) (calls : ℕ → Call) (Ready : ℕ → ℕ → Type 0) where
  -- One step of one rank. `Ready r n` is what rank `r` does before its rendezvous number `n`.
  pub data Turn (m : Meeting) : Meeting → Type 0 where
    -- Past the barrier before the exchange, or at the start of the kernel.
    begin :
        (r : ℕ)
        → r < world
        → m.begun r < meetings
        → m.left r ≡ m.begun r
        → m.wrote r ≡ m.begun r
        → Ready r (m.begun r)
        → Turn m (record m { begun = at m.begun r (m.begun r + 1) })
    read :
        (r l : ℕ)
        → r < world
        → l < world
        → m.loaded r l < m.begun r
        → Turn m (record m {
          target = at_item m.target r l ((m.generation r + 1) % 2 ^ 32);
          loaded = at_item m.loaded r l (m.begun r);
        })
    publish :
        (r l : ℕ)
        → r < world
        → l < world
        → m.loaded r l ≡ m.begun r
        → m.sent r l < m.begun r
        → Turn m (record m {
          sync = at_flag m.sync l (calls (m.left r)).phase r (m.target r l);
          sent = at_item m.sent r l (m.begun r);
        })
    observe :
        (r l : ℕ)
        → r < world
        → l < world
        → m.sent r l ≡ m.begun r
        → m.seen r l < m.begun r
        → m.target r l ≤ m.sync r (calls (m.left r)).phase l
        → Turn m (record m { seen = at_item m.seen r l (m.begun r) })
    -- The spin has reached its cap.
    expire :
        (r l : ℕ)
        → r < world
        → l < world
        → m.sent r l ≡ m.begun r
        → m.seen r l < m.begun r
        → Turn m (record m { seen = at_item m.seen r l (m.begun r); expired = true })
    -- Item 0 writes the generation, after its own flag at least.
    write :
        (r : ℕ)
        → r < world
        → m.wrote r < m.begun r
        → m.seen r 0 ≡ m.begun r
        → ((calls (m.wrote r)).trailing ≡ true → AllSeen world m r)
        → (lockstep ≡ true → AllLoaded world m r)
        → Turn m (record m {
          generation = at m.generation r (m.target r 0);
          wrote = at m.wrote r (m.begun r);
        })
    -- Past the barrier after the exchange, or at the end of the kernel.
    leave :
        (r : ℕ)
        → r < world
        → m.left r < m.begun r
        → AllSeen world m r
        → Turn m (record m { left = at m.left r (m.begun r) })

  -- The states that `k` steps lead to.
  pub data Turns (m : Meeting) : ℕ → Meeting → Type 0 where
    start : Turns m 0 m
    later : {k : ℕ} {v x : Meeting} → Turns m k v → Turn v x → Turns m (k + 1) x

-- Between calls: every generation is `g`, and the flags are what is left of older meetings. A region
-- that was zero-filled has generation 0.
abbrev pub rested : ℕ → (ℕ → ℕ → ℕ → ℕ) → Meeting
rested g flags = record {
  generation = λ r. g;
  sync = flags;
  target = λ r l. g;
  begun = λ r. 0;
  wrote = λ r. 0;
  left = λ r. 0;
  loaded = λ r l. 0;
  sent = λ r l. 0;
  seen = λ r l. 0;
  expired = false;
}
