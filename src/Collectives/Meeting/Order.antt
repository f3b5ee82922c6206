-- ===== src/Collectives/Meeting/Order.antt =====
-- No rank goes on from a rendezvous that another has not entered.
use quixi_core_xpu.Common.{ℕ, ◌+◌, ◌^◌, ◌<◌, ◌≤◌, ◌≡◌, refl, true, false, arith, ℕ_discrete}
use quixi_core_xpu.Collectives.Meeting.{
  Call, Meeting, Turn, begin, read, publish, observe, expire, write, leave, Turns, start, later,
  rested,
}

module _ (world meetings : ℕ) (calls : ℕ → Call) (g : ℕ) where
  pub record IsValid (m : Meeting) : Type 0 where
    pub within : (r : ℕ) → r < world → m.begun r ≤ meetings
    -- A rank is in one rendezvous at a time.
    pub one : (r : ℕ) → r < world → (m.left r ≤ m.begun r) × (m.begun r ≤ m.left r + 1)
    pub write_one : (r : ℕ) → r < world → (m.wrote r ≤ m.begun r) × (m.begun r ≤ m.wrote r + 1)
    pub send_one :
        (r l : ℕ) → r < world → l < world → (m.sent r l ≤ m.begun r) × (m.begun r ≤ m.sent r l + 1)
    pub see_one :
        (r l : ℕ) → r < world → l < world → (m.left r ≤ m.seen r l) × (m.seen r l ≤ m.sent r l)
    pub load_one :
        (r l : ℕ)
        → r < world
        → l < world
        → (m.loaded r l ≤ m.begun r) × (m.wrote r ≤ m.loaded r l) × (m.sent r l ≤ m.loaded r l)
    pub counted : (r : ℕ) → r < world → m.generation r ≡ g + m.wrote r
    pub aimed : (r l : ℕ) → r < world → l < world → m.target r l ≡ g + m.loaded r l
    -- A flag is no newer than its writer, and as new as what it has published.
    pub bounded : (r p l : ℕ) → r < world → l < world → m.sync r p l ≤ g + m.sent l r
    pub delivered :
        (r n l : ℕ)
        → r < world
        → l < world
        → n < m.sent l r
        → g + n + 1 ≤ m.sync r (calls n).phase l
    -- Who has observed a flag, and has not given up, has met its writer.
    pub met : m.expired ≡ false → (r l : ℕ) → r < world → l < world → m.seen r l ≤ m.begun l

  pub Turn-IsValid :
      {Ready : ℕ → ℕ → Type 0} {m k : Meeting}
      → g + meetings < 2 ^ 32
      → IsValid m
      → Turn true world meetings calls Ready m k
      → IsValid k
  Turn-IsValid {m = m} small ok (begin r0 r0_in more idle written ready) = record {
    within = λ r p. ground (arith, ok.within r p);
    one = λ r p. ground (arith, ok.one r p);
    write_one = λ r p. ground (arith, ok.write_one r p);
    send_one = λ r l p q. ground (
      arith,
      small,
      ok.within r p,
      ok.one r p,
      ok.write_one r p,
      ok.send_one r l p q,
      ok.see_one r l p q,
      ok.load_one r l p q,
    );
    see_one = ok.see_one;
    load_one = λ r l p q. ground (arith, ok.load_one r l p q);
    counted = ok.counted;
    aimed = ok.aimed;
    bounded = ok.bounded;
    delivered = ok.delivered;
    met = λ e r l p q. ground (arith, ok.met e r l p q);
  }
  Turn-IsValid {m = m} small ok (read r0 l0 r0_in l0_in due) = record {
    within = ok.within;
    one = ok.one;
    write_one = ok.write_one;
    send_one = ok.send_one;
    see_one = ok.see_one;
    load_one = λ r l p q. ground (arith, ok.load_one r l p q);
    counted = ok.counted;
    aimed = λ r l p q. ground (
      arith,
      ok.counted r0 r0_in,
      ok.aimed r l p q,
      ok.within r0 r0_in,
      ok.write_one r0 r0_in,
      ok.load_one r0 l0 r0_in l0_in,
      due,
      small,
    );
    bounded = ok.bounded;
    delivered = ok.delivered;
    met = ok.met;
  }
  Turn-IsValid {m = m} small ok (publish r0 l0 r0_in l0_in loaded due) = record {
    within = ok.within;
    one = ok.one;
    write_one = ok.write_one;
    send_one = λ r l p q. ground (arith, ok.send_one r l p q);
    see_one = λ r l p q. ground (arith, ok.see_one r l p q);
    load_one = λ r l p q. ground (arith, ok.load_one r l p q, loaded);
    counted = ok.counted;
    aimed = ok.aimed;
    bounded = λ r p l q q2.
        ground (arith, ok.bounded r p l q q2, ok.aimed r0 l0 r0_in l0_in, loaded, due);
    delivered = λ r n l p q h. elim (ℕ_discrete n (m.left r0)) [
      | yes e ↦
          ground
            (arith, e, ok.delivered r n l p q, ok.aimed r0 l0 r0_in l0_in, loaded, ok.one r0 r0_in)
      | no ne ↦ ground (
        arith,
        ne,
        ok.delivered r n l p q,
        ok.aimed r0 l0 r0_in l0_in,
        loaded,
        ok.one r0 r0_in,
        ok.see_one r0 l0 r0_in l0_in,
      )
    ];
    met = ok.met;
  }
  Turn-IsValid {m = m} small ok (observe r0 l0 r0_in l0_in done due there) = record {
    within = ok.within;
    one = ok.one;
    write_one = ok.write_one;
    send_one = ok.send_one;
    see_one = λ r l p q. ground (arith, ok.see_one r l p q);
    load_one = ok.load_one;
    counted = ok.counted;
    aimed = ok.aimed;
    bounded = ok.bounded;
    delivered = ok.delivered;
    met = λ e r l p q. ground (
      arith,
      ok.met e r l p q,
      ok.aimed r0 l0 r0_in l0_in,
      ok.load_one r0 l0 r0_in l0_in,
      done,
      there,
      ok.bounded r0 (calls (m.left r0)).phase l0 r0_in l0_in,
      ok.send_one l0 r0 l0_in r0_in,
    );
  }
  Turn-IsValid {m = m} small ok (expire r0 l0 r0_in l0_in done due) = record {
    within = ok.within;
    one = ok.one;
    write_one = ok.write_one;
    send_one = ok.send_one;
    see_one = λ r l p q. ground (arith, ok.see_one r l p q);
    load_one = ok.load_one;
    counted = ok.counted;
    aimed = ok.aimed;
    bounded = ok.bounded;
    delivered = ok.delivered;
    met = λ e. absurd (ground (arith, e));
  }
  Turn-IsValid {m = m} small ok (write r0 r0_in due first rest lockstep) = record {
    within = ok.within;
    one = ok.one;
    write_one = λ r p. ground (arith, ok.write_one r p);
    send_one = ok.send_one;
    see_one = ok.see_one;
    load_one = λ r l p q. ground (arith, ok.load_one r l p q, lockstep refl l q);
    counted = λ r p. ground (
      arith,
      ok.counted r p,
      ok.aimed r 0 p (omega (arith, p)),
      lockstep refl 0 (omega (arith, p)),
    );
    aimed = ok.aimed;
    bounded = ok.bounded;
    delivered = ok.delivered;
    met = ok.met;
  }
  Turn-IsValid {m = m} small ok (leave r0 r0_in due all) = record {
    within = ok.within;
    one = λ r p. ground (arith, ok.one r p);
    write_one = ok.write_one;
    send_one = ok.send_one;
    see_one = λ r l p q. ground (
      arith,
      small,
      ok.within r p,
      ok.one r p,
      ok.write_one r p,
      ok.send_one r l p q,
      ok.see_one r l p q,
      all l q,
    );
    load_one = ok.load_one;
    counted = ok.counted;
    aimed = ok.aimed;
    bounded = ok.bounded;
    delivered = ok.delivered;
    met = ok.met;
  }

  -- Who has gone on has observed the flags of all, so all have entered.
  pub caught_up :
      (m : Meeting)
      → IsValid m
      → m.expired ≡ false
      → (r l : ℕ) → r < world
      → l < world
      → m.left r ≤ m.begun l
  caught_up m ok patient r l r_in l_in =
      omega (arith, ok.met patient r l r_in l_in, ok.see_one r l r_in l_in)

  pub rested-IsValid :
      (flags : ℕ → ℕ → ℕ → ℕ)
      → ((r p l : ℕ) → r < world → l < world → flags r p l ≤ g)
      → IsValid (rested g flags)
  rested-IsValid flags old = record {
    within = λ r p. omega arith;
    one = λ r p. omega arith;
    write_one = λ r p. omega arith;
    send_one = λ r l p q. omega arith;
    see_one = λ r l p q. omega arith;
    load_one = λ r l p q. ground arith;
    counted = λ r p. omega arith;
    aimed = λ r l p q. omega arith;
    bounded = λ r p l q h. omega (arith, old r p l q h);
    delivered = λ r n l p q h. absurd (omega arith);
    met = λ e r l p q. omega arith;
  }

  pub Turns-IsValid :
      {Ready : ℕ → ℕ → Type 0} {m : Meeting} {k : ℕ} {x : Meeting}
      → g + meetings < 2 ^ 32
      → IsValid m
      → Turns true world meetings calls Ready m k x
      → IsValid x
  Turns-IsValid small ok start = ok
  Turns-IsValid small ok (later path step) = Turn-IsValid small (Turns-IsValid small ok path) step

-- From regions at rest at generation `g`, with `g + meetings` below 2 ^ 32: in every state that the
-- ranks reach together, in whatever order their items read, publish, observe and write, on a device
-- that runs the items of a rank in lockstep, while no spin has reached its cap, no rank has gone on from more rendezvous than any other rank has entered.
pub left-begun :
    (world meetings : ℕ) (calls : ℕ → Call) (Ready : ℕ → ℕ → Type 0) (g : ℕ) (flags : ℕ → ℕ → ℕ → ℕ)
    (k : ℕ) (x : Meeting)
    → g + meetings < 2 ^ 32
    → ((r p l : ℕ) → r < world → l < world → flags r p l ≤ g)
    → Turns true world meetings calls Ready (rested g flags) k x
    → x.expired ≡ false
    → (r l : ℕ) → r < world
    → l < world
    → x.left r ≤ x.begun l
left-begun world meetings calls Ready g flags k x small old path patient r l r_in l_in =
    caught_up world meetings calls g x
      (Turns-IsValid world meetings calls g small (rested-IsValid world meetings calls g flags old)
        path)
      patient r l r_in l_in
