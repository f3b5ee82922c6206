-- ===== src/Dispatch.antt =====
-- The dispatch layer, src/dispatch/*.cpp: every public operation of include/quixicore/xpu/ops.hpp
-- picks a kernel by the variant and the build, submits it to the queue, and waits if it is asked to
-- block. A family is one child module: its operations with their arguments, the kernels it can
-- submit with theirs, and `dispatch`, which gives what is done to the queue, in order.
-- A pointer is its address, a float its bit pattern. The queue argument is left out.
pub mod Activations
pub mod Attention
pub mod LinearAttention
pub mod Matmul
pub mod Moe
pub mod Norms
pub mod Optimizers
pub mod Quantization
pub mod Sampling
pub mod Serving
pub mod Ssm
pub mod Utils
pub mod Collectives
pub mod Routing
pub mod Vendor
pub mod Envelope
mod Tests
use quixi_core_xpu.Common.{
  ℕ, ◌≡◌, Bool, true, false, if◌then◌else◌, List, [], ◌∷◌, ◌++◌, not, ◌&&◌, ◌||◌,
}

abbrev pub Ptr : Type 0
Ptr = ℕ

abbrev pub Float : Type 0
Float = ℕ

-- What an operation does to the queue: it submits a kernel, submits a memset of that many bytes on
-- which the next kernel depends, calls a oneDNN routine that waits for its own result, or waits for
-- the last event.
pub data Action (K : Type 0) : Type 0 where
  launch : K → Action K
  clear : Ptr → ℕ → Action K
  execute : K → Action K
  wait : Action K

-- The call returns, or it throws std::runtime_error or std::invalid_argument.
pub data Outcome (K : Type 0) : Type 0 where
  completed : List (Action K) → Outcome K
  failed : List (Action K) → Outcome K

-- `if (blocking) ev.wait();`
abbrev pub finish : {K : Type 0} → Bool → List (Action K)
finish blocking = if blocking then wait ∷ [] else []

-- An operation with one kernel.
abbrev pub native : {K : Type 0} → Bool → K → Outcome K
native blocking k = completed (launch k ∷ finish blocking)

abbrev pub actions : {K : Type 0} → Outcome K → List (Action K)
actions (completed done) = done
actions (failed done) = done

abbrev pub returns : {K : Type 0} → Outcome K → Bool
returns (completed done) = true
returns (failed done) = false

-- The kernels that run, in order.
abbrev pub submitted : {K : Type 0} → List (Action K) → List K
submitted [] = []
submitted (launch k ∷ rest) = k ∷ submitted rest
submitted (execute k ∷ rest) = k ∷ submitted rest
submitted (clear p n ∷ rest) = submitted rest
submitted (wait ∷ rest) = submitted rest

-- Whether work is left outstanding, if some was before. A wait is for the last event alone, so a
-- kernel submitted over outstanding work would leave some behind; only a memset is a dependency
-- of what follows it.
pub data Pending : Type 0 where
  idle cleared running lost : Pending

abbrev pub after : {K : Type 0} → Pending → Action K → Pending
after idle (launch k) = running
after idle (clear p n) = cleared
after idle (execute k) = idle
after idle wait = idle
after cleared (launch k) = running
after cleared (clear p n) = lost
after cleared (execute k) = lost
after cleared wait = idle
after running (launch k) = lost
after running (clear p n) = lost
after running (execute k) = lost
after running wait = idle
after lost a = lost

abbrev pub pending : {K : Type 0} → Pending → List (Action K) → Pending
pending p [] = p
pending p (a ∷ rest) = pending (after p a) rest

abbrev pub is_idle : Pending → Bool
is_idle idle = true
is_idle _ = false

abbrev pub is_lost : Pending → Bool
is_lost lost = true
is_lost _ = false

abbrev pub any : {K : Type 0} → (K → Bool) → List K → Bool
any test [] = false
any test (k ∷ ks) = test k || any test ks
