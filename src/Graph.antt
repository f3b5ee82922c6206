-- ===== src/Graph.antt =====
-- CommandGraph: src/runtime/graph.cpp and include/quixicore/xpu/graph.hpp.
-- SYCL's command graphs are the parameter `Api`; what the class asks of the queue is a log.
pub mod Capture
mod Tests
use quixi_core_xpu.Common.{
  ◌≡◌, Bool, true, false, not, List, [], ◌∷◌, ◌++◌, if◌then◌else◌, Option, none, some,
}

-- The oneAPI graph extension: a modifiable graph takes the commands that a recording queue is
-- given, and `finalize` makes of it an executable graph with those commands in that order.
pub record Api : Type 1 where
  pub Command : Type 0
  pub Modifiable : Type 0
  pub Executable : Type 0
  pub create : Modifiable
  pub append : Modifiable → Command → Modifiable
  pub finalize : Modifiable → Executable
  pub recorded : Modifiable → List Command
  pub commands : Executable → List Command
  pub recorded-create : recorded create ≡ []
  pub recorded-append :
      (g : Modifiable) (c : Command) → recorded (append g c) ≡ recorded g ++ c ∷ []
  pub commands-finalize : (g : Modifiable) → commands (finalize g) ≡ recorded g

-- The std::runtime_error and the std::logic_errors that the methods throw.
pub data Fault : Type 0 where
  unsupported already_active needs_reset not_active not_finalized cannot_reset : Fault

module _ (api : Api) where
  open api use {Command, Modifiable, Executable, create, append, finalize}

  -- What the queue is asked to do.
  pub data QueueCall : Type 0 where
    wait begin_recording end_recording : QueueCall
    submit : Command → QueueCall
    run_graph : Executable → QueueCall

  -- struct Impl, with whether the queue's device has ext_oneapi_graph, and the log of the queue's
  -- calls, the last one first.
  pub record Impl : Type 0 where
    pub supported : Bool
    pub modifiable : Modifiable
    pub executable : Option Executable
    pub is_recording : Bool
    pub calls : List QueueCall

  -- A method's effect, and the exception that it throws, if any.
  abbrev pub Result : Type 0
  Result = Impl × Option Fault

  abbrev pub has_executable : Option Executable → Bool
  has_executable none = false
  has_executable (some e) = true

  pub construct : Bool → Impl
  construct supported = record {
    supported = supported;
    modifiable = create;
    executable = none;
    is_recording = false;
    calls = [];
  }

  pub capture_begin : Impl → Result
  capture_begin s =
      if not s.supported
      then (s, some unsupported)
      else if s.is_recording
      then (s, some already_active)
      else if has_executable s.executable
      then (s, some needs_reset)
      else (record s { is_recording = true; calls = begin_recording ∷ wait ∷ s.calls }, none)

  pub capture_end : Impl → Result
  capture_end s = if not s.is_recording then (s, some not_active) else (
    record s {
      is_recording = false;
      executable = some (finalize s.modifiable);
      calls = end_recording ∷ s.calls;
    },
    none,
  )

  abbrev pub run_if_ready : Impl → Option Executable → Result
  run_if_ready s none = (s, some not_finalized)
  run_if_ready s (some e) = (record s { calls = run_graph e ∷ s.calls }, none)

  pub replay : Impl → Result
  replay s = run_if_ready s s.executable

  pub synchronize : Impl → Result
  synchronize s = (record s { calls = wait ∷ s.calls }, none)

  pub reset : Impl → Result
  reset s =
      if s.is_recording
      then (s, some cannot_reset)
      else (record s { executable = none; modifiable = create; calls = wait ∷ s.calls }, none)

  pub recording : Impl → Bool
  recording s = s.is_recording

  pub ready : Impl → Bool
  ready s = has_executable s.executable

  -- The client's own submission: while the queue records, the graph takes the command.
  pub submit_command : Command → Impl → Impl
  submit_command c s =
      if s.is_recording
      then record s { modifiable = append s.modifiable c }
      else record s { calls = submit c ∷ s.calls }
