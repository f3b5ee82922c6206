-- ===== src/Graph/Capture.antt =====
-- What the methods of CommandGraph keep, which calls throw, and what a replay runs.
use quixi_core_xpu.Common.{
  ◌≡◌, ◌↔◌, refl, sym, ap, ◌∙◌, ◌≢◌, Bool, true, false, List, [], ◌∷◌, ◌++◌, none, some, arith,
}
use mathlib.Core.List.{append-nil, append_assoc}
use quixi_core_xpu.Graph.{
  Api, Fault, wait, begin_recording, end_recording, run_graph, Impl, Result, construct,
  capture_begin, capture_end, replay, synchronize, reset, submit_command,
}

-- The methods that change the state.
pub data Method : Type 0 where
  begin finish replayed synchronized cleared : Method

module _ (api : Api) where
  open api use {Command, Modifiable, Executable, create, append, finalize, recorded, commands}

  abbrev pub call : Method → Impl api → Result api
  call begin s = capture_begin api s
  call finish s = capture_end api s
  call replayed s = replay api s
  call synchronized s = synchronize api s
  call cleared s = reset api s

  -- One call of a method, or one submission by the client.
  pub data Step (s : Impl api) : Impl api → Type 0 where
    called : (m : Method) → Step s (call m s).0
    submitted : (c : Command) → Step s (submit_command api c s)

  pub data Reach (supported : Bool) : Impl api → Type 0 where
    start : Reach supported (construct api supported)
    later : {s t : Impl api} → Reach supported s → Step s t → Reach supported t

  -- While a capture is active there is no executable graph, and only on a device that has graphs.
  -- Without both, nothing has been recorded. An executable graph holds what was recorded.
  pub record IsValid (s : Impl api) : Type 0 where
    pub exclusive : s.is_recording ≡ true → s.executable ≡ none
    pub gated : s.is_recording ≡ true → s.supported ≡ true
    pub fresh : s.is_recording ≡ false → s.executable ≡ none → recorded s.modifiable ≡ []
    pub finished : (e : Executable) → s.executable ≡ some e → commands e ≡ recorded s.modifiable

  construct-IsValid : (supported : Bool) → IsValid (construct api supported)
  unfolding construct
  construct-IsValid supported = record {
    exclusive = λ e. refl;
    gated = λ e. cc;
    fresh = λ e f. api.recorded-create;
    finished = λ e f. cc;
  }

  Step-IsValid : {s t : Impl api} → Step s t → IsValid s → IsValid t
  unfolding capture_begin capture_end replay synchronize reset submit_command
  Step-IsValid {s} (called begin) v = record {
    exclusive = ground (arith, v.exclusive);
    gated = ground (arith, v.gated);
    fresh = ground (arith, v.fresh);
    finished = λ e f. ground (arith, v.finished e);
  }
  Step-IsValid {s} (called finish) v = record {
    exclusive = ground (arith, v.exclusive);
    gated = ground (arith, v.gated);
    fresh = ground (arith, v.fresh);
    finished = λ e f. ground (arith, v.finished e, api.commands-finalize s.modifiable);
  }
  Step-IsValid {s} (called replayed) v = record {
    exclusive = ground (arith, v.exclusive);
    gated = ground (arith, v.gated);
    fresh = ground (arith, v.fresh);
    finished = λ e f. ground (arith, v.finished e);
  }
  Step-IsValid (called synchronized) v = record {
    exclusive = v.exclusive;
    gated = v.gated;
    fresh = v.fresh;
    finished = v.finished;
  }
  Step-IsValid {s} (called cleared) v = record {
    exclusive = ground (arith, v.exclusive);
    gated = ground (arith, v.gated);
    fresh = ground (arith, v.fresh, api.recorded-create);
    finished = λ e f. ground (arith, v.finished e);
  }
  Step-IsValid {s} (submitted c) v = record {
    exclusive = ground (arith, v.exclusive);
    gated = ground (arith, v.gated);
    fresh = ground (arith, v.fresh);
    finished = λ e f. ground (arith, v.finished e, v.exclusive);
  }

  -- In every state that calls and submissions lead to, the class's invariant holds: no executable
  -- graph beside an active capture, no capture on a device without graphs, and an executable
  -- graph that holds exactly what was recorded.
  pub Reach-IsValid : {supported : Bool} {s : Impl api} → Reach supported s → IsValid s
  Reach-IsValid start = construct-IsValid _
  Reach-IsValid (later r st) = Step-IsValid st (Reach-IsValid r)

  -- A method that throws leaves the object and the queue as they were, and which of them throw in
  -- a state is decided by the device, the active capture and the executable graph alone.
  pub call-faults :
      (s : Impl api)
      → ((m : Method) (f : Fault) → (call m s).1 ≡ some f → (call m s).0 ≡ s)
        × (((call begin s).1 ≡ none)
            ↔ ((s.supported ≡ true) × (s.is_recording ≡ false) × (s.executable ≡ none)))
        × (((call finish s).1 ≡ none) ↔ (s.is_recording ≡ true))
        × (((call replayed s).1 ≡ none) ↔ (s.executable ≢ none))
        × ((call synchronized s).1 ≡ none)
        × (((call cleared s).1 ≡ none) ↔ (s.is_recording ≡ false))
  unfolding capture_begin capture_end replay reset synchronize
  call-faults s = (unchanged, ground arith, ground arith, ground arith, refl, ground arith)
    where
      unchanged : (m : Method) (f : Fault) → (call m s).1 ≡ some f → (call m s).0 ≡ s
      unchanged begin f e = ground arith
      unchanged finish f e = ground arith
      unchanged replayed f e = ground arith
      unchanged synchronized f e = cc
      unchanged cleared f e = ground arith

  -- The client submits commands one after the other.
  abbrev pub submit_all : List Command → Impl api → Impl api
  submit_all [] s = s
  submit_all (c ∷ cs) s = submit_all cs (submit_command api c s)

  -- A whole capture: capture_begin, the client's submissions, capture_end.
  abbrev pub capture : List Command → Impl api → Impl api
  capture cs s = (call finish (submit_all cs (call begin s).0)).0

  submit-recorded :
      (c : Command) (s : Impl api)
      → s.is_recording ≡ true
      → submit_command api c s ≡ record s { modifiable = append s.modifiable c }
  unfolding submit_command
  submit-recorded c s on = ground arith

  -- While the queue records, submissions go to the graph and nothing reaches the queue.
  submit_all-recorded :
      (cs : List Command) (s : Impl api)
      → s.is_recording ≡ true
      → (g : Modifiable) × (recorded g ≡ recorded s.modifiable ++ cs)
        × (submit_all cs s ≡ record s { modifiable = g })
  submit_all-recorded [] s on = (s.modifiable, sym (append-nil (recorded s.modifiable)), refl)
  submit_all-recorded (c ∷ cs) s on =
      let (g, holds, rest) =
        submit_all-recorded cs (record s { modifiable = append s.modifiable c }) on in
      (
        g,
        holds ∙ rw (api.recorded-append, append_assoc),
        ap (submit_all cs) (submit-recorded c s on) ∙ rest,
      )

  -- From a valid idle state on a device with graphs, a capture and a replay throw nothing, and run
  -- on the queue exactly the commands that were submitted, in their order, after one wait.
  pub replay-capture :
      (s : Impl api)
      → IsValid s
      → s.supported ≡ true
      → s.is_recording ≡ false
      → s.executable ≡ none
      → (cs : List Command)
      → (e : Executable) × (commands e ≡ cs)
        × ((call replayed (capture cs s)).1 ≡ none)
        × ((call replayed (capture cs s)).0.calls
            ≡ run_graph e ∷ end_recording ∷ begin_recording ∷ wait ∷ s.calls)
  unfolding capture_begin capture_end replay
  replay-capture s v on idle empty cs =
      let began : Impl api = record s {
        is_recording = true;
        calls = begin_recording ∷ wait ∷ s.calls;
      } in
      let (g, holds, rest) = submit_all-recorded cs began refl in
      let begins : (capture_begin api s).0 ≡ began = ground arith in
      let ended : Impl api = record began {
        modifiable = g;
        is_recording = false;
        executable = some (finalize g);
        calls = end_recording ∷ began.calls;
      } in
      let captured : capture cs s ≡ ended =
        ap (λ t. (capture_end api t).0) (ap (submit_all cs) begins ∙ rest) in
      (
        finalize g,
        api.commands-finalize g ∙ holds ∙ ap (λ l. l ++ cs) (v.fresh idle empty),
        ap (λ t. (replay api t).1) captured,
        ap (λ t. (replay api t).0.calls) captured,
      )
