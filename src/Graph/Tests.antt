-- ===== src/Graph/Tests.antt =====
-- Captures over a graph that is the list of its commands.
use quixi_core_xpu.Common.{ℕ, ◌≡◌, refl, ◌≢◌, ◌↔◌, true, false, List, [], ◌∷◌, ◌++◌, none, some}
use quixi_core_xpu.Graph.{
  Api, Fault, wait, begin_recording, end_recording, run_graph, Impl, construct, capture_begin,
  capture_end, submit_command,
}
use quixi_core_xpu.Graph.Capture.{
  begin, finish, replayed, synchronized, cleared, Method, call, called, start, later, IsValid,
  Reach-IsValid, call-faults, capture, replay-capture,
}

abbrev list_api : Api
list_api = record {
  Command = ℕ;
  Modifiable = List ℕ;
  Executable = List ℕ;
  create = [];
  append = λ g c. g ++ c ∷ [];
  finalize = λ g. g;
  recorded = λ g. g;
  commands = λ e. e;
  recorded-create = refl;
  recorded-append = λ g c. refl;
  commands-finalize = λ g. refl;
}

abbrev made : Impl list_api
made = record {
  supported = true;
  modifiable = [];
  executable = none;
  is_recording = false;
  calls = [];
}

made-IsValid : IsValid list_api made
made-IsValid = record {
  exclusive = λ e. refl;
  gated = λ e. refl;
  fresh = λ e f. refl;
  finished = λ e f. cc;
}

Reach-IsValid_example : IsValid list_api (capture_begin list_api (construct list_api true)).0
Reach-IsValid_example = Reach-IsValid list_api (later start (called begin))

call-faults_example :
    ((m : Method) (f : Fault) → (call list_api m made).1 ≡ some f → (call list_api m made).0 ≡ made)
    × (((call list_api begin made).1 ≡ none)
        ↔ ((made.supported ≡ true) × (made.is_recording ≡ false) × (made.executable ≡ none)))
    × (((call list_api finish made).1 ≡ none) ↔ (made.is_recording ≡ true))
    × (((call list_api replayed made).1 ≡ none) ↔ (made.executable ≢ none))
    × ((call list_api synchronized made).1 ≡ none)
    × (((call list_api cleared made).1 ≡ none) ↔ (made.is_recording ≡ false))
call-faults_example = call-faults list_api made

abbrev captured : Impl list_api
captured = capture list_api (7 ∷ 8 ∷ []) made

replay-capture_example :
    (e : List ℕ) × (e ≡ 7 ∷ 8 ∷ [])
    × ((call list_api replayed captured).1 ≡ none)
    × ((call list_api replayed captured).0.calls
        ≡ run_graph e ∷ end_recording ∷ begin_recording ∷ wait ∷ [])
replay-capture_example = replay-capture list_api made made-IsValid refl refl refl (7 ∷ 8 ∷ [])

captured_graph : captured.executable ≡ some (7 ∷ 8 ∷ [])
unfolding capture_begin capture_end submit_command
captured_graph = refl
