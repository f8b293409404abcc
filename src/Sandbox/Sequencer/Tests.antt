-- ===== src/Sandbox/Sequencer/Tests.antt =====
-- Runs of the sequencer at concrete wire events.
use workflow_engine.Core.{SandboxEvent}
use workflow_engine.Prelude.{
  ℕ, ◌≡◌, refl, String, Option, none, some, List, [], ◌∷◌, ◌++◌, map, nat_eq, arith,
}
use workflow_engine.Sandbox.Sequencer.{
  Sequencer, WireEvent, WireFraming, leaf, open_frame, close_frame, start, frame, next,
  handle_close, finish, synthesise, synth_event, build_sandbox_event, create_run_sequencer,
  synth_close_kind, before_dot, drop_frame, splice_last, contains, pop,
}
use workflow_engine.Sandbox.Sequencer.Session.{run, session, Numbered, session-Numbered}
use workflow_engine.Sandbox.Sequencer.Frames.{FreshOpens}
use workflow_engine.Sandbox.Sequencer.Balance.{
  count, opened, closed, refs_of, frames_balanced, finish_innermost_first,
}
use workflow_engine.Sandbox.Sequencer.Windows.{session_independent}

wire : String → String → WireFraming → WireEvent ℕ
wire kind name framing = record {
  kind = kind;
  name = name;
  ts = 7;
  at = "now";
  input = none;
  output = none;
  error = none;
  framing = framing;
}

-- Two fetches run at once; the outer one closes first, and one frame is left open.
abbrev wires : List (WireEvent ℕ)
wires =
    wire "trigger.request" "t" (open_frame 0)
    ∷ wire "system.request" "fetch" (open_frame 1)
    ∷ wire "system.request" "fetch" (open_frame 2)
    ∷ wire "system.call" "log" leaf
    ∷ wire "system.response" "fetch" (close_frame 1)
    ∷ wire "system.response" "fetch" (close_frame 9)
    ∷ []

-- A state that an earlier run left behind.
abbrev leftover : Sequencer
leftover = record create_run_sequencer { seq = 5; ref_stack = 4 ∷ []; last_seen_at = "before" }

wires-FreshOpens : FreshOpens (start leftover).0 wires
unfolding wire next start frame handle_close
wires-FreshOpens = omega arith

summary : SandboxEvent ℕ → String × Option ℕ
summary e = (e.kind, e.ref)

session_test :
    map summary (session leftover wires (some "died"))
    ≡ ("trigger.request", none)
      ∷ ("system.request", some 0)
      ∷ ("system.request", some 1)
      ∷ ("system.call", some 2)
      ∷ ("system.response", some 1)
      ∷ ("system.error", some 2)
      ∷ ("trigger.error", some 0)
      ∷ []
unfolding summary session run start next frame handle_close finish synthesise synth_event wire
    synth_close_kind before_dot drop_frame splice_last contains pop build_sandbox_event
    create_run_sequencer
session_test = refl

session-Numbered_example : Numbered 0 (session leftover wires (some "died"))
session-Numbered_example = session-Numbered leftover wires (some "died")

finish_innermost_first_example :
    refs_of (finish {V = ℕ} (run (start leftover).0 wires).0 (some "died")).1 ≡ 2 ∷ 0 ∷ []
unfolding run start next frame handle_close wire drop_frame splice_last contains pop
    create_run_sequencer
finish_innermost_first_example = finish_innermost_first leftover wires "died" wires-FreshOpens

frames_balanced_example :
    count 2 (opened (start leftover).0 wires)
    ≡ count 2 (
        closed (start leftover).0 wires
        ++ refs_of (finish {V = ℕ} (run (start leftover).0 wires).0 (some "died")).1)
frames_balanced_example = frames_balanced leftover wires "died" 2 wires-FreshOpens

session_independent_example :
    session leftover wires (some "died") ≡ session create_run_sequencer wires (some "died")
session_independent_example = session_independent leftover create_run_sequencer wires (some "died")
