-- ===== src/Runtime/Executor/Progress.antt =====
-- executor/run-queue.ts: a run that fails does not stop the calls behind it.
use workflow_engine.Prelude.{◌≡◌, refl, ap, ◌∙◌, sym, subst, map, none, List, [], ◌∷◌, ◌++◌}
use workflow_engine.Core.{InvocationEvent}
use workflow_engine.Runtime.EventStore.{EventStore, record_event}
use workflow_engine.Runtime.Executor.{
  Invocation, RunOutcome, InvokeResult, invoke_result, Turn, idle, running, settled, SandboxState,
  Action, Output, begin, settle, record_next, answer, recorded, answered, step, step_in, begin_run,
  record_one, commit_outputs, log_outputs, log_invocation_lifecycle, init_state,
}
use workflow_engine.Runtime.Executor.Runs.{
  Runs, done, step_then, callers, answers-append, state, meta_in, outcomes, unsettled, in_turn,
  IsQuiet, one_recorded,
}
use workflow_engine.Runtime.Executor.Kept.{runs-Kept}
use workflow_engine.Runtime.Executor.Turns.{init-IsSound}

module _ {V I : Type 0} where
  -- Actions that answer these calls, in this order, with these outcomes, and leave nothing to do.
  pub record Answers (s : SandboxState V I) (is : List (Invocation V)) (ends : List (RunOutcome V))
      : Type 0 where
    pub actions : List (Action V)
    pub last : SandboxState V I
    pub outputs : List (Output V I)
    pub run : Runs s actions last outputs
    pub answers : callers outputs ≡ is
    pub settles : outcomes actions ≡ ends
    pub at_rest : last.turn ≡ idle
    pub none_waits : last.queue ≡ []

  module _ (outcome : Invocation V → RunOutcome V) where
    idle_answered :
        (q : List (Invocation V)) (store : EventStore V)
        → Answers (state none [] idle q store) q (map outcome q)
    unfolding step step_in begin_run
    idle_answered [] store = record {
      actions = [];
      last = _;
      outputs = [];
      run = done;
      answers = refl;
      settles = refl;
      at_rest = refl;
      none_waits = refl;
    }
    idle_answered (i ∷ q) store =
        let rest = idle_answered q store in
        record {
          actions = begin ∷ settle (outcome i) ∷ answer ∷ rest.actions;
          last = rest.last;
          outputs = answered i (invoke_result (outcome i)) ∷ rest.outputs;
          run = step_then refl (step_then refl (step_then refl rest.run));
          answers = ap (◌∷◌ i) rest.answers;
          settles = ap (◌∷◌ (outcome i)) rest.settles;
          at_rest = rest.at_rest;
          none_waits = rest.none_waits;
        }

    settled_answered :
        (i : Invocation V) (r : InvokeResult V I) (es : List (InvocationEvent V))
        (q : List (Invocation V)) (store : EventStore V)
        → Answers (state none es (settled i r) q store) (i ∷ q) (map outcome q)
    unfolding step step_in record_one
    settled_answered i r [] q store =
        let rest = idle_answered q store in
        record {
          actions = answer ∷ rest.actions;
          last = rest.last;
          outputs = answered i r ∷ rest.outputs;
          run = step_then refl rest.run;
          answers = ap (◌∷◌ i) rest.answers;
          settles = rest.settles;
          at_rest = rest.at_rest;
          none_waits = rest.none_waits;
        }
    settled_answered i r (e ∷ es) q store =
        let next = record_event e store in
        let rest = settled_answered i r es q next.0 in
        let outs = commit_outputs next.1 ++ log_outputs e (log_invocation_lifecycle e) in
        record {
          actions = record_next ∷ rest.actions;
          last = rest.last;
          outputs = (recorded e ∷ outs) ++ rest.outputs;
          run = step_then refl rest.run;
          answers =
              (answers-append outs rest.outputs).0
              ∙ ap (λ is. is ++ callers rest.outputs)
                  (one_recorded I e next.1 (log_invocation_lifecycle e)).1.0
              ∙ rest.answers;
          settles = rest.settles;
          at_rest = rest.at_rest;
          none_waits = rest.none_waits;
        }

    running_answered :
        (i : Invocation V) (es : List (InvocationEvent V)) (q : List (Invocation V))
        (store : EventStore V)
        → Answers
            (state (meta_in {I = I} (running i)) es (running i) q store)
            (i ∷ q)
            (map outcome (i ∷ q))
    unfolding step step_in
    running_answered i es q store =
        let rest = settled_answered i (invoke_result (outcome i)) es q store in
        record {
          actions = settle (outcome i) ∷ rest.actions;
          last = rest.last;
          outputs = rest.outputs;
          run = step_then refl rest.run;
          answers = rest.answers;
          settles = ap (◌∷◌ (outcome i)) rest.settles;
          at_rest = rest.at_rest;
          none_waits = rest.none_waits;
        }

    sound_answered :
        (turn : Turn V I) (es : List (InvocationEvent V)) (q : List (Invocation V))
        (store : EventStore V)
        → IsQuiet turn es
        → Answers
            (state (meta_in turn) es turn q store)
            (in_turn turn ++ q)
            (map outcome (unsettled turn q))
    sound_answered idle es q store h = rw h (idle_answered q store)
    sound_answered (running i) es q store h = running_answered i es q store
    sound_answered (settled i r) es q store h = settled_answered i r es q store

    -- From every state that an interleaving reaches, and whatever outcome each run has, a failure or a
    -- rejection included, there are actions that answer the call in hand and then all calls that
    -- wait, in their order, after which nothing runs and nothing waits.
    pub every_call_answered :
        (acts : List (Action V)) (u : SandboxState V I) (os : List (Output V I))
        → Runs init_state acts u os
        → Answers u (in_turn u.turn ++ u.queue) (map outcome (unsettled u.turn u.queue))
    every_call_answered acts u os run =
        let sound = (runs-Kept init_state u acts [] os (init-IsSound init_state refl) run).sound in
        let here : state (meta_in u.turn) u.emit_tail u.turn u.queue u.store ≡ u =
          ap (λ m. state m u.emit_tail u.turn u.queue u.store) (sym sound.meta) in
        subst (λ s. Answers s (in_turn u.turn ++ u.queue) (map outcome (unsettled u.turn u.queue)))
          here (sound_answered u.turn u.emit_tail u.queue u.store sound.quiet)
