-- ===== src/Runtime/Executor/Turns.antt =====
-- executor/index.ts and run-queue.ts: whose events are recorded, and in which order calls are answered.
use workflow_engine.Prelude.{
  ◌≡◌, refl, sym, ap, ◌∙◌, false, some, List, [], ◌∷◌, ◌++◌, append-nil, map, subst,
}
use workflow_engine.Core.{InvocationEvent}
use workflow_engine.Runtime.Executor.{
  invoke_result, Turn, idle, running, settled, SandboxState, Action, answer, Output, init_state,
  step, step_in,
}
use workflow_engine.Runtime.Executor.Runs.{
  Runs, invoked, outcomes, stamped, recorded_of, callers, results, in_turn, in_result, IsSound,
}
use workflow_engine.Runtime.Executor.Kept.{runs-Kept}

module _ {V I : Type 0} where
  pub init-IsSound : (s : SandboxState V I) → s ≡ init_state → IsSound s
  unfolding init_state
  init-IsSound s h = subst IsSound (sym h) (record { meta = refl; quiet = refl })

  -- The events that have been recorded, followed by those that wait for it, as `widen` makes them.
  pub recorded_widened :
      (acts : List (Action V)) (u : SandboxState V I) (os : List (Output V I))
      → Runs init_state acts u os
      → recorded_of os ++ u.emit_tail ≡ stamped (invoked acts) false acts
  unfolding init_state
  recorded_widened acts u os run =
      let kept = runs-Kept init_state u acts [] os (init-IsSound init_state refl) run in
      let events = rw (append-nil acts) at kept.events in
      ap (recorded_of os ++◌) (sym (append-nil u.emit_tail)) ∙ events

  -- In every interleaving, the calls that have been answered, followed by the one in hand and those
  -- that wait, are the calls made, in their order; and the answers, followed by the one that is to be
  -- given, are those that the outcomes of the runs stand for, in their order.
  pub answered_in_order :
      (acts : List (Action V)) (u : SandboxState V I) (os : List (Output V I))
      → Runs init_state acts u os
      → (callers os ++ (in_turn u.turn ++ u.queue) ≡ invoked acts)
        × (results os ++ in_result u.turn ≡ map invoke_result (outcomes acts))
  unfolding init_state
  answered_in_order acts u os run =
      let kept = runs-Kept init_state u acts [] os (init-IsSound init_state refl) run in
      (
        ap (λ q. callers os ++ (in_turn u.turn ++ q)) (sym (append-nil u.queue))
            ∙ (rw (append-nil acts) at kept.calls),
        ap (results os ++◌) (sym (append-nil (in_result u.turn)))
            ∙ (rw (append-nil acts) at kept.values),
      )

  answer_quiet :
      (turn : Turn V I) (u t : SandboxState V I) (ps : List (Output V I))
      → step_in turn answer u ≡ some (t, ps)
      → u.emit_tail ≡ []
  unfolding step_in
  answer_quiet idle u t ps e = absurd (cc e)
  answer_quiet (running i) u t ps e = absurd (cc e)
  answer_quiet (settled i r) u t ps e = emptied u.emit_tail refl
    where
      emptied : (es : List (InvocationEvent V)) → u.emit_tail ≡ es → u.emit_tail ≡ []
      emptied [] h = h
      emptied (x ∷ xs) h = absurd (cc (rw h at e))

  -- Where a call is answered, all events that the sandbox sent during its run and the runs before
  -- have been recorded.
  pub answered_after_records :
      (acts : List (Action V)) (u t : SandboxState V I) (os ps : List (Output V I))
      → Runs init_state acts u os
      → step answer u ≡ some (t, ps)
      → recorded_of os ≡ stamped (invoked acts) false acts
  unfolding step
  answered_after_records acts u t os ps run e =
      let empty = answer_quiet u.turn u t ps e in
      sym (append-nil (recorded_of os))
      ∙ ap (recorded_of os ++◌) (sym empty)
      ∙ recorded_widened acts u os run
