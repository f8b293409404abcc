-- ===== src/Runtime/Executor/Kept.antt =====
-- executor/index.ts: what each action of an interleaving keeps.
use workflow_engine.Prelude.{
  ◌≡◌, refl, sym, ap, true, false, Option, some, List, [], ◌∷◌, ◌++◌, append_assoc, append_through,
  map, snoc, subst,
}
use workflow_engine.Core.{InvocationEvent}
use workflow_engine.Runtime.EventStore.{EventStore, record_event}
use workflow_engine.Runtime.Executor.{
  Invocation, invoke_result, Turn, idle, running, settled, SandboxState, Action, invoke, begin,
  emit, settle, record_next, answer, Output, recorded, meta_of, widen, on_event, begin_run,
  record_one, log_outputs, commit_outputs, Lifecycle, log_invocation_lifecycle, step, step_in,
}
use workflow_engine.Runtime.Executor.Runs.{
  Runs, done, step_then, invoked, outcomes, stamped, recorded_of, recorded_of-append, callers,
  results, answers-append, state, meta_in, unsettled, in_turn, in_result, is_running, IsQuiet,
  IsSound, IfSome, one_recorded,
}

module _ {V I : Type 0} where
  -- The events that are recorded or wait to be, the calls and the results are, after actions, those of
  -- before and of the actions.
  pub record Kept (s : SandboxState V I) (now later : List (Action V)) (t : SandboxState V I)
      (os : List (Output V I)) : Type 0 where
    pub sound : IsSound t
    pub events :
        recorded_of os
          ++ (t.emit_tail
              ++ stamped (unsettled t.turn t.queue ++ invoked later) (is_running t.turn) later)
        ≡ s.emit_tail
          ++ stamped
              (unsettled s.turn s.queue ++ invoked (now ++ later))
              (is_running s.turn)
              (now ++ later)
    pub calls :
        callers os ++ (in_turn t.turn ++ (t.queue ++ invoked later))
        ≡ in_turn s.turn ++ (s.queue ++ invoked (now ++ later))
    pub values :
        results os ++ (in_result t.turn ++ map invoke_result (outcomes later))
        ≡ in_result s.turn ++ map invoke_result (outcomes (now ++ later))

  -- A call joins the end of the queue.
  invoke-Kept :
      (turn : Turn V I) (i : Invocation V) (later : List (Action V)) (es : List (InvocationEvent V))
      (q : List (Invocation V)) (store : EventStore V)
      → IsQuiet turn es
      → Kept
          (state (meta_in turn) es turn q store)
          (invoke i ∷ [])
          later
          (state (meta_in turn) es turn (snoc q i) store)
          []
  invoke-Kept idle i later es q store h = record {
    sound = record { meta = refl; quiet = h };
    events = ap (λ is. es ++ stamped is false later) (append_assoc q (i ∷ []) (invoked later));
    calls = append_assoc q (i ∷ []) (invoked later);
    values = refl;
  }
  invoke-Kept (running j) i later es q store h = record {
    sound = record { meta = refl; quiet = tt };
    events = ap (λ is. es ++ stamped (j ∷ is) true later) (append_assoc q (i ∷ []) (invoked later));
    calls = ap (◌∷◌ j) (append_assoc q (i ∷ []) (invoked later));
    values = refl;
  }
  invoke-Kept (settled j r) i later es q store h = record {
    sound = record { meta = refl; quiet = tt };
    events = ap (λ is. es ++ stamped is false later) (append_assoc q (i ∷ []) (invoked later));
    calls = ap (◌∷◌ j) (append_assoc q (i ∷ []) (invoked later));
    values = refl;
  }

  -- A record takes the first event off.
  record-Kept :
      (turn : Turn V I) (later : List (Action V)) (e : InvocationEvent V)
      (es : List (InvocationEvent V)) (q : List (Invocation V)) (store next : EventStore V)
      (b : Option (List (InvocationEvent V))) (l : Option Lifecycle)
      → IsQuiet turn (e ∷ es)
      → Kept
          (state (meta_in turn) (e ∷ es) turn q store)
          (record_next ∷ [])
          later
          (state (meta_in turn) es turn q next)
          (recorded e ∷ commit_outputs b ++ log_outputs e l)
  record-Kept idle later e es q store next b l h = absurd (cc h)
  record-Kept (running i) later e es q store next b l h =
      let (one, (callers_none, results_none)) = one_recorded I e b l in
      record {
        sound = record { meta = refl; quiet = tt };
        events = rw one refl;
        calls = rw callers_none refl;
        values = rw results_none refl;
      }
  record-Kept (settled i r) later e es q store next b l h =
      let (one, (callers_none, results_none)) = one_recorded I e b l in
      record {
        sound = record { meta = refl; quiet = tt };
        events = rw one refl;
        calls = rw callers_none refl;
        values = rw results_none refl;
      }

  step-Kept :
      (turn : Turn V I) (a : Action V) (later : List (Action V)) (es : List (InvocationEvent V))
      (q : List (Invocation V)) (store : EventStore V)
      → IsQuiet turn es
      → IfSome
          (Kept (state (meta_in turn) es turn q store) (a ∷ []) later)
          (step a (state (meta_in turn) es turn q store))
  unfolding step step_in on_event begin_run record_one
  step-Kept turn (invoke i) later es q store h = invoke-Kept turn i later es q store h
  step-Kept turn record_next later [] q store h = tt
  step-Kept turn record_next later (e ∷ es) q store h =
      let next = record_event e store in
      record-Kept turn later e es q store next.0 next.1 (log_invocation_lifecycle e) h
  step-Kept idle begin later es [] store h = tt
  step-Kept idle begin later es (i ∷ q) store h = record {
    sound = record { meta = refl; quiet = tt };
    events = refl;
    calls = refl;
    values = refl;
  }
  step-Kept idle (emit e) later es q store h = record {
    sound = record { meta = refl; quiet = h };
    events = refl;
    calls = refl;
    values = refl;
  }
  step-Kept idle (settle o) later es q store h = tt
  step-Kept idle answer later es q store h = tt
  step-Kept (running i) begin later es q store h = tt
  step-Kept (running i) (emit e) later es q store h = record {
    sound = record { meta = refl; quiet = tt };
    events =
        append_assoc es (widen (meta_of i) e ∷ []) (stamped (i ∷ (q ++ invoked later)) true later);
    calls = refl;
    values = refl;
  }
  step-Kept (running i) (settle o) later es q store h = record {
    sound = record { meta = refl; quiet = tt };
    events = refl;
    calls = refl;
    values = refl;
  }
  step-Kept (running i) answer later es q store h = tt
  step-Kept (settled i r) begin later es q store h = tt
  step-Kept (settled i r) (emit e) later es q store h = record {
    sound = record { meta = refl; quiet = tt };
    events = refl;
    calls = refl;
    values = refl;
  }
  step-Kept (settled i r) (settle o) later es q store h = tt
  step-Kept (settled i r) answer later [] q store h = record {
    sound = record { meta = refl; quiet = refl };
    events = refl;
    calls = refl;
    values = refl;
  }
  step-Kept (settled i r) answer later (e ∷ es) q store h = tt

  step-Kept_sound :
      (s t : SandboxState V I) (a : Action V) (later : List (Action V)) (os : List (Output V I))
      → IsSound s
      → step a s ≡ some (t, os)
      → Kept s (a ∷ []) later t os
  step-Kept_sound s t a later os h e =
      let kept = step-Kept s.turn a later s.emit_tail s.queue s.store h.quiet in
      let here : s ≡ state (meta_in s.turn) s.emit_tail s.turn s.queue s.store =
        ap (λ m. state m s.emit_tail s.turn s.queue s.store) h.meta in
      subst (IfSome (Kept s (a ∷ []) later)) e
        (subst (λ r. IfSome (Kept r (a ∷ []) later) (step a r)) (sym here) kept)

  pub runs-Kept :
      (s u : SandboxState V I) (acts later : List (Action V)) (os : List (Output V I))
      → IsSound s
      → Runs s acts u os
      → Kept s acts later u os
  runs-Kept s u acts later os h done = record {
    sound = h;
    events = refl;
    calls = refl;
    values = refl;
  }
  runs-Kept s u acts later os h
        (step_then {t = t} {a = a} {acts = rest} {os = first} {ps = more} e run) =
      let now = step-Kept_sound s t a (rest ++ later) first h e in
      let after = runs-Kept t u rest later more now.sound run in
      let joined = answers-append first more in
      record {
        sound = after.sound;
        events =
            append_through _ (recorded_of first) _ _ _ _ (recorded_of-append first more)
              after.events now.events;
        calls = append_through _ (callers first) _ _ _ _ joined.0 after.calls now.calls;
        values = append_through _ (results first) _ _ _ _ joined.1 after.values now.values;
      }
