-- ===== src/Runtime/Executor/Runs.antt =====
-- executor/index.ts: interleavings of the actions of one sandbox, and what is read off them.
use workflow_engine.Prelude.{
  ◌≡◌, refl, ap, Bool, true, false, Option, none, some, List, [], ◌∷◌, ◌++◌, tail, head?,
}
use workflow_engine.Core.{InvocationEvent, SandboxEvent}
use workflow_engine.Runtime.EventStore.{EventStore}
use workflow_engine.Runtime.Executor.{
  Invocation, InvocationMeta, RunOutcome, InvokeResult, Turn, idle, running, settled, SandboxState,
  Action, invoke, begin, emit, settle, record_next, answer, Output, recorded, handed_over, logged,
  answered, meta_of, widen, log_outputs, commit_outputs, Lifecycle, step,
}

module _ {V : Type 0} where
  abbrev pub invoked : List (Action V) → List (Invocation V)
  invoked [] = []
  invoked (invoke i ∷ acts) = i ∷ invoked acts
  invoked (begin ∷ acts) = invoked acts
  invoked (emit e ∷ acts) = invoked acts
  invoked (settle o ∷ acts) = invoked acts
  invoked (record_next ∷ acts) = invoked acts
  invoked (answer ∷ acts) = invoked acts

  abbrev pub stamp : Bool → Option (Invocation V) → SandboxEvent V → List (InvocationEvent V)
  stamp true (some i) e = widen (meta_of i) e ∷ []
  stamp true none e = []
  stamp false i e = []

  -- The events of the actions: the calls take their runs in the order in which they are made, and an
  -- event that comes during a run is of that call.
  abbrev pub stamped : List (Invocation V) → Bool → List (Action V) → List (InvocationEvent V)
  stamped calls now [] = []
  stamped calls now (begin ∷ acts) = stamped calls true acts
  stamped calls now (settle o ∷ acts) = stamped (tail calls) false acts
  stamped calls now (emit e ∷ acts) = stamp now (head? calls) e ++ stamped calls now acts
  stamped calls now (invoke i ∷ acts) = stamped calls now acts
  stamped calls now (record_next ∷ acts) = stamped calls now acts
  stamped calls now (answer ∷ acts) = stamped calls now acts

  abbrev pub outcomes : List (Action V) → List (RunOutcome V)
  outcomes [] = []
  outcomes (settle o ∷ acts) = o ∷ outcomes acts
  outcomes (invoke i ∷ acts) = outcomes acts
  outcomes (begin ∷ acts) = outcomes acts
  outcomes (emit e ∷ acts) = outcomes acts
  outcomes (record_next ∷ acts) = outcomes acts
  outcomes (answer ∷ acts) = outcomes acts

module _ {V I : Type 0} where
  -- The actions of an interleaving, with the outputs that they have.
  pub data Runs
      : SandboxState V I → List (Action V) → SandboxState V I → List (Output V I) → Type 0 where
    done : {s : SandboxState V I} → Runs s [] s []
    step_then :
        {s t u : SandboxState V I} {a : Action V} {acts : List (Action V)}
        {os ps : List (Output V I)}
        → step a s ≡ some (t, os)
        → Runs t acts u ps
        → Runs s (a ∷ acts) u (os ++ ps)

  abbrev pub recorded_of : List (Output V I) → List (InvocationEvent V)
  recorded_of [] = []
  recorded_of (recorded e ∷ os) = e ∷ recorded_of os
  recorded_of (handed_over b ∷ os) = recorded_of os
  recorded_of (logged l e ∷ os) = recorded_of os
  recorded_of (answered i r ∷ os) = recorded_of os

  pub recorded_of-append :
      (os ps : List (Output V I)) → recorded_of (os ++ ps) ≡ recorded_of os ++ recorded_of ps
  recorded_of-append [] ps = refl
  recorded_of-append (recorded e ∷ os) ps = ap (◌∷◌ e) (recorded_of-append os ps)
  recorded_of-append (handed_over b ∷ os) ps = recorded_of-append os ps
  recorded_of-append (logged l e ∷ os) ps = recorded_of-append os ps
  recorded_of-append (answered i r ∷ os) ps = recorded_of-append os ps

  abbrev pub callers : List (Output V I) → List (Invocation V)
  callers [] = []
  callers (answered i r ∷ os) = i ∷ callers os
  callers (recorded e ∷ os) = callers os
  callers (handed_over b ∷ os) = callers os
  callers (logged l e ∷ os) = callers os

  abbrev pub results : List (Output V I) → List (InvokeResult V I)
  results [] = []
  results (answered i r ∷ os) = r ∷ results os
  results (recorded e ∷ os) = results os
  results (handed_over b ∷ os) = results os
  results (logged l e ∷ os) = results os

  pub answers-append :
      (os ps : List (Output V I))
      → (callers (os ++ ps) ≡ callers os ++ callers ps)
        × (results (os ++ ps) ≡ results os ++ results ps)
  answers-append [] ps = (refl, refl)
  answers-append (recorded e ∷ os) ps = answers-append os ps
  answers-append (handed_over b ∷ os) ps = answers-append os ps
  answers-append (logged l e ∷ os) ps = answers-append os ps
  answers-append (answered i r ∷ os) ps =
      let (c, d) = answers-append os ps in (ap (◌∷◌ i) c, ap (◌∷◌ r) d)

  abbrev pub state :
      Option InvocationMeta
      → List (InvocationEvent V)
      → Turn V I
      → List (Invocation V)
      → EventStore V
      → SandboxState V I
  state meta es turn q store = record {
    active_meta = meta;
    emit_tail = es;
    turn = turn;
    queue = q;
    store = store;
  }

  -- What is set in a turn, the calls that have not settled, and whether one runs.
  abbrev pub meta_in : Turn V I → Option InvocationMeta
  meta_in idle = none
  meta_in (running i) = some (meta_of i)
  meta_in (settled i r) = none

  abbrev pub unsettled : Turn V I → List (Invocation V) → List (Invocation V)
  unsettled idle q = q
  unsettled (running i) q = i ∷ q
  unsettled (settled i r) q = q

  abbrev pub in_turn : Turn V I → List (Invocation V)
  in_turn idle = []
  in_turn (running i) = i ∷ []
  in_turn (settled i r) = i ∷ []

  abbrev pub in_result : Turn V I → List (InvokeResult V I)
  in_result idle = []
  in_result (running i) = []
  in_result (settled i r) = r ∷ []

  abbrev pub is_running : Turn V I → Bool
  is_running idle = false
  is_running (running i) = true
  is_running (settled i r) = false

  abbrev pub IsQuiet : Turn V I → List (InvocationEvent V) → Type 0
  IsQuiet idle es = es ≡ []
  IsQuiet (running i) es = Unit
  IsQuiet (settled i r) es = Unit

  -- Metadata is there during a run only, and between the turns nothing waits to be recorded.
  pub record IsSound (s : SandboxState V I) : Type 0 where
    pub meta : s.active_meta ≡ meta_in s.turn
    pub quiet : IsQuiet s.turn s.emit_tail

  -- A predicate of the result of a step, where there is one.
  abbrev pub IfSome :
      (SandboxState V I → List (Output V I) → Type 0)
      → Option (SandboxState V I × List (Output V I))
      → Type 0
  IfSome P none = Unit
  IfSome P (some r) = P r.0 r.1

-- The outputs of a record answer nobody.
module _ {V : Type 0} (I : Type 0) where
  pub one_recorded :
      (e : InvocationEvent V) (b : Option (List (InvocationEvent V))) (l : Option Lifecycle)
      → (recorded_of {I = I} (commit_outputs b ++ log_outputs e l) ≡ [])
        × ((callers {I = I} (commit_outputs b ++ log_outputs e l) ≡ [])
            × (results {I = I} (commit_outputs b ++ log_outputs e l) ≡ []))
  unfolding commit_outputs log_outputs
  one_recorded e none none = (refl, (refl, refl))
  one_recorded e none (some l) = (refl, (refl, refl))
  one_recorded e (some b) none = (refl, (refl, refl))
  one_recorded e (some b) (some l) = (refl, (refl, refl))
