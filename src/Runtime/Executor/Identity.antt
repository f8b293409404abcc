-- ===== src/Runtime/Executor/Identity.antt =====
-- executor/index.ts: whose identity and provenance the recorded events carry.
use workflow_engine.Prelude.{
  ◌≡◌, refl, sym, subst, Bool, true, false, Option, none, some, List, [], ◌∷◌, ◌++◌, tail, head?,
  ◌==◌, string_eq, if◌then◌else◌, Option-cases, inl, inr, Bool-cases, keep, String,
}
use workflow_engine.Core.{InvocationEvent, SandboxEvent, DispatchMeta, DispatchSource}
use workflow_engine.Runtime.EventStore.Waiting.{of_id}
use workflow_engine.Runtime.Executor.{
  Invocation, SandboxState, Action, invoke, begin, emit, settle, record_next, answer, Output,
  init_state, meta_of, widen,
}
use workflow_engine.Runtime.Executor.Runs.{Runs, invoked, stamp, stamped, recorded_of}
use workflow_engine.Runtime.Executor.Turns.{recorded_widened}

-- Where a call comes from: a trigger, unless the call says otherwise.
abbrev pub provenance : Option DispatchMeta → DispatchMeta
provenance none = record { source = DispatchSource.trigger; user = none }
provenance (some dispatch) = dispatch

module _ {V : Type 0} where
  -- The recorded event is that of the sandbox with the identity of the call, and has the call's
  -- provenance if and only if it is the request of a trigger.
  pub record IsStampedBy (call : Invocation V) (sent : SandboxEvent V) (e : InvocationEvent V)
      : Type 0 where
    pub event : e.event ≡ sent
    pub id : e.id ≡ call.invocation_id
    pub owner : e.owner ≡ call.owner
    pub repo : e.repo ≡ call.repo
    pub workflow : e.workflow ≡ call.workflow.name
    pub workflow_sha : e.workflow_sha ≡ call.workflow.sha
    pub dispatch :
        e.dispatch
        ≡ (if sent.kind == "trigger.request" then some (provenance call.dispatch) else none)

  -- One recorded event for each event that was sent, in the order of the sending.
  abbrev pub AllStamped : List (Invocation V × SandboxEvent V) → List (InvocationEvent V) → Type 0
  AllStamped [] [] = Unit
  AllStamped [] (e ∷ es) = ⊥
  AllStamped (p ∷ ps) [] = ⊥
  AllStamped (p ∷ ps) (e ∷ es) = IsStampedBy p.0 p.1 e × AllStamped ps es

  -- An event that comes during the run of a call, with this call.
  abbrev pub sent_by :
      Bool → Option (Invocation V) → SandboxEvent V → List (Invocation V × SandboxEvent V)
  sent_by true (some call) e = (call, e) ∷ []
  sent_by true none e = []
  sent_by false call e = []

  -- The events that the sandbox sends during runs, each with the call whose run it is: the calls take
  -- their runs in the order in which they are made.
  abbrev pub sent_during :
      List (Invocation V) → Bool → List (Action V) → List (Invocation V × SandboxEvent V)
  sent_during calls now [] = []
  sent_during calls now (begin ∷ acts) = sent_during calls true acts
  sent_during calls now (settle o ∷ acts) = sent_during (tail calls) false acts
  sent_during calls now (emit e ∷ acts) = sent_by now (head? calls) e ++ sent_during calls now acts
  sent_during calls now (invoke i ∷ acts) = sent_during calls now acts
  sent_during calls now (record_next ∷ acts) = sent_during calls now acts
  sent_during calls now (answer ∷ acts) = sent_during calls now acts

  widen-IsStampedBy :
      (call : Invocation V) (e : SandboxEvent V) → IsStampedBy call e (widen (meta_of call) e)
  unfolding widen meta_of
  widen-IsStampedBy call e = record {
    event = refl;
    id = refl;
    owner = refl;
    repo = refl;
    workflow = refl;
    workflow_sha = refl;
    dispatch = elim (Option-cases call.dispatch) [ inl n ↦ rw n refl | inr (d, h) ↦ rw h refl ];
  }

  stamp-AllStamped :
      (now : Bool) (call : Option (Invocation V)) (e : SandboxEvent V)
      (ps : List (Invocation V × SandboxEvent V)) (es : List (InvocationEvent V))
      → AllStamped ps es
      → AllStamped (sent_by now call e ++ ps) (stamp now call e ++ es)
  stamp-AllStamped true (some call) e ps es h = (widen-IsStampedBy call e, h)
  stamp-AllStamped true none e ps es h = h
  stamp-AllStamped false call e ps es h = h

  pub stamped-AllStamped :
      (calls : List (Invocation V)) (now : Bool) (acts : List (Action V))
      → AllStamped (sent_during calls now acts) (stamped calls now acts)
  stamped-AllStamped calls now [] = tt
  stamped-AllStamped calls now (begin ∷ acts) = stamped-AllStamped calls true acts
  stamped-AllStamped calls now (settle o ∷ acts) = stamped-AllStamped (tail calls) false acts
  stamped-AllStamped calls now (emit e ∷ acts) =
      stamp-AllStamped now (head? calls) e (sent_during calls now acts) (stamped calls now acts)
        (stamped-AllStamped calls now acts)
  stamped-AllStamped calls now (invoke i ∷ acts) = stamped-AllStamped calls now acts
  stamped-AllStamped calls now (record_next ∷ acts) = stamped-AllStamped calls now acts
  stamped-AllStamped calls now (answer ∷ acts) = stamped-AllStamped calls now acts

  -- The events that were sent in the runs of calls with an id.
  abbrev pub sent_for :
      String → List (Invocation V × SandboxEvent V) → List (Invocation V × SandboxEvent V)
  sent_for id = keep (λ p. p.0.invocation_id == id)

  pub of_id-AllStamped :
      (id : String) (ps : List (Invocation V × SandboxEvent V)) (es : List (InvocationEvent V))
      → AllStamped ps es
      → AllStamped (sent_for id ps) (of_id id es)
  of_id-AllStamped id [] [] h = tt
  of_id-AllStamped id [] (e ∷ es) h = absurd h
  of_id-AllStamped id (p ∷ ps) [] h = absurd h
  of_id-AllStamped id (p ∷ ps) (e ∷ es) (one, rest) =
      let later = of_id-AllStamped id ps es rest in
      elim (Bool-cases (p.0.invocation_id == id)) [
        | inl t ↦ (let own : (e.id == id) ≡ true = rw one.id t in rw (t, own) (one, later))
        | inr f ↦ (let other : (e.id == id) ≡ false = rw one.id f in rw (f, other) later)
      ]

module _ {V I : Type 0} where
  -- In every interleaving, the events that have been recorded, followed by those that wait for it, are one
  -- for each event that the sandbox sent during runs, in their order: that event with the id, the
  -- owner, the repo and the workflow of the call whose run it was, where the runs take the calls in the order
  -- in which they were made. Requests of triggers carry the call's provenance, which is "trigger" if the
  -- call gives none, and other events carry none.
  pub recorded-stamped :
      (acts : List (Action V)) (u : SandboxState V I) (os : List (Output V I))
      → Runs init_state acts u os
      → AllStamped (sent_during (invoked acts) false acts) (recorded_of os ++ u.emit_tail)
  recorded-stamped acts u os run =
      subst (AllStamped (sent_during (invoked acts) false acts))
        (sym (recorded_widened acts u os run)) (stamped-AllStamped (invoked acts) false acts)
