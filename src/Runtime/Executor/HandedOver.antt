-- ===== src/Runtime/Executor/HandedOver.antt =====
-- executor/index.ts with event-store.ts: which batches have been handed over when a call is answered.
use workflow_engine.Prelude.{
  ◌≡◌, refl, ap, ◌∙◌, sym, subst, Bool, false, none, some, List, [], ◌∷◌, ◌++◌, append_assoc,
  append-nil, Option, String, Option-cases, inl, inr, true, if◌then◌else◌,
}
use workflow_engine.Core.{InvocationEvent, SandboxEvent}
use workflow_engine.Runtime.EventStore.{EventStore, record_event, create_event_store}
use workflow_engine.Runtime.EventStore.Batches.{records, unfinished, nothing_lost}
use workflow_engine.Runtime.EventStore.Waiting.{batch_events, of_id}
use workflow_engine.Runtime.Executor.{
  is_empty, Turn, idle, running, settled, SandboxState, Action, Output, invoke, begin, emit, settle,
  Lifecycle, Invocation, record_next, answer, recorded, handed_over, logged, answered, step,
  step_in, begin_run, record_one, on_event, commit_outputs, log_outputs, log_invocation_lifecycle,
  init_state,
}
use workflow_engine.Runtime.Executor.Runs.{
  Runs, done, step_then, recorded_of, recorded_of-append, invoked, stamped, IfSome,
}
use workflow_engine.Runtime.Executor.Turns.{answered_after_records}

module _ {V : Type 0} where
  records-append :
      (es fs : List (InvocationEvent V)) (s t u : EventStore V) (b c : List (InvocationEvent V))
      → records es s ≡ (t, b)
      → records fs t ≡ (u, c)
      → records (es ++ fs) s ≡ (u, b ++ c)
  unfolding records
  records-append [] fs s t u b c h k =
      let same : s ≡ t = ap (λ r. r.0) h in
      let empty : [] ≡ b = ap (λ r. r.1) h in
      ap (records fs) same ∙ k ∙ ap (λ xs. (u, xs ++ c)) empty
  records-append (e ∷ es) fs s t u b c h k =
      let next = record_event e s in
      let rest =
        records-append es fs next.0 t u (records es next.0).1 c
          (ap (λ x. (x, (records es next.0).1)) (ap (λ r. r.0) h)) k in
      ap (λ r. (r.0, batch_events next.1 ++ r.1)) rest
      ∙ ap (λ xs. (u, xs))
          (sym (append_assoc (batch_events next.1) (records es next.0).1 c)
            ∙ ap (λ xs. xs ++ c) (ap (λ r. r.1) h))

module _ {V I : Type 0} where
  -- The events of the batches, in the order in which they are handed over.
  abbrev pub handed_of : List (Output V I) → List (InvocationEvent V)
  handed_of [] = []
  handed_of (handed_over b ∷ os) = b ++ handed_of os
  handed_of (recorded e ∷ os) = handed_of os
  handed_of (logged l e ∷ os) = handed_of os
  handed_of (answered i r ∷ os) = handed_of os

  handed_of-append :
      (os ps : List (Output V I)) → handed_of (os ++ ps) ≡ handed_of os ++ handed_of ps
  handed_of-append [] ps = refl
  handed_of-append (handed_over b ∷ os) ps =
      ap (λ bs. b ++ bs) (handed_of-append os ps)
      ∙ sym (append_assoc b (handed_of os) (handed_of ps))
  handed_of-append (recorded e ∷ os) ps = handed_of-append os ps
  handed_of-append (logged l e ∷ os) ps = handed_of-append os ps
  handed_of-append (answered i r ∷ os) ps = handed_of-append os ps

  abbrev IsArchived : EventStore V → SandboxState V I → List (Output V I) → Type 0
  IsArchived store t os = records (recorded_of os) store ≡ (t.store, handed_of os)

  one_committed :
      (e : InvocationEvent V) (s next : EventStore V) (b : Option (List (InvocationEvent V)))
      (l : Option Lifecycle)
      → record_event e s ≡ (next, b)
      → (os : List (Output V I)) → os ≡ recorded e ∷ commit_outputs b ++ log_outputs e l
      → records (recorded_of os) s ≡ (next, handed_of os)
  unfolding records commit_outputs log_outputs
  one_committed e s next none none h os k = rw k (ap (λ r. (r.0, batch_events r.1 ++ [])) h)
  one_committed e s next none (some l) h os k = rw k (ap (λ r. (r.0, batch_events r.1 ++ [])) h)
  one_committed e s next (some b) none h os k = rw k (ap (λ r. (r.0, batch_events r.1 ++ [])) h)
  one_committed e s next (some b) (some l) h os k = rw k (ap (λ r. (r.0, batch_events r.1 ++ [])) h)

  record_one-IsArchived :
      (es : List (InvocationEvent V)) (s : SandboxState V I)
      → IfSome (IsArchived s.store) (record_one es s)
  unfolding record_one
  record_one-IsArchived [] s = tt
  record_one-IsArchived (e ∷ es) s =
      one_committed e s.store (record_event e s.store).0 (record_event e s.store).1
        (log_invocation_lifecycle e) refl _ refl

  begin_run-IsArchived :
      (q : List (Invocation V)) (s : SandboxState V I)
      → IfSome (IsArchived s.store) (elim (begin_run q s) [ none ↦ none | some t ↦ some (t, []) ])
  unfolding begin_run records
  begin_run-IsArchived [] s = tt
  begin_run-IsArchived (i ∷ q) s = refl

  on_event-store : (e : SandboxEvent V) (s : SandboxState V I) → s.store ≡ (on_event e s).store
  unfolding on_event
  on_event-store e s = elim (Option-cases s.active_meta) [
    | inl n ↦ rw (n, on_event) refl
    | inr (m, h) ↦ rw (h, on_event) refl
  ]

  answer-IsArchived :
      (b : Bool) (s t : SandboxState V I) (os : List (Output V I))
      → s.store ≡ t.store
      → recorded_of os ≡ []
      → handed_of os ≡ []
      → IfSome (IsArchived s.store) (if b then some (t, os) else none)
  unfolding records
  answer-IsArchived true s t os h k l = rw (k, l) (ap (λ x. (x, [])) h)
  answer-IsArchived false s t os h k l = tt

  step-IsArchived :
      (turn : Turn V I) (a : Action V) (s : SandboxState V I)
      → IfSome (IsArchived s.store) (step_in turn a s)
  unfolding step_in records
  step-IsArchived turn (invoke i) s = refl
  step-IsArchived turn record_next s = record_one-IsArchived s.emit_tail s
  step-IsArchived turn (emit e) s = ap (λ x. (x, [])) (on_event-store e s)
  step-IsArchived idle begin s = begin_run-IsArchived s.queue s
  step-IsArchived (running i) (settle o) s = refl
  step-IsArchived (settled i r) answer s =
      answer-IsArchived (is_empty s.emit_tail) s _ _ refl refl refl
  step-IsArchived idle (settle o) s = tt
  step-IsArchived idle answer s = tt
  step-IsArchived (running i) begin s = tt
  step-IsArchived (running i) answer s = tt
  step-IsArchived (settled i r) begin s = tt
  step-IsArchived (settled i r) (settle o) s = tt

  runs-IsArchived :
      (s u : SandboxState V I) (acts : List (Action V)) (os : List (Output V I))
      → Runs s acts u os
      → IsArchived s.store u os
  unfolding step records
  runs-IsArchived s u acts os done = refl
  runs-IsArchived s u acts os
        (step_then {t = t} {a = a} {acts = rest} {os = first} {ps = more} e run) =
      let now = subst (IfSome (IsArchived s.store)) e (step-IsArchived s.turn a s) in
      let both =
        records-append (recorded_of first) (recorded_of more) s.store t.store u.store
          (handed_of first) (handed_of more) now (runs-IsArchived t u rest more run) in
      ap (λ es. records es s.store) (recorded_of-append first more)
      ∙ both
      ∙ ap (λ bs. (u.store, bs)) (sym (handed_of-append first more))

  -- Where a call is answered, each invocation whose events end with a terminal one, among those that
  -- the sandbox has sent during runs, has all its events, in their order, in the batches that have been
  -- handed over.
  pub ended_invocations_handed_over :
      (acts : List (Action V)) (u t : SandboxState V I) (os ps : List (Output V I)) (id : String)
      → Runs init_state acts u os
      → step answer u ≡ some (t, ps)
      → unfinished id [] (stamped (invoked acts) false acts) ≡ []
      → of_id id (handed_of os) ≡ of_id id (stamped (invoked acts) false acts)
  unfolding init_state
  ended_invocations_handed_over acts u t os ps id run e ended =
      let sent = answered_after_records acts u t os ps run e in
      let kept = runs-IsArchived init_state u acts os run in
      let (whole, left) = nothing_lost id (recorded_of os) in
      let nothing_left = left ∙ ap (unfinished id []) sent ∙ ended in
      let batches = (records (recorded_of os) create_event_store).1 in
      ap (λ r. of_id id r.1) (sym kept)
      ∙ sym (append-nil (of_id id batches))
      ∙ ap (λ ws. of_id id batches ++ ws) (sym nothing_left)
      ∙ whole
      ∙ ap (of_id id) sent
