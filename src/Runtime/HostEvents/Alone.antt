-- ===== src/Runtime/HostEvents/Alone.antt =====
-- exception.ts and upload-event.ts with event-store.ts: an event of the host goes to the database by
-- itself and at once.
use workflow_engine.Prelude.{
  ◌≡◌, refl, sym, ap, String, true, false, none, some, [], ◌∷◌, ◌==◌, string_eq, if◌then◌else◌,
  eq_cases, inl, inr, Bool-cases, subst,
}
use workflow_engine.Prelude.Maps.{get}
use workflow_engine.Core.{DispatchUser, DispatchSource}
use workflow_engine.Runtime.EventStore.{EventStore, is_terminal}
use workflow_engine.Runtime.EventStore.Single.{host_kinds-terminal, recorded_alone}
use workflow_engine.Runtime.Executor.{Workflow}
use workflow_engine.Runtime.HostEvents.{
  Values, TriggerExceptionParams, is_host_fail_kind, kind_of, spread, payload_of, error_of,
  host_event, trigger_exception, emit_trigger_exception, system_upload, emit_system_upload,
}

host_fail_terminal : (kind : String) → is_host_fail_kind kind ≡ true → is_terminal kind ≡ true
host_fail_terminal kind h = elim (eq_cases kind "trigger.exception") [
  | inl (t, p) ↦ subst (λ k. is_terminal k ≡ true) (sym p) host_kinds-terminal.0
  | inr (f, n) ↦
      (let rejection : (kind == "trigger.rejection") ≡ true = rw f at h in
        subst (λ k. is_terminal k ≡ true) (sym (string_eq.sound rejection)) host_kinds-terminal.1)
]

module _ {V : Type 0} where
  -- On a store that runs and under an id of which nothing waits: where the kind is one of the two of
  -- the host, exactly this event is committed, with number 0 and no provenance, and the store is as it was;
  -- with another kind nothing is recorded.
  pub emit_trigger_exception_lem :
      (values : Values V) (id now owner repo : String) (workflow : Workflow)
      (descriptor_name : String) (params : TriggerExceptionParams V) (s : EventStore V)
      → s.stopped ≡ false
      → get id s.accumulator ≡ none
      → emit_trigger_exception values id now owner repo workflow descriptor_name params s ≡ (
          if is_host_fail_kind (kind_of params)
          then some (
            s,
            some (
                host_event id now owner repo workflow
                  (kind_of params)
                  params.name
                  (values.object
                    (spread (("trigger", values.text descriptor_name) ∷ []) (payload_of params)))
                  (error_of params.error)
                ∷ []),
          )
          else none)
  unfolding emit_trigger_exception trigger_exception host_event
  emit_trigger_exception_lem values id now owner repo workflow descriptor_name params s running
        fresh =
      elim (Bool-cases (is_host_fail_kind (kind_of params))) [
        | inl t ↦
            rw (t, emit_trigger_exception)
              (ap some (recorded_alone _ s running fresh (host_fail_terminal _ t)))
        | inr f ↦ rw (f, emit_trigger_exception) refl
      ]

  -- On a store that runs and under an id of which nothing waits, the event of an upload is committed
  -- alone, with the user who made it, and the store is as it was.
  pub emit_system_upload_lem :
      (id now owner repo : String) (workflow : Workflow) (snapshot : V) (user : DispatchUser)
      (s : EventStore V)
      → s.stopped ≡ false
      → get id s.accumulator ≡ none
      → (let e = system_upload id now owner repo workflow snapshot user in
          (emit_system_upload id now owner repo workflow snapshot user s ≡ (s, some (e ∷ [])))
          × (e.dispatch ≡ some (record { source = DispatchSource.upload; user = some user })))
  unfolding emit_system_upload system_upload host_event
  emit_system_upload_lem id now owner repo workflow snapshot user s running fresh =
      (recorded_alone _ s running fresh host_kinds-terminal.2, refl)
