-- ===== src/Runtime/EventStore/Batches.antt =====
-- event-store.ts: which events reach a batch, and in which order.
use workflow_engine.Prelude.{
  ◌≡◌, refl, sym, ap, ◌∙◌, String, false, List, [], ◌∷◌, ◌++◌, snoc, append_assoc, append-nil, ◌==◌,
  string_eq, if◌then◌else◌, Bool-cases, inl, inr, keep-append,
}
use workflow_engine.Prelude.Maps.{Distinct}
use workflow_engine.Core.{InvocationEvent}
use workflow_engine.Runtime.EventStore.{
  EventStore, append_to_accumulator, record_event, is_terminal, create_event_store,
}
use workflow_engine.Runtime.EventStore.Waiting.{
  batch_events, waiting, of_id, waiting-append, append-Distinct, take_batch-Distinct,
  take_batch-waiting, IsKeyed, append-IsKeyed, take_batch-IsKeyed, taken_whole,
}

module _ {V : Type 0} where
  -- The events recorded one after the other, with the batches in the order in which they are made.
  unfoldable pub records :
      List (InvocationEvent V) → EventStore V → EventStore V × List (InvocationEvent V)
  records [] s = (s, [])
  records (e ∷ es) s =
      let (next, batch) = record_event e s in
      let (last, more) = records es next in (last, batch_events batch ++ more)

  -- A store that runs, each invocation once in memory and its events under its id.
  record IsSound (s : EventStore V) : Type 0 where
    running : s.stopped ≡ false
    distinct : Distinct s.accumulator
    keyed : IsKeyed s.accumulator

  record_event-IsSound :
      (e : InvocationEvent V) (s : EventStore V) → IsSound s → IsSound (record_event e s).0
  unfolding record_event
  record_event-IsSound e s h = elim (Bool-cases (is_terminal e.kind)) [
    | inl t ↦
        (let d = append-Distinct e s.accumulator h.distinct in
          rw (h.running, t, record_event)
            (record {
              running = refl;
              distinct = take_batch-Distinct e.id _ d;
              keyed = take_batch-IsKeyed e.id _ d (append-IsKeyed e s.accumulator h.keyed);
            }))
    | inr f ↦
        rw (h.running, f, record_event)
          (record {
            running = refl;
            distinct = append-Distinct e s.accumulator h.distinct;
            keyed = append-IsKeyed e s.accumulator h.keyed;
          })
  ]

  record_event-waiting :
      (e : InvocationEvent V) (id : String) (s : EventStore V)
      → IsSound s
      → of_id id (batch_events (record_event e s).1) ++ waiting id (record_event e s).0.accumulator
        ≡ waiting id s.accumulator ++ of_id id (e ∷ [])
  unfolding record_event
  record_event-waiting e id s h = elim (Bool-cases (is_terminal e.kind)) [
    | inl t ↦
        rw (h.running, t, record_event)
          (taken_whole e.id id (append_to_accumulator e s.accumulator)
              (append-Distinct e s.accumulator h.distinct) (append-IsKeyed e s.accumulator h.keyed)
            ∙ waiting-append e id s.accumulator)
    | inr f ↦ rw (h.running, f, record_event) (waiting-append e id s.accumulator)
  ]

  -- The events of an invocation since it last ended.
  abbrev pub unfinished :
      String → List (InvocationEvent V) → List (InvocationEvent V) → List (InvocationEvent V)
  unfinished id since [] = since
  unfinished id since (e ∷ es) =
      unfinished id
        (if e.id == id then (if is_terminal e.kind then [] else snoc since e) else since) es

  record_event-unfinished :
      (e : InvocationEvent V) (id : String) (s : EventStore V)
      → IsSound s
      → waiting id (record_event e s).0.accumulator ≡ (
          if e.id == id
          then (if is_terminal e.kind then [] else snoc (waiting id s.accumulator) e)
          else waiting id s.accumulator)
  unfolding record_event
  record_event-unfinished e id s h = elim (Bool-cases (is_terminal e.kind)) [
    | inl t ↦
        (let left =
            (take_batch-waiting e.id id (append_to_accumulator e s.accumulator)
              (append-Distinct e s.accumulator h.distinct)).1 in
          let grown = waiting-append e id s.accumulator in
          rw (h.running, t, record_event)
            (left ∙ elim (Bool-cases (e.id == id)) [
              | inl own ↦ rw own refl
              | inr other ↦ rw other (grown ∙ rw other (append-nil _))
            ]))
    | inr f ↦
        rw (h.running, f, record_event)
          (waiting-append e id s.accumulator ∙ elim (Bool-cases (e.id == id)) [
            | inl own ↦ rw own refl
            | inr other ↦ rw other (append-nil _)
          ])
  ]

  records_whole :
      (id : String) (es : List (InvocationEvent V)) (s : EventStore V)
      → IsSound s
      → (of_id id (records es s).1 ++ waiting id (records es s).0.accumulator
          ≡ waiting id s.accumulator ++ of_id id es)
        × (waiting id (records es s).0.accumulator ≡ unfinished id (waiting id s.accumulator) es)
  unfolding records
  records_whole id [] s h = (sym (append-nil _), refl)
  records_whole id (e ∷ es) s h =
      let next = record_event e s in
      let (whole, left) = records_whole id es next.0 (record_event-IsSound e s h) in
      let batch = of_id id (batch_events next.1) in
      let split = keep-append (λ x. x.id == id) (batch_events next.1) (records es next.0).1 in
      (
        ap (λ xs. xs ++ waiting id (records es next.0).0.accumulator) split
            ∙ append_assoc batch (of_id id (records es next.0).1)
                (waiting id (records es next.0).0.accumulator)
            ∙ ap (λ xs. batch ++ xs) whole
            ∙ sym (append_assoc batch (waiting id next.0.accumulator) (of_id id es))
            ∙ ap (λ xs. xs ++ of_id id es) (record_event-waiting e id s h)
            ∙ append_assoc (waiting id s.accumulator) (of_id id (e ∷ [])) (of_id id es)
            ∙ ap (λ xs. waiting id s.accumulator ++ xs)
                (sym (keep-append (λ x. x.id == id) (e ∷ []) es)),
        left ∙ ap (λ w. unfinished id w es) (record_event-unfinished e id s h),
      )

  created-IsSound : IsSound create_event_store
  unfolding create_event_store waiting
  created-IsSound = record {
    running = refl;
    distinct = tt;
    keyed = λ k j. elim (Bool-cases (k == j)) [ inl t ↦ rw t refl | inr f ↦ rw f refl ];
  }

  -- Whatever events are recorded on a new store, the events of each invocation are, in the order in
  -- which they came, those that were handed to the database followed by those that wait in memory,
  -- and these are the ones since the invocation last ended: none is lost, doubled or held back.
  pub nothing_lost :
      (id : String) (es : List (InvocationEvent V))
      → (of_id id (records es create_event_store).1
            ++ waiting id (records es create_event_store).0.accumulator
          ≡ of_id id es)
        × (waiting id (records es create_event_store).0.accumulator ≡ unfinished id [] es)
  unfolding create_event_store waiting
  nothing_lost id es = records_whole id es create_event_store created-IsSound
