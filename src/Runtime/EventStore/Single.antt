-- ===== src/Runtime/EventStore/Single.antt =====
-- event-store.ts: a terminal event of an invocation that has no other.
use workflow_engine.Prelude.{
  ◌≡◌, refl, ap, ◌∙◌, true, false, none, some, List, [], ◌∷◌, String, string_eq, eq_self, ne_false,
}
use workflow_engine.Prelude.Maps.{get, set, delete, Fresh, Fresh-get, get-set_self}
use workflow_engine.Core.{InvocationEvent}
use workflow_engine.Runtime.EventStore.{
  EventStore, Accumulator, append_to_accumulator, take_batch, record_event, is_terminal,
}

-- The kinds that the host itself records.
pub host_kinds-terminal :
    (is_terminal "trigger.exception" ≡ true)
    × (is_terminal "trigger.rejection" ≡ true)
    × (is_terminal "system.upload" ≡ true)
unfolding is_terminal
host_kinds-terminal = (refl, refl, refl)

module _ {V : Type 0} where
  delete-set-Fresh :
      (id : String) (es : List (InvocationEvent V)) (acc : Accumulator V)
      → Fresh id acc
      → delete id (set id es acc) ≡ acc
  delete-set-Fresh id es [] h = rw (eq_self id) refl
  delete-set-Fresh id es ((j, fs) ∷ acc) (n, h) =
      rw (ne_false j id n) (rw (ne_false j id n) (ap (◌∷◌ (j, fs)) (delete-set-Fresh id es acc h)))

  batch_of_one :
      (e : InvocationEvent V) (acc : Accumulator V)
      → get e.id acc ≡ none
      → take_batch e.id (append_to_accumulator e acc) ≡ (acc, some (e ∷ []))
  unfolding append_to_accumulator take_batch
  batch_of_one e acc fresh =
      let appended : append_to_accumulator e acc ≡ set e.id (e ∷ []) acc =
        rw (fresh, append_to_accumulator) refl in
      let found = get-set_self e.id (e ∷ []) acc in
      let taken : take_batch e.id (set e.id (e ∷ []) acc)
          ≡ (delete e.id (set e.id (e ∷ []) acc), some (e ∷ [])) =
        rw (found, take_batch) refl in
      ap (take_batch e.id) appended
      ∙ taken
      ∙ ap (λ a. (a, some (e ∷ []))) (delete-set-Fresh e.id (e ∷ []) acc (Fresh-get e.id acc fresh))

  -- A terminal event of an invocation of which nothing waits.
  pub recorded_alone :
      (e : InvocationEvent V) (s : EventStore V)
      → s.stopped ≡ false
      → get e.id s.accumulator ≡ none
      → is_terminal e.kind ≡ true
      → record_event e s ≡ (s, some (e ∷ []))
  unfolding record_event
  recorded_alone e s running fresh terminal =
      let batch = batch_of_one e s.accumulator fresh in
      rw (running, terminal, record_event)
        (ap (λ r. (record { accumulator = r.0; stopped = false }, r.1)) batch)
