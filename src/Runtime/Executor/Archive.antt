-- ===== src/Runtime/Executor/Archive.antt =====
-- executor/index.ts with event-store.ts: the rows that the table `events` has when a call is answered.
use workflow_engine.Prelude.{
  ℕ, ◌+◌, ◌≡◌, refl, sym, ap, ◌∙◌, String, Bool, false, some, List, [], ◌∷◌, ◌++◌, map, keep-append,
  append_assoc, append-nil, Bool-cases, inl, inr, if◌then◌else◌, ◌==◌, string_eq,
}
use workflow_engine.Core.{InvocationEvent}
use workflow_engine.Runtime.EventStore.{
  EventStoreConfig, Attempt, EventRow, Stringify, commit_with_retry, event_to_row, insert_batch,
  rows_of,
}
use workflow_engine.Runtime.EventStore.Batches.{unfinished}
use workflow_engine.Runtime.EventStore.Waiting.{of_id}
use workflow_engine.Runtime.Executor.{
  SandboxState, Action, answer, Output, recorded, handed_over, logged, answered, step, init_state,
}
use workflow_engine.Runtime.Executor.Runs.{Runs, invoked, stamped}
use workflow_engine.Runtime.Executor.Identity.{
  AllStamped, sent_during, sent_for, of_id-AllStamped, stamped-AllStamped,
}
use workflow_engine.Runtime.Executor.HandedOver.{handed_of, ended_invocations_handed_over}

map-append : {A B : Type 0} (f : A → B) (xs ys : List A) → map f (xs ++ ys) ≡ map f xs ++ map f ys
map-append f [] ys = refl
map-append f (x ∷ xs) ys = ap (◌∷◌ (f x)) (map-append f xs ys)

left_empty : {A : Type 0} (xs ys : List A) → xs ++ ys ≡ [] → (xs ≡ []) × (ys ≡ [])
left_empty [] ys h = (refl, h)
left_empty (x ∷ xs) ys h = absurd (cc h)

module _ {V : Type 0} (print : Stringify V) where
  rows_of-map :
      (id : String) (es : List (InvocationEvent V))
      → rows_of id (map (event_to_row print) es) ≡ map (event_to_row print) (of_id id es)
  unfolding event_to_row
  rows_of-map id [] = refl
  rows_of-map id (e ∷ es) = elim (Bool-cases (e.id == id)) [
    | inl t ↦ rw t (ap (◌∷◌ (event_to_row print e)) (rows_of-map id es))
    | inr f ↦ rw f (rows_of-map id es)
  ]

module _ {V I : Type 0} (config : EventStoreConfig) (print : Stringify V) where
  -- The table after the batches of these outputs. The database answers the attempts of the batch with
  -- the number `n`, from 0 on, with `answers n`.
  abbrev pub table : (ℕ → ℕ → Attempt) → ℕ → List (Output V I) → List EventRow → List EventRow
  table answers n [] rows = rows
  table answers n (handed_over b ∷ os) rows =
      table answers (n + 1) os (insert_batch config print (answers n) b rows)
  table answers n (recorded e ∷ os) rows = table answers n os rows
  table answers n (logged l e ∷ os) rows = table answers n os rows
  table answers n (answered i r ∷ os) rows = table answers n os rows

  -- The events of the batches that `commit_with_retry` gives up.
  abbrev pub dropped : (ℕ → ℕ → Attempt) → ℕ → List (Output V I) → List (InvocationEvent V)
  dropped answers n [] = []
  dropped answers n (handed_over b ∷ os) =
      (if (commit_with_retry config (answers n)).0 then [] else b) ++ dropped answers (n + 1) os
  dropped answers n (recorded e ∷ os) = dropped answers n os
  dropped answers n (logged l e ∷ os) = dropped answers n os
  dropped answers n (answered i r ∷ os) = dropped answers n os

  table-rows_of :
      (answers : ℕ → ℕ → Attempt) (n : ℕ) (id : String) (os : List (Output V I))
      (rows : List EventRow)
      → of_id id (dropped answers n os) ≡ []
      → rows_of id (table answers n os rows)
        ≡ rows_of id rows ++ map (event_to_row print) (of_id id (handed_of os))
  unfolding insert_batch
  table-rows_of answers n id [] rows h = sym (append-nil (rows_of id rows))
  table-rows_of answers n id (recorded e ∷ os) rows h = table-rows_of answers n id os rows h
  table-rows_of answers n id (logged l e ∷ os) rows h = table-rows_of answers n id os rows h
  table-rows_of answers n id (answered i r ∷ os) rows h = table-rows_of answers n id os rows h
  table-rows_of answers n id (handed_over b ∷ os) rows h =
      let own : InvocationEvent V → Bool = λ e. e.id == id in
      let row = event_to_row print in
      elim (Bool-cases (commit_with_retry config (answers n)).0) [
        | inl t ↦
            (let rest = table-rows_of answers (n + 1) id os (rows ++ map row b) (rw t at h) in
              rw t (
                rest
                ∙ ap (λ xs. xs ++ map row (of_id id (handed_of os)))
                    (keep-append (λ r. r.id == id) rows (map row b)
                      ∙ ap (λ xs. rows_of id rows ++ xs) (rows_of-map print id b))
                ∙ append_assoc (rows_of id rows) (map row (of_id id b))
                    (map row (of_id id (handed_of os)))
                ∙ ap (λ xs. rows_of id rows ++ xs)
                    (sym (map-append row (of_id id b) (of_id id (handed_of os)))
                      ∙ ap (map row) (sym (keep-append own b (handed_of os))))))
        | inr f ↦
            (let lost = rw f at h in
              let (none_here, none_later) =
                left_empty (of_id id b) (of_id id (dropped answers (n + 1) os))
                  (sym (keep-append own b (dropped answers (n + 1) os)) ∙ lost) in
              rw f (
                table-rows_of answers (n + 1) id os rows none_later
                ∙ ap (λ xs. rows_of id rows ++ map row xs)
                    (sym (
                      keep-append own b (handed_of os)
                      ∙ ap (λ xs. xs ++ of_id id (handed_of os)) none_here))))
      ]

  -- Where a call is answered, take an id such that the events with it, among those that the sandbox has sent
  -- during runs, end with a terminal one, and such that the database has had no batch with this id
  -- dropped, be it for a key that is there or for failures beyond the retries. Then the table has,
  -- behind the rows that it had of this id, one row for each event that the sandbox sent in the runs of the
  -- calls with this id, in their order, and no other: that of the event with the identity of its call and,
  -- for the request of a trigger, its provenance.
  pub ended_invocations_archived :
      (answers : ℕ → ℕ → Attempt) (acts : List (Action V)) (u t : SandboxState V I)
      (os ps : List (Output V I)) (id : String) (rows : List EventRow)
      → Runs init_state acts u os
      → step answer u ≡ some (t, ps)
      → unfinished id [] (stamped (invoked acts) false acts) ≡ []
      → of_id id (dropped answers 0 os) ≡ []
      → (es : List (InvocationEvent V)) × (rows_of id (table answers 0 os rows)
          ≡ rows_of id rows ++ map (event_to_row print) es)
        × AllStamped (sent_for id (sent_during (invoked acts) false acts)) es
  ended_invocations_archived answers acts u t os ps id rows run e ended kept = (
    of_id id (stamped (invoked acts) false acts),
    table-rows_of answers 0 id os rows kept
        ∙ ap (λ es. rows_of id rows ++ map (event_to_row print) es)
            (ended_invocations_handed_over acts u t os ps id run e ended),
    of_id-AllStamped id (sent_during (invoked acts) false acts) (stamped (invoked acts) false acts)
        (stamped-AllStamped (invoked acts) false acts),
  )
