-- ===== src/Runtime/EventStore/Waiting.antt =====
-- event-store.ts: the events of an invocation that wait in memory.
use workflow_engine.Prelude.{
  ◌≡◌, ◌≢◌, refl, sym, ap, ◌∙◌, String, Option, none, some, List, [], ◌∷◌, ◌++◌, keep, snoc,
  append-nil, ◌==◌, string_eq, if◌then◌else◌, Bool-cases, Option-cases, inl, inr, eq_cases, eq_self,
  subst, keep-append, eq_iff, arith,
}
use workflow_engine.Prelude.Maps.{
  get, set, delete, get-set_self, get-set_ne, get-delete_ne, Distinct, set-Distinct,
  delete-Distinct, delete_removes, get-Fresh,
}
use workflow_engine.Core.{InvocationEvent}
use workflow_engine.Runtime.EventStore.{Accumulator, append_to_accumulator, take_batch}

module _ {V : Type 0} where
  -- The events of a batch, and those of an invocation that wait in memory.
  abbrev pub batch_events : Option (List (InvocationEvent V)) → List (InvocationEvent V)
  batch_events none = []
  batch_events (some events) = events

  unfoldable pub waiting : String → Accumulator V → List (InvocationEvent V)
  waiting id acc = batch_events (get id acc)

  pub waiting-get :
      (id : String) (acc : Accumulator V) (o : Option (List (InvocationEvent V)))
      → get id acc ≡ o
      → waiting id acc ≡ batch_events o
  unfolding waiting
  waiting-get id acc o h = ap batch_events h

  abbrev pub of_id : String → List (InvocationEvent V) → List (InvocationEvent V)
  of_id id = keep (λ e. e.id == id)

  pub waiting-append_own :
      (e : InvocationEvent V) (acc : Accumulator V)
      → waiting e.id (append_to_accumulator e acc) ≡ waiting e.id acc ++ of_id e.id (e ∷ [])
  unfolding append_to_accumulator
  waiting-append_own e acc = elim (Option-cases (get e.id acc)) [
    | inl a ↦
        (let before = waiting-get e.id acc none a in
          let now = waiting-get e.id (set e.id (e ∷ []) acc) _ (get-set_self e.id (e ∷ []) acc) in
          rw (a, append_to_accumulator) (rw (now, before, eq_self e.id) refl))
    | inr (events, a) ↦
        (let before = waiting-get e.id acc (some events) a in
          let now =
            waiting-get e.id (set e.id (snoc events e) acc) _
              (get-set_self e.id (snoc events e) acc) in
          rw (a, append_to_accumulator) (rw (now, before, eq_self e.id) refl))
  ]

  pub waiting-append_other :
      (e : InvocationEvent V) (id : String) (acc : Accumulator V)
      → e.id ≢ id
      → waiting id (append_to_accumulator e acc) ≡ waiting id acc
  unfolding append_to_accumulator waiting
  waiting-append_other e id acc n = elim (Option-cases (get e.id acc)) [
    | inl a ↦ rw (a, append_to_accumulator) (ap batch_events (get-set_ne e.id id (e ∷ []) acc n))
    | inr (events, a) ↦
        rw (a, append_to_accumulator) (ap batch_events (get-set_ne e.id id (snoc events e) acc n))
  ]

  pub waiting-append :
      (e : InvocationEvent V) (id : String) (acc : Accumulator V)
      → waiting id (append_to_accumulator e acc) ≡ waiting id acc ++ of_id id (e ∷ [])
  unfolding append_to_accumulator
  waiting-append e id acc = elim (eq_cases e.id id) [
    | inl (t, p) ↦
        subst (λ k. waiting k (append_to_accumulator e acc) ≡ waiting k acc ++ of_id k (e ∷ [])) p
          (waiting-append_own e acc)
    | inr (f, n) ↦ rw f (waiting-append_other e id acc n ∙ sym (append-nil (waiting id acc)))
  ]

  pub append-Distinct :
      (e : InvocationEvent V) (acc : Accumulator V)
      → Distinct acc
      → Distinct (append_to_accumulator e acc)
  unfolding append_to_accumulator
  append-Distinct e acc d = elim (Option-cases (get e.id acc)) [
    | inl a ↦ rw (a, append_to_accumulator) (set-Distinct e.id (e ∷ []) acc d)
    | inr (events, a) ↦ rw (a, append_to_accumulator) (set-Distinct e.id (snoc events e) acc d)
  ]

  pub take_batch-Distinct :
      (id : String) (acc : Accumulator V) → Distinct acc → Distinct (take_batch id acc).0
  unfolding take_batch
  take_batch-Distinct id acc d = elim (Option-cases (get id acc)) [
    | inl a ↦ rw (a, take_batch) d
    | inr (events, a) ↦ taken events a
  ]
    where
      taken :
          (events : List (InvocationEvent V))
          → get id acc ≡ some events
          → Distinct (take_batch id acc).0
      taken [] a = rw (a, take_batch) d
      taken (e ∷ events) a = rw (a, take_batch) (delete-Distinct id acc d)

  none_left :
      (id j : String) (acc : Accumulator V)
      → waiting id acc ≡ []
      → waiting j acc ≡ (if id == j then [] else waiting j acc)
  none_left id j acc w = elim (eq_cases id j) [
    | inl (t, p) ↦ rw t (subst (λ k. waiting k acc ≡ []) p w)
    | inr (f, n) ↦ rw f refl
  ]

  deleted :
      (id j : String) (acc : Accumulator V)
      → Distinct acc
      → waiting j (delete id acc) ≡ (if id == j then [] else waiting j acc)
  unfolding waiting
  deleted id j acc d = elim (eq_cases id j) [
    | inl (t, p) ↦ rw t (
        subst (λ k. waiting k (delete id acc) ≡ []) p
          (ap batch_events (get-Fresh id (delete id acc) (delete_removes id acc d))))
    | inr (f, n) ↦ rw f (ap batch_events (get-delete_ne id j acc n))
  ]

  -- A batch is all that waits of its invocation, of which nothing is left.
  pub take_batch-waiting :
      (id j : String) (acc : Accumulator V)
      → Distinct acc
      → (batch_events (take_batch id acc).1 ≡ waiting id acc)
        × (waiting j (take_batch id acc).0 ≡ (if id == j then [] else waiting j acc))
  unfolding take_batch
  take_batch-waiting id j acc d = elim (Option-cases (get id acc)) [
    | inl a ↦
        (let w = waiting-get id acc none a in rw (a, take_batch) (sym w, none_left id j acc w))
    | inr (events, a) ↦ taken events a
  ]
    where
      taken :
          (events : List (InvocationEvent V))
          → get id acc ≡ some events
          → (batch_events (take_batch id acc).1 ≡ waiting id acc)
            × (waiting j (take_batch id acc).0 ≡ (if id == j then [] else waiting j acc))
      taken [] a =
          let w = waiting-get id acc (some []) a in rw (a, take_batch) (sym w, none_left id j acc w)
      taken (e ∷ events) a =
          let w = waiting-get id acc (some (e ∷ events)) a in
          rw (a, take_batch) (sym w, deleted id j acc d)

  -- What waits under an id is of that id.
  abbrev pub IsKeyed : Accumulator V → Type 0
  IsKeyed acc = (k j : String) → of_id j (waiting k acc) ≡ (if k == j then waiting k acc else [])

  of_id_one :
      (e : InvocationEvent V) (k j : String)
      → of_id j (of_id k (e ∷ [])) ≡ (if k == j then of_id k (e ∷ []) else [])
  of_id_one e k j = ground (arith, eq_iff e.id k, eq_iff e.id j, eq_iff k j)

  pub append-IsKeyed :
      (e : InvocationEvent V) (acc : Accumulator V)
      → IsKeyed acc
      → IsKeyed (append_to_accumulator e acc)
  append-IsKeyed e acc h k j =
      let w = waiting-append e k acc in
      let parts = keep-append (λ x. x.id == j) (waiting k acc) (of_id k (e ∷ [])) in
      let both : of_id j (waiting k acc) ++ of_id j (of_id k (e ∷ []))
          ≡ (if k == j then waiting k acc ++ of_id k (e ∷ []) else []) =
        rw (h k j, of_id_one e k j)
          (elim (Bool-cases (k == j)) [ inl t ↦ rw t refl | inr f ↦ rw f refl ]) in
      subst (λ ws. of_id j ws ≡ (if k == j then ws else [])) (sym w) (parts ∙ both)

  pub take_batch-IsKeyed :
      (id : String) (acc : Accumulator V)
      → Distinct acc
      → IsKeyed acc
      → IsKeyed (take_batch id acc).0
  take_batch-IsKeyed id acc d h k j =
      subst (λ ws. of_id j ws ≡ (if k == j then ws else [])) (sym (take_batch-waiting id k acc d).1)
        (elim (Bool-cases (id == k)) [
          | inl t ↦ rw t (elim (Bool-cases (k == j)) [ inl u ↦ rw u refl | inr f ↦ rw f refl ])
          | inr f ↦ rw f (h k j)
        ])

  pub taken_whole :
      (id j : String) (acc : Accumulator V)
      → Distinct acc
      → IsKeyed acc
      → of_id j (batch_events (take_batch id acc).1) ++ waiting j (take_batch id acc).0
        ≡ waiting j acc
  taken_whole id j acc d h =
      let (batch, rest) = take_batch-waiting id j acc d in
      rw (batch, rest, h id j)
        (elim (eq_cases id j) [
          | inl (t, p) ↦ rw t (append-nil (waiting id acc) ∙ ap (λ k. waiting k acc) p)
          | inr (f, n) ↦ rw f refl
        ])
