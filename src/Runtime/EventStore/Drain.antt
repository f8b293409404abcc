-- ===== src/Runtime/EventStore/Drain.antt =====
-- event-store.ts: what `drainAndClose` hands to the database before its deadline.
use workflow_engine.Prelude.{
  ℕ, zero, suc, ◌+◌, ◌≤◌, ◌<◌, ◌≡◌, refl, sym, ap, ◌∙◌, String, true, false, none, some, List, [],
  ◌∷◌, snoc, last?, length, take, drop, leb, ◌⊎◌, inl, inr, arith, ◌==◌, string_eq, Bool-cases,
  eq_cases, subst,
}
use workflow_engine.Prelude.Maps.{get}
use workflow_engine.Core.{InvocationEvent}
use workflow_engine.Runtime.EventStore.{
  EventStore, EventStoreConfig, Accumulator, record_event, is_terminal, synthetic, drain,
  drain_and_close,
}

in_time :
    (deadline : ℕ) (clock : ℕ → ℕ) (round k : ℕ)
    → clock round < deadline
    → ((i : ℕ) → i < k → clock (round + 1 + i) < deadline)
    → (i : ℕ) → i < suc k
    → clock (round + i) < deadline
in_time deadline clock round k now later zero l = subst (λ n. clock n < deadline) (omega arith) now
in_time deadline clock round k now later (suc i) l =
    subst (λ n. clock n < deadline) (omega arith) (later i (omega arith))

module _ {V : Type 0} where
  -- The batch of an invocation: its events and the one that ends it.
  abbrev pub ending : String → String → List (InvocationEvent V) → List (InvocationEvent V)
  ending now id [] = []
  ending now id (e ∷ events) = snoc (e ∷ events) (synthetic now id e (last? (e ∷ events)))

  -- The batches that end the invocations of a list: an invocation without events has none.
  abbrev pub endings : String → Accumulator V → List (List (InvocationEvent V))
  endings now [] = []
  endings now ((id, []) ∷ acc) = endings now acc
  endings now ((id, e ∷ events) ∷ acc) = ending now id (e ∷ events) ∷ endings now acc

  abbrev pub IsIn : List (InvocationEvent V) → List (List (InvocationEvent V)) → Type 0
  IsIn b [] = ⊥
  IsIn b (x ∷ xs) = (b ≡ x) ⊎ IsIn b xs

  drain_split :
      (deadline : ℕ) (now : String) (clock : ℕ → ℕ) (round : ℕ) (acc : Accumulator V)
      → (k : ℕ) × ((drain deadline now clock round acc).0 ≡ drop k acc)
        × ((drain deadline now clock round acc).1 ≡ endings now (take k acc))
        × ((k ≡ length acc) ⊎ (deadline ≤ clock (round + k)))
        × ((i : ℕ) → i < k → clock (round + i) < deadline)
  unfolding drain
  drain_split deadline now clock round [] = (0, refl, refl, inl refl, λ i l. absurd (omega arith))
  drain_split deadline now clock round ((id, events) ∷ acc) =
      elim (Bool-cases (leb deadline (clock round))) [
        | inl t ↦
            (let here : round + 0 ≡ round = omega arith in
              let late : deadline ≤ clock round = ground arith in
              (
                0,
                rw (t, drain) refl,
                rw (t, drain) refl,
                inr (rw here late),
                λ i l. absurd (omega arith),
              ))
        | inr f ↦
            (let (k, left, batches, why, early) = drain_split deadline now clock (round + 1) acc in
              let next : round + suc k ≡ round + 1 + k = omega arith in
              let (l, b) = goes_on events f k (left, batches) in
              (
                suc k,
                l,
                b,
                elim why [ inl w ↦ inl (ap suc w) | inr w ↦ inr (rw next w) ],
                in_time deadline clock round k (ground arith) early,
              ))
      ]
    where
      goes_on :
          (events : List (InvocationEvent V))
          → leb deadline (clock round) ≡ false
          → (k : ℕ)
          → ((drain deadline now clock (round + 1) acc).0 ≡ drop k acc)
            × ((drain deadline now clock (round + 1) acc).1 ≡ endings now (take k acc))
          → ((drain deadline now clock round ((id, events) ∷ acc)).0 ≡ drop k acc)
            × ((drain deadline now clock round ((id, events) ∷ acc)).1
                ≡ endings now ((id, events) ∷ take k acc))
      goes_on [] f k (left, batches) = rw (f, drain) (left, batches)
      goes_on (e ∷ events) f k (left, batches) =
          rw (f, drain) (left, ap (λ bs. ending now id (e ∷ events) ∷ bs) batches)

  -- However the clock runs, the invocations that are ended are the first ones, in the order of their
  -- first events, each at a reading of the clock that is before the deadline; the others stay as they
  -- were, and there are such only when the next reading has reached the deadline.
  pub drain_and_close_lem :
      (config : EventStoreConfig) (start : ℕ) (now : String) (clock : ℕ → ℕ) (s : EventStore V)
      → (k : ℕ) × ((drain_and_close config start now clock s).0.accumulator ≡ drop k s.accumulator)
        × ((drain_and_close config start now clock s).1 ≡ endings now (take k s.accumulator))
        × ((k ≡ length s.accumulator) ⊎ (start + config.sigterm_flush_timeout_ms ≤ clock k))
        × ((i : ℕ) → i < k → clock i < start + config.sigterm_flush_timeout_ms)
  unfolding drain_and_close
  drain_and_close_lem config start now clock s =
      let (k, left, batches, why, early) =
        drain_split (start + config.sigterm_flush_timeout_ms) now clock 0 s.accumulator in
      let same : 0 + k ≡ k = omega arith in
      (
        k,
        left,
        batches,
        rw same at why,
        λ i l.
            subst (λ n. clock n < start + config.sigterm_flush_timeout_ms) (omega arith)
              (early i l),
      )

  IsIn-endings :
      (now id : String) (e : InvocationEvent V) (events : List (InvocationEvent V))
      (acc : Accumulator V)
      → get id acc ≡ some (e ∷ events)
      → IsIn (ending now id (e ∷ events)) (endings now acc)
  IsIn-endings now id e events [] h = absurd (cc h)
  IsIn-endings now id e events ((j, []) ∷ acc) h = elim (Bool-cases (j == id)) [
    | inl t ↦ absurd (cc (rw t at h))
    | inr f ↦ IsIn-endings now id e events acc (rw f at h)
  ]
  IsIn-endings now id e events ((j, x ∷ xs) ∷ acc) h = elim (eq_cases j id) [
    | inl (t, p) ↦ inl (
        let found : x ∷ xs ≡ e ∷ events = cc (rw t at h) in
        sym (ap (λ k. ending now k (x ∷ xs)) p ∙ ap (ending now id) found))
    | inr (f, n) ↦ inr (IsIn-endings now id e events acc (rw f at h))
  ]

  all_taken :
      (deadline : ℕ) (now : String) (clock : ℕ → ℕ) (round : ℕ) (acc : Accumulator V)
      → ((r : ℕ) → clock r < deadline)
      → drain deadline now clock round acc ≡ ([], endings now acc)
  unfolding drain
  all_taken deadline now clock round [] h = refl
  all_taken deadline now clock round ((id, []) ∷ acc) h =
      let early : leb deadline (clock round) ≡ false = (let l = h round in ground arith) in
      rw (early, drain) (all_taken deadline now clock (round + 1) acc h)
  all_taken deadline now clock round ((id, e ∷ events) ∷ acc) h =
      let early : leb deadline (clock round) ≡ false = (let l = h round in ground arith) in
      rw (early, drain) (rw (all_taken deadline now clock (round + 1) acc h) refl)

  -- While the clock stays before the deadline, closing the store leaves nothing in memory: every
  -- invocation that waits with its events is handed over, its events followed by one that ends it and
  -- has a number above that of the last; and the store then records nothing more.
  pub every_invocation_ended :
      (config : EventStoreConfig) (start : ℕ) (now : String) (clock : ℕ → ℕ) (s : EventStore V)
      (id : String) (e : InvocationEvent V) (events : List (InvocationEvent V))
      (last late : InvocationEvent V)
      → ((r : ℕ) → clock r < start + config.sigterm_flush_timeout_ms)
      → get id s.accumulator ≡ some (e ∷ events)
      → last? (e ∷ events) ≡ some last
      → (let closed = drain_and_close config start now clock s in
          let end = synthetic now id e (some last) in
          (closed.0.accumulator ≡ [])
          × IsIn (snoc (e ∷ events) end) closed.1
          × (end.id ≡ id)
          × (is_terminal end.kind ≡ true)
          × (end.seq ≡ last.seq + 1)
          × (record_event late closed.0 ≡ (closed.0, none)))
  unfolding drain_and_close synthetic is_terminal record_event
  every_invocation_ended config start now clock s id e events last late h g l =
      let taken = all_taken (start + config.sigterm_flush_timeout_ms) now clock 0 s.accumulator h in
      let found = IsIn-endings now id e events s.accumulator g in
      let batch =
        subst (λ o. IsIn (snoc (e ∷ events) (synthetic now id e o)) (endings now s.accumulator)) l
          found in
      (
        ap (λ r. r.0) taken,
        subst (λ r. IsIn (snoc (e ∷ events) (synthetic now id e (some last))) r.1) (sym taken)
            batch,
        refl,
        refl,
        refl,
        refl,
      )
