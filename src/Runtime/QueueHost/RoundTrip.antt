-- ===== src/Runtime/QueueHost/RoundTrip.antt =====
-- queue-host.ts: what one call of `queue.put` leaves for the next `queue.get`.
use Prim.Native.String.{len}
use workflow_engine.Prelude.{
  ℕ, ◌≡◌, refl, String, true, false, Option, none, some, List, [], ltb, tail, ◌&&◌, ◌==◌, nat_eq,
  string_eq, eq_self, inl, inr, ◌∙◌,
}
use workflow_engine.Runtime.QueueStore.{
  QueueItem, Result, ok, err, queue_error, schema_mismatch, put, max_key_bytes, same_scope,
  first_row,
}
use workflow_engine.Runtime.QueueStore.Partitions.{partition, Ascending}
use workflow_engine.Runtime.QueueStore.Fifo.{ReadsBack, put_fifo, get_fifo}
use workflow_engine.Runtime.QueueHost.{
  Handlers, PutArgs, GetArgs, validated, put_scope, get_scope, put_handler, get_handler, meta,
  answer,
}

-- What `get` answers for an item that the validator of `put` gave.
abbrev pub revalidated : {V : Type 0} → Handlers V → String → V → Result V (Option V)
revalidated h queue v = elim (validated h queue v) [
  | none ↦ err (queue_error schema_mismatch (some v))
  | some item ↦ ok (some item)
]

module _ {V : Type 0} (h : Handlers V) where
  -- A get on a key within the cap answers with the oldest item of its partition as the validator
  -- gives it, and the item is gone from its partition also if the validator refuses it; the rows of
  -- the table stand in the order of their numbers.
  pub get_handler-drops :
      (args : GetArgs) (lo : ℕ) (rows : List QueueItem)
      → ltb max_key_bytes (len args.key) ≡ false
      → Ascending lo rows
      → ((get_handler h args rows).1
          ≡ answer h args.queue (first_row h.json (partition (get_scope h args) args.key rows)))
        × (partition (get_scope h args) args.key (get_handler h args rows).0
            ≡ tail (partition (get_scope h args) args.key rows))
  unfolding get_handler
  get_handler-drops args lo rows short sorted =
      let (a, b, c) =
        get_fifo h.json (get_scope h args) (get_scope h args) args.key args.key lo rows sorted in
      let here : (same_scope (get_scope h args) (get_scope h args) && (args.key == args.key))
          ≡ true =
        rw
          (
            eq_self h.owner,
            eq_self args.repo,
            eq_self h.workflow,
            eq_self args.queue,
            eq_self args.key,
          )
          refl in
      rw (short, get_handler) (rw a refl, b ∙ rw here refl)

  abbrev pub getting : PutArgs V → GetArgs
  getting args = record { repo = args.repo; queue = args.queue; key = args.key }

  stored :
      (args : PutArgs V) (v : V) (now : String) (seq : ℕ) (rows : List QueueItem)
      → ltb max_key_bytes (len args.key) ≡ false
      → validated h args.queue args.item ≡ some v
      → put_handler h args now seq rows
        ≡ put h.json h.max_depth (put_scope h args) v args.key (meta args now) seq rows
  unfolding put_handler
  stored args v now seq rows short good = rw (short, good, put_handler) refl

  -- After a put that succeeds on an empty partition, of an item that the validator of put gives as a value
  -- that JSON reads back as it was printed, the next get of that partition answers with this value,
  -- checked by the validator once more. The key is within the cap, and the numbers of the table, with
  -- that of the new row, ascend.
  pub put_then_get :
      (args : PutArgs V) (v : V) (now : String) (seq lo : ℕ) (rows : List QueueItem)
      → ltb max_key_bytes (len args.key) ≡ false
      → validated h args.queue args.item ≡ some v
      → ReadsBack h.json v
      → partition (put_scope h args) args.key rows ≡ []
      → (put_handler h args now seq rows).1 ≡ ok tt
      → Ascending lo (put_handler h args now seq rows).0
      → (get_handler h (getting args) (put_handler h args now seq rows).0).1
        ≡ revalidated h args.queue v
  unfolding answer
  put_then_get args v now seq lo rows short good law bare done sorted =
      let here : (same_scope (put_scope h args) (put_scope h args) && (args.key == args.key))
          ≡ true =
        rw
          (
            eq_self h.owner,
            eq_self args.repo,
            eq_self h.workflow,
            eq_self args.queue,
            eq_self args.key,
          )
          refl in
      let kept = stored args v now seq rows short good in
      let (a, b) =
        get_handler-drops (getting args) lo (put_handler h args now seq rows).0 short sorted in
      elim (put_fifo h.json h.max_depth (put_scope h args) (put_scope h args) v args.key args.key
        (meta args now) seq rows law) [
          | inr (f, e) ↦ absurd (let wrong = rw (kept, e) at done in cc wrong)
          | inl (row, e, back, rest) ↦
              (let rest2 = rw (here, bare) at rest in a ∙ (rw kept (rw rest2 (rw back refl))))
        ]
