-- ===== src/Runtime/QueueHost/Tenant.antt =====
-- queue-host.ts: which rows of the table the handlers of a sandbox can reach.
use Prim.Native.String.{len}
use workflow_engine.Prelude.{
  ℕ, ◌≡◌, refl, String, Bool, true, false, not, ◌&&◌, Option, none, some, List, [], ◌∷◌, any, ltb,
  keep, keep_within, snoc, keep-append, append-nil, ◌==◌, nat_eq, string_eq, eq_self, arith, inl,
  inr, Bool-cases, Option-cases, ◌∙◌,
}
use workflow_engine.Runtime.QueueStore.{
  QueueItem, ProducerMeta, put, get, check_put, in_partition, popped_by, max_key_bytes, min_seq,
}
use workflow_engine.Runtime.QueueStore.Depth.{accepted, new_row, Result-cases}
use workflow_engine.Runtime.QueueHost.{
  Handlers, PutArgs, GetArgs, validated, put_scope, get_scope, put_handler, get_handler, meta,
}

-- A call of one of the handlers.
pub data HostCall (V : Type 0) : Type 0 where
  put_call : PutArgs V → String → ℕ → HostCall V
  get_call : GetArgs → HostCall V

module _ {V : Type 0} (h : Handlers V) where
  pub serve : HostCall V → List QueueItem → List QueueItem
  serve (put_call args now seq) rows = (put_handler h args now seq rows).0
  serve (get_call args) rows = (get_handler h args rows).0

  pub served : List (HostCall V) → List QueueItem → List QueueItem
  served [] rows = rows
  served (c ∷ cs) rows = served cs (serve c rows)

  -- The row is of the handlers' owner and workflow, and of the repo, the queue and the key of a call.
  abbrev pub is_addressed : String → String → String → QueueItem → Bool
  is_addressed repo queue key row =
      row.owner == h.owner
      && row.repo == repo
      && row.workflow == h.workflow
      && row.queue == queue
      && row.key == key

  abbrev pub addresses : HostCall V → QueueItem → Bool
  addresses (put_call args now seq) row = is_addressed args.repo args.queue args.key row
  addresses (get_call args) row = is_addressed args.repo args.queue args.key row

  -- No call addresses the row.
  abbrev pub untouched : List (HostCall V) → QueueItem → Bool
  untouched cs row = not (any (λ c. addresses c row) cs)

  -- A set of rows that calls to a partition spare.
  module _ (p : QueueItem → Bool) where
    Spares : String → String → String → Type 0
    Spares repo queue key =
        (row : QueueItem) → p row ≡ true → is_addressed repo queue key row ≡ false

    snoc_own :
        (row : QueueItem) (rows : List QueueItem)
        → p row ≡ false
        → keep p (snoc rows row) ≡ keep p rows
    snoc_own row rows e = keep-append p rows (row ∷ []) ∙ (rw e (append-nil _))

    put-foreign :
        (args : PutArgs V) (data' : V) (m : ProducerMeta) (seq : ℕ) (rows : List QueueItem)
        → Spares args.repo args.queue args.key
        → keep p (put h.json h.max_depth (put_scope h args) data' args.key m seq rows).0
          ≡ keep p rows
    unfolding put Spares
    put-foreign args v m seq rows spares =
        elim (Result-cases
          (check_put h.json h.max_depth (put_scope h args) v args.key m seq rows)) [
            | inr (f, e) ↦ rw e refl
            | inl (row, e) ↦
                (let (text, t, r, small, free) =
                    accepted h.json h.max_depth (put_scope h args) v args.key m seq rows row e in
                  rw (e, r)
                    (snoc_own (new_row (put_scope h args) args.key m seq text) rows (
                      own_dropped (new_row (put_scope h args) args.key m seq text) (
                        rw
                          (
                            eq_self h.owner,
                            eq_self args.repo,
                            eq_self h.workflow,
                            eq_self args.queue,
                            eq_self args.key,
                          )
                          refl))))
          ]
      where
        own_dropped :
            (row : QueueItem)
            → is_addressed args.repo args.queue args.key row ≡ true
            → p row ≡ false
        own_dropped row own = elim (Bool-cases (p row)) [
          | inl t ↦ absurd (cc (own, spares row t))
          | inr f ↦ f
        ]

    put_handler-foreign :
        (args : PutArgs V) (now : String) (seq : ℕ) (rows : List QueueItem)
        → Spares args.repo args.queue args.key
        → keep p (put_handler h args now seq rows).0 ≡ keep p rows
    unfolding put_handler
    put_handler-foreign args now seq rows spares =
        elim (Bool-cases (ltb max_key_bytes (len args.key))) [
          | inl long ↦ rw (long, put_handler) refl
          | inr short ↦ elim (Option-cases (validated h args.queue args.item)) [
            | inl bad ↦ rw (short, bad, put_handler) refl
            | inr (v, good) ↦
                rw (short, good, put_handler) (put-foreign args v (meta args now) seq rows spares)
          ]
        ]

    spared :
        (args : GetArgs) (m : Option ℕ) (row : QueueItem)
        → Spares args.repo args.queue args.key
        → p row ≡ true
        → not (popped_by (get_scope h args) args.key m row) ≡ true
    unfolding Spares
    spared args none row spares e = refl
    spared args (some n) row spares e = let other = spares row e in ground arith

    get_handler-foreign :
        (args : GetArgs) (rows : List QueueItem)
        → Spares args.repo args.queue args.key
        → keep p (get_handler h args rows).0 ≡ keep p rows
    unfolding get_handler get
    get_handler-foreign args rows spares = elim (Bool-cases (ltb max_key_bytes (len args.key))) [
      | inl long ↦ rw (long, get_handler) refl
      | inr short ↦
          rw (short, get_handler)
            (keep_within p _ rows (λ row.
              spared args (min_seq (keep (in_partition (get_scope h args) args.key) rows)) row
                spares))
    ]

    served_spares :
        (cs : List (HostCall V)) (rows : List QueueItem)
        → ((row : QueueItem) → p row ≡ true → untouched cs row ≡ true)
        → keep p (served cs rows) ≡ keep p rows
    unfolding served serve Spares
    served_spares [] rows spares = refl
    served_spares (put_call args now seq ∷ cs) rows spares =
        served_spares cs _ (λ row e. let both = spares row e in ground arith)
        ∙ put_handler-foreign args now seq rows (λ row e. let both = spares row e in ground arith)
    served_spares (get_call args ∷ cs) rows spares =
        served_spares cs _ (λ row e. let both = spares row e in ground arith)
        ∙ get_handler-foreign args rows (λ row e. let both = spares row e in ground arith)

  -- Whatever calls are made on the handlers, one after the other, a row stays as it is, in the order
  -- of such rows, if no call is for its partition: if its owner or its workflow is not the one that the
  -- handlers are bound to, or its repo, its queue or its key is not that of any call.
  pub served-foreign :
      (cs : List (HostCall V)) (rows : List QueueItem)
      → keep (untouched cs) (served cs rows) ≡ keep (untouched cs) rows
  served-foreign cs rows = served_spares (untouched cs) cs rows (λ row e. e)
