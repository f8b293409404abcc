-- ===== src/Runtime/SandboxStore/Invariant.antt =====
-- sandbox-store.ts: the cache stays well keyed under every operation and every happening.
use workflow_engine.Prelude.{
  ℕ, zero, suc, ◌+◌, ◌-◌, ◌≡◌, refl, String, Bool, false, none, some, List, [], ◌∷◌, ◌==◌, nat_eq,
  string_eq, length, All, arith, inl, inr, Bool-cases, Option-cases, eq_cases, ◌∙◌, ◌≤◌, ◌⊎◌,
}
use workflow_engine.Prelude.Maps.{
  get, set, delete, Fresh, Distinct, set-Distinct, delete-Distinct, Fresh-get, delete_removes,
}
use workflow_engine.Runtime.SandboxStore.{
  CacheEntry, Store, Effect, evictable, sweep, get_sandbox, resolved, rejected, terminated, dispose,
  assign_sandbox, with_sandbox, forget, new_entry, store_key, create_sandbox_store,
}
use workflow_engine.Runtime.SandboxStore.Sweep.{
  IsWellKeyed, survivors, sweep_by_candidates, sweep_bound,
}

abbrev Keyed : List (String × CacheEntry) → Type 0
Keyed cache = All (λ p. p.1.key ≡ p.0) cache

survivors-Fresh :
    (active : ℕ → Bool) (n : ℕ) (k : String) (cache : List (String × CacheEntry))
    → Fresh k cache
    → Fresh k (survivors active n cache)
survivors-Fresh active zero k cache h = h
survivors-Fresh active (suc n) k [] h = tt
survivors-Fresh active (suc n) k ((j, e) ∷ cache) (p, h) = elim (Bool-cases (evictable active e)) [
  | inl free ↦ rw free (survivors-Fresh active n k cache h)
  | inr busy ↦ rw busy (p, survivors-Fresh active (suc n) k cache h)
]

survivors-IsWellKeyed :
    (active : ℕ → Bool) (n : ℕ) (cache : List (String × CacheEntry))
    → Distinct cache
    → Keyed cache
    → Distinct (survivors active n cache) × Keyed (survivors active n cache)
survivors-IsWellKeyed active zero cache d h = (d, h)
survivors-IsWellKeyed active (suc n) [] d h = (tt, tt)
survivors-IsWellKeyed active (suc n) ((j, e) ∷ cache) (f, d) (q, h) =
    elim (Bool-cases (evictable active e)) [
      | inl free ↦ rw free (survivors-IsWellKeyed active n cache d h)
      | inr busy ↦ rw busy (
          let (d', h') = survivors-IsWellKeyed active (suc n) cache d h in
          ((survivors-Fresh active (suc n) j cache f, d'), (q, h')))
    ]

sweep-IsWellKeyed :
    (active : ℕ → Bool) (most : ℕ) (s : Store)
    → IsWellKeyed s.cache
    → IsWellKeyed (sweep active most s).0.cache
sweep-IsWellKeyed active most s w = rw (sweep_by_candidates active most s w).0 (
    let (d, h) = survivors-IsWellKeyed active (length s.cache - most) s.cache w.distinct w.keyed in
    record { distinct = d; keyed = h })

set-Keyed :
    (k : String) (e : CacheEntry) (cache : List (String × CacheEntry))
    → e.key ≡ k
    → Fresh k cache
    → Keyed cache
    → Keyed (set k e cache)
set-Keyed k e [] q f h = (q, tt)
set-Keyed k e ((j, v) ∷ cache) q (n, f) (p, h) = elim (eq_cases j k) [
  | inl (t, same) ↦ absurd (n same)
  | inr (t, _) ↦ rw t (p, set-Keyed k e cache q f h)
]

delete-Keyed :
    (k : String) (cache : List (String × CacheEntry)) → Keyed cache → Keyed (delete k cache)
delete-Keyed k [] h = tt
delete-Keyed k ((j, v) ∷ cache) (p, h) = elim (Bool-cases (j == k)) [
  | inl t ↦ rw t h
  | inr f ↦ rw f (p, delete-Keyed k cache h)
]

get-Keyed :
    (k : String) (e : CacheEntry) (cache : List (String × CacheEntry))
    → Keyed cache
    → get k cache ≡ some e
    → e.key ≡ k
get-Keyed k e [] h g = absurd (cc)
get-Keyed k e ((j, v) ∷ cache) (p, h) g = elim (eq_cases j k) [
  | inl (t, same) ↦ ground (arith, t)
  | inr (f, _) ↦ get-Keyed k e cache h (rw f at g)
]

pub grown-IsWellKeyed :
    (s : Store) (owner sha : String)
    → IsWellKeyed s.cache
    → get (store_key owner sha) s.cache ≡ none
    → IsWellKeyed (set (store_key owner sha) (new_entry s.next_id owner sha) s.cache)
grown-IsWellKeyed s owner sha w absent =
    let key = store_key owner sha in
    let entry = new_entry s.next_id owner sha in
    record {
      distinct = set-Distinct key entry s.cache w.distinct;
      keyed = set-Keyed key entry s.cache refl (Fresh-get key s.cache absent) w.keyed;
    }

pub get_sandbox-IsWellKeyed :
    (active : ℕ → Bool) (most : ℕ) (s : Store) (owner sha : String)
    → IsWellKeyed s.cache
    → IsWellKeyed (get_sandbox active most s owner sha).0.cache
unfolding get_sandbox
get_sandbox-IsWellKeyed active most s owner sha w =
    let key = store_key owner sha in
    elim (Option-cases (get key s.cache)) [
      | inl e ↦
          rw (e, get_sandbox) (sweep-IsWellKeyed active most _ (grown-IsWellKeyed s owner sha w e))
      | inr (x, e) ↦
          rw (e, get_sandbox)
            (record {
              distinct =
                  set-Distinct key (record x { run_count = x.run_count + 1 }) (delete key s.cache)
                    (delete-Distinct key s.cache w.distinct);
              keyed =
                  set-Keyed key (record x { run_count = x.run_count + 1 }) (delete key s.cache)
                    (get-Keyed key x s.cache w.keyed e) (delete_removes key s.cache w.distinct)
                    (delete-Keyed key s.cache w.keyed);
            })
    ]

assign-Fresh :
    (id sb : ℕ) (k : String) (cache : List (String × CacheEntry))
    → Fresh k cache
    → Fresh k (assign_sandbox id sb cache)
unfolding assign_sandbox
assign-Fresh id sb k [] h = tt
assign-Fresh id sb k ((j, e) ∷ cache) (p, h) = (p, assign-Fresh id sb k cache h)

key-with_sandbox : (id sb : ℕ) (e : CacheEntry) → (with_sandbox id sb e).key ≡ e.key
unfolding with_sandbox
key-with_sandbox id sb e = ground arith

assign-IsWellKeyed :
    (id sb : ℕ) (cache : List (String × CacheEntry))
    → Distinct cache
    → Keyed cache
    → Distinct (assign_sandbox id sb cache) × Keyed (assign_sandbox id sb cache)
unfolding assign_sandbox
assign-IsWellKeyed id sb [] d h = (tt, tt)
assign-IsWellKeyed id sb ((j, e) ∷ cache) (f, d) (q, h) =
    let (d', h') = assign-IsWellKeyed id sb cache d h in
    ((assign-Fresh id sb j cache f, d'), (key-with_sandbox id sb e ∙ q, h'))

forget-IsWellKeyed :
    (id : ℕ) (k : String) (cache : List (String × CacheEntry))
    → IsWellKeyed cache
    → IsWellKeyed (forget id k cache)
unfolding forget
forget-IsWellKeyed id k cache w = elim (Option-cases (get k cache)) [
  | inl e ↦ rw (e, forget) w
  | inr (x, e) ↦
      rw (e, forget)
        (elim (Bool-cases (x.id == id)) [
          | inl t ↦ rw t (record {
            distinct = delete-Distinct k cache w.distinct;
            keyed = delete-Keyed k cache w.keyed;
          })
          | inr f ↦ rw f w
        ])
]

-- What can happen to a store: its two methods, and what builds and workers do.
pub data Happening : Type 0 where
  get_call : (ℕ → Bool) → String → String → Happening
  resolves : ℕ → ℕ → Happening
  rejects terminates : ℕ → String → Happening
  disposes : Happening

unfoldable pub step : ℕ → Store → Happening → Store × List Effect
step most s (get_call active owner sha) = let r = get_sandbox active most s owner sha in (r.0, r.2)
step most s (resolves id sb) = resolved id sb s
step most s (rejects id key) = (rejected id key s, [])
step most s (terminates id key) = (terminated id key s, [])
step most s disposes = dispose s

unfoldable pub after : ℕ → Store → List Happening → Store
after most s [] = s
after most s (h ∷ hs) = after most (step most s h).0 hs

pub step-IsWellKeyed :
    (most : ℕ) (s : Store) (h : Happening)
    → IsWellKeyed s.cache
    → IsWellKeyed (step most s h).0.cache
unfolding step resolved rejected terminated dispose
step-IsWellKeyed most s (get_call active owner sha) w =
    get_sandbox-IsWellKeyed active most s owner sha w
step-IsWellKeyed most s (resolves id sb) w =
    let (d, h) = assign-IsWellKeyed id sb s.cache w.distinct w.keyed in
    record { distinct = d; keyed = h }
step-IsWellKeyed most s (rejects id key) w = forget-IsWellKeyed id key s.cache w
step-IsWellKeyed most s (terminates id key) w = forget-IsWellKeyed id key s.cache w
step-IsWellKeyed most s disposes w = record { distinct = tt; keyed = tt }

after-IsWellKeyed :
    (most : ℕ) (s : Store) (hs : List Happening)
    → IsWellKeyed s.cache
    → IsWellKeyed (after most s hs).cache
unfolding after
after-IsWellKeyed most s [] w = w
after-IsWellKeyed most s (h ∷ hs) w =
    after-IsWellKeyed most (step most s h).0 hs (step-IsWellKeyed most s h w)

pub created-IsWellKeyed :
    (most : ℕ) (hs : List Happening) → IsWellKeyed (after most create_sandbox_store hs).cache
unfolding create_sandbox_store
created-IsWellKeyed most hs =
    after-IsWellKeyed most create_sandbox_store hs (record { distinct = tt; keyed = tt })

-- Whatever happened before, a `get` that has to build leaves the cache within its bound, or every
-- entry in it is building or in the middle of a run.
pub build_bound :
    (most : ℕ) (hs : List Happening) (active : ℕ → Bool) (owner sha : String)
    → get (store_key owner sha) (after most create_sandbox_store hs).cache ≡ none
    → let t = (get_sandbox active most (after most create_sandbox_store hs) owner sha).0 in
      (length t.cache ≤ most) ⊎ All (λ p. evictable active p.1 ≡ false) t.cache
unfolding get_sandbox
build_bound most hs active owner sha absent =
    let s = after most create_sandbox_store hs in
    rw (absent, get_sandbox)
      (sweep_bound active most _
        (grown-IsWellKeyed s owner sha (created-IsWellKeyed most hs) absent))
