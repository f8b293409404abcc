-- ===== src/Runtime/SandboxStore/Flight.antt =====
-- sandbox-store.ts: a build that is under way, and the calls of `get` meanwhile.
use workflow_engine.Prelude.{
  ℕ, zero, suc, ◌+◌, ◌≡◌, refl, ap, String, Bool, none, some, List, [], ◌∷◌, ◌==◌, nat_eq,
  string_eq, arith, inl, inr, Bool-cases, Option-cases, eq_cases, ◌∙◌, map, subst,
}
use workflow_engine.Prelude.Maps.{get, set, delete, get-set_self, get-set_ne, get-delete_ne}
use workflow_engine.Runtime.SandboxStore.{
  CacheEntry, Store, evictable, get_sandbox, new_entry, store_key,
}
use workflow_engine.Runtime.SandboxStore.Sweep.{IsWellKeyed, survivors, sweep_by_candidates}
use workflow_engine.Runtime.SandboxStore.Invariant.{
  Happening, get_call, step, after, get_sandbox-IsWellKeyed, grown-IsWellKeyed,
}

-- The cached entry of a key is still building, under the promise `id`.
abbrev pub IsBuilding : String → ℕ → List (String × CacheEntry) → Type 0
IsBuilding key id cache =
    (e : CacheEntry) × (get key cache ≡ some e) × (e.id ≡ id) × (e.sandbox ≡ none)

get-survivors :
    (active : ℕ → Bool) (n : ℕ) (k : String) (e : CacheEntry) (cache : List (String × CacheEntry))
    → e.sandbox ≡ none
    → get k cache ≡ some e
    → get k (survivors active n cache) ≡ some e
get-survivors active zero k e cache b g = g
get-survivors active (suc n) k e [] b g = g
get-survivors active (suc n) k e ((j, v) ∷ cache) b g = elim (Bool-cases (evictable active v)) [
  | inl free ↦ rw free (elim (Bool-cases (j == k)) [
    | inl t ↦ absurd (ground (arith, free, t))
    | inr f ↦ get-survivors active n k e cache b (rw f at g)
  ])
  | inr busy ↦ rw busy (elim (Bool-cases (j == k)) [
    | inl t ↦ ground (arith, t)
    | inr f ↦ rw f (get-survivors active (suc n) k e cache b (rw f at g))
  ])
]

abbrev grown : Store → String → String → Store
grown s owner sha = record s {
  cache = set (store_key owner sha) (new_entry s.next_id owner sha) s.cache;
  next_id = s.next_id + 1;
}

hit-IsBuilding :
    (other key : String) (id : ℕ) (x : CacheEntry) (cache : List (String × CacheEntry))
    → get other cache ≡ some x
    → IsBuilding key id cache
    → IsBuilding key id (set other (record x { run_count = x.run_count + 1 }) (delete other cache))
hit-IsBuilding other key id x cache found (e, g, same, building) =
    let x' = record x { run_count = x.run_count + 1 } in
    elim (eq_cases other key) [
      | inl (_, q) ↦
          let z : x ≡ e = ground (arith, q, found, g) in
          (
            x',
            subst (λ k. get k (set other x' (delete other cache)) ≡ some x') q
                (get-set_self other x' (delete other cache)),
            ap (λ (y : CacheEntry). y.id) z ∙ same,
            ap (λ (y : CacheEntry). y.sandbox) z ∙ building,
          )
      | inr (_, n) ↦ (
        e,
        get-set_ne other key x' (delete other cache) n ∙ get-delete_ne other key cache n ∙ g,
        same,
        building,
      )
    ]

get_sandbox-IsBuilding :
    (active : ℕ → Bool) (most : ℕ) (s : Store) (owner sha key : String) (id : ℕ)
    → IsWellKeyed s.cache
    → IsBuilding key id s.cache
    → IsBuilding key id (get_sandbox active most s owner sha).0.cache
unfolding get_sandbox
get_sandbox-IsBuilding active most s owner sha key id w (e, g, same, building) =
    let other = store_key owner sha in
    let entry = new_entry s.next_id owner sha in
    elim (Option-cases (get other s.cache)) [
      | inl absent ↦
          rw (absent, get_sandbox)
            (rw
              (sweep_by_candidates active most (grown s owner sha)
                (grown-IsWellKeyed s owner sha w absent)).0
              (
                e,
                get-survivors active _ key e (set other entry s.cache) building
                    (get-set_ne other key entry s.cache (λ q. cc) ∙ g),
                same,
                building,
              ))
      | inr (x, found) ↦
          rw (found, get_sandbox)
            (hit-IsBuilding other key id x s.cache found (e, g, same, building))
    ]

-- A call of `get`, with the sandboxes that are in the middle of a run when it comes.
abbrev pub Call : Type 0
Call = (ℕ → Bool) × String × String

abbrev pub calls : List Call → List Happening
calls = map (λ c. get_call c.0 c.1 c.2)

calls-IsBuilding :
    (most : ℕ) (s : Store) (cs : List Call) (key : String) (id : ℕ)
    → IsWellKeyed s.cache
    → IsBuilding key id s.cache
    → IsBuilding key id (after most s (calls cs)).cache
unfolding after step
calls-IsBuilding most s [] key id w b = b
calls-IsBuilding most s ((active, owner, sha) ∷ cs) key id w b =
    calls-IsBuilding most (get_sandbox active most s owner sha).0 cs key id
      (get_sandbox-IsWellKeyed active most s owner sha w)
      (get_sandbox-IsBuilding active most s owner sha key id w b)

get_sandbox_building :
    (active : ℕ → Bool) (most : ℕ) (s : Store) (owner sha : String) (id : ℕ)
    → IsBuilding (store_key owner sha) id s.cache
    → ((get_sandbox active most s owner sha).1 ≡ id)
      × ((get_sandbox active most s owner sha).2 ≡ [])
unfolding get_sandbox
get_sandbox_building active most s owner sha id (e, g, same, building) =
    rw (g, get_sandbox) (same, refl)

-- While a sandbox is being built, every further `get` for its owner and sha returns the same promise
-- and starts no second build, however many calls for other sandboxes come in between and however
-- small the cache is.
pub single_flight :
    (most : ℕ) (s : Store) (cs : List Call) (active : ℕ → Bool) (owner sha : String) (id : ℕ)
    → IsWellKeyed s.cache
    → IsBuilding (store_key owner sha) id s.cache
    → let r = get_sandbox active most (after most s (calls cs)) owner sha in (r.1 ≡ id) × (r.2 ≡ [])
single_flight most s cs active owner sha id w b =
    get_sandbox_building active most (after most s (calls cs)) owner sha id
      (calls-IsBuilding most s cs (store_key owner sha) id w b)
