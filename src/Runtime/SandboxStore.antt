-- ===== src/Runtime/SandboxStore.antt =====
-- packages/runtime/src/sandbox-store.ts: the cache of sandboxes. The `Map` is a list in insertion
-- order, the oldest entry first. A promise and its cache entry are one number, `id`; a sandbox is a
-- number too. What happens between two calls, a build that settles or a worker that terminates, is a
-- `Happening` of its own. `active` says which sandboxes are in the middle of a run.
pub mod Sweep
pub mod Invariant
pub mod Flight
mod Tests
use Prim.Native.String
use workflow_engine.Prelude.{
  ℕ, ◌+◌, ◌-◌, String, Bool, true, false, not, ◌&&◌, Option, none, some, List, [], ◌∷◌, ◌++◌, map,
  leb, ◌==◌, nat_eq, string_eq, length, if◌then◌else◌,
}
use workflow_engine.Prelude.Maps.{get, set, delete}

pub record CacheEntry : Type 0 where
  pub id : ℕ
  pub key : String
  pub owner : String
  pub sha : String
  -- Set when the promise resolves.
  pub sandbox : Option ℕ
  pub run_count : ℕ

pub record Store : Type 0 where
  pub cache : List (String × CacheEntry)
  -- The snapshot that `dispose` took of entries whose promises have not settled.
  pub draining : List CacheEntry
  pub next_id : ℕ

pub data Reason : Type 0 where
  lru store_dispose : Reason

-- What the store does besides: a sandbox is disposed of, or a build is started for an entry.
pub data Effect : Type 0 where
  dispose_sandbox : ℕ → Reason → Effect
  build : ℕ → Effect

pub create_sandbox_store : Store
create_sandbox_store = record { cache = []; draining = []; next_id = 0 }

pub store_key : String → String → String
store_key owner sha = String.◌++◌ owner (String.◌++◌ "/" sha)

pub dispose_entry : CacheEntry → Reason → List Effect
dispose_entry entry reason = elim entry.sandbox [
  | none ↦ []
  | some sb ↦ dispose_sandbox sb reason ∷ []
]

-- Neither building nor in the middle of a run.
abbrev pub evictable : (ℕ → Bool) → CacheEntry → Bool
evictable active entry = elim entry.sandbox [ none ↦ false | some sb ↦ not (active sb) ]

-- The loop of `sweep` that collects its victims.
pub collect_victims : (ℕ → Bool) → ℕ → ℕ → List (String × CacheEntry) → List CacheEntry
collect_victims active max_count remaining [] = []
collect_victims active max_count remaining ((k, entry) ∷ entries) =
    let free = evictable active entry in
    let rest =
      collect_victims active max_count (if free then remaining - 1 else remaining) entries in
    if leb remaining max_count then [] else if free then entry ∷ rest else rest

-- The loop of `sweep` over its victims.
pub evict : List CacheEntry → List (String × CacheEntry) → List (String × CacheEntry)
evict [] cache = cache
evict (victim ∷ victims) cache = evict victims (delete victim.key cache)

pub disposals : List CacheEntry → List Effect
disposals [] = []
disposals (victim ∷ victims) = dispose_entry victim lru ++ disposals victims

pub sweep : (ℕ → Bool) → ℕ → Store → Store × List Effect
sweep active max_count s =
    if leb (length s.cache) max_count
    then (s, [])
    else (let victims = collect_victims active max_count (length s.cache) s.cache in
        (record s { cache = evict victims s.cache }, disposals victims))

abbrev pub new_entry : ℕ → String → String → CacheEntry
new_entry id owner sha = record {
  id = id;
  key = store_key owner sha;
  owner = owner;
  sha = sha;
  sandbox = none;
  run_count = 1;
}

-- `get`: the new state, the promise that is returned, and the effects.
pub get_sandbox : (ℕ → Bool) → ℕ → Store → String → String → Store × ℕ × List Effect
get_sandbox active max_count s owner sha =
    let key = store_key owner sha in
    elim (get key s.cache) [
      | some existing ↦ (
        record s {
          cache =
              set key (record existing { run_count = existing.run_count + 1 }) (delete key s.cache);
        },
        existing.id,
        [],
      )
      | none ↦
          let (s', effects) = sweep active max_count (record s {
            cache = set key (new_entry s.next_id owner sha) s.cache;
            next_id = s.next_id + 1;
          }) in
          (s', s.next_id, build s.next_id ∷ effects)
    ]

-- `entry.sandbox = sb`, through every reference to the entry.
pub with_sandbox : ℕ → ℕ → CacheEntry → CacheEntry
with_sandbox id sb entry = if entry.id == id then record entry { sandbox = some sb } else entry

pub assign_sandbox : ℕ → ℕ → List (String × CacheEntry) → List (String × CacheEntry)
assign_sandbox id sb [] = []
assign_sandbox id sb ((k, entry) ∷ entries) =
    (k, with_sandbox id sb entry) ∷ assign_sandbox id sb entries

-- `if (cache.get(key) === entry) cache.delete(key)`.
pub forget : ℕ → String → List (String × CacheEntry) → List (String × CacheEntry)
forget id key cache = elim (get key cache) [
  | none ↦ cache
  | some entry ↦ if entry.id == id then delete key cache else cache
]

-- The entries of the snapshot that have settled, and those that have not.
pub drained : ℕ → ℕ → List CacheEntry → List CacheEntry × List Effect
drained id sb [] = ([], [])
drained id sb (entry ∷ entries) =
    let rest = drained id sb entries in
    if entry.id == id
    then (rest.0, dispose_entry (with_sandbox id sb entry) store_dispose ++ rest.1)
    else (entry ∷ rest.0, rest.1)

-- The build of an entry resolves.
pub resolved : ℕ → ℕ → Store → Store × List Effect
resolved id sb s =
    let (waiting, effects) = drained id sb s.draining in
    (record s { cache = assign_sandbox id sb s.cache; draining = waiting }, effects)

pub without : ℕ → List CacheEntry → List CacheEntry
without id [] = []
without id (entry ∷ entries) =
    let rest = without id entries in if entry.id == id then rest else entry ∷ rest

-- The build of an entry rejects.
pub rejected : ℕ → String → Store → Store
rejected id key s = record s { cache = forget id key s.cache; draining = without id s.draining }

-- The worker of an entry's sandbox terminates.
pub terminated : ℕ → String → Store → Store
terminated id key s = record s { cache = forget id key s.cache }

-- `dispose` behind its polling loop: the snapshot is taken and the cache cleared; entries that are
-- built are disposed of, the others when they settle.
pub snapshot : List (String × CacheEntry) → List CacheEntry × List Effect
snapshot [] = ([], [])
snapshot ((k, entry) ∷ entries) =
    let rest = snapshot entries in
    elim entry.sandbox [
      | none ↦ (entry ∷ rest.0, rest.1)
      | some sb ↦ (rest.0, dispose_entry entry store_dispose ++ rest.1)
    ]

pub dispose : Store → Store × List Effect
dispose s =
    let (waiting, effects) = snapshot s.cache in
    (record s { cache = []; draining = s.draining ++ waiting }, effects)
