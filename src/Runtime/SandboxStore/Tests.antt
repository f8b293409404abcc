-- ===== src/Runtime/SandboxStore/Tests.antt =====
-- The cache at concrete calls.
use workflow_engine.Prelude.{
  ℕ, ◌-◌, ◌≡◌, ◌≤◌, ◌⊎◌, refl, Bool, false, List, [], ◌∷◌, map, All, length, take, ◌==◌, nat_eq,
  string_eq,
}
use workflow_engine.Runtime.SandboxStore.{
  Store, dispose_sandbox, lru, evictable, sweep, get_sandbox, resolved, new_entry, store_key,
  create_sandbox_store, collect_victims, evict, disposals, dispose_entry, assign_sandbox,
  with_sandbox, drained,
}
use workflow_engine.Runtime.SandboxStore.Sweep.{without_idle, idle_sandboxes, sweep-survivors}
use workflow_engine.Runtime.SandboxStore.Invariant.{
  Happening, get_call, resolves, step, after, build_bound, created-IsWellKeyed,
}
use workflow_engine.Runtime.SandboxStore.Flight.{IsBuilding, Call, calls, single_flight}

-- Three sandboxes are built; the second is in the middle of a run.
abbrev busy_two : ℕ → Bool
busy_two sb = sb == 11

abbrev built : List Happening
built =
    get_call busy_two "o" "a"
    ∷ resolves 0 10
    ∷ get_call busy_two "o" "b"
    ∷ resolves 1 11
    ∷ get_call busy_two "o" "c"
    ∷ resolves 2 12
    ∷ []

abbrev three : Store
three = after 3 create_sandbox_store built

keys_test : map (λ p. p.0) three.cache ≡ "o/a" ∷ "o/b" ∷ "o/c" ∷ []
unfolding after step get_sandbox resolved sweep create_sandbox_store store_key drained
    assign_sandbox
keys_test = refl

-- A bound of one: the first goes and the busy one stays, with the one that is being built.
evicted_test : map (λ p. p.0) (get_sandbox busy_two 1 three "o" "d").0.cache ≡ "o/b" ∷ "o/d" ∷ []
unfolding after step get_sandbox resolved sweep create_sandbox_store store_key drained
    assign_sandbox with_sandbox collect_victims evict disposals dispose_entry
evicted_test = refl

sweep-survivors_example :
    ((sweep busy_two 1 three).0.cache ≡ without_idle busy_two (length three.cache - 1) three.cache)
    × ((sweep busy_two 1 three).1
        ≡ map
            (λ sb. dispose_sandbox sb lru)
            (take (length three.cache - 1) (idle_sandboxes busy_two three.cache)))
sweep-survivors_example = sweep-survivors busy_two 1 three (created-IsWellKeyed 3 built)

build_bound_example :
    (length (get_sandbox busy_two 3 three "o" "d").0.cache ≤ 3)
    ⊎ All (λ p. evictable busy_two p.1 ≡ false) (get_sandbox busy_two 3 three "o" "d").0.cache
unfolding after step get_sandbox resolved sweep create_sandbox_store store_key drained
    assign_sandbox
build_bound_example = build_bound 3 built busy_two "o" "d" refl

abbrev building : List Happening
building = get_call busy_two "o" "a" ∷ []

abbrev others : List Call
others = (busy_two, "o", "b") ∷ (busy_two, "o", "c") ∷ []

building-IsBuilding : IsBuilding (store_key "o" "a") 0 (after 0 create_sandbox_store building).cache
unfolding after step get_sandbox sweep create_sandbox_store store_key collect_victims evict
building-IsBuilding = (new_entry 0 "o" "a", refl, refl, refl)

single_flight_example :
    ((get_sandbox busy_two 0
        (after 0 (after 0 create_sandbox_store building) (calls others))
        "o"
        "a").1
      ≡ 0)
    × ((get_sandbox busy_two 0
          (after 0 (after 0 create_sandbox_store building) (calls others))
          "o"
          "a").2
        ≡ [])
single_flight_example =
    single_flight 0 (after 0 create_sandbox_store building) others busy_two "o" "a" 0
      (created-IsWellKeyed 0 building) building-IsBuilding
