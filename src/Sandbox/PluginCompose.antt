-- ===== src/Sandbox/PluginCompose.antt =====
-- packages/sandbox/src/plugin-compose.ts: the checks of a list of plugins before the worker is
-- spawned, and of the guest functions that the plugins register. A descriptor's config and the
-- topological sort are left out. The tests of `typeof` cannot fail on the typed descriptors here.
pub mod Registration
mod Tests
use workflow_engine.Prelude.{
  Bool, String, true, false, Option, none, some, List, [], ◌∷◌, any, ◌==◌, string_eq, if◌then◌else◌,
}
use workflow_engine.Prelude.Maps.{get, set}

pub record PluginDescriptor : Type 0 where
  pub name : String
  pub worker_source : String
  pub guest_source : Option String
  pub depends_on : Option (List String)

pub data PluginError : Type 0 where
  empty_name : PluginError
  empty_worker_source empty_guest_source empty_dependency : String → PluginError
  name_collision : String → PluginError
  missing_dependency : String → String → PluginError
  guest_function_name_collision : String → String → String → PluginError

-- The names in `dependsOn`, none where there is no such field.
abbrev pub dependencies : PluginDescriptor → List String
dependencies d = elim d.depends_on [ none ↦ [] | some deps ↦ deps ]

pub validate_depends_on : PluginDescriptor → Option PluginError
validate_depends_on d =
    if any (λ dep. dep == "") (dependencies d) then some (empty_dependency d.name) else none

abbrev is_empty_source : Option String → Bool
is_empty_source none = false
is_empty_source (some source) = source == ""

pub validate_descriptor : PluginDescriptor → Option PluginError
validate_descriptor d =
    if d.name == ""
    then some empty_name
    else if d.worker_source == ""
    then some (empty_worker_source d.name)
    else if is_empty_source d.guest_source
    then some (empty_guest_source d.name)
    else validate_depends_on d

-- The first loop: the shape of each descriptor and the uniqueness of its name.
pub check_descriptors : List String → List PluginDescriptor → Option PluginError
check_descriptors seen_names [] = none
check_descriptors seen_names (d ∷ ds) =
    let rest = check_descriptors (d.name ∷ seen_names) ds in
    elim (validate_descriptor d) [
      | some problem ↦ some problem
      | none ↦ if any (λ n. n == d.name) seen_names then some (name_collision d.name) else rest
    ]

pub missing_from : List String → String → List String → Option PluginError
missing_from names plugin [] = none
missing_from names plugin (dep ∷ deps) =
    if any (λ n. n == dep) names
    then missing_from names plugin deps
    else some (missing_dependency plugin dep)

-- The second loop: each dependency is registered.
pub check_dependencies : List String → List PluginDescriptor → Option PluginError
check_dependencies names [] = none
check_dependencies names (d ∷ ds) =
    let rest = check_dependencies names ds in
    elim (missing_from names d.name (dependencies d)) [ some problem ↦ some problem | none ↦ rest ]

abbrev pub names_of : List PluginDescriptor → List String
names_of [] = []
names_of (d ∷ ds) = d.name ∷ names_of ds

-- The error that is thrown; where there is none, the descriptors are returned as they are.
pub serialize_plugin_descriptors : List PluginDescriptor → Option PluginError
serialize_plugin_descriptors ds = elim (check_descriptors [] ds) [
  | some problem ↦ some problem
  | none ↦ check_dependencies (names_of ds) ds
]

pub record GuestEntry : Type 0 where
  pub plugin_name : String
  pub function_name : String

-- The loop of `assertGuestFunctionNamesUnique`.
pub check_entries : List (String × String) → List GuestEntry → Option PluginError
check_entries first_occurrence [] = none
check_entries first_occurrence (e ∷ es) =
    let known = check_entries first_occurrence es in
    let new = check_entries (set e.function_name e.plugin_name first_occurrence) es in
    elim (get e.function_name first_occurrence) [
      | none ↦ new
      | some prior ↦
          if prior == e.plugin_name
          then known
          else some (guest_function_name_collision e.function_name prior e.plugin_name)
    ]

pub assert_guest_function_names_unique : List GuestEntry → Option PluginError
assert_guest_function_names_unique entries = check_entries [] entries
