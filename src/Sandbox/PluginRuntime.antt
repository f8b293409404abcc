-- ===== src/Sandbox/PluginRuntime.antt =====
-- packages/sandbox/src/plugin-runtime.ts: the phases in which plugins are set up, and their hooks
-- around a run. A plugin's own functions are arguments: each returns a value or throws. The context
-- and the config that a worker function also gets are part of that function.
pub mod Visible
pub mod Dependencies
mod Tests
use mathlib.Core.List.{reverse}
use workflow_engine.Prelude.{
  Bool, String, true, false, not, Option, none, some, List, [], ◌∷◌, ◌++◌, snoc, ◌==◌, string_eq,
  if◌then◌else◌,
}
use workflow_engine.Prelude.Maps.{get, set}
use workflow_engine.Sandbox.PluginCompose.{PluginDescriptor, dependencies}

pub record GuestFunction : Type 0 where
  pub name : String
  pub is_public : Bool

-- What a call of a plugin's function gives.
pub data Called (E A : Type 0) : Type 0 where
  returned : A → Called E A
  threw : E → Called E A

-- `X` are exports, `R` what a hook of a run is given, `M` messages and `E` errors.
pub record PluginSetup (X R M E : Type 0) : Type 0 where
  pub exports : Option X
  pub guest_functions : Option (List GuestFunction)
  pub on_before_run_started : Option (R → Called E Bool)
  pub on_run_finished : Option (R → Called E Bool)
  pub on_post : Option (M → Called E M)

pub record LoadedPlugin (X R M E : Type 0) : Type 0 where
  pub descriptor : PluginDescriptor
  pub plugin_name : String
  pub worker : List (String × X) → Called E (Option (PluginSetup X R M E))

pub data Phase : Type 0 where
  worker_phase source_eval on_before on_finished on_posted : Phase

-- An error with the name of its plugin.
pub record Annotated (E : Type 0) : Type 0 where
  pub phase : Phase
  pub plugin_name : String
  pub thrown : E

pub record Phase1Result (X R M E : Type 0) : Type 0 where
  pub setups : List (String × PluginSetup X R M E)
  pub order : List String

pub private_names : List GuestFunction → List String
private_names [] = []
private_names (f ∷ fs) = if f.is_public then private_names fs else f.name ∷ private_names fs

abbrev pub by_name :
    List PluginDescriptor → List (String × PluginDescriptor) → List (String × PluginDescriptor)
by_name [] table = table
by_name (d ∷ ds) table = by_name ds (set d.name d table)

pub tagged : String → List GuestFunction → List (String × GuestFunction)
tagged name [] = []
tagged name (f ∷ fs) = (name, f) ∷ tagged name fs

module _ {X : Type 0} where
  -- The exports that a plugin gets, of those of the plugins before.
  pub deps_of : List String → List (String × X) → List (String × X) → List (String × X)
  deps_of [] exports deps = deps
  deps_of (dep ∷ names) exports deps = elim (get dep exports) [
    | none ↦ deps_of names exports deps
    | some x ↦ deps_of names exports (set dep x deps)
  ]

  pub add_exports : String → Option X → List (String × X) → List (String × X)
  add_exports name none exports = exports
  add_exports name (some x) exports = set name x exports

module _ {E : Type 0} where
  -- The sources that `runPhaseSourceEval` evaluates, each with the name of its plugin, up to the first
  -- one that throws.
  pub source_eval_from :
      List (String × PluginDescriptor)
      → (String → Option E)
      → List String
      → List (String × String) × Option (Annotated E)
  source_eval_from by_name eval [] = ([], none)
  source_eval_from by_name eval (name ∷ names) =
      let rest = source_eval_from by_name eval names in
      elim (get name by_name) [
        | none ↦ rest
        | some d ↦ elim d.guest_source [
          | none ↦ rest
          | some source ↦ elim (eval source) [
            | some e ↦ (
              (name, source) ∷ [],
              some (record { phase = source_eval; plugin_name = name; thrown = e }),
            )
            | none ↦ ((name, source) ∷ rest.0, rest.1)
          ]
        ]
      ]

module _ {X R M E : Type 0} where
  -- The check of `loadPluginModules`: the plugin whose module has another name.
  pub mismatching : List (LoadedPlugin X R M E) → Option (String × String)
  mismatching [] = none
  mismatching (p ∷ ps) =
      if p.plugin_name == p.descriptor.name
      then mismatching ps
      else some (p.descriptor.name, p.plugin_name)

  pub add_setup :
      String
      → Option (PluginSetup X R M E)
      → List (String × PluginSetup X R M E)
      → List (String × PluginSetup X R M E)
  add_setup name none setups = setups
  add_setup name (some setup) setups = set name setup setups

  abbrev pub exports_in : Option (PluginSetup X R M E) → Option X
  exports_in none = none
  exports_in (some setup) = setup.exports

  -- The loop of `runPhaseWorker`.
  pub phase_worker :
      List (LoadedPlugin X R M E)
      → Phase1Result X R M E
      → List (String × X)
      → Called (Annotated E) (Phase1Result X R M E)
  phase_worker [] done exports = returned done
  phase_worker (p ∷ ps) done exports =
      elim (p.worker (deps_of (dependencies p.descriptor) exports [])) [
        | threw e ↦
            threw (record { phase = worker_phase; plugin_name = p.descriptor.name; thrown = e })
        | returned setup ↦
            phase_worker ps
              (record {
                setups = add_setup p.descriptor.name setup done.setups;
                order = snoc done.order p.descriptor.name;
              })
              (add_exports p.descriptor.name (exports_in setup) exports)
      ]

  pub run_phase_worker : List (LoadedPlugin X R M E) → Called (Annotated E) (Phase1Result X R M E)
  run_phase_worker loaded = phase_worker loaded (record { setups = []; order = [] }) []

  pub run_phase_source_eval :
      Phase1Result X R M E
      → List PluginDescriptor
      → (String → Option E)
      → List (String × String) × Option (Annotated E)
  run_phase_source_eval phase1 ds eval = source_eval_from (by_name ds []) eval phase1.order

  abbrev pub functions_in : Option (PluginSetup X R M E) → List GuestFunction
  functions_in none = []
  functions_in (some setup) = elim setup.guest_functions [ none ↦ [] | some fs ↦ fs ]

  private_from : List (String × PluginSetup X R M E) → List String → List String
  private_from setups [] = []
  private_from setups (name ∷ names) =
      private_names (functions_in (get name setups)) ++ private_from setups names

  -- The names that are deleted from the global object, in their order.
  pub run_phase_private_delete : Phase1Result X R M E → List String
  run_phase_private_delete phase1 = private_from phase1.setups phase1.order

  functions_from : List (String × PluginSetup X R M E) → List String → List (String × GuestFunction)
  functions_from setups [] = []
  functions_from setups (name ∷ names) =
      tagged name (functions_in (get name setups)) ++ functions_from setups names

  pub collect_guest_functions : Phase1Result X R M E → List (String × GuestFunction)
  collect_guest_functions phase1 = functions_from phase1.setups phase1.order

  abbrev pub before_hook : Option (PluginSetup X R M E) → Option (R → Called E Bool)
  before_hook none = none
  before_hook (some setup) = setup.on_before_run_started

  abbrev pub finished_hook : Option (PluginSetup X R M E) → Option (R → Called E Bool)
  finished_hook none = none
  finished_hook (some setup) = setup.on_run_finished

  abbrev pub post_hook : Option (PluginSetup X R M E) → Option (M → Called E M)
  post_hook none = none
  post_hook (some setup) = setup.on_post

  -- The first hook that throws ends the loop.
  pub run_on_before_run_started :
      List (String × PluginSetup X R M E) → List String → R → Option (Annotated E)
  run_on_before_run_started setups [] run_input = none
  run_on_before_run_started setups (name ∷ names) run_input =
      let rest = run_on_before_run_started setups names run_input in
      elim (before_hook (get name setups)) [
        | none ↦ rest
        | some hook ↦ elim (hook run_input) [
          | threw e ↦ some (record { phase = on_before; plugin_name = name; thrown = e })
          | returned keeps ↦ rest
        ]
      ]

  finished_from :
      List (String × PluginSetup X R M E) → List String → R → List String × List (Annotated E)
  finished_from setups [] result = ([], [])
  finished_from setups (name ∷ names) result =
      let rest = finished_from setups names result in
      elim (finished_hook (get name setups)) [
        | none ↦ rest
        | some hook ↦ elim (hook result) [
          | threw e ↦ (
            name ∷ rest.0,
            record { phase = on_finished; plugin_name = name; thrown = e } ∷ rest.1,
          )
          | returned keeps ↦ (name ∷ rest.0, rest.1)
        ]
      ]

  -- The hooks that are called, from the last plugin to the first, and the errors of those that throw.
  pub run_on_run_finished :
      List (String × PluginSetup X R M E) → List String → R → List String × List (Annotated E)
  run_on_run_finished setups order result = finished_from setups (reverse order) result

  -- The message after the hooks; one that throws leaves it as it is.
  unfoldable pub run_on_post :
      List (String × PluginSetup X R M E) → List String → M → M × List (Annotated E)
  run_on_post setups [] current = (current, [])
  run_on_post setups (name ∷ names) current = elim (post_hook (get name setups)) [
    | none ↦ run_on_post setups names current
    | some hook ↦ elim (hook current) [
      | returned msg ↦ run_on_post setups names msg
      | threw e ↦
          (let rest = run_on_post setups names current in
            (rest.0, record { phase = on_posted; plugin_name = name; thrown = e } ∷ rest.1))
    ]
  ]
