-- ===== src/Sandbox/PluginCompose/Tests.antt =====
-- The checks of plugins at concrete lists.
use workflow_engine.Prelude.{
  String, ◌≡◌, refl, true, none, some, List, [], ◌∷◌, any, All, ◌==◌, string_eq,
}
use workflow_engine.Sandbox.PluginCompose.{
  PluginDescriptor, name_collision, guest_function_name_collision, dependencies,
  serialize_plugin_descriptors, GuestEntry, assert_guest_function_names_unique, check_descriptors,
  validate_descriptor, validate_depends_on, check_dependencies, missing_from, check_entries,
}
use workflow_engine.Sandbox.PluginCompose.Registration.{AreUnique, serialize_checks}

abbrev plugin : String → List String → PluginDescriptor
plugin name deps = record {
  name = name;
  worker_source = "w";
  guest_source = none;
  depends_on = some deps;
}

abbrev plugins : List PluginDescriptor
plugins = plugin "fetch" ("web" ∷ []) ∷ plugin "web" [] ∷ []

serialize_checks_example :
    AreUnique ("fetch" ∷ "web" ∷ [])
    × All
        (λ d. All (λ dep. any (λ n. n == dep) ("fetch" ∷ "web" ∷ []) ≡ true) (dependencies d))
        plugins
unfolding serialize_plugin_descriptors check_descriptors validate_descriptor validate_depends_on
    check_dependencies missing_from
serialize_checks_example = serialize_checks plugins refl

collision_test :
    serialize_plugin_descriptors (plugin "a" [] ∷ plugin "a" [] ∷ []) ≡ some (name_collision "a")
unfolding serialize_plugin_descriptors check_descriptors validate_descriptor validate_depends_on
collision_test = refl

abbrev entry : String → String → GuestEntry
entry plugin function = record { plugin_name = plugin; function_name = function }

abbrev entries : List GuestEntry
entries = entry "timers" "setTimeout" ∷ entry "fetch" "fetch" ∷ entry "timers" "setTimeout" ∷ []

guest_collision_test :
    assert_guest_function_names_unique (entry "a" "f" ∷ entry "b" "f" ∷ [])
    ≡ some (guest_function_name_collision "f" "a" "b")
unfolding assert_guest_function_names_unique check_entries
guest_collision_test = refl
