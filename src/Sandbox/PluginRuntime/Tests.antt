-- ===== src/Sandbox/PluginRuntime/Tests.antt =====
-- Two plugins, the second of which uses what the first one exports.
use workflow_engine.Prelude.{
  ℕ, suc, ◌≡◌, ◌≢◌, refl, sym, ◌∙◌, String, true, false, not, Option, none, some, List, [], ◌∷◌,
  keep, string_eq, ◌==◌, if◌then◌else◌, ap,
}
use workflow_engine.Prelude.Maps.{get}
use workflow_engine.Sandbox.PluginCompose.{PluginDescriptor}
use workflow_engine.Sandbox.PluginRuntime.{
  returned, threw, PluginSetup, LoadedPlugin, Phase1Result, deps_of, add_exports, add_setup,
  phase_worker, run_phase_worker, run_phase_private_delete, collect_guest_functions, private_names,
  private_from, tagged, functions_from, run_on_before_run_started, run_on_run_finished,
  finished_from, run_on_post, on_finished, on_before, on_posted, source_eval_from,
  run_phase_source_eval, source_eval, mismatching,
}
use workflow_engine.Sandbox.PluginRuntime.Visible.{
  delete_names, is_private_name, function_names, visible_functions,
}
use workflow_engine.Sandbox.PluginRuntime.Dependencies.{dependencies_given}

abbrev Setup : Type 0
Setup = PluginSetup ℕ ℕ ℕ String

abbrev fetch_setup : Setup
fetch_setup = record {
  exports = some 7;
  guest_functions = some (
      record { name = "__fetch"; is_public = false }
      ∷ record { name = "fetch"; is_public = true }
      ∷ []);
  on_before_run_started = none;
  on_run_finished = some (λ r. threw "late");
  on_post = some (λ m. threw "lost");
}

abbrev mail_setup : Option ℕ → Setup
mail_setup x = record {
  exports = none;
  guest_functions = some (record { name = "mail"; is_public = true } ∷ []);
  on_before_run_started = some (λ r. threw "early");
  on_run_finished = some (λ r. returned false);
  on_post = some (λ m. returned (suc m));
}

abbrev plugin : String → Option (List String) → PluginDescriptor
plugin name depends_on = record {
  name = name;
  worker_source = "w";
  guest_source = some name;
  depends_on = depends_on;
}

abbrev fetch_plugin : LoadedPlugin ℕ ℕ ℕ String
fetch_plugin = record {
  descriptor = plugin "fetch" none;
  plugin_name = "fetch";
  worker = λ deps. returned (some fetch_setup);
}

abbrev mail_plugin : LoadedPlugin ℕ ℕ ℕ String
mail_plugin = record {
  descriptor = plugin "mail" (some ("fetch" ∷ []));
  plugin_name = "mail";
  worker = λ deps. returned (some (mail_setup (get "fetch" deps)));
}

abbrev phase1 : Phase1Result ℕ ℕ ℕ String
phase1 = record {
  setups = ("fetch", fetch_setup) ∷ ("mail", mail_setup (some 7)) ∷ [];
  order = "fetch" ∷ "mail" ∷ [];
}

phase1_made : run_phase_worker (fetch_plugin ∷ mail_plugin ∷ []) ≡ returned phase1
unfolding run_phase_worker phase_worker add_setup add_exports deps_of
phase1_made = refl

differ : (n : String) → n ≡ "mail" → n ≢ "fetch"
differ n m p = cc (ap (λ x. x == "mail") (sym m ∙ p))

dependencies_given_example :
    (deps : List (String × ℕ)) × (setup : Option Setup) × (mail_plugin.worker deps ≡ returned setup)
    × (get "fetch" deps ≡ some 7)
dependencies_given_example =
    dependencies_given "fetch" (fetch_plugin ∷ []) mail_plugin [] phase1 phase1_made (tt, tt)
      (differ "mail" refl, tt) refl

visible_functions_example :
    (let fs = collect_guest_functions phase1 in
      delete_names (run_phase_private_delete phase1) (function_names fs)
      ≡ keep (λ name. not (is_private_name fs name)) (function_names fs))
visible_functions_example = visible_functions phase1

visible_test :
    delete_names (run_phase_private_delete phase1) (function_names (collect_guest_functions phase1))
    ≡ "fetch" ∷ "mail" ∷ []
unfolding delete_names run_phase_private_delete collect_guest_functions private_from private_names
    functions_from tagged
visible_test = refl

-- The hook that throws at the end does not keep the other from its call.
finished_test : run_on_run_finished phase1.setups phase1.order 0 ≡ (
  "mail" ∷ "fetch" ∷ [],
  record { phase = on_finished; plugin_name = "fetch"; thrown = "late" } ∷ [],
)
unfolding run_on_run_finished finished_from
finished_test = refl

before_test :
    run_on_before_run_started phase1.setups phase1.order 0
    ≡ some (record { phase = on_before; plugin_name = "mail"; thrown = "early" })
unfolding run_on_before_run_started
before_test = refl

post_test :
    run_on_post phase1.setups phase1.order 4
    ≡ (5, record { phase = on_posted; plugin_name = "fetch"; thrown = "lost" } ∷ [])
unfolding run_on_post
post_test = refl

source_eval_test :
    run_phase_source_eval phase1
      (plugin "mail" none ∷ plugin "fetch" none ∷ [])
      (λ source. if source == "mail" then some "syntax" else none)
    ≡ (
      ("fetch", "fetch") ∷ ("mail", "mail") ∷ [],
      some (record { phase = source_eval; plugin_name = "mail"; thrown = "syntax" }),
    )
unfolding run_phase_source_eval source_eval_from
source_eval_test = refl

mismatching_test :
    mismatching (fetch_plugin ∷ record mail_plugin { plugin_name = "post" } ∷ [])
    ≡ some ("mail", "post")
unfolding mismatching
mismatching_test = refl
