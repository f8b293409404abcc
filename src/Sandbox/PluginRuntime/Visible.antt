-- ===== src/Sandbox/PluginRuntime/Visible.antt =====
-- plugin-runtime.ts: what is left of the guest functions on the global object when the user's source
-- is evaluated.
use workflow_engine.Prelude.{
  ◌≡◌, refl, sym, ap, ◌∙◌, Bool, String, not, ◌&&◌, ◌||◌, List, [], ◌∷◌, map, any, keep, any-append,
  keep_cong, keep-keep, ◌==◌, string_eq, Bool-cases, inl, inr, not_or, keep_everything, eq_swap,
}
use workflow_engine.Prelude.Maps.{get}
use workflow_engine.Sandbox.PluginRuntime.{
  GuestFunction, PluginSetup, Phase1Result, functions_in, private_names, private_from,
  run_phase_private_delete, tagged, functions_from, collect_guest_functions,
}

-- The deletions on a global object, given by its names.
unfoldable pub delete_names : List String → List String → List String
delete_names [] globals = globals
delete_names (n ∷ ns) globals = delete_names ns (keep (λ g. not (g == n)) globals)

-- Whether a function of this name is private.
abbrev pub is_private_name : List (String × GuestFunction) → String → Bool
is_private_name fs name = any (λ f. not f.1.is_public && f.1.name == name) fs

abbrev pub function_names : List (String × GuestFunction) → List String
function_names fs = map (λ f. f.1.name) fs

delete_names_lem :
    (ns globals : List String)
    → delete_names ns globals ≡ keep (λ g. not (any (λ n. n == g) ns)) globals
unfolding delete_names
delete_names_lem [] globals = sym (keep_everything globals)
delete_names_lem (n ∷ ns) globals =
    delete_names_lem ns (keep (λ g. not (g == n)) globals)
    ∙ keep-keep (λ g. not (any (λ m. m == g) ns)) (λ g. not (g == n)) globals
    ∙ keep_cong _ _ globals (λ g. rw (eq_swap g n) (not_or (n == g) (any (λ m. m == g) ns)))

tagged_private :
    (plugin name : String) (fs : List GuestFunction)
    → any (λ n. n == name) (private_names fs) ≡ is_private_name (tagged plugin fs) name
unfolding private_names tagged
tagged_private plugin name [] = refl
tagged_private plugin name (f ∷ fs) = elim (Bool-cases f.is_public) [
  | inl t ↦ rw (t, private_names) (tagged_private plugin name fs)
  | inr t ↦ rw (t, private_names) (ap (λ b. (f.name == name) || b) (tagged_private plugin name fs))
]

module _ {X R M E : Type 0} where
  private_from_lem :
      (setups : List (String × PluginSetup X R M E)) (order : List String) (name : String)
      → any (λ n. n == name) (private_from setups order)
        ≡ is_private_name (functions_from setups order) name
  unfolding private_from functions_from
  private_from_lem setups [] name = refl
  private_from_lem setups (plugin ∷ plugins) name =
      let fs = functions_in (get plugin setups) in
      any-append (λ n. n == name) (private_names fs) (private_from setups plugins)
      ∙ ap (λ b. b || any (λ n. n == name) (private_from setups plugins))
          (tagged_private plugin name fs)
      ∙ ap (λ b. is_private_name (tagged plugin fs) name || b)
          (private_from_lem setups plugins name)
      ∙ sym (any-append _ (tagged plugin fs) (functions_from setups plugins))

  -- When the private functions have been deleted, the names that are left of the guest functions are,
  -- in their order, those that no private function of any plugin has.
  pub visible_functions :
      (phase1 : Phase1Result X R M E)
      → (let fs = collect_guest_functions phase1 in
          delete_names (run_phase_private_delete phase1) (function_names fs)
          ≡ keep (λ name. not (is_private_name fs name)) (function_names fs))
  unfolding collect_guest_functions run_phase_private_delete
  visible_functions phase1 =
      let fs = functions_from phase1.setups phase1.order in
      delete_names_lem (private_from phase1.setups phase1.order) (function_names fs)
      ∙ keep_cong _ _ (function_names fs)
          (λ name. ap not (private_from_lem phase1.setups phase1.order name))
