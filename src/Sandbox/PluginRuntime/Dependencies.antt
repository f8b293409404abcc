-- ===== src/Sandbox/PluginRuntime/Dependencies.antt =====
-- plugin-runtime.ts: what a plugin's worker function gets of the plugins that it depends on.
use workflow_engine.Prelude.{
  ◌≡◌, ◌≢◌, refl, sym, ap, ◌∙◌, subst, String, true, Option, none, some, List, [], ◌∷◌, ◌++◌, snoc,
  any, All, All-mono, ◌==◌, string_eq, Option-cases, eq_cases, inl, inr,
}
use workflow_engine.Prelude.Maps.{get, set, get-set_self, get-set_ne}
use workflow_engine.Sandbox.PluginCompose.{dependencies}
use workflow_engine.Sandbox.PluginCompose.Registration.{AreUnique}
use workflow_engine.Sandbox.PluginRuntime.{
  LoadedPlugin, PluginSetup, Phase1Result, Called, returned, threw, deps_of, add_exports, add_setup,
  exports_in, phase_worker, run_phase_worker,
}

module _ {X : Type 0} where
  -- A dependency that is handed over stays as it is exported.
  given_stays :
      (d : String) (names : List String) (exports deps : List (String × X))
      → get d deps ≡ get d exports
      → get d (deps_of names exports deps) ≡ get d exports
  unfolding deps_of
  given_stays d [] exports deps h = h
  given_stays d (dep ∷ names) exports deps h = elim (Option-cases (get dep exports)) [
    | inl n ↦ rw (n, deps_of) (given_stays d names exports deps h)
    | inr (x, n) ↦
        rw (n, deps_of)
          (given_stays d names exports (set dep x deps) (elim (eq_cases dep d) [
            | inl (t, p) ↦
                subst (λ k. get k (set dep x deps) ≡ get k exports) p
                  (get-set_self dep x deps ∙ sym n)
            | inr (f, q) ↦ get-set_ne dep d x deps q ∙ h
          ]))
  ]

  given :
      (d : String) (names : List String) (exports deps : List (String × X))
      → get d deps ≡ none
      → any (λ n. n == d) names ≡ true
      → get d (deps_of names exports deps) ≡ get d exports
  unfolding deps_of
  given d [] exports deps h m = absurd (cc m)
  given d (dep ∷ names) exports deps h m = elim (Option-cases (get dep exports)) [
    | inl n ↦
        rw (n, deps_of)
          (elim (eq_cases dep d) [
            | inl (t, p) ↦
                given_stays d names exports deps (h ∙ sym (subst (λ k. get k exports ≡ none) p n))
            | inr (f, q) ↦ given d names exports deps h (rw f at m)
          ])
    | inr (x, n) ↦
        rw (n, deps_of)
          (elim (eq_cases dep d) [
            | inl (t, p) ↦ given_stays d names exports (set dep x deps) (
                subst (λ k. get k (set dep x deps) ≡ get k exports) p
                  (get-set_self dep x deps ∙ sym n))
            | inr (f, q) ↦
                given d names exports (set dep x deps) (get-set_ne dep d x deps q ∙ h) (rw f at m)
          ])
  ]

module _ {X R M E : Type 0} where
  abbrev pub plugin_names : List (LoadedPlugin X R M E) → List String
  plugin_names [] = []
  plugin_names (p ∷ ps) = p.descriptor.name ∷ plugin_names ps

  add_setup_other :
      (d name : String) (setup : Option (PluginSetup X R M E))
      (setups : List (String × PluginSetup X R M E))
      → name ≢ d
      → get d (add_setup name setup setups) ≡ get d setups
  unfolding add_setup
  add_setup_other d name none setups h = refl
  add_setup_other d name (some setup) setups h = get-set_ne name d setup setups h

  abbrev after :
      LoadedPlugin X R M E
      → Option (PluginSetup X R M E)
      → Phase1Result X R M E
      → Phase1Result X R M E
  after p setup done = record {
    setups = add_setup p.descriptor.name setup done.setups;
    order = snoc done.order p.descriptor.name;
  }

  -- A first worker function that has not thrown, and the phase that goes on.
  record Worked (p : LoadedPlugin X R M E) (ps : List (LoadedPlugin X R M E))
      (done r : Phase1Result X R M E) (exports : List (String × X)) : Type 0 where
    setup : Option (PluginSetup X R M E)
    called : p.worker (deps_of (dependencies p.descriptor) exports []) ≡ returned setup
    rest :
        phase_worker ps
          (after p setup done)
          (add_exports p.descriptor.name (exports_in setup) exports)
        ≡ returned r

  first-Worked :
      (p : LoadedPlugin X R M E) (ps : List (LoadedPlugin X R M E)) (done r : Phase1Result X R M E)
      (exports : List (String × X))
      → phase_worker (p ∷ ps) done exports ≡ returned r
      → Worked p ps done r exports
  unfolding phase_worker
  first-Worked p ps done r exports e =
      worked (p.worker (deps_of (dependencies p.descriptor) exports [])) refl
    where
      worked :
          (c : Called E (Option (PluginSetup X R M E)))
          → p.worker (deps_of (dependencies p.descriptor) exports []) ≡ c
          → Worked p ps done r exports
      worked (threw x) w = absurd (cc (rw (w, phase_worker) at e))
      worked (returned setup) w = record {
        setup = setup;
        called = w;
        rest = rw (w, phase_worker) at e;
      }

  -- What a plugin has set up is not changed by plugins of other names.
  setup_stays :
      (d : String) (ps : List (LoadedPlugin X R M E)) (done r : Phase1Result X R M E)
      (exports : List (String × X))
      → phase_worker ps done exports ≡ returned r
      → All (λ n. n ≢ d) (plugin_names ps)
      → get d r.setups ≡ get d done.setups
  unfolding phase_worker
  setup_stays d [] done r exports e h =
      let same : done ≡ r = cc e in ap (λ x. get d x.setups) (sym same)
  setup_stays d (p ∷ ps) done r exports e (n, h) =
      let w = first-Worked p ps done r exports e in
      setup_stays d ps (after p w.setup done) r _ w.rest h
      ∙ add_setup_other d p.descriptor.name w.setup done.setups n

  -- The exports of a plugin are those of its set-up.
  abbrev IsExported : String → Phase1Result X R M E → List (String × X) → Type 0
  IsExported d done exports = get d exports ≡ exports_in (get d done.setups)

  add-IsExported_other :
      (d name : String) (setup : Option (PluginSetup X R M E)) (done : Phase1Result X R M E)
      (exports : List (String × X))
      → name ≢ d
      → IsExported d done exports
      → get d (add_exports name (exports_in setup) exports)
        ≡ exports_in (get d (add_setup name setup done.setups))
  unfolding add_exports
  add-IsExported_other d name setup done exports n h =
      exported (exports_in setup)
      ∙ h
      ∙ ap exports_in (sym (add_setup_other d name setup done.setups n))
    where
      exported : (o : Option X) → get d (add_exports name o exports) ≡ get d exports
      exported none = refl
      exported (some x) = get-set_ne name d x exports n

  add-IsExported_own :
      (d : String) (setup : Option (PluginSetup X R M E)) (done : Phase1Result X R M E)
      (exports : List (String × X))
      → get d done.setups ≡ none
      → IsExported d done exports
      → get d (add_exports d (exports_in setup) exports)
        ≡ exports_in (get d (add_setup d setup done.setups))
  unfolding add_exports add_setup
  add-IsExported_own d none done exports fresh h = h
  add-IsExported_own d (some setup) done exports fresh h =
      exported setup.exports ∙ ap exports_in (sym (get-set_self d setup done.setups))
    where
      exported : (o : Option X) → get d (add_exports d o exports) ≡ o
      exported none = h ∙ ap exports_in fresh
      exported (some x) = get-set_self d x exports

  -- A plugin of this name is set up once at most.
  abbrev IsAhead : String → Phase1Result X R M E → List (LoadedPlugin X R M E) → Type 0
  IsAhead d done ps = All (λ n. n ≡ d → get d done.setups ≡ none) (plugin_names ps)

  given_exports :
      (d : String) (ps : List (LoadedPlugin X R M E)) (p : LoadedPlugin X R M E)
      (qs : List (LoadedPlugin X R M E)) (done r : Phase1Result X R M E)
      (exports : List (String × X))
      → phase_worker (ps ++ p ∷ qs) done exports ≡ returned r
      → IsExported d done exports
      → AreUnique (plugin_names ps)
      → IsAhead d done ps
      → All (λ n. n ≢ d) (plugin_names (p ∷ qs))
      → any (λ n. n == d) (dependencies p.descriptor) ≡ true
      → (deps : List (String × X)) × (setup : Option (PluginSetup X R M E)) × (p.worker deps
          ≡ returned setup)
        × (get d deps ≡ exports_in (get d r.setups))
  given_exports d [] p qs done r exports e h u ahead later needs =
      let w = first-Worked p qs done r exports e in
      let stays = setup_stays d (p ∷ qs) done r exports e later in
      (
        deps_of (dependencies p.descriptor) exports [],
        w.setup,
        w.called,
        given d (dependencies p.descriptor) exports [] refl needs ∙ h ∙ ap exports_in (sym stays),
      )
  given_exports d (q ∷ ps) p qs done r exports e h (u, us) (free, ahead) later needs =
      let w = first-Worked q (ps ++ p ∷ qs) done r exports e in
      elim (eq_cases q.descriptor.name d) [
        | inl (t, own) ↦
            given_exports d ps p qs (after q w.setup done) r _ w.rest
              (subst
                (λ n.
                  get d (add_exports n (exports_in w.setup) exports)
                  ≡ exports_in (get d (add_setup n w.setup done.setups)))
                (sym own) (add-IsExported_own d w.setup done exports (free own) h))
              us (All-mono (λ n k m. absurd (k (m ∙ sym own))) (plugin_names ps) u) later needs
        | inr (f, other) ↦
            given_exports d ps p qs (after q w.setup done) r _ w.rest
              (add-IsExported_other d q.descriptor.name w.setup done exports other h) us
              (All-mono
                (λ n k m. add_setup_other d q.descriptor.name w.setup done.setups other ∙ k m)
                (plugin_names ps) ahead)
              later needs
      ]

  none-IsAhead :
      (d : String) (done : Phase1Result X R M E) (ps : List (LoadedPlugin X R M E))
      → get d done.setups ≡ none
      → IsAhead d done ps
  none-IsAhead d done [] h = tt
  none-IsAhead d done (p ∷ ps) h = (λ m. h, none-IsAhead d done ps h)

  -- Where no worker function throws and no two plugins before this one have one name, its worker
  -- function is called with each plugin that it depends on, if none from there on has its name, as
  -- that plugin's own set-up exports it, or without it if that exports nothing.
  pub dependencies_given :
      (d : String) (ps : List (LoadedPlugin X R M E)) (p : LoadedPlugin X R M E)
      (qs : List (LoadedPlugin X R M E)) (r : Phase1Result X R M E)
      → run_phase_worker (ps ++ p ∷ qs) ≡ returned r
      → AreUnique (plugin_names ps)
      → All (λ n. n ≢ d) (plugin_names (p ∷ qs))
      → any (λ n. n == d) (dependencies p.descriptor) ≡ true
      → (deps : List (String × X)) × (setup : Option (PluginSetup X R M E)) × (p.worker deps
          ≡ returned setup)
        × (get d deps ≡ exports_in (get d r.setups))
  unfolding run_phase_worker
  dependencies_given d ps p qs r e u later needs =
      given_exports d ps p qs (record { setups = []; order = [] }) r [] e refl u
        (none-IsAhead d (record { setups = []; order = [] }) ps refl) later needs
