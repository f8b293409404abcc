-- ===== src/Sandbox/PluginCompose/Registration.antt =====
-- plugin-compose.ts: what the checks guarantee of the plugins that pass them.
use workflow_engine.Prelude.{
  Bool, String, ◌≡◌, ◌≢◌, refl, sym, ap, true, false, none, some, List, [], ◌∷◌, any, All, All-mono,
  ◌==◌, string_eq, inl, inr, Bool-cases, Option-cases, eq_cases, eq_self, ◌||◌, ◌⊎◌, subst,
}
use workflow_engine.Prelude.Maps.{get, set, get-set_self, get-set_ne}
use workflow_engine.Sandbox.PluginCompose.{
  PluginDescriptor, dependencies, validate_descriptor, check_descriptors, missing_from,
  check_dependencies, names_of, serialize_plugin_descriptors, GuestEntry, check_entries,
  assert_guest_function_names_unique,
}

abbrev pub IsAmong : GuestEntry → List GuestEntry → Type 0
IsAmong e [] = ⊥
IsAmong e (f ∷ es) = (e ≡ f) ⊎ IsAmong e es

-- What the check knows of the first entry, when it goes on.
head_passes :
    (m : List (String × String)) (e : GuestEntry) (es : List GuestEntry)
    → check_entries m (e ∷ es) ≡ none
    → ((get e.function_name m ≡ none)
        × (check_entries (set e.function_name e.plugin_name m) es ≡ none))
      ⊎ ((get e.function_name m ≡ some e.plugin_name) × (check_entries m es ≡ none))
unfolding check_entries
head_passes m e es h = elim (Option-cases (get e.function_name m)) [
  | inl n ↦ inl (n, rw (n, check_entries) at h)
  | inr (prior, s) ↦
      (let h2 = rw (s, check_entries) at h in
        elim (eq_cases prior e.plugin_name) [
          | inl (t, p) ↦
              inr (subst (λ x. get e.function_name m ≡ some x) p s, rw (t, check_entries) at h2)
          | inr (f, d) ↦ absurd (let wrong = rw (f, check_entries) at h2 in cc wrong)
        ])
]

kept :
    (m : List (String × String)) (f e : GuestEntry) (p : String)
    → get f.function_name m ≡ none
    → get e.function_name m ≡ some p
    → get e.function_name (set f.function_name f.plugin_name m) ≡ some p
kept m f e p n g = elim (eq_cases f.function_name e.function_name) [
  | inl (t, same) ↦ absurd (let a = ap (λ x. get x m) same in cc (a, n, g))
  | inr (d, other) ↦ rw (get-set_ne f.function_name e.function_name f.plugin_name m other) g
]

-- A name that is taken belongs to the plugin that took it.
owner_known :
    (m : List (String × String)) (es : List GuestEntry) (e : GuestEntry) (p : String)
    → check_entries m es ≡ none
    → IsAmong e es
    → get e.function_name m ≡ some p
    → e.plugin_name ≡ p
owner_known m [] e p h i g = absurd i
owner_known m (f ∷ es) e p h (inl same) g = elim (head_passes m f es h) [
  | inl (n, k) ↦ absurd (let a = ap (λ x. get x.function_name m) same in cc (a, n, g))
  | inr (s, k) ↦
      (let a = ap (λ x. get x.function_name m) same in
        let b = ap (λ x. x.plugin_name) same in cc (a, s, g, b))
]
owner_known m (f ∷ es) e p h (inr i) g = elim (head_passes m f es h) [
  | inr (s, k) ↦ owner_known m es e p k i g
  | inl (n, k) ↦ owner_known (set f.function_name f.plugin_name m) es e p k i (kept m f e p n g)
]

later :
    (m : List (String × String)) (f : GuestEntry) (es : List GuestEntry) (e : GuestEntry)
    → check_entries m (f ∷ es) ≡ none
    → IsAmong e es
    → e.function_name ≡ f.function_name
    → e.plugin_name ≡ f.plugin_name
later m f es e h i same = elim (head_passes m f es h) [
  | inl (n, k) ↦ owner_known _ es e f.plugin_name k i (
      subst (λ x. get x (set f.function_name f.plugin_name m) ≡ some f.plugin_name) (sym same)
        (get-set_self f.function_name f.plugin_name m))
  | inr (s, k) ↦
      owner_known m es e f.plugin_name k i (subst (λ x. get x m ≡ some f.plugin_name) (sym same) s)
]

consistent :
    (m : List (String × String)) (es : List GuestEntry) (e f : GuestEntry)
    → check_entries m es ≡ none
    → IsAmong e es
    → IsAmong f es
    → e.function_name ≡ f.function_name
    → e.plugin_name ≡ f.plugin_name
consistent m [] e f h i j same = absurd i
consistent m (x ∷ es) e f h (inl p) (inl q) same =
    cc (ap (λ y. y.plugin_name) p, ap (λ y. y.plugin_name) q)
consistent m (x ∷ es) e f h (inl p) (inr j) same =
    let back = later m x es f h j (cc (same, ap (λ y. y.function_name) p)) in
    cc (back, ap (λ y. y.plugin_name) p)
consistent m (x ∷ es) e f h (inr i) (inl q) same =
    let forth = later m x es e h i (cc (same, ap (λ y. y.function_name) q)) in
    cc (forth, ap (λ y. y.plugin_name) q)
consistent m (x ∷ es) e f h (inr i) (inr j) same = elim (head_passes m x es h) [
  | inl (n, k) ↦ consistent (set x.function_name x.plugin_name m) es e f k i j same
  | inr (s, k) ↦ consistent m es e f k i j same
]

-- Where the check of the guest functions throws nothing, two entries of the same function name are
-- of the same plugin.
pub guest_names_unique :
    (es : List GuestEntry) (e f : GuestEntry)
    → assert_guest_function_names_unique es ≡ none
    → IsAmong e es
    → IsAmong f es
    → e.function_name ≡ f.function_name
    → e.plugin_name ≡ f.plugin_name
unfolding assert_guest_function_names_unique
guest_names_unique es e f h i j same = consistent [] es e f h i j same

-- No name stands twice.
abbrev pub AreUnique : List String → Type 0
AreUnique [] = Unit
AreUnique (n ∷ names) = All (λ x. x ≢ n) names × AreUnique names

-- What the first loop has seen, it does not meet again.
abbrev IsNew : List String → List PluginDescriptor → Type 0
IsNew seen_names = All (λ d. any (λ n. n == d.name) seen_names ≡ false)

split : (a b : Bool) → (a || b) ≡ false → (a ≡ false) × (b ≡ false)
split true b h = absurd (cc h)
split false b h = (refl, h)

apart :
    (name : String) (ds : List PluginDescriptor)
    → All (λ d. (name == d.name) ≡ false) ds
    → All (λ x. x ≢ name) (names_of ds)
apart name [] h = tt
apart name (d ∷ ds) (a, h) =
    ((λ p. let self = eq_self name in cc (a, self, ap (λ x. name == x) p)), apart name ds h)

present :
    (names : List String) (plugin : String) (deps : List String)
    → missing_from names plugin deps ≡ none
    → All (λ dep. any (λ n. n == dep) names ≡ true) deps
unfolding missing_from
present names plugin [] h = tt
present names plugin (dep ∷ deps) h = elim (Bool-cases (any (λ n. n == dep) names)) [
  | inl e ↦ (e, present names plugin deps (rw (e, missing_from) at h))
  | inr f ↦ absurd (let wrong = rw (f, missing_from) at h in cc wrong)
]

first_loop :
    (seen_names : List String) (ds : List PluginDescriptor)
    → check_descriptors seen_names ds ≡ none
    → IsNew seen_names ds × AreUnique (names_of ds)
unfolding check_descriptors
first_loop seen_names [] h = (tt, tt)
first_loop seen_names (d ∷ ds) h = elim (Option-cases (validate_descriptor d)) [
  | inr (problem, e) ↦ absurd (let wrong = rw (e, check_descriptors) at h in cc wrong)
  | inl e ↦
      (let h2 = rw (e, check_descriptors) at h in
        elim (Bool-cases (any (λ n. n == d.name) seen_names)) [
          | inl twice ↦ absurd (let wrong = rw (twice, check_descriptors) at h2 in cc wrong)
          | inr once ↦
              (let (new, unique) =
                  first_loop (d.name ∷ seen_names) ds (rw (once, check_descriptors) at h2) in
                (
                  (once, All-mono (λ x a. (split (d.name == x.name) _ a).1) ds new),
                  (
                    apart d.name ds (
                        All-mono {A = PluginDescriptor} (λ x a. (split (d.name == x.name) _ a).0) ds
                          new),
                    unique,
                  ),
                ))
        ])
]

second_loop :
    (names : List String) (ds : List PluginDescriptor)
    → check_dependencies names ds ≡ none
    → All (λ d. All (λ dep. any (λ n. n == dep) names ≡ true) (dependencies d)) ds
unfolding check_dependencies
second_loop names [] h = tt
second_loop names (d ∷ ds) h = elim (Option-cases (missing_from names d.name (dependencies d))) [
  | inr (problem, e) ↦ absurd (let wrong = rw (e, check_dependencies) at h in cc wrong)
  | inl e ↦ (
    present names d.name (dependencies d) e,
    second_loop names ds (rw (e, check_dependencies) at h),
  )
]

-- Where the descriptors are accepted, no two plugins have one name, and each dependency of a plugin
-- is the name of a plugin among them.
pub serialize_checks :
    (ds : List PluginDescriptor)
    → serialize_plugin_descriptors ds ≡ none
    → AreUnique (names_of ds)
      × All (λ d. All (λ dep. any (λ n. n == dep) (names_of ds) ≡ true) (dependencies d)) ds
unfolding serialize_plugin_descriptors
serialize_checks ds h = elim (Option-cases (check_descriptors [] ds)) [
  | inr (problem, e) ↦ absurd (let wrong = rw (e, serialize_plugin_descriptors) at h in cc wrong)
  | inl e ↦ (
    (first_loop [] ds e).1,
    second_loop (names_of ds) ds (rw (e, serialize_plugin_descriptors) at h),
  )
]
