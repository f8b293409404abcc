-- ===== src/Runtime/SandboxStore/Sweep.antt =====
-- `sweep` of sandbox-store.ts against a description of its own: what is dropped from the cache, and
-- what is left.
use workflow_engine.Prelude.{
  ℕ, zero, suc, ◌+◌, ◌-◌, ◌≡◌, ◌≢◌, ◌≤◌, refl, sym, ap, String, Bool, true, false, Option, none,
  some, Option-cases, List, [], ◌∷◌, map, leb, string_eq, length, take, take-nil, keep, All,
  All-keep, if◌then◌else◌, arith, inl, inr, ◌⊎◌, Bool-cases, ne_false, eq_self, ◌∙◌,
}
use workflow_engine.Prelude.Maps.{delete, Fresh, Distinct}
use workflow_engine.Runtime.SandboxStore.{
  CacheEntry, Store, evictable, collect_victims, evict, sweep, disposals, dispose_entry,
  dispose_sandbox, lru,
}

-- Each entry stands under its own key, and no key stands twice.
pub record IsWellKeyed (cache : List (String × CacheEntry)) : Type 0 where
  pub distinct : Distinct cache
  pub keyed : All (λ p. p.1.key ≡ p.0) cache

-- The entries that may go, the least recently used first.
abbrev pub candidates : (ℕ → Bool) → List (String × CacheEntry) → List CacheEntry
candidates active cache = keep (evictable active) (map (λ p. p.1) cache)

-- The cache without its first `n` entries that may go.
abbrev pub survivors : (ℕ → Bool) → ℕ → List (String × CacheEntry) → List (String × CacheEntry)
survivors active zero cache = cache
survivors active (suc n) [] = []
survivors active (suc n) ((k, e) ∷ cache) =
    if evictable active e then survivors active n cache else (k, e) ∷ survivors active (suc n) cache

collect_victims-take :
    (active : ℕ → Bool) (most n : ℕ) (cache : List (String × CacheEntry))
    → collect_victims active most n cache ≡ take (n - most) (candidates active cache)
unfolding collect_victims
collect_victims-take active most n [] = sym (take-nil (n - most))
collect_victims-take active most n ((k, e) ∷ cache) = elim (Bool-cases (leb n most)) [
  | inl enough ↦ rw enough (let z : n - most ≡ 0 = ground (arith, enough) in rw z refl)
  | inr over ↦ rw over (elim (Bool-cases (evictable active e)) [
    | inl free ↦ rw free (
        let z : n - most ≡ suc (n - 1 - most) = ground (arith, over) in
        rw z (ap (◌∷◌ e) (collect_victims-take active most (n - 1) cache)))
    | inr busy ↦ rw busy (collect_victims-take active most n cache)
  ])
]

evict_skip :
    (k : String) (e : CacheEntry) (victims : List CacheEntry) (cache : List (String × CacheEntry))
    → All (λ v. k ≢ v.key) victims
    → evict victims ((k, e) ∷ cache) ≡ (k, e) ∷ evict victims cache
unfolding evict
evict_skip k e [] cache h = refl
evict_skip k e (v ∷ vs) cache (n, h) =
    rw (ne_false k v.key n) (evict_skip k e vs (delete v.key cache) h)

All-take : (P : CacheEntry → Type 0) (n : ℕ) (xs : List CacheEntry) → All P xs → All P (take n xs)
All-take P zero xs h = tt
All-take P (suc n) [] h = tt
All-take P (suc n) (x ∷ xs) (p, h) = (p, All-take P n xs h)

candidates-Fresh :
    (active : ℕ → Bool) (k : String) (cache : List (String × CacheEntry))
    → Fresh k cache
    → All (λ p. p.1.key ≡ p.0) cache
    → All (λ v. k ≢ v.key) (candidates active cache)
candidates-Fresh active k cache f h =
    All-keep _ (evictable active) (map (λ p. p.1) cache) (go cache f h)
  where
    go :
        (cache : List (String × CacheEntry))
        → Fresh k cache
        → All (λ p. p.1.key ≡ p.0) cache
        → All (λ v. k ≢ v.key) (map (λ p. p.1) cache)
    go [] f h = tt
    go ((j, e) ∷ cache) (n, f) (q, h) = ((λ p. n (cc)), go cache f h)

evict-survivors :
    (active : ℕ → Bool) (n : ℕ) (cache : List (String × CacheEntry))
    → Distinct cache
    → All (λ p. p.1.key ≡ p.0) cache
    → evict (take n (candidates active cache)) cache ≡ survivors active n cache
unfolding evict
evict-survivors active zero cache d h = refl
evict-survivors active (suc n) [] d h = refl
evict-survivors active (suc n) ((k, e) ∷ cache) (f, d) (q, h) =
    elim (Bool-cases (evictable active e)) [
      | inl free ↦ rw free (rw q (rw (eq_self k) (evict-survivors active n cache d h)))
      | inr busy ↦ rw busy (
          evict_skip k e (take (suc n) (candidates active cache)) cache
            (All-take _ (suc n) (candidates active cache) (candidates-Fresh active k cache f h))
          ∙ ap (◌∷◌ (k, e)) (evict-survivors active (suc n) cache d h))
    ]

pub sweep_by_candidates :
    (active : ℕ → Bool) (most : ℕ) (s : Store)
    → IsWellKeyed s.cache
    → let over = length s.cache - most in
      ((sweep active most s).0.cache ≡ survivors active over s.cache)
      × ((sweep active most s).1 ≡ disposals (take over (candidates active s.cache)))
unfolding sweep disposals
sweep_by_candidates active most s w = elim (Bool-cases (leb (length s.cache) most)) [
  | inl within ↦
      rw within (let z : length s.cache - most ≡ 0 = ground (arith, within) in rw z (refl, refl))
  | inr over ↦ rw over (
      rw (collect_victims-take active most (length s.cache) s.cache)
        (evict-survivors active (length s.cache - most) s.cache w.distinct w.keyed, refl))
]

survivors_bound :
    (active : ℕ → Bool) (n : ℕ) (cache : List (String × CacheEntry))
    → (length (survivors active n cache) + n ≤ length cache)
      ⊎ All (λ p. evictable active p.1 ≡ false) (survivors active n cache)
survivors_bound active zero cache = inl (omega arith)
survivors_bound active (suc n) [] = inr tt
survivors_bound active (suc n) ((k, e) ∷ cache) = elim (Bool-cases (evictable active e)) [
  | inl free ↦
      rw free (elim (survivors_bound active n cache) [ inl h ↦ inl (omega arith) | inr h ↦ inr h ])
  | inr busy ↦ rw busy (elim (survivors_bound active (suc n) cache) [
    | inl h ↦ inl (omega arith)
    | inr h ↦ inr (busy, h)
  ])
]

-- After a sweep the cache is within its bound, or every entry in it is building or in the middle of a
-- run.
pub sweep_bound :
    (active : ℕ → Bool) (most : ℕ) (s : Store)
    → IsWellKeyed s.cache
    → (length (sweep active most s).0.cache ≤ most)
      ⊎ All (λ p. evictable active p.1 ≡ false) (sweep active most s).0.cache
sweep_bound active most s w =
    rw (sweep_by_candidates active most s w).0
      (elim (survivors_bound active (length s.cache - most) s.cache) [
        | inl h ↦ inl (omega arith)
        | inr h ↦ inr h
      ])

-- The sandbox of an entry that is built and not in the middle of a run.
abbrev pub idle : (ℕ → Bool) → Option ℕ → Option ℕ
idle active none = none
idle active (some sb) = if active sb then none else some sb

-- The idle sandboxes of a cache, the least recently used first.
abbrev pub idle_sandboxes : (ℕ → Bool) → List (String × CacheEntry) → List ℕ
idle_sandboxes active [] = []
idle_sandboxes active ((k, e) ∷ cache) = elim (idle active e.sandbox) [
  | none ↦ idle_sandboxes active cache
  | some sb ↦ sb ∷ idle_sandboxes active cache
]

-- The cache without the entries of its first `n` idle sandboxes.
abbrev pub without_idle : (ℕ → Bool) → ℕ → List (String × CacheEntry) → List (String × CacheEntry)
without_idle active zero cache = cache
without_idle active (suc n) [] = []
without_idle active (suc n) ((k, e) ∷ cache) = elim (idle active e.sandbox) [
  | none ↦ (k, e) ∷ without_idle active (suc n) cache
  | some sb ↦ without_idle active n cache
]

-- An entry may go exactly when its sandbox is idle.
idle_cases :
    (active : ℕ → Bool) (e : CacheEntry)
    → ((evictable active e ≡ false) × (idle active e.sandbox ≡ none))
      ⊎ ((sb : ℕ) × (evictable active e ≡ true)
          × (idle active e.sandbox ≡ some sb)
          × (dispose_entry e lru ≡ dispose_sandbox sb lru ∷ []))
unfolding dispose_entry
idle_cases active e = elim (Option-cases e.sandbox) [
  | inl n ↦ inl (rw n refl, rw n refl)
  | inr (sb, b) ↦ elim (Bool-cases (active sb)) [
    | inl t ↦ inl (rw (b, t) refl, rw (b, t) refl)
    | inr f ↦ inr (sb, rw (b, f) refl, rw (b, f) refl, rw (b, dispose_entry) refl)
  ]
]

without_idle-survivors :
    (active : ℕ → Bool) (n : ℕ) (cache : List (String × CacheEntry))
    → survivors active n cache ≡ without_idle active n cache
without_idle-survivors active zero cache = refl
without_idle-survivors active (suc n) [] = refl
without_idle-survivors active (suc n) ((k, e) ∷ cache) = elim (idle_cases active e) [
  | inl (stays, none_idle) ↦
      rw (stays, none_idle, without_idle)
        (ap (◌∷◌ (k, e)) (without_idle-survivors active (suc n) cache))
  | inr (sb, goes, is_idle, one) ↦
      rw (goes, is_idle, without_idle) (without_idle-survivors active n cache)
]

disposals-idle :
    (active : ℕ → Bool) (n : ℕ) (cache : List (String × CacheEntry))
    → disposals (take n (candidates active cache))
      ≡ map (λ sb. dispose_sandbox sb lru) (take n (idle_sandboxes active cache))
unfolding disposals
disposals-idle active zero cache = refl
disposals-idle active (suc n) [] = refl
disposals-idle active (suc n) ((k, e) ∷ cache) = elim (idle_cases active e) [
  | inl (stays, none_idle) ↦
      rw (stays, none_idle, idle_sandboxes) (disposals-idle active (suc n) cache)
  | inr (sb, goes, is_idle, one) ↦
      rw (goes, is_idle, idle_sandboxes)
        (rw one (ap (◌∷◌ (dispose_sandbox sb lru)) (disposals-idle active n cache)))
]

-- A sweep drops exactly as many entries as the cache has over its bound, or all that may go if they
-- are fewer: those whose sandbox is built and not in the middle of a run, the least recently used
-- first. It disposes of the sandbox of each of these, in that order and of no other, with the reason
-- "lru"; every other entry keeps its place. Each entry of the cache stands under its key, once.
pub sweep-survivors :
    (active : ℕ → Bool) (most : ℕ) (s : Store)
    → IsWellKeyed s.cache
    → let over = length s.cache - most in
      ((sweep active most s).0.cache ≡ without_idle active over s.cache)
      × ((sweep active most s).1
          ≡ map (λ sb. dispose_sandbox sb lru) (take over (idle_sandboxes active s.cache)))
sweep-survivors active most s w =
    let over = length s.cache - most in
    let (left, gone) = sweep_by_candidates active most s w in
    (left ∙ without_idle-survivors active over s.cache, gone ∙ disposals-idle active over s.cache)
