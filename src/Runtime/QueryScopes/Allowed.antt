-- ===== src/Runtime/QueryScopes/Allowed.antt =====
-- scopes.ts: which registered pairs a user sees.
use workflow_engine.Prelude.{
  Bool, String, ◌≡◌, refl, sym, ap, true, false, not, ◌&&◌, Option, none, some, List, [], ◌∷◌, map,
  keep, keep_cong_on, or_true, All, All-append, All-mono, ◌==◌, string_eq, inl, inr, Bool-cases,
  eq_cases, eq_self, arith, ◌∙◌, keep_when_false,
}
use workflow_engine.Runtime.QueryScopes.{
  Names, UserContext, OwnerRepoPair, ScopeConstraint, OwnerStates, owners, pair_of, pairs, is_in,
  owner_set, is_member, allowed_owners, differs, collect, fails, resolve_query_scopes,
}

everywhere :
    {P : OwnerRepoPair → Type 0}
    → ((p : OwnerRepoPair) → P p)
    → (ps : List OwnerRepoPair) → All P ps
everywhere f [] = tt
everywhere f (p ∷ ps) = (f p, everywhere f ps)

module _ (names : Names) where
  -- Whether an owner is visible: to a user by membership, without a user by its name alone.
  abbrev pub visible : Option UserContext → String → Bool
  visible none owner = names.owner_name owner
  visible (some user) owner = is_member names user owner

  -- Whether a pair is of the wanted owner and repo, and the repo's name is valid where one is wanted.
  abbrev pub wanted : ScopeConstraint → OwnerRepoPair → Bool
  wanted c p =
      not (differs names c.owner p.owner)
      && (not (differs names c.repo p.repo) && not (fails names names.repo_name c.repo))

  is_in-keep :
      (test : String → Bool) (xs : List String) (x : String)
      → is_in (keep test xs) x ≡ (is_in xs x && test x)
  is_in-keep test [] x = refl
  is_in-keep test (y ∷ ys) x = elim (eq_cases y x) [
    | inl (t, e) ↦ (let alike : test y ≡ test x = ap test e in ground (arith, is_in-keep test ys x))
    | inr (f, d) ↦ ground (arith, is_in-keep test ys x)
  ]

  member_iff :
      (user : UserContext) (owner : String)
      → is_in (owner_set names user) owner ≡ is_member names user owner
  unfolding owner_set is_member
  member_iff user owner = let kept = is_in-keep names.owner_name user.orgs owner in ground arith

  collect-keep :
      (allowed : List String) (c : ScopeConstraint) (ps : List OwnerRepoPair)
      → collect names allowed c ps
        ≡ keep
            (λ p.
              is_in allowed p.owner
              && (not (differs names c.owner p.owner) && not (differs names c.repo p.repo)))
            ps
  unfolding collect
  collect-keep allowed c [] = refl
  collect-keep allowed c (p ∷ ps) = ground (arith, collect-keep allowed c ps)

  repos_listed :
      (owner : String) (repos : List String) (known : List String)
      → is_in known owner ≡ true
      → All (λ p. is_in known p.owner ≡ true) (map (pair_of owner) repos)
  repos_listed owner [] known h = tt
  repos_listed owner (r ∷ repos) known h = (h, repos_listed owner repos known h)

  -- Each registered pair is of a registered owner.
  listed : (states : OwnerStates) → All (λ p. is_in (owners states) p.owner ≡ true) (pairs states)
  unfolding owners pairs
  listed [] = tt
  listed ((owner, repos) ∷ states) =
      All-append (λ p. is_in (owners ((owner, repos) ∷ states)) p.owner ≡ true)
        (map (pair_of owner) repos) (pairs states)
        (repos_listed owner repos (owners ((owner, repos) ∷ states)) (rw (eq_self owner) refl))
        (All-mono {A = OwnerRepoPair} (λ p h. or_true (owner == p.owner) _ h) (pairs states)
          (listed states))

  visible_iff :
      (user : Option UserContext) (states : OwnerStates) (p : OwnerRepoPair)
      → is_in (owners states) p.owner ≡ true
      → is_in (allowed_owners names user states) p.owner ≡ visible user p.owner
  unfolding allowed_owners
  visible_iff none states p h = is_in-keep names.owner_name (owners states) p.owner ∙ (rw h refl)
  visible_iff (some user) states p h = member_iff user p.owner

  -- No visible pair is of an owner whose name is not valid.
  owner_refused :
      (user : Option UserContext) (o : Option String) (owner : String)
      → fails names names.owner_name o ≡ true
      → (visible user owner && not (differs names o owner)) ≡ false
  unfolding is_member
  owner_refused none none owner h = absurd (cc h)
  owner_refused (some u) none owner h = absurd (cc h)
  owner_refused none (some o) owner h = elim (eq_cases owner o) [
    | inl (t, e) ↦
        (let alike : names.owner_name owner ≡ names.owner_name o = ap names.owner_name e in
          ground arith)
    | inr (f, d) ↦ ground arith
  ]
  owner_refused (some u) (some o) owner h = elim (eq_cases owner o) [
    | inl (t, e) ↦
        (let alike : names.owner_name owner ≡ names.owner_name o = ap names.owner_name e in
          ground arith)
    | inr (f, d) ↦ ground arith
  ]

  -- The scopes of a query are exactly the registered pairs, in their order, whose owner is visible to
  -- the user (one that they are a member of; without a user, one with a valid name) and that the
  -- constraint wants; a constraint with an invalid name wants none.
  pub query_scopes_exact :
      (user : Option UserContext) (states : OwnerStates) (c : ScopeConstraint)
      → resolve_query_scopes names user states c
        ≡ keep (λ p. visible user p.owner && wanted c p) (pairs states)
  unfolding resolve_query_scopes
  query_scopes_exact user states c = elim (Bool-cases (fails names names.owner_name c.owner)) [
    | inl bad ↦
        rw (bad, resolve_query_scopes)
          (sym (
            keep_when_false _ (pairs states) (
              everywhere (λ p. let r = owner_refused user c.owner p.owner bad in ground arith)
                (pairs states))))
    | inr fine ↦ elim (Bool-cases (fails names names.repo_name c.repo)) [
      | inl bad ↦
          rw (fine, bad, resolve_query_scopes)
            (sym (keep_when_false _ (pairs states) (everywhere (λ p. ground arith) (pairs states))))
      | inr good ↦
          rw (fine, good, resolve_query_scopes)
            (collect-keep (allowed_owners names user states) c (pairs states)
              ∙ keep_cong_on _ _ (pairs states) (
                  All-mono {A = OwnerRepoPair}
                    (λ p h. let v = visible_iff user states p h in ground arith) (pairs states)
                    (listed states)))
    ]
  ]
