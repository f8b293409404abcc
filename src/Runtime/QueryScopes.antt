-- ===== src/Runtime/QueryScopes.antt =====
-- packages/runtime/src/auth: scopes.ts and owner.ts, the (owner, repo) pairs whose events a user may
-- read, and `owners` and `pairs` of workflow-registry.ts, on the map from owner to the repos. The
-- regular expressions of the names are the two tests of `Names`.
pub mod Allowed
mod Tests
use workflow_engine.Prelude.{
  Bool, String, true, false, not, ◌&&◌, Option, none, some, List, [], ◌∷◌, ◌++◌, map, any, keep,
  ◌==◌, string_eq, if◌then◌else◌,
}

pub record Names : Type 0 where
  pub owner_name : String → Bool
  pub repo_name : String → Bool

pub record UserContext : Type 0 where
  pub login : String
  pub mail : String
  pub orgs : List String

pub record OwnerRepoPair : Type 0 where
  pub owner : String
  pub repo : String

pub record ScopeConstraint : Type 0 where
  pub owner : Option String
  pub repo : Option String

-- The owners of the registry, each with its repos.
abbrev pub OwnerStates : Type 0
OwnerStates = List (String × List String)

pub owners : OwnerStates → List String
owners states = map (λ p. p.0) states

abbrev pub pair_of : String → String → OwnerRepoPair
pair_of owner repo = record { owner = owner; repo = repo }

pub pairs : OwnerStates → List OwnerRepoPair
pairs [] = []
pairs ((owner, repos) ∷ states) = map (pair_of owner) repos ++ pairs states

-- `set.has(name)`; a set of names is a list here.
abbrev pub is_in : List String → String → Bool
is_in names name = any (λ n. n == name) names

module _ (names : Names) where
  pub owner_set : UserContext → List String
  owner_set user = keep names.owner_name user.orgs

  pub is_member : UserContext → String → Bool
  is_member user owner =
      if not (names.owner_name owner) then false else is_in (owner_set user) owner

  pub allowed_owners : Option UserContext → OwnerStates → List String
  allowed_owners none states = keep names.owner_name (owners states)
  allowed_owners (some user) states = owner_set user

  -- The tests of the loop's body.
  abbrev pub differs : Option String → String → Bool
  differs none name = false
  differs (some wanted) name = not (name == wanted)

  pub collect : List String → ScopeConstraint → List OwnerRepoPair → List OwnerRepoPair
  collect allowed c [] = []
  collect allowed c (p ∷ ps) =
      let rest = collect allowed c ps in
      if not (is_in allowed p.owner)
      then rest
      else if differs c.owner p.owner
      then rest
      else if differs c.repo p.repo
      then rest
      else pair_of p.owner p.repo ∷ rest

  abbrev pub fails : (String → Bool) → Option String → Bool
  fails test none = false
  fails test (some name) = not (test name)

  pub resolve_query_scopes : Option UserContext → OwnerStates → ScopeConstraint → List OwnerRepoPair
  resolve_query_scopes user states c =
      if fails names.owner_name c.owner
      then []
      else if fails names.repo_name c.repo
      then []
      else collect (allowed_owners user states) c (pairs states)
