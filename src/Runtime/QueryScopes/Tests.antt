-- ===== src/Runtime/QueryScopes/Tests.antt =====
-- The scopes of concrete users.
use workflow_engine.Prelude.{◌≡◌, not, none, some, [], ◌∷◌, ◌==◌, string_eq}
use workflow_engine.Runtime.QueryScopes.{
  Names, UserContext, ScopeConstraint, OwnerStates, pair_of, pairs, resolve_query_scopes, is_member,
  owner_set,
}
use workflow_engine.Runtime.QueryScopes.Allowed.{query_scopes_exact}

-- Names that are not empty.
abbrev names : Names
names = record { owner_name = λ s. not (s == ""); repo_name = λ s. not (s == "") }

abbrev states : OwnerStates
states = ("acme", "web" ∷ "api" ∷ []) ∷ ("other", "web" ∷ []) ∷ []

abbrev user : UserContext
user = record { login = "me"; mail = "m"; orgs = "acme" ∷ "" ∷ [] }

abbrev all_repos : ScopeConstraint
all_repos = record { owner = none; repo = none }

query_scopes_exact_example :
    resolve_query_scopes names (some user) states all_repos
    ≡ pair_of "acme" "web" ∷ pair_of "acme" "api" ∷ []
unfolding pairs is_member owner_set
query_scopes_exact_example = query_scopes_exact names (some user) states all_repos
