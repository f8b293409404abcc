-- ===== src/Runtime/Session/Tests.antt =====
-- A session that is confirmed once by its provider and then expires.
use workflow_engine.Prelude.{
  ℕ, ◌≡◌, refl, String, none, some, [], ◌∷◌, string_eq, ◌==◌, if◌then◌else◌, nat_eq, eq_cases,
  Bool-cases, inl, inr, ap, sym, ◌∙◌, ◌↔◌,
}
use workflow_engine.Runtime.QueryScopes.{UserContext}
use workflow_engine.Runtime.Session.{
  Auth, SessionPayload, refreshed, redirect_to_login, redirect_with_flash, goes_on, logged_out,
  unseal_session, is_valid_provider, session_middleware, with_payload, with_provider, after_refresh,
  user_from_payload, next_payload,
}
use workflow_engine.Runtime.Session.Expiry.{LetIn, let_in}
use workflow_engine.Runtime.Session.Visits.{visits, PassBefore, Unsealing, no_visit_after_expiry}

abbrev user : UserContext
user = record { login = "l"; mail = "new"; orgs = "o" ∷ [] }

abbrev session : String → ℕ → SessionPayload
session mail resolved_at = record {
  provider = "github";
  login = "l";
  mail = mail;
  orgs = "o" ∷ [];
  access_token = "t";
  resolved_at = resolved_at;
  exp = 2000000;
}

-- Two sessions can be sealed here; the provider confirms the user.
abbrev auth : Auth
auth = record {
  seal = λ p. if p.exp == 2000000 then (if p.mail == "new" then "second" else "first") else "other";
  unseal = λ raw.
      if raw == "first"
      then some (session "old" 0)
      else if raw == "second"
      then some (session "new" 700000)
      else none;
  by_id = λ id. if id == "github" then some (λ p. refreshed user) else none;
}

let_in_example :
    (session_middleware auth 700000 (some "first") ≡ goes_on user (some "second"))
    ↔ LetIn auth 700000 user (some "second") (some "first")
let_in_example = let_in auth 700000 user (some "second") (some "first")

first_test : session_middleware auth 700000 (some "first") ≡ goes_on user (some "second")
unfolding session_middleware with_payload with_provider after_refresh unseal_session
    is_valid_provider next_payload
first_test = refl

visits_test :
    visits auth (100 ∷ 700000 ∷ 800000 ∷ 2000000 ∷ 2000001 ∷ []) (some "first")
    ≡ (100, goes_on (user_from_payload (session "old" 0)) none)
      ∷ (700000, goes_on user (some "second"))
      ∷ (800000, goes_on (user_from_payload (session "new" 700000)) none)
      ∷ (2000000, redirect_with_flash logged_out)
      ∷ (2000001, redirect_to_login)
      ∷ []
unfolding visits session_middleware with_payload with_provider after_refresh unseal_session
    is_valid_provider next_payload
visits_test = refl

auth_law : Unsealing auth
auth_law = record { unseal-seal = same_exp }
  where
    same_exp : (p q : SessionPayload) → auth.unseal (auth.seal p) ≡ some q → q.exp ≡ p.exp
    same_exp p q h = elim (eq_cases p.exp 2000000) [
      | inl (t, e) ↦ elim (Bool-cases (p.mail == "new")) [
        | inl m ↦
            (let opened : session "new" 700000 ≡ q = cc (rw (t, m) at h) in
              ap (λ x. x.exp) (sym opened) ∙ sym e)
        | inr m ↦
            (let opened : session "old" 0 ≡ q = cc (rw (t, m) at h) in
              ap (λ x. x.exp) (sym opened) ∙ sym e)
      ]
      | inr (f, n) ↦ absurd (cc (rw f at h))
    ]

no_visit_after_expiry_example :
    PassBefore 2000000 (visits auth (100 ∷ 700000 ∷ 2000000 ∷ []) (some "first"))
no_visit_after_expiry_example =
    no_visit_after_expiry auth auth_law (session "old" 0) (100 ∷ 700000 ∷ 2000000 ∷ [])
