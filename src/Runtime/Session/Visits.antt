-- ===== src/Runtime/Session/Visits.antt =====
-- session-mw.ts: the requests of one browser, one after the other.
use workflow_engine.Prelude.{
  ℕ, ◌<◌, ◌≡◌, refl, sym, ap, ◌∙◌, subst, Bool, String, true, false, Option, none, some, List, [],
  ◌∷◌, keep, All, Bool-cases, Option-cases, inl, inr,
}
use workflow_engine.Runtime.Session.{
  Auth, SessionPayload, RefreshResult, Reply, redirect_to_login, redirect_with_flash, goes_on,
  is_valid_provider, unseal_session, next_payload, session_middleware,
}
use workflow_engine.Runtime.Session.Expiry.{Admission, fresh, confirmed, let_in, opened_session}

-- The session cookie that the browser has after a reply.
abbrev pub next_cookie : Option String → Reply → Option String
next_cookie cookie redirect_to_login = cookie
next_cookie cookie (redirect_with_flash flash) = none
next_cookie cookie (goes_on user none) = cookie
next_cookie cookie (goes_on user (some written)) = some written

-- The replies to requests at these times.
unfoldable pub visits : Auth → List ℕ → Option String → List (ℕ × Reply)
visits auth [] cookie = []
visits auth (now ∷ times) cookie =
    let reply = session_middleware auth now cookie in
    (now, reply) ∷ visits auth times (next_cookie cookie reply)

abbrev pub passes : Reply → Bool
passes redirect_to_login = false
passes (redirect_with_flash flash) = false
passes (goes_on user cookie) = true

-- The requests that pass are before this time.
abbrev pub PassBefore : ℕ → List (ℕ × Reply) → Type 0
PassBefore exp vs = All (λ (v : ℕ × Reply). v.0 < exp) (keep (λ (v : ℕ × Reply). passes v.1) vs)

-- A sealed session unseals with its expiry, or not any more.
pub record Unsealing (auth : Auth) : Type 0 where
  pub unseal-seal : (p q : SessionPayload) → auth.unseal (auth.seal p) ≡ some q → q.exp ≡ p.exp

module _ (auth : Auth) (law : Unsealing auth) where
  sealed_session :
      (p q : SessionPayload) → unseal_session auth (auth.seal p) ≡ some q → q.exp ≡ p.exp
  unfolding unseal_session
  sealed_session p q h = elim (Option-cases (auth.unseal (auth.seal p))) [
    | inl n ↦ absurd (cc (rw (n, unseal_session) at h))
    | inr (r, n) ↦
        (let opened = rw (n, unseal_session) at h in
          elim (Bool-cases (is_valid_provider r.provider)) [
            | inl t ↦
                (let same : r ≡ q = cc (rw t at opened) in
                  ap (λ x. x.exp) (sym same) ∙ law.unseal-seal p r n)
            | inr f ↦ absurd (cc (rw f at opened))
          ])
  ]

  -- A cookie whose session, if it holds one, expires at this time.
  record EndsAt (exp : ℕ) (cookie : Option String) : Type 0 where
    ends :
        (text : String) (p : SessionPayload)
        → cookie ≡ some text
        → unseal_session auth text ≡ some p
        → p.exp ≡ exp

  sealed-EndsAt : (p : SessionPayload) → EndsAt p.exp (some (auth.seal p))
  sealed-EndsAt p = record {
    ends = λ text q c u.
        let same : auth.seal p ≡ text = cc c in
        sealed_session p q (subst (λ t. unseal_session auth t ≡ some q) (sym same) u);
  }

  visited :
      (exp now : ℕ) (cookie : Option String) (reply : Reply)
      → session_middleware auth now cookie ≡ reply
      → EndsAt exp cookie
      → EndsAt exp (next_cookie cookie reply) × PassBefore exp ((now, reply) ∷ [])
  unfolding next_payload
  visited exp now cookie redirect_to_login e h = (h, tt)
  visited exp now cookie (redirect_with_flash flash) e h =
      (record { ends = λ text p c u. absurd (cc c) }, tt)
  visited exp now cookie (goes_on user written) e h =
      let l = (let_in auth now user written cookie).0 e in
      let at : l.p.exp ≡ exp =
        h.ends l.text l.p l.sent (opened_session auth now user written cookie l) in
      (kept l.p l.refresh_session at l.admission, (subst (λ n. now < n) at l.alive, tt))
    where
      kept :
          (p : SessionPayload) (refresh_session : SessionPayload → RefreshResult)
          → p.exp ≡ exp
          → Admission auth now p refresh_session user written
          → EndsAt exp (next_cookie cookie (goes_on user written))
      kept p refresh at (fresh l same none_written) =
          subst (λ w. EndsAt exp (next_cookie cookie (goes_on user w))) (sym none_written) h
      kept p refresh at (confirmed old r w) =
          subst (λ w. EndsAt exp (next_cookie cookie (goes_on user w))) (sym w)
            (subst (λ n. EndsAt n (some (auth.seal (next_payload p user now)))) at
              (sealed-EndsAt (next_payload p user now)))

  visits-EndsAt :
      (exp : ℕ) (times : List ℕ) (cookie : Option String)
      → EndsAt exp cookie
      → PassBefore exp (visits auth times cookie)
  unfolding visits
  visits-EndsAt exp [] cookie h = tt
  visits-EndsAt exp (now ∷ times) cookie h =
      let reply = session_middleware auth now cookie in
      let (next, here) = visited exp now cookie reply refl h in
      both reply here (visits-EndsAt exp times (next_cookie cookie reply) next)
    where
      both :
          (reply : Reply)
          → PassBefore exp ((now, reply) ∷ [])
          → PassBefore exp
              (visits auth times (next_cookie cookie (session_middleware auth now cookie)))
          → PassBefore exp (
              (now, reply)
              ∷ visits auth times (next_cookie cookie (session_middleware auth now cookie)))
      both redirect_to_login here rest = rest
      both (redirect_with_flash flash) here rest = rest
      both (goes_on user written) here rest = (here.0, rest)

  -- However often its user is refreshed, a session lets no request in at or after the time at which it
  -- was to expire when it was sealed.
  pub no_visit_after_expiry :
      (p : SessionPayload) (times : List ℕ)
      → PassBefore p.exp (visits auth times (some (auth.seal p)))
  no_visit_after_expiry p times = visits-EndsAt p.exp times (some (auth.seal p)) (sealed-EndsAt p)
