-- ===== src/Runtime/Session/Expiry.antt =====
-- session-mw.ts: who is let in, and until when.
use workflow_engine.Prelude.{
  ℕ, ◌+◌, ◌<◌, ◌≤◌, ◌≡◌, ◌⊎◌, ◌↔◌, refl, sym, ap, subst, ◌∙◌, String, true, false, Option, none,
  some, inl, inr, Bool-cases, Option-cases, eq_cases, string_eq, arith,
}
use workflow_engine.Runtime.QueryScopes.{UserContext}
use workflow_engine.Runtime.Session.{
  Auth, SessionPayload, RefreshResult, refreshed, refused, goes_on, is_valid_provider,
  unseal_session, user_from_payload, is_stale, is_expired, next_payload, after_refresh,
  with_provider, with_payload, session_middleware,
}

-- Why a request with a payload goes on, where `refresh_session` is that of the payload's provider: the
-- user was resolved within the last ten minutes, or the provider confirms it now and a cookie is
-- written whose payload has the user that the provider gave and the expiry of the old one.
pub data Admission (auth : Auth) (now : ℕ) (p : SessionPayload)
    (refresh_session : SessionPayload → RefreshResult) (user : UserContext) (cookie : Option String)
    : Type 0 where
  fresh :
      now < p.resolved_at + 600000
      → user ≡ record { login = p.login; mail = p.mail; orgs = p.orgs }
      → cookie ≡ none
      → Admission auth now p refresh_session user cookie
  confirmed :
      p.resolved_at + 600000 ≤ now
      → refresh_session p ≡ refreshed user
      → cookie
        ≡ some (
            auth.seal (record {
              provider = p.provider;
              login = user.login;
              mail = user.mail;
              orgs = user.orgs;
              access_token = p.access_token;
              resolved_at = now;
              exp = p.exp;
            }))
      → Admission auth now p refresh_session user cookie

-- What lets a request in: its cookie `text` opens to a payload of one of the two providers, which is
-- registered, and the payload has not expired.
pub record LetIn (auth : Auth) (now : ℕ) (user : UserContext) (cookie raw : Option String)
    : Type 0 where
  pub text : String
  pub p : SessionPayload
  pub refresh_session : SessionPayload → RefreshResult
  pub sent : raw ≡ some text
  pub opened : auth.unseal text ≡ some p
  pub known : (p.provider ≡ "github") ⊎ (p.provider ≡ "local")
  pub registered : auth.by_id p.provider ≡ some refresh_session
  pub alive : now < p.exp
  pub admission : Admission auth now p refresh_session user cookie

module _ (auth : Auth) (now : ℕ) (user : UserContext) (cookie : Option String) where
  refresh_reason :
      (p : SessionPayload) (refresh_session : SessionPayload → RefreshResult)
      (result : RefreshResult)
      → p.resolved_at + 600000 ≤ now
      → refresh_session p ≡ result
      → after_refresh auth now p result ≡ goes_on user cookie
      → Admission auth now p refresh_session user cookie
  unfolding after_refresh next_payload
  refresh_reason p refresh_session (refused reason) l r h = absurd (cc h)
  refresh_reason p refresh_session (refreshed u) l r h =
      let same : u ≡ user = cc h in
      let written : some (auth.seal (next_payload p u now)) ≡ cookie = cc h in
      confirmed l (r ∙ ap refreshed same)
        (sym written ∙ ap (λ w. some (auth.seal (next_payload p w now))) same)

  provider_reason :
      (p : SessionPayload) (provider : Option (SessionPayload → RefreshResult))
      → with_provider auth now p provider ≡ goes_on user cookie
      → (refresh_session : SessionPayload → RefreshResult) × (provider ≡ some refresh_session)
        × Admission auth now p refresh_session user cookie
  unfolding with_provider user_from_payload
  provider_reason p none h = absurd (cc h)
  provider_reason p (some refresh_session) h = elim (Bool-cases (is_stale p now)) [
    | inl t ↦ (
      refresh_session,
      refl,
      refresh_reason p refresh_session (refresh_session p) (ground arith) refl (rw t at h),
    )
    | inr f ↦
        (let passed = rw f at h in
          let same : user_from_payload p ≡ user = cc passed in
          let kept : none ≡ cookie = cc passed in
          (refresh_session, refl, fresh (ground arith) (sym same) (sym kept)))
  ]

  provider_known :
      (provider : String)
      → is_valid_provider provider ≡ true
      → (provider ≡ "github") ⊎ (provider ≡ "local")
  unfolding is_valid_provider
  provider_known provider h = elim (eq_cases provider "github") [
    | inl (t, e) ↦ inl e
    | inr (f, n) ↦ inr (string_eq.sound (rw f at h))
  ]

  known_valid :
      (provider : String)
      → (provider ≡ "github") ⊎ (provider ≡ "local")
      → is_valid_provider provider ≡ true
  unfolding is_valid_provider
  known_valid provider (inl e) = rw e refl
  known_valid provider (inr e) = rw e refl

  payload_reason :
      (text : String) (o : Option SessionPayload)
      → unseal_session auth text ≡ o
      → with_payload auth now o ≡ goes_on user cookie
      → LetIn auth now user cookie (some text)
  unfolding with_payload unseal_session
  payload_reason text none u h = absurd (cc h)
  payload_reason text (some p) u h = elim (Option-cases (auth.unseal text)) [
    | inl closed ↦ absurd (cc (rw (closed, unseal_session) at u))
    | inr (q, opened) ↦ elim (Bool-cases (is_valid_provider q.provider)) [
      | inr f ↦ absurd (cc (rw (opened, f, unseal_session) at u))
      | inl t ↦
          (let same : q ≡ p = cc (rw (opened, t, unseal_session) at u) in
            elim (Bool-cases (is_expired p now)) [
              | inl late ↦ absurd (cc (rw late at h))
              | inr early ↦
                  (let (refresh_session, found, why) =
                      provider_reason p (auth.by_id p.provider) (rw early at h) in
                    record {
                      text = text;
                      p = p;
                      refresh_session = refresh_session;
                      sent = refl;
                      opened = opened ∙ ap some same;
                      known =
                          provider_known p.provider
                            (subst (λ x. is_valid_provider x.provider ≡ true) same t);
                      registered = found;
                      alive = ground arith;
                      admission = why;
                    })
            ])
    ]
  ]

  pub opened_session :
      (raw : Option String) (l : LetIn auth now user cookie raw)
      → unseal_session auth l.text ≡ some l.p
  unfolding unseal_session
  opened_session raw l = rw (l.opened, known_valid l.p.provider l.known, unseal_session) refl

  admitted :
      (p : SessionPayload) (refresh_session : SessionPayload → RefreshResult)
      → Admission auth now p refresh_session user cookie
      → with_provider auth now p (some refresh_session) ≡ goes_on user cookie
  unfolding with_provider after_refresh next_payload user_from_payload
  admitted p refresh_session (fresh l same kept) =
      let young : is_stale p now ≡ false = ground arith in rw young (rw (same, kept) refl)
  admitted p refresh_session (confirmed l r written) =
      let old : is_stale p now ≡ true = ground arith in rw old (rw r (rw written refl))

  -- A request goes on, with this user and this cookie written, exactly when its cookie opens to a
  -- payload of GitHub's or the local provider, which is registered, that has not expired, and either
  -- the user was resolved within the last ten minutes and is the payload's and nothing is written, or
  -- it was not, the provider confirms the user now, and the cookie written has that user, the present
  -- time and the same expiry.
  pub let_in :
      (raw : Option String)
      → (session_middleware auth now raw ≡ goes_on user cookie) ↔ LetIn auth now user cookie raw
  unfolding session_middleware with_payload unseal_session
  let_in raw = (entered raw, entering raw)
    where
      entered :
          (raw : Option String)
          → session_middleware auth now raw ≡ goes_on user cookie
          → LetIn auth now user cookie raw
      entered none h = absurd (cc h)
      entered (some text) h = payload_reason text (unseal_session auth text) refl h

      entering :
          (raw : Option String)
          → LetIn auth now user cookie raw
          → session_middleware auth now raw ≡ goes_on user cookie
      entering raw l =
          let valid = known_valid l.p.provider l.known in
          let early : is_expired l.p now ≡ false = (let a = l.alive in ground arith) in
          rw l.sent (
            rw
              (
                l.opened, valid, early, l.registered, session_middleware, with_payload,
                unseal_session,
              )
              (admitted l.p l.refresh_session l.admission))
