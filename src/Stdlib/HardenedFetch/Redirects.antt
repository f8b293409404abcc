-- ===== src/Stdlib/HardenedFetch/Redirects.antt =====
-- hardened-fetch.ts: the requests that leave the process while redirects are followed.
use workflow_engine.Prelude.{
  ℕ, suc, zero, ◌+◌, ◌≡◌, ◌≤◌, ◌⊎◌, refl, ap, Bool, String, true, false, not, ◌&&◌, some, List, [],
  ◌∷◌, any, keep, ltb, leb, length, All, ◌==◌, nat_eq, string_eq, inl, inr, Bool-cases,
  Option-cases, eq_cases, arith,
}
use workflow_engine.Stdlib.HardenedFetch.{
  Web, Url, FetchState, Reply, replies, throws, Redirect, goes_to, stops, Outcome, max_redirects,
  is_http, downgrades, target, strip_header, redirected, apply_redirect, after_reply, follow,
  hardened_fetch,
}

module _ (web : Web) where
  -- Whether a request carries the credentials of the guest.
  abbrev pub carries_authorization : FetchState → Bool
  carries_authorization st = any (λ h. web.lower_case h.0 == "authorization") st.current_headers

  -- A request over http or https, which carries no credentials unless it goes to the given origin.
  abbrev pub IsSafe : String → FetchState → Type 0
  IsSafe origin st =
      (url : Url) × (web.parse st.current_url ≡ some url)
      × (is_http url ≡ true)
      × ((carries_authorization st ≡ false) ⊎ (url.origin ≡ origin))

  -- What a hop hands on: credentials only while the origin is the same.
  abbrev IsGuarded : String → FetchState → Type 0
  IsGuarded origin st =
      (carries_authorization st ≡ false)
      ⊎ ((url : Url) × (web.parse st.current_url ≡ some url) × (url.origin ≡ origin))

  module _ (p : (String × String) → Bool) where
    none_kept :
        (q : (String × String) → Bool) (hs : List (String × String))
        → any p hs ≡ false
        → any p (keep q hs) ≡ false
    none_kept q [] h = refl
    none_kept q (x ∷ hs) h = ground (arith, none_kept q hs)

    none_left : (hs : List (String × String)) → any p (keep (λ h. not (p h)) hs) ≡ false
    none_left [] = refl
    none_left (x ∷ hs) = ground (arith, none_left hs)

  abbrev named : String → (String × String) → Bool
  named name h = web.lower_case h.0 == name

  bare_kept :
      (name : String) (hs : List (String × String))
      → any (named "authorization") hs ≡ false
      → any (named "authorization") (strip_header web hs name) ≡ false
  unfolding strip_header
  bare_kept name hs h = none_kept (named "authorization") (λ x. not (named name x)) hs h

  bare_stripped :
      (hs : List (String × String))
      → any (named "authorization") (strip_header web hs "authorization") ≡ false
  unfolding strip_header
  bare_stripped hs = none_left (named "authorization") hs

  -- The next hop carries no credentials if this one does not, or if the origin changes.
  redirected-bare :
      (st : FetchState) (status : ℕ) (next_url : String)
      → carries_authorization st ≡ false
      → (same : Bool) → carries_authorization (redirected web st status next_url same) ≡ false
  redirected-bare st status next_url h true = elim (Bool-cases (downgrades status)) [
    | inl d ↦ rw d (bare_kept "content-length" st.current_headers h)
    | inr n ↦ rw n h
  ]
  redirected-bare st status next_url h false = elim (Bool-cases (downgrades status)) [
    | inl d ↦ rw d (
        bare_kept "content-length" (strip_header web st.current_headers "authorization")
          (bare_kept "authorization" st.current_headers h))
    | inr n ↦ rw n (bare_kept "authorization" st.current_headers h)
  ]

  redirected-stripped :
      (st : FetchState) (status : ℕ) (next_url : String)
      → carries_authorization (redirected web st status next_url false) ≡ false
  redirected-stripped st status next_url = elim (Bool-cases (downgrades status)) [
    | inl d ↦ rw d (
        bare_kept "content-length" (strip_header web st.current_headers "authorization")
          (bare_stripped st.current_headers))
    | inr n ↦ rw n (bare_stripped st.current_headers)
  ]

  redirected-url :
      (st : FetchState) (status : ℕ) (next_url : String) (same : Bool)
      → (redirected web st status next_url same).current_url ≡ next_url
  redirected-url st status next_url same = elim (Bool-cases (downgrades status)) [
    | inl d ↦ rw d refl
    | inr n ↦ rw n refl
  ]

  -- Where a hop goes.
  abbrev Goes : FetchState → Url → FetchState → Type 0
  Goes st parsed next =
      (status : ℕ) × (next_url : String) × (url : Url) × (web.parse next_url ≡ some url)
      × (next ≡ redirected web st status next_url (url.origin == parsed.origin))

  apply_redirect-Goes :
      (st next : FetchState) (status : ℕ) (place : String) (parsed : Url)
      → apply_redirect web st status place parsed ≡ goes_to next
      → Goes st parsed next
  unfolding apply_redirect
  apply_redirect-Goes st next status place parsed h =
      elim (Option-cases (web.resolve place st.current_url)) [
        | inl e ↦ absurd (let wrong = rw (e, apply_redirect) at h in cc wrong)
        | inr (next_url, e) ↦
            (let h2 = rw (e, apply_redirect) at h in
              elim (Option-cases (web.parse next_url)) [
                | inl e2 ↦ absurd (let wrong = rw (e2, apply_redirect) at h2 in cc wrong)
                | inr (url, e2) ↦
                    (let h3 = rw (e2, apply_redirect) at h2 in (status, next_url, url, e2, cc h3))
              ])
      ]

  after_reply-Goes :
      (hop : ℕ) (st next : FetchState) (parsed : Url) (reply : Reply)
      → after_reply web hop st parsed reply ≡ goes_to next
      → Goes st parsed next
  unfolding after_reply
  after_reply-Goes hop st next parsed (throws err) h = absurd (cc h)
  after_reply-Goes hop st next parsed (replies status location) h =
      elim (Bool-cases (leb 300 status && ltb status 400)) [
        | inr n ↦ absurd (let wrong = rw (n, after_reply) at h in cc wrong)
        | inl y ↦
            (let h2 = rw (y, after_reply) at h in
              elim (Option-cases (target location)) [
                | inl e ↦ absurd (let wrong = rw (e, after_reply) at h2 in cc wrong)
                | inr (place, e) ↦
                    (let h3 = rw (e, after_reply) at h2 in
                      elim (Bool-cases (leb max_redirects hop)) [
                        | inl last ↦ absurd (let wrong = rw (last, after_reply) at h3 in cc wrong)
                        | inr more ↦
                            apply_redirect-Goes st next status place parsed
                              (rw (more, after_reply) at h3)
                      ])
              ])
      ]

  -- The guard of a hop holds of the next one.
  Goes-IsGuarded :
      (origin : String) (st next : FetchState) (parsed : Url)
      → web.parse st.current_url ≡ some parsed
      → IsGuarded origin st
      → Goes st parsed next
      → IsGuarded origin next
  Goes-IsGuarded origin st next parsed e (inl bare) (status, next_url, url, p, r) =
      inl (rw r (redirected-bare st status next_url bare (url.origin == parsed.origin)))
  Goes-IsGuarded origin st next parsed e (inr (here, q, o)) (status, next_url, url, p, r) =
      elim (eq_cases url.origin parsed.origin) [
        | inr (f, d) ↦ inl (rw (r, f) (redirected-stripped st status next_url))
        | inl (t, same) ↦
            (let here_parsed : here ≡ parsed = cc (q, e) in
              let origins = ap (λ u. u.origin) here_parsed in
              inr (
                url,
                rw (r, redirected-url st status next_url (url.origin == parsed.origin)) p,
                cc (same, origins, o),
              ))
      ]

  hop-IsSafe :
      (origin : String) (st : FetchState) (parsed : Url)
      → web.parse st.current_url ≡ some parsed
      → is_http parsed ≡ true
      → IsGuarded origin st
      → IsSafe origin st
  hop-IsSafe origin st parsed e http (inl bare) = (parsed, e, http, inl bare)
  hop-IsSafe origin st parsed e http (inr (here, q, o)) =
      let same : here ≡ parsed = cc (q, e) in
      let origins = ap (λ u. u.origin) same in (parsed, e, http, inr (cc (origins, o)))

  Redirect-cases :
      (r : Redirect) → ((next : FetchState) × (r ≡ goes_to next)) ⊎ ((o : Outcome) × (r ≡ stops o))
  Redirect-cases (goes_to next) = inl (next, refl)
  Redirect-cases (stops o) = inr (o, refl)

  follow-IsSafe :
      (origin : String) (left hop : ℕ) (st : FetchState)
      → IsGuarded origin st
      → (length (follow web left hop st).0 ≤ left) × All (IsSafe origin) (follow web left hop st).0
  unfolding follow
  follow-IsSafe origin zero hop st g = (omega arith, tt)
  follow-IsSafe origin (suc left) hop st g = elim (Option-cases (web.parse st.current_url)) [
    | inl e ↦ rw (e, follow) (omega arith, tt)
    | inr (parsed, e) ↦ elim (Bool-cases (is_http parsed)) [
      | inr other ↦ rw (e, other, follow) (omega arith, tt)
      | inl http ↦ elim (Redirect-cases (after_reply web hop st parsed (web.request hop st))) [
        | inr (o, r) ↦
            rw (e, http, r, follow) (omega arith, (hop-IsSafe origin st parsed e http g, tt))
        | inl (next, r) ↦
            (let goes = after_reply-Goes hop st next parsed (web.request hop st) r in
              let (n, rest) =
                follow-IsSafe origin left (hop + 1) next
                  (Goes-IsGuarded origin st next parsed e g goes) in
              rw (e, http, r, follow) (omega arith, (hop-IsSafe origin st parsed e http g, rest)))
      ]
    ]
  ]

  -- A fetch of a valid URL makes six requests at most, each of them over http or https, and none of
  -- them carries an Authorization header of the guest unless it goes to the origin of that URL,
  -- whatever the servers answer and wherever they redirect.
  pub requests-IsSafe :
      (st : FetchState) (url : Url)
      → web.parse st.current_url ≡ some url
      → (length (hardened_fetch web st).0 ≤ max_redirects + 1)
        × All (IsSafe url.origin) (hardened_fetch web st).0
  unfolding hardened_fetch
  requests-IsSafe st url e = elim (Bool-cases (web.is_data_url st.current_url)) [
    | inl d ↦ rw (d, hardened_fetch) (omega arith, tt)
    | inr n ↦
        rw (n, hardened_fetch)
          (follow-IsSafe url.origin (max_redirects + 1) 0 st (inr (url, e, refl)))
  ]
