-- ===== src/Stdlib/HardenedFetch.antt =====
-- packages/sandbox-stdlib/src/fetch/hardened-fetch.ts: the request of the guest and the redirects that
-- it follows. `Web` is what the code takes from the platform: the URL parser, the lower case of a
-- header's name, and the answer of undici to a request, which the number of the hop may change. The
-- loop is on the number of hops that are left; the bodies of responses and the signal are left out.
pub mod Redirects
mod Tests
use workflow_engine.Prelude.{
  ℕ, suc, zero, ◌+◌, Bool, String, true, false, not, ◌&&◌, ◌||◌, Option, none, some, List, [], ◌∷◌,
  any, keep, ltb, leb, ◌==◌, nat_eq, string_eq, if◌then◌else◌,
}

pub data Reason : Type 0 where
  bad_scheme private_ip redirect_to_private zone_id : Reason

-- What undici throws: a `HostBlockedError`, an error with a cause, or one without.
pub data FetchError : Type 0 where
  host_blocked : Reason → FetchError
  caused_by : FetchError → FetchError
  plain : FetchError

pub record Url : Type 0 where
  pub protocol : String
  pub origin : String

pub record FetchState : Type 0 where
  pub current_url : String
  pub current_method : String
  pub current_headers : List (String × String)
  pub current_body : Option String

-- The status and the first `Location` header.
pub data Reply : Type 0 where
  replies : ℕ → Option String → Reply
  throws : FetchError → Reply

pub record Web : Type 0 where
  pub parse : String → Option Url
  pub resolve : String → String → Option String
  pub lower_case : String → String
  pub is_data_url : String → Bool
  pub request : ℕ → FetchState → Reply

-- What the promise gives: a response with its status and final URL, the native answer to a `data:`
-- URL, or an error.
pub data Outcome : Type 0 where
  response : ℕ → String → Outcome
  data_response : String → Outcome
  blocked : Reason → Outcome
  type_error : Outcome
  network_error : FetchError → Outcome

abbrev pub max_redirects : ℕ
max_redirects = 5

abbrev pub max_cause_depth : ℕ
max_cause_depth = 8

pub unwrap_host_blocked : ℕ → FetchError → Option Reason
unwrap_host_blocked zero err = none
unwrap_host_blocked (suc depth) (host_blocked reason) = some reason
unwrap_host_blocked (suc depth) (caused_by err) = unwrap_host_blocked depth err
unwrap_host_blocked (suc depth) plain = none

-- Past the first hop, a private address is reported as that of a redirect.
pub hop_reason : ℕ → Reason → Reason
hop_reason hop private_ip = if ltb 0 hop then redirect_to_private else private_ip
hop_reason hop reason = reason

pub hop_failure : ℕ → FetchError → Outcome
hop_failure hop err = elim (unwrap_host_blocked max_cause_depth err) [
  | none ↦ network_error err
  | some reason ↦ blocked (hop_reason hop reason)
]

abbrev pub is_http : Url → Bool
is_http url = url.protocol == "http:" || url.protocol == "https:"

-- 301, 302 and 303.
abbrev pub downgrades : ℕ → Bool
downgrades status = status == 301 || (status == 302 || status == 303)

abbrev pub downgraded : String → String
downgraded method = if method == "GET" || method == "HEAD" then method else "GET"

-- A `Location` that is there and not empty.
abbrev pub target : Option String → Option String
target none = none
target (some location) = if location == "" then none else some location

-- The state of the next hop, or the end.
pub data Redirect : Type 0 where
  goes_to : FetchState → Redirect
  stops : Outcome → Redirect

module _ (web : Web) where
  pub strip_header : List (String × String) → String → List (String × String)
  strip_header headers lower_name = keep (λ h. not (web.lower_case h.0 == lower_name)) headers

  -- The headers, method and body of the next hop.
  abbrev pub redirected : FetchState → ℕ → String → Bool → FetchState
  redirected st status next_url same_origin =
      let headers =
        if same_origin
        then st.current_headers
        else strip_header st.current_headers "authorization" in
      if downgrades status
      then record {
        current_url = next_url;
        current_method = downgraded st.current_method;
        current_headers = strip_header headers "content-length";
        current_body = none;
      }
      else record {
        current_url = next_url;
        current_method = st.current_method;
        current_headers = headers;
        current_body = st.current_body;
      }

  pub apply_redirect : FetchState → ℕ → String → Url → Redirect
  apply_redirect st status location previous = elim (web.resolve location st.current_url) [
    | none ↦ stops (blocked bad_scheme)
    | some next_url ↦ elim (web.parse next_url) [
      | none ↦ stops type_error
      | some next ↦ goes_to (redirected st status next_url (next.origin == previous.origin))
    ]
  ]

  -- What one hop does once it has a reply: end, or go on.
  pub after_reply : ℕ → FetchState → Url → Reply → Redirect
  after_reply hop st parsed (throws err) = stops (hop_failure hop err)
  after_reply hop st parsed (replies status location) =
      if leb 300 status && ltb status 400
      then elim (target location) [
        | none ↦ stops (response status st.current_url)
        | some place ↦
            if leb max_redirects hop
            then stops (blocked redirect_to_private)
            else apply_redirect st status place parsed
      ]
      else stops (response status st.current_url)

  -- The loop, with the requests that it makes.
  pub follow : ℕ → ℕ → FetchState → List FetchState × Outcome
  follow zero hop st = ([], blocked redirect_to_private)
  follow (suc left) hop st = elim (web.parse st.current_url) [
    | none ↦ ([], type_error)
    | some parsed ↦
        if is_http parsed
        then elim (after_reply hop st parsed (web.request hop st)) [
          | stops outcome ↦ (st ∷ [], outcome)
          | goes_to next ↦ let rest = follow left (hop + 1) next in (st ∷ rest.0, rest.1)
        ]
        else ([], blocked bad_scheme)
  ]

  pub hardened_fetch : FetchState → List FetchState × Outcome
  hardened_fetch st =
      if web.is_data_url st.current_url
      then ([], data_response st.current_url)
      else follow (max_redirects + 1) 0 st
