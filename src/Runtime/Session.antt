-- ===== src/Runtime/Session.antt =====
-- packages/runtime/src/auth: session-mw.ts and session-cookie.ts, which let a request in by its
-- cookie. Sealing, the providers and the clock are parameters; a reply says what the middleware
-- does with the request and with the session cookie.
pub mod Expiry
pub mod Visits
mod Tests
use workflow_engine.Prelude.{
  ℕ, ◌+◌, Bool, String, true, false, ◌||◌, Option, none, some, List, [], ◌∷◌, leb, ◌==◌, string_eq,
  if◌then◌else◌,
}
use workflow_engine.Runtime.QueryScopes.{UserContext}

pub record SessionPayload : Type 0 where
  pub provider : String
  pub login : String
  pub mail : String
  pub orgs : List String
  pub access_token : String
  pub resolved_at : ℕ
  pub exp : ℕ

pub data Refusal : Type 0 where
  session_expired access_denied : Refusal

pub data RefreshResult : Type 0 where
  refreshed : UserContext → RefreshResult
  refused : Refusal → RefreshResult

pub data FlashPayload : Type 0 where
  denied : String → FlashPayload
  logged_out : FlashPayload

-- `redirect_with_flash` also deletes the session cookie; a request that goes on has its user, and the
-- session cookie that is written, if one is.
pub data Reply : Type 0 where
  redirect_to_login : Reply
  redirect_with_flash : FlashPayload → Reply
  goes_on : UserContext → Option String → Reply

-- The sealed cookie (`unseal` fails on one that is forged or too old) and the registered providers, each
-- by its `refreshSession`.
pub record Auth : Type 0 where
  pub seal : SessionPayload → String
  pub unseal : String → Option SessionPayload
  pub by_id : String → Option (SessionPayload → RefreshResult)

abbrev pub ten_minutes_ms : ℕ
ten_minutes_ms = 600000

pub is_valid_provider : String → Bool
is_valid_provider provider = provider == "github" || provider == "local"

pub unseal_session : Auth → String → Option SessionPayload
unseal_session auth raw = elim (auth.unseal raw) [
  | none ↦ none
  | some payload ↦ if is_valid_provider payload.provider then some payload else none
]

pub user_from_payload : SessionPayload → UserContext
user_from_payload p = record { login = p.login; mail = p.mail; orgs = p.orgs }

abbrev pub is_stale : SessionPayload → ℕ → Bool
is_stale p now = leb (p.resolved_at + ten_minutes_ms) now

abbrev pub is_expired : SessionPayload → ℕ → Bool
is_expired p now = leb p.exp now

pub next_payload : SessionPayload → UserContext → ℕ → SessionPayload
next_payload p user now = record {
  provider = p.provider;
  login = user.login;
  mail = user.mail;
  orgs = user.orgs;
  access_token = p.access_token;
  resolved_at = now;
  exp = p.exp;
}

abbrev pub flash_of : SessionPayload → Refusal → FlashPayload
flash_of p access_denied = denied p.login
flash_of p session_expired = logged_out

pub after_refresh : Auth → ℕ → SessionPayload → RefreshResult → Reply
after_refresh auth now p (refused reason) = redirect_with_flash (flash_of p reason)
after_refresh auth now p (refreshed user) =
    goes_on user (some (auth.seal (next_payload p user now)))

pub with_provider : Auth → ℕ → SessionPayload → Option (SessionPayload → RefreshResult) → Reply
with_provider auth now p none = redirect_with_flash logged_out
with_provider auth now p (some refresh_session) =
    if is_stale p now
    then after_refresh auth now p (refresh_session p)
    else goes_on (user_from_payload p) none

pub with_payload : Auth → ℕ → Option SessionPayload → Reply
with_payload auth now none = redirect_with_flash logged_out
with_payload auth now (some p) =
    if is_expired p now
    then redirect_with_flash logged_out
    else with_provider auth now p (auth.by_id p.provider)

pub session_middleware : Auth → ℕ → Option String → Reply
session_middleware auth now none = redirect_to_login
session_middleware auth now (some raw) = with_payload auth now (unseal_session auth raw)
