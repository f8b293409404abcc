-- ===== src/Runtime/HttpTrigger.antt =====
-- packages/runtime/src/triggers/http.ts: the table of triggers of the public webhooks, and the handler of
-- a request. The text operations of JavaScript, the patterns of names and the reading of the value
-- that a workflow returned are arguments; a body that is not JSON is `none`.
pub mod Statuses
pub mod Reserved
mod Tests
use workflow_engine.Prelude.{
  ℕ, Bool, String, true, Option, none, some, List, [], ◌∷◌, any, keep, not, ◌&&◌, ◌||◌, map, ◌==◌,
  string_eq, if◌then◌else◌,
}
use Prim.Native.String.{◌++◌}
use workflow_engine.Prelude.Maps.{get, set, delete}
use workflow_engine.Runtime.Executor.{InvokeResult, output, failure}
use workflow_engine.Runtime.BuildFire.{PathSegment, key, ValidationIssue, Fired, TriggerEntry}

pub data ResultBody (V : Type 0) : Type 0 where
  no_body : ResultBody V
  text_body : String → ResultBody V
  json_body : V → ResultBody V

pub record HttpTriggerResult (V : Type 0) : Type 0 where
  pub status : Option ℕ
  pub headers : Option (List (String × String))
  pub body : ResultBody V

pub record WireIssue : Type 0 where
  pub path : List PathSegment
  pub message : String

-- The calls on the request's context that make a response.
pub data Response : Type 0 where
  body : Option String → ℕ → List (String × String) → Response
  payload_validation_failed : List WireIssue → ℕ → Response
  internal_error : ℕ → Response
  not_found : Response

pub record Request (V : Type 0) : Type 0 where
  pub method : String
  pub path : String
  pub url : String
  pub pathname : String
  pub headers : List (String × String)
  pub json : Option V

pub record Platform (V : Type 0) : Type 0 where
  pub lower_case : String → String
  pub sort : List String → List String
  pub after_prefix : String → String
  pub split : String → List String
  pub is_owner_name : String → Bool
  pub is_repo_name : String → Bool
  pub is_trigger_name : String → Bool
  pub null : V
  pub raw_input : V → List (String × String) → String → String → V
  pub read_result : V → HttpTriggerResult V
  pub stringify : V → String

pub data HttpException (V : Type 0) : Type 0 where
  body_validation : List (ValidationIssue V) → String → String → HttpException V
  response_header_stripped : List String → HttpException V

pub record HttpTriggerSource (V : Type 0) : Type 0 where
  pub pairs : List (String × List (String × TriggerEntry V))
  pub ready : Bool

-- What the handler did: its response, the call of the trigger, and the exceptions that it recorded.
pub record Served (V : Type 0) : Type 0 where
  pub response : Response
  pub fired : Option (Fired V)
  pub exceptions : List (HttpException V)

abbrev pub reserved_response_headers : List String
reserved_response_headers =
    "set-cookie" ∷ "set-cookie2" ∷ "location" ∷ "refresh" ∷ "clear-site-data" ∷ "authorization"
    ∷ "proxy-authenticate" ∷ "www-authenticate" ∷ "content-security-policy"
    ∷ "content-security-policy-report-only" ∷ "strict-transport-security" ∷ "x-content-type-options"
    ∷ "x-frame-options" ∷ "referrer-policy" ∷ "cross-origin-opener-policy"
    ∷ "cross-origin-resource-policy" ∷ "cross-origin-embedder-policy" ∷ "permissions-policy"
    ∷ "server" ∷ "x-powered-by" ∷ []

pub trigger_key : String → String → String
trigger_key workflow_name trigger_name = workflow_name ++ "/" ++ trigger_name

pub pair_key : String → String → String
pair_key owner repo = owner ++ "/" ++ repo

module _ {V : Type 0} (platform : Platform V) where
  open platform use {
    lower_case, sort, after_prefix, split, is_owner_name, is_repo_name, is_trigger_name, null,
    raw_input, read_result, stringify,
  }

  pub is_reserved_response_header : String → Bool
  is_reserved_response_header name = any (λ h. lower_case name == h) reserved_response_headers

  pub headers_to_record : List (String × String) → List (String × String) → List (String × String)
  headers_to_record [] out = out
  headers_to_record ((k, v) ∷ headers) out = headers_to_record headers (set (lower_case k) v out)

  pub to_wire_issue : ValidationIssue V → WireIssue
  to_wire_issue issue = record { path = issue.path; message = issue.message }

  abbrev pub validation_failure : List (ValidationIssue V) → Response
  validation_failure issues = payload_validation_failed (map to_wire_issue issues) 422

  pub has_content_type_header : List (String × String) → Bool
  has_content_type_header headers = any (λ h. lower_case h.0 == "content-type") headers

  -- `kept` and `stripped` of `partitionHeaders`.
  pub kept_headers : List (String × String) → List (String × String)
  kept_headers headers = keep (λ h. not (is_reserved_response_header h.0)) headers

  pub stripped_headers : List (String × String) → List String
  stripped_headers headers =
      sort (map (λ h. lower_case h.0) (keep (λ h. is_reserved_response_header h.0) headers))

  pub with_content_type : String → List (String × String) → List (String × String)
  with_content_type kind headers =
      if has_content_type_header headers then headers else set "content-type" kind headers

  pub respond : ResultBody V → ℕ → List (String × String) → Response
  respond no_body status headers = body none status headers
  respond (text_body text) status headers =
      body (some text) status (with_content_type "text/plain; charset=UTF-8" headers)
  respond (json_body v) status headers =
      body (some (stringify v)) status (with_content_type "application/json; charset=UTF-8" headers)

  headers_of : HttpTriggerResult V → List (String × String)
  headers_of result = elim result.headers [ none ↦ [] | some headers ↦ headers ]

  status_of : HttpTriggerResult V → ℕ
  status_of result = elim result.status [ none ↦ 200 | some status ↦ status ]

  pub serialize_http_result : V → Response × List String
  serialize_http_result v =
      let result = read_result v in
      (
        respond result.body (status_of result) (kept_headers (headers_of result)),
        stripped_headers (headers_of result),
      )

  pub parse_body : Request V → Option V
  parse_body request =
      if request.method == "GET" || request.method == "HEAD" then some null else request.json

  stripped_exceptions : List String → List (HttpException V)
  stripped_exceptions [] = []
  stripped_exceptions (h ∷ hs) = response_header_stripped (h ∷ hs) ∷ []

  serialized : Fired V → Response × List String → Served V
  serialized fired (response, stripped) = record {
    response = response;
    fired = some fired;
    exceptions = stripped_exceptions stripped;
  }

  -- The response to a result of the trigger.
  pub answer_fired : Request V → Fired V → InvokeResult V (ValidationIssue V) → Served V
  answer_fired request fired (output v) = serialized fired (serialize_http_result v)
  answer_fired request fired (failure message stack none) = record {
    response = internal_error 500;
    fired = some fired;
    exceptions = [];
  }
  answer_fired request fired (failure message stack (some issues)) = record {
    response = validation_failure issues;
    fired = some fired;
    exceptions = body_validation issues request.method request.pathname ∷ [];
  }

  pub input_of : Request V → V → V
  input_of request value =
      raw_input value (headers_to_record request.headers []) request.url request.method

  -- The handler from the parsing of the body on.
  pub serve_body : Request V → TriggerEntry V → Option V → Served V
  serve_body request entry none = record {
    response = validation_failure (
        record {
          path = key "body" ∷ [];
          message = "Invalid JSON body";
          received = none;
          expected = none;
          code = none;
        }
        ∷ []);
    fired = none;
    exceptions = [];
  }
  serve_body request entry (some value) =
      let fired = entry.fire (input_of request value) none in
      answer_fired request fired fired.result

  abbrev pub nothing_found : Served V
  nothing_found = record { response = not_found; fired = none; exceptions = [] }

  pub get_entry : String → String → String → String → HttpTriggerSource V → Option (TriggerEntry V)
  get_entry owner repo workflow_name trigger_name source =
      elim (get (pair_key owner repo) source.pairs) [
        | none ↦ none
        | some by_trigger ↦ get (trigger_key workflow_name trigger_name) by_trigger
      ]

  -- The trigger that a request is for.
  pub route : List String → HttpTriggerSource V → Option (TriggerEntry V)
  route (owner ∷ repo ∷ workflow_name ∷ trigger_name ∷ []) source =
      if is_owner_name owner
        && is_repo_name repo
        && is_owner_name workflow_name
        && is_trigger_name trigger_name
      then get_entry owner repo workflow_name trigger_name source
      else none
  route _ source = none

  serve_entry : Request V → Option (TriggerEntry V) → Served V
  serve_entry request none = nothing_found
  serve_entry request (some entry) =
      let served = serve_body request entry (parse_body request) in
      if entry.method == request.method then served else nothing_found

  ready_response : Bool → Served V
  ready_response ready = record {
    response = body none (if ready then 204 else 503) [];
    fired = none;
    exceptions = [];
  }

  pub handler : HttpTriggerSource V → Request V → Served V
  handler source request =
      let after = after_prefix request.path in
      let served = serve_entry request (route (split after) source) in
      if after == "" && request.method == "GET" then ready_response source.ready else served

  by_trigger :
      List (TriggerEntry V) → List (String × TriggerEntry V) → List (String × TriggerEntry V)
  by_trigger [] m = m
  by_trigger (e ∷ es) m = by_trigger es (set (trigger_key e.workflow_name e.name) e m)

  pub reconfigure :
      String → String → List (TriggerEntry V) → HttpTriggerSource V → HttpTriggerSource V
  reconfigure owner repo [] source = record source {
    pairs = delete (pair_key owner repo) source.pairs;
  }
  reconfigure owner repo (e ∷ es) source = record source {
    pairs = set (pair_key owner repo) (by_trigger (e ∷ es) []) source.pairs;
  }

  pub stop : HttpTriggerSource V → HttpTriggerSource V
  stop source = record source { pairs = [] }

  pub mark_ready : HttpTriggerSource V → HttpTriggerSource V
  mark_ready source = record source { ready = true }
