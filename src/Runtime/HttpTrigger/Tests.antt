-- ===== src/Runtime/HttpTrigger/Tests.antt =====
-- Requests to a trigger whose input is a number, of which the schema takes those below 10, and whose
-- workflow answers with a cookie.
use workflow_engine.Prelude.{
  ◌≡◌, refl, ℕ, true, false, Option, none, some, [], ◌∷◌, ltb, ◌==◌, string_eq, if◌then◌else◌,
}
use workflow_engine.Core.{DispatchMeta}
use workflow_engine.Runtime.Executor.{RunOutcome, resolved, guest_error, invoke_result}
use workflow_engine.Runtime.BuildFire.{
  ValidateResult, valid, invalid, TriggerEntry, build_fire, fire_valid, check_result, check_output,
  key,
}
use workflow_engine.Runtime.HttpTrigger.{
  json_body, body, internal_error, Request, Platform, HttpTriggerSource, response_header_stripped,
  handler, route, get_entry, reconfigure, mark_ready, parse_body, pair_key, trigger_key, input_of,
  serve_entry, serve_body, answer_fired, serialized, serialize_http_result, respond, kept_headers,
  stripped_headers, stripped_exceptions, is_reserved_response_header, with_content_type,
  has_content_type_header, headers_of, status_of, by_trigger, ready_response,
}
use workflow_engine.Runtime.HttpTrigger.Statuses.{
  is_unprocessable, has_run, built_entry, unprocessable_iff_not_run,
}
use workflow_engine.Runtime.HttpTrigger.Reserved.{sent_headers, Unreserved, no_reserved_header}

abbrev platform : Platform ℕ
platform = record {
  lower_case = λ s. if s == "Set-Cookie" then "set-cookie" else s;
  sort = λ names. names;
  after_prefix = λ path. path;
  split = λ path. "o" ∷ "r" ∷ "w" ∷ path ∷ [];
  is_owner_name = λ name. true;
  is_repo_name = λ name. true;
  is_trigger_name = λ name. true;
  null = 0;
  raw_input = λ v headers url method. v;
  read_result = λ n. record {
    status = none;
    headers = some (("Set-Cookie", "a=b") ∷ ("x-trace", "1") ∷ []);
    body = json_body n;
  };
  stringify = λ n. "json";
}

abbrev validate : ℕ → ValidateResult ℕ
validate n =
    if ltb n 10
    then valid n
    else invalid (
        record {
          path = key "body" ∷ [];
          message = "too big";
          received = some n;
          expected = some "< 10";
          code = some "too_big";
        }
        ∷ [])

abbrev run : ℕ → Option DispatchMeta → RunOutcome ℕ
run n dispatch = if ltb n 3 then guest_error "boom" none else resolved n

abbrev entry : TriggerEntry ℕ
entry = built_entry platform (λ n. "n") valid validate run "w" "t" "POST"

abbrev source : HttpTriggerSource ℕ
source = record { pairs = ("o/r", ("w/t", entry) ∷ []) ∷ []; ready = true }

abbrev post : Option ℕ → Request ℕ
post json = record {
  method = "POST";
  path = "t";
  url = "http://h/webhooks/o/r/w/t";
  pathname = "/webhooks/o/r/w/t";
  headers = [];
  json = json;
}

unprocessable_iff_not_run_example :
    (has_run platform (handler platform source (post (some 12))) ≡ false)
    × (is_unprocessable (handler platform source (post (some 12))).response ≡ true)
unfolding route get_entry parse_body pair_key trigger_key input_of
unprocessable_iff_not_run_example =
    unprocessable_iff_not_run platform (λ n. "n") valid validate run source (post (some 12)) "w" "t"
      refl refl

no_reserved_header_example :
    Unreserved platform (sent_headers (handler platform source (post (some 5))).response)
no_reserved_header_example = no_reserved_header platform refl source (post (some 5))

served_test :
    (let served = handler platform source (post (some 5)) in
      (served.response
        ≡ body
            (some "json")
            200
            (("x-trace", "1") ∷ ("content-type", "application/json; charset=UTF-8") ∷ []))
      × (served.exceptions ≡ response_header_stripped ("set-cookie" ∷ []) ∷ []))
unfolding handler serve_entry serve_body answer_fired serialized serialize_http_result respond
    kept_headers stripped_headers stripped_exceptions is_reserved_response_header with_content_type
    has_content_type_header headers_of status_of route get_entry parse_body pair_key trigger_key
    input_of build_fire fire_valid check_result check_output invoke_result
served_test = (refl, refl)

failed_test : (handler platform source (post (some 2))).response ≡ internal_error 500
unfolding handler serve_entry serve_body answer_fired serialized serialize_http_result respond
    kept_headers stripped_headers stripped_exceptions is_reserved_response_header with_content_type
    has_content_type_header headers_of status_of route get_entry parse_body pair_key trigger_key
    input_of build_fire fire_valid check_result check_output invoke_result
failed_test = refl

reconfigured_test :
    get_entry platform "o" "r" "w" "t"
      (reconfigure platform "o" "r" (entry ∷ []) (record { pairs = []; ready = false }))
    ≡ some entry
unfolding get_entry reconfigure by_trigger pair_key trigger_key
reconfigured_test = refl

probe_test :
    (handler platform
      (mark_ready platform source)
      (record (post none) { method = "GET"; path = "" })).response
    ≡ body none 204 []
unfolding handler mark_ready ready_response
probe_test = refl
