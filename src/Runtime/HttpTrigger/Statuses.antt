-- ===== src/Runtime/HttpTrigger/Statuses.antt =====
-- http.ts over build-fire.ts and executor/index.ts: which requests are answered by 422 and which run
-- the handler.
use workflow_engine.Prelude.{
  ◌≡◌, refl, ◌∙◌, ℕ, String, Bool, false, not, ◌&&◌, Option, none, some, List, ◌==◌, nat_eq,
  string_eq, eq_self,
}
use workflow_engine.Core.{DispatchMeta}
use workflow_engine.Runtime.Executor.{RunOutcome, InvokeResult, output, failure, invoke_result}
use workflow_engine.Runtime.BuildFire.{
  ValidationIssue, ValidateResult, Fired, TriggerEntry, build_fire,
}
use workflow_engine.Runtime.BuildFire.Dispatch.{is_some, has_issues, is_valid, build_fire_lem}
use workflow_engine.Runtime.HttpTrigger.{
  ResultBody, no_body, text_body, json_body, respond, Response, body, payload_validation_failed,
  internal_error, not_found, Request, Platform, HttpTriggerSource, Served, answer_fired, serialized,
  serialize_http_result, serve_body, serve_entry, input_of, parse_body, route, handler,
}

abbrev pub is_unprocessable : Response → Bool
is_unprocessable (payload_validation_failed issues status) = status == 422
is_unprocessable (body text status headers) = false
is_unprocessable (internal_error status) = false
is_unprocessable not_found = false

module _ {V : Type 0} (platform : Platform V) where
  -- The handler of the trigger began to run.
  abbrev pub has_run : Served V → Bool
  has_run served = elim served.fired [ none ↦ false | some f ↦ is_some f.dispatched ]

  respond_lem :
      (b : ResultBody V) (status : ℕ) (headers : List (String × String))
      → is_unprocessable (respond platform b status headers) ≡ false
  unfolding respond
  respond_lem no_body status headers = refl
  respond_lem (text_body text) status headers = refl
  respond_lem (json_body v) status headers = refl

  answer_fired_lem :
      (request : Request V) (f : Fired V) (r : InvokeResult V (ValidationIssue V))
      → (let served = answer_fired platform request f r in
          (is_unprocessable served.response ≡ has_issues r)
          × (has_run served ≡ is_some f.dispatched))
  unfolding answer_fired serialized serialize_http_result
  answer_fired_lem request f (output v) = (respond_lem (platform.read_result v).body _ _, refl)
  answer_fired_lem request f (failure message stack none) = (refl, refl)
  answer_fired_lem request f (failure message stack (some issues)) = (refl, refl)

  module _ (number_text : ℕ → String) (validate_output validate : V → ValidateResult V)
      (run : V → Option DispatchMeta → RunOutcome V) where
    -- The trigger whose calls are those of `buildFire`.
    abbrev pub built_entry : String → String → String → TriggerEntry V
    built_entry workflow_name name method = record {
      workflow_name = workflow_name;
      name = name;
      method = method;
      fire = build_fire number_text (λ v d. invoke_result (run v d)) validate validate_output;
    }

    -- A body that is JSON, or a method without one, and an input that the schema accepts.
    abbrev pub is_acceptable : Request V → Option V → Bool
    is_acceptable request none = false
    is_acceptable request (some value) = is_valid (validate (input_of platform request value))

    serve_body_lem :
        (request : Request V) (workflow_name name : String) (value : Option V)
        → (let served =
              serve_body platform request (built_entry workflow_name name request.method) value in
            (has_run served ≡ is_acceptable request value)
            × (is_unprocessable served.response ≡ not (is_acceptable request value)))
    unfolding serve_body
    serve_body_lem request workflow_name name none = (refl, refl)
    serve_body_lem request workflow_name name (some value) =
        let entry = built_entry workflow_name name request.method in
        let fired = entry.fire (input_of platform request value) none in
        let (ran, issues) =
          build_fire_lem number_text validate_output run validate (input_of platform request value)
            none in
        let (refused, same) = answer_fired_lem request fired fired.result in
        (same ∙ ran, refused ∙ issues)

    -- For a request whose path and method are those of a trigger, whatever a run of its workflow comes to:
    -- the workflow runs exactly when the body can be parsed and the schema accepts the input, and
    -- the answer is the failed validation, with status 422, exactly when not.
    pub unprocessable_iff_not_run :
        (source : HttpTriggerSource V) (request : Request V) (workflow_name name : String)
        → (platform.after_prefix request.path == "" && request.method == "GET") ≡ false
        → route platform (platform.split (platform.after_prefix request.path)) source
          ≡ some (built_entry workflow_name name request.method)
        → (let served = handler platform source request in
            let acceptable = is_acceptable request (parse_body platform request) in
            (has_run served ≡ acceptable) × (is_unprocessable served.response ≡ not acceptable))
    unfolding handler serve_entry
    unprocessable_iff_not_run source request workflow_name name not_probe routed = rw not_probe (
        rw routed (
          rw (eq_self request.method)
            (serve_body_lem request workflow_name name (parse_body platform request))))
