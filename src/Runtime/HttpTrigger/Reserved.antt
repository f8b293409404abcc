-- ===== src/Runtime/HttpTrigger/Reserved.antt =====
-- http.ts with isReservedResponseHeader of packages/core: what a workflow's headers become.
use workflow_engine.Prelude.{
  ◌≡◌, refl, ℕ, String, Bool, true, false, ◌&&◌, Option, none, some, List, [], ◌∷◌, All, ◌==◌,
  string_eq, if◌then◌else◌, Bool-cases, inl, inr,
}
use workflow_engine.Prelude.Maps.{set}
use workflow_engine.Runtime.Executor.{InvokeResult, output, failure}
use workflow_engine.Runtime.BuildFire.{ValidationIssue, Fired, TriggerEntry}
use workflow_engine.Runtime.HttpTrigger.{
  ResultBody, no_body, text_body, json_body, Response, body, payload_validation_failed,
  internal_error, not_found, Request, Platform, HttpTriggerSource, Served,
  is_reserved_response_header, kept_headers, has_content_type_header, with_content_type, respond,
  serialize_http_result, serialized, answer_fired, serve_body, serve_entry, ready_response,
  parse_body, route, handler,
}

under : {A : Type 0} (P : A → Type 0) {x y : A} (t : Bool) → P x → P y → P (if t then x else y)
under P true p q = p
under P false p q = q

abbrev pub sent_headers : Response → List (String × String)
sent_headers (body text status headers) = headers
sent_headers (payload_validation_failed issues status) = []
sent_headers (internal_error status) = []
sent_headers not_found = []

module _ {V : Type 0} (platform : Platform V) where
  abbrev pub Unreserved : List (String × String) → Type 0
  Unreserved headers = All (λ h. is_reserved_response_header platform h.0 ≡ false) headers

  SendsUnreserved : Served V → Type 0
  SendsUnreserved served = Unreserved (sent_headers served.response)

  kept-Unreserved : (headers : List (String × String)) → Unreserved (kept_headers platform headers)
  unfolding kept_headers
  kept-Unreserved [] = tt
  kept-Unreserved ((k, v) ∷ headers) = elim (Bool-cases (is_reserved_response_header platform k)) [
    | inl t ↦ rw t (kept-Unreserved headers)
    | inr f ↦ rw f (f, kept-Unreserved headers)
  ]

  set-Unreserved :
      (k v : String) (headers : List (String × String))
      → is_reserved_response_header platform k ≡ false
      → Unreserved headers
      → Unreserved (set k v headers)
  set-Unreserved k v [] free h = (free, tt)
  set-Unreserved k v ((j, w) ∷ headers) free (p, h) = elim (Bool-cases (j == k)) [
    | inl t ↦ rw t (p, h)
    | inr f ↦ rw f (p, set-Unreserved k v headers free h)
  ]

  module _ (content_type_lower : platform.lower_case "content-type" ≡ "content-type") where
    content_type_free : is_reserved_response_header platform "content-type" ≡ false
    unfolding is_reserved_response_header
    content_type_free = rw content_type_lower refl

    with_content_type-Unreserved :
        (kind : String) (headers : List (String × String))
        → Unreserved headers
        → Unreserved (with_content_type platform kind headers)
    unfolding with_content_type
    with_content_type-Unreserved kind headers h =
        under Unreserved (has_content_type_header platform headers) h
          (set-Unreserved "content-type" kind headers content_type_free h)

    respond-Unreserved :
        (b : ResultBody V) (status : ℕ) (headers : List (String × String))
        → Unreserved headers
        → Unreserved (sent_headers (respond platform b status headers))
    unfolding respond
    respond-Unreserved no_body status headers h = h
    respond-Unreserved (text_body text) status headers h = with_content_type-Unreserved _ headers h
    respond-Unreserved (json_body v) status headers h = with_content_type-Unreserved _ headers h

    answer-Unreserved :
        (request : Request V) (f : Fired V) (r : InvokeResult V (ValidationIssue V))
        → Unreserved (sent_headers (answer_fired platform request f r).response)
    unfolding answer_fired serialized serialize_http_result
    answer-Unreserved request f (output v) =
        let result = platform.read_result v in
        respond-Unreserved result.body _ _ (kept-Unreserved _)
    answer-Unreserved request f (failure message stack none) = tt
    answer-Unreserved request f (failure message stack (some issues)) = tt

    entry-Unreserved :
        (request : Request V) (entry : Option (TriggerEntry V))
        → Unreserved (sent_headers (serve_entry platform request entry).response)
    unfolding serve_entry serve_body SendsUnreserved
    entry-Unreserved request none = tt
    entry-Unreserved request (some entry) =
        under SendsUnreserved (entry.method == request.method)
          (served (parse_body platform request)) tt
      where
        served : (value : Option V) → SendsUnreserved (serve_body platform request entry value)
        served none = tt
        served (some value) = answer-Unreserved request _ _

    -- Whatever the triggers return, and where "content-type" is in lower case already, no response to a
    -- webhook has a header whose name in lower case is reserved to the platform.
    pub no_reserved_header :
        (source : HttpTriggerSource V) (request : Request V)
        → Unreserved (sent_headers (handler platform source request).response)
    unfolding handler ready_response SendsUnreserved
    no_reserved_header source request =
        let after = platform.after_prefix request.path in
        under SendsUnreserved (after == "" && request.method == "GET") tt
          (entry-Unreserved request (route platform (platform.split after) source))
