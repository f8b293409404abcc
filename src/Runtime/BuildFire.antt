-- ===== src/Runtime/BuildFire.antt =====
-- packages/runtime/src/triggers/build-fire.ts with the results of validator.ts: the closure that
-- validates what a trigger received, runs the handler and validates what it returned. The validators
-- and `executor.invoke` are arguments, and so is the text of a number.
pub mod Dispatch
use workflow_engine.Prelude.{
  ℕ, String, Option, none, some, List, [], ◌∷◌, ◌-◌, map, length, take, ltb, if◌then◌else◌,
}
use Prim.Native.String.{◌++◌}
use workflow_engine.Core.{DispatchMeta}
use workflow_engine.Runtime.Executor.{InvokeResult, output, failure}

pub data PathSegment : Type 0 where
  key : String → PathSegment
  index : ℕ → PathSegment

pub record ValidationIssue (V : Type 0) : Type 0 where
  pub path : List PathSegment
  pub message : String
  pub received : Option V
  pub expected : Option String
  pub code : Option String

pub data ValidateResult (V : Type 0) : Type 0 where
  valid : V → ValidateResult V
  invalid : List (ValidationIssue V) → ValidateResult V

-- What one call of the closure does: its answer, the input that went to the executor, and the issues
-- that went to the log.
pub record Fired (V : Type 0) : Type 0 where
  pub result : InvokeResult V (ValidationIssue V)
  pub dispatched : Option V
  pub warned : Option (List (ValidationIssue V))

pub record TriggerEntry (V : Type 0) : Type 0 where
  pub workflow_name : String
  pub name : String
  pub method : String
  pub fire : V → Option DispatchMeta → Fired V

abbrev issue_summary_limit : ℕ
issue_summary_limit = 3

-- `join` of an array of texts.
join : String → List String → String
join separator [] = ""
join separator (s ∷ []) = s
join separator (s ∷ t ∷ ts) = s ++ separator ++ join separator (t ∷ ts)

segment_text : (ℕ → String) → PathSegment → String
segment_text number_text (key k) = k
segment_text number_text (index n) = number_text n

path_text : (ℕ → String) → List PathSegment → String
path_text number_text [] = "/"
path_text number_text (p ∷ ps) = "/" ++ join "/" (map (segment_text number_text) (p ∷ ps))

module _ {V : Type 0} where
  pub summarise_issues : (ℕ → String) → List (ValidationIssue V) → String
  summarise_issues number_text [] = "schema mismatch"
  summarise_issues number_text (i ∷ is) =
      let extra_count = length (i ∷ is) - issue_summary_limit in
      let part : ValidationIssue V → String =
        λ i. path_text number_text i.path ++ ": " ++ i.message in
      let parts = map part (take issue_summary_limit (i ∷ is)) in
      let extra = if ltb 0 extra_count then " (+" ++ number_text extra_count ++ " more)" else "" in
      join "; " parts ++ extra

  -- The end of a successful invocation.
  unfoldable pub check_output : (ℕ → String) → V → V → ValidateResult V → Fired V
  check_output number_text input v (valid w) = record {
    result = output v;
    dispatched = some input;
    warned = none;
  }
  check_output number_text input v (invalid issues) = record {
    result = failure ("output validation: " ++ summarise_issues number_text issues) none none;
    dispatched = some input;
    warned = some issues;
  }

  unfoldable pub check_result :
      (ℕ → String) → (V → ValidateResult V) → V → InvokeResult V (ValidationIssue V) → Fired V
  check_result number_text validate_output input (output v) =
      check_output number_text input v (validate_output v)
  check_result number_text validate_output input (failure message stack issues) = record {
    result = failure message stack issues;
    dispatched = some input;
    warned = none;
  }

  unfoldable pub fire_valid :
      (ℕ → String)
      → (V → Option DispatchMeta → InvokeResult V (ValidationIssue V))
      → (V → ValidateResult V)
      → Option DispatchMeta
      → ValidateResult V
      → Fired V
  fire_valid number_text invoke validate_output dispatch (invalid issues) = record {
    result = failure "payload_validation_failed" none (some issues);
    dispatched = none;
    warned = none;
  }
  fire_valid number_text invoke validate_output dispatch (valid input) =
      check_result number_text validate_output input (invoke input dispatch)

  unfoldable pub build_fire :
      (ℕ → String)
      → (V → Option DispatchMeta → InvokeResult V (ValidationIssue V))
      → (V → ValidateResult V)
      → (V → ValidateResult V)
      → V
      → Option DispatchMeta
      → Fired V
  build_fire number_text invoke validate validate_output input dispatch =
      fire_valid number_text invoke validate_output dispatch (validate input)
