-- ===== src/Runtime/BuildFire/Dispatch.antt =====
-- build-fire.ts over executor/index.ts: the validator alone decides whether the handler runs, and
-- only its refusal has issues in the answer.
use workflow_engine.Prelude.{◌≡◌, refl, ℕ, String, Bool, true, false, not, Option, none, some}
use workflow_engine.Core.{DispatchMeta}
use workflow_engine.Runtime.Executor.{
  RunOutcome, resolved, guest_error, rejected, InvokeResult, output, failure, invoke_result,
}
use workflow_engine.Runtime.BuildFire.{
  ValidationIssue, ValidateResult, valid, invalid, check_output, check_result, fire_valid,
  build_fire,
}

abbrev pub is_some : {A : Type 0} → Option A → Bool
is_some none = false
is_some (some a) = true

module _ {V : Type 0} where
  abbrev pub has_issues : InvokeResult V (ValidationIssue V) → Bool
  has_issues (output v) = false
  has_issues (failure message stack issues) = is_some issues

  abbrev pub is_valid : ValidateResult V → Bool
  is_valid (valid v) = true
  is_valid (invalid issues) = false

  module _ (number_text : ℕ → String) (validate_output : V → ValidateResult V) where
    check_output_lem :
        (input v : V) (r : ValidateResult V)
        → (let f = check_output number_text input v r in
            (has_issues f.result ≡ false) × (f.dispatched ≡ some input))
    unfolding check_output
    check_output_lem input v (valid w) = (refl, refl)
    check_output_lem input v (invalid issues) = (refl, refl)

    check_result_lem :
        (input : V) (o : RunOutcome V)
        → (let f = check_result number_text validate_output input (invoke_result o) in
            (has_issues f.result ≡ false) × (f.dispatched ≡ some input))
    unfolding check_result invoke_result
    check_result_lem input (resolved v) = check_output_lem input v (validate_output v)
    check_result_lem input (guest_error message stack) = (refl, refl)
    check_result_lem input (rejected message stack) = (refl, refl)

    -- Whatever a run of the handler comes to, it is run exactly when the input is valid, and the answer
    -- has issues exactly when the input is not.
    pub build_fire_lem :
        (run : V → Option DispatchMeta → RunOutcome V) (validate : V → ValidateResult V) (input : V)
        (dispatch : Option DispatchMeta)
        → (let f =
              build_fire number_text
                (λ v d. invoke_result (run v d))
                validate
                validate_output
                input
                dispatch in
            (is_some f.dispatched ≡ is_valid (validate input))
            × (has_issues f.result ≡ not (is_valid (validate input))))
    unfolding build_fire fire_valid
    build_fire_lem run validate input dispatch = decided (validate input)
      where
        decided :
            (r : ValidateResult V)
            → (let f =
                  fire_valid number_text
                    (λ v d. invoke_result (run v d))
                    validate_output
                    dispatch
                    r in
                (is_some f.dispatched ≡ is_valid r) × (has_issues f.result ≡ not (is_valid r)))
        decided (invalid issues) = (refl, refl)
        decided (valid v) =
            let (issues, ran) = check_result_lem v (run v dispatch) in (rw ran refl, issues)
