-- ===== src/Completion/Verifier.antt =====
-- `CompletionVerifier` of src/axiom/runtime/completion.py.
use axiom_agent.Prelude.{
  ℕ, String, Bool, true, ◌&&◌, ◌||◌, not, none, some, List, [], ◌∷◌, map, all, any, contains,
  str_eq, if◌then◌else◌,
}
use axiom_agent.Dict.{Dict}
use axiom_agent.Models.{RunStatus}
use axiom_agent.Completion.Contract.{
  Value, CompletionVerificationStatus, CompletionCheck, CompletionCheckResult,
  CompletionVerificationResult, CheckError, Checked, returned, raised, ◌>>=◌, is_failed_check,
}
use axiom_agent.Completion.Checks.{
  ToolEvidence, RunView, World, status_value, is_succeeded, or_empty, is_empty, candidate_output,
  strings, get, get_or, nonempty_strings, is_true, text_or_empty, artifacts_exist, check_plan_tasks,
}

-- `check.type in {"required_tools", "forbidden_tools", "successful_tool"}`
abbrev pub needs_tools : String → Bool
needs_tools type = contains type ("required_tools" ∷ "forbidden_tools" ∷ "successful_tool" ∷ [])

abbrev pub tool_names : List ToolEvidence → List String
tool_names records = map (λ (r : ToolEvidence). r.tool_name) records

-- What is said of the checks' results, or of an exception.
abbrev pub conclude : ℕ → Checked (List CompletionCheckResult) → CompletionVerificationResult
conclude attempt (raised e) = record {
  status = CompletionVerificationStatus.error;
  attempt = attempt;
  checks = [];
  error = some e;
}
conclude attempt (returned results) = record {
  status =
      if any is_failed_check results
      then CompletionVerificationStatus.not_verified
      else CompletionVerificationStatus.verified;
  attempt = attempt;
  checks = results;
  error = none;
}

module _ {Other : Type 0} (world : World Other) where
  -- Evidence of one of the tools, by a succeeded execution with the text, if there is one.
  unfoldable pub is_evidence : List String → String → ToolEvidence → Bool
  is_evidence names wanted r =
      contains r.tool_name names
      && is_succeeded r.status
      && not r.is_error
      && (str_eq wanted "" || world.is_in wanted (or_empty r.result))

  -- `output_contains`
  unfoldable pub output_contains : Dict (Value Other) → String → Checked Bool
  unfolding nonempty_strings
  output_contains config output = do
    expected ← nonempty_strings (get "expected" config)
    let case_sensitive = is_true world (get "case_sensitive" config)
    let fold = λ (s : String). if case_sensitive then s else world.casefold s
    let found = λ (s : String). world.is_in (fold s) (fold output)
    if any (λ s. str_eq s "") expected
        then raised CheckError.empty_setting
        else returned (
            if is_true world (get_or (Value.flag true) "match_all" config)
            then all found expected
            else any found expected)

  -- `output_exact`
  unfoldable pub output_exact : Dict (Value Other) → String → Bool
  output_exact config actual =
      let strip = λ (s : String).
        if is_true world (get_or (Value.flag true) "strip" config) then world.strip s else s in
      let fold = λ (s : String).
        if is_true world (get_or (Value.flag true) "case_sensitive" config)
        then s
        else world.casefold s in
      str_eq (fold (strip actual)) (fold (strip (text_or_empty world (get "expected" config))))

  -- What `_run_check` sets `passed` to.
  unfoldable pub passes :
      RunView → List ToolEvidence → String → RunStatus → String → Dict (Value Other) → Checked Bool
  unfolding strings nonempty_strings
  passes state records cwd candidate type config =
      if str_eq type "run_status"
      then strings (get_or (Value.texts (status_value RunStatus.completed ∷ [])) "accepted" config)
        >>= (λ accepted. returned (contains (status_value candidate) accepted))
      else if str_eq type "required_tools"
      then nonempty_strings (get "tools" config)
        >>= (λ required. returned (all (λ t. contains t (tool_names records)) required))
      else if str_eq type "forbidden_tools"
      then nonempty_strings (get "tools" config)
        >>= (λ forbidden. returned (not (any (λ t. contains t (tool_names records)) forbidden)))
      else if str_eq type "successful_tool"
      then nonempty_strings (get_or (get "tool" config) "tools" config) >>= (λ names.
        returned
          (any (is_evidence names (text_or_empty world (get "result_contains" config))) records))
      else if str_eq type "output_contains"
      then output_contains config (candidate_output state)
      else if str_eq type "output_exact"
      then returned (output_exact config (candidate_output state))
      else if str_eq type "artifacts_exist"
      then nonempty_strings (get "paths" config) >>= artifacts_exist world cwd
      else if str_eq type "plan_tasks_completed"
      then strings (get "task_ids" config) >>= check_plan_tasks world state.stored_plan
      else raised CheckError.unknown_check

  -- `_run_check`
  unfoldable pub run_check :
      RunView
      → List ToolEvidence
      → String
      → RunStatus
      → CompletionCheck Other
      → Checked CompletionCheckResult
  unfolding passes
  run_check state records cwd candidate check =
      passes state records cwd candidate check.type check.config >>= (λ passed. returned (record {
        check_id = check.id;
        check_type = check.type;
        passed = passed;
        required = check.required;
      }))

  -- The loop over the checks, which stops at the first that raises.
  unfoldable pub run_checks :
      RunView
      → List ToolEvidence
      → String
      → RunStatus
      → List (CompletionCheck Other)
      → Checked (List CompletionCheckResult)
  unfolding run_check
  run_checks state records cwd candidate [] = returned []
  run_checks state records cwd candidate (check ∷ checks) =
      let rest = run_checks state records cwd candidate checks in
      run_check state records cwd candidate check
      >>= (λ result. rest >>= (λ results. returned (result ∷ results)))

  -- The tool executions are read only for the checks that look at them.
  abbrev pub records_for : RunView → List (CompletionCheck Other) → Checked (List ToolEvidence)
  records_for state checks =
      if any (λ (c : CompletionCheck Other). needs_tools c.type) checks
      then world.list_tool_executions state.run_id
      else returned []

  -- The body of the `try`.
  unfoldable pub collect :
      RunView
      → String
      → RunStatus
      → List (CompletionCheck Other)
      → Checked (List CompletionCheckResult)
  unfolding run_checks
  collect state cwd candidate checks =
      records_for state checks >>= (λ records. run_checks state records cwd candidate checks)

  unfoldable pub verify :
      RunView → List (CompletionCheck Other) → String → ℕ → RunStatus → CompletionVerificationResult
  unfolding collect
  verify state checks cwd attempt candidate =
      if is_empty checks
      then record {
        status = CompletionVerificationStatus.not_applicable;
        attempt = attempt;
        checks = [];
        error = none;
      }
      else conclude attempt (collect state cwd candidate checks)
