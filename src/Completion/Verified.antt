-- ===== src/Completion/Verified.antt =====
-- When src/axiom/runtime/completion.py calls a Run verified.
use axiom_agent.Prelude.{
  ℕ, String, ◌≡◌, ◌↔◌, refl, Bool, false, ◌&&◌, not, List, [], ◌∷◌, any, All, arith, inl, inr,
}
use axiom_agent.Models.{RunStatus}
use axiom_agent.Completion.Contract.{
  CompletionVerificationStatus, CompletionCheck, CompletionCheckResult, Checked, Checked-cases,
  returned, raised, is_failed_check,
}
use axiom_agent.Completion.Checks.{ToolEvidence, RunView, World, is_empty}
use axiom_agent.Completion.Verifier.{
  passes, run_check, run_checks, records_for, collect, conclude, verify,
}

module _ {Other : Type 0} (world : World Other) (state : RunView) (cwd : String)
    (candidate : RunStatus) where
  -- The check raises nothing, and passes if it is required.
  pub record IsAccepted (records : List ToolEvidence) (c : CompletionCheck Other) : Type 0 where
    pub passed : Bool
    pub runs : passes world state records cwd candidate c.type c.config ≡ returned passed
    pub enough : (c.required && not passed) ≡ false

  run_checks-IsAccepted :
      (records : List ToolEvidence) (checks : List (CompletionCheck Other))
      (results : List CompletionCheckResult)
      → run_checks world state records cwd candidate checks ≡ returned results
      → any is_failed_check results ≡ false
      → All (IsAccepted records) checks
  unfolding run_checks run_check
  run_checks-IsAccepted records [] results e h = tt
  run_checks-IsAccepted records (c ∷ cs) results e h =
      elim (Checked-cases (passes world state records cwd candidate c.type c.config)) [
        | inr (err, bad) ↦ absurd (ground (arith, e, bad))
        | inl (passed, good) ↦
            elim (Checked-cases (run_checks world state records cwd candidate cs)) [
              | inr (err, bad) ↦ absurd (ground (arith, e, good, bad))
              | inl (rest, others) ↦
                  let result : CompletionCheckResult = record {
                    check_id = c.id;
                    check_type = c.type;
                    passed = passed;
                    required = c.required;
                  } in
                  let both : results ≡ result ∷ rest = ground (arith, e, good, others) in
                  (
                    record { passed = passed; runs = good; enough = ground (arith, h, both) },
                    run_checks-IsAccepted records cs rest others (ground (arith, h, both)),
                  )
            ]
      ]

  IsAccepted-run_checks :
      (records : List ToolEvidence) (checks : List (CompletionCheck Other))
      → All (IsAccepted records) checks
      → (results : List CompletionCheckResult) × (run_checks world state records cwd candidate
            checks
          ≡ returned results)
        × (any is_failed_check results ≡ false)
  unfolding run_checks run_check
  IsAccepted-run_checks records [] fine = ([], refl, refl)
  IsAccepted-run_checks records (c ∷ cs) (first, rest) =
      let (results, e, h) = IsAccepted-run_checks records cs rest in
      let result : CompletionCheckResult = record {
        check_id = c.id;
        check_type = c.type;
        passed = first.passed;
        required = c.required;
      } in
      (result ∷ results, ground (arith, e, first.runs), ground (arith, h, first.enough))

  conclude-verified :
      (attempt : ℕ) (r : Checked (List CompletionCheckResult))
      → (conclude attempt r).status ≡ CompletionVerificationStatus.verified
      → (results : List CompletionCheckResult) × (r ≡ returned results)
        × (any is_failed_check results ≡ false)
  conclude-verified attempt (raised e) h = absurd (ground (arith, h))
  conclude-verified attempt (returned results) h = (results, refl, ground (arith, h))

  -- A Run is verified exactly where its contract has a check, the tool executions can be read if a check
  -- looks at them, and with them every check raises nothing, and passes if it is required.
  pub verify_iff :
      (checks : List (CompletionCheck Other)) (attempt : ℕ)
      → ((verify world state checks cwd attempt candidate).status
          ≡ CompletionVerificationStatus.verified)
        ↔ ((is_empty checks ≡ false)
            × ((records : List ToolEvidence) × (records_for world state checks ≡ returned records)
                × All (IsAccepted records) checks))
  unfolding verify collect
  verify_iff checks attempt = (
    λ h.
        let some_checks : is_empty checks ≡ false = ground (arith, h) in
        let (results, e, fine) =
          conclude-verified attempt (collect world state cwd candidate checks)
            (ground (arith, h, some_checks)) in
        elim (Checked-cases (records_for world state checks)) [
          | inr (err, bad) ↦ absurd (ground (arith, e, bad))
          | inl (records, good) ↦ (
            some_checks,
            (
              records,
              good,
              run_checks-IsAccepted records checks results (ground (arith, e, good)) fine,
            ),
          )
        ],
    λ (some_checks, (records, good, accepted)).
        let (results, e, fine) = IsAccepted-run_checks records checks accepted in
        ground (arith, some_checks, good, e, fine),
  )
