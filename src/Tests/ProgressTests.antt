-- ===== src/Tests/ProgressTests.antt =====
-- The detector of src/axiom/runtime/progress.py and the checks of src/axiom/runtime/completion.py at
-- concrete inputs.
use axiom_agent.Prelude.{
  ℕ, ◌≤◌, String, ◌≡◌, ◌↔◌, refl, true, false, none, some, List, [], ◌∷◌, ◌++◌, arith, length, any,
  All, is_some, contains, str_eq, if◌then◌else◌,
}
use axiom_agent.Dict.{lookup, keys}
use axiom_agent.Models.{RunStatus}
use axiom_agent.Plan.Task.{Task, TaskStatus, TaskType}
use axiom_agent.Plan.Execution.{ExecutionPlan, PlanStatus, all_tasks}
use axiom_agent.Progress.State.{
  ProgressPolicy, ProgressObservation, go_on, new_state, policy_is_valid,
}
use axiom_agent.Progress.Detector.{
  append_bounded, detect_cycle, is_meaningful, detect, decide, note, note_state, note_action,
  note_error, observe, mark_recovery_delivered, ends_with_cycle, repeats_unit,
}
use axiom_agent.Progress.Recovery.{observe_all, is_terminate, all_idle, no_progress_terminates}
use axiom_agent.Progress.Cycles.{EndsWith, detect_cycle-EndsWith}
use axiom_agent.Progress.Invariant.{IsValid, observe-IsValid}
use axiom_agent.Progress.Windows.{append_all, detect_cycle-append_all}
use axiom_agent.Progress.Duplicates.{observe_again}
use axiom_agent.Completion.Contract.{
  CompletionVerificationStatus, CompletionCheck, CheckError, Value, returned, raised,
}
use axiom_agent.Completion.Checks.{
  ToolEvidence, RunView, StoredPlan, World, is_empty, strings, status_value, tasks_by_id,
  check_plan_tasks, nonempty_strings, artifacts_exist, workspace_artifact_exists,
}
use axiom_agent.Completion.Verifier.{verify, records_for, collect, run_checks, run_check, passes}
use axiom_agent.Completion.Verified.{IsAccepted, verify_iff}
use axiom_agent.Completion.Evidence.{IsFinished, check_plan_tasks_iff}

abbrev policy : ProgressPolicy
policy = record {
  enabled = true;
  max_identical_actions = 4;
  max_identical_errors = 3;
  max_cycle_repetitions = 2;
  max_stagnant_steps = 2;
  max_recovery_attempts = 0;
  history_limit = 8;
}

abbrev silent : String → ProgressObservation
silent id = record {
  operation_id = id;
  step = 1;
  action_fingerprint = some "a";
  error_fingerprint = none;
  state_fingerprint = none;
  eligible_for_stagnation = true;
}

abbrev idle_steps : List ProgressObservation
idle_steps = silent "1" ∷ silent "2" ∷ []

idle : all_idle policy new_state idle_steps ≡ true
unfolding observe note note_state note_action note_error is_meaningful append_bounded detect decide
    detect_cycle ends_with_cycle repeats_unit contains
idle = refl

policy_fits : policy_is_valid policy ≡ true
unfolding policy_is_valid
policy_fits = refl

no_progress_terminates_example : any is_terminate (observe_all policy new_state idle_steps) ≡ true
no_progress_terminates_example =
    no_progress_terminates policy idle_steps refl policy_fits idle (omega arith)

abbrev to_and_fro : List String
to_and_fro = "x" ∷ "a" ∷ "b" ∷ "a" ∷ "b" ∷ []

cycle_found : detect_cycle to_and_fro 2 ≡ (some 2, 2)
unfolding detect_cycle ends_with_cycle repeats_unit
cycle_found = refl

detect_cycle-EndsWith_example :
    (is_some (detect_cycle to_and_fro 2).0 ≡ true)
    ↔ ((unit : List String) × (2 ≤ length unit) × (length unit ≤ 4) × EndsWith to_and_fro 2 unit)
detect_cycle-EndsWith_example = detect_cycle-EndsWith to_and_fro 2 (omega arith)

detect_cycle-append_all_example :
    detect_cycle (append_all [] (to_and_fro ++ to_and_fro) 8) 2
    ≡ detect_cycle (to_and_fro ++ to_and_fro) 2
detect_cycle-append_all_example =
    detect_cycle-append_all policy (to_and_fro ++ to_and_fro) policy_fits

new_state-IsValid : IsValid policy new_state
new_state-IsValid = record {
  actions = omega arith;
  errors = omega arith;
  progress = omega arith;
  operations = omega arith;
  recoveries = omega arith;
  signal = ground arith;
  kind = refl;
}

observe-IsValid_example :
    IsValid policy new_state
    × IsValid policy (observe policy new_state (silent "1")).1
    × IsValid policy (mark_recovery_delivered new_state)
observe-IsValid_example = observe-IsValid policy (silent "1") new_state new_state-IsValid

observe_again_example :
    let (_, s') = observe policy new_state (silent "1") in
    observe policy s' (silent "1") ≡ (record go_on { duplicate = true }, s')
observe_again_example = observe_again policy new_state (silent "1") (silent "1") policy_fits refl

-- No tool ran, and no file is there.
abbrev world : World ℕ
world = record {
  list_tool_executions = λ run_id. returned [];
  load_status = λ run_id. returned (some RunStatus.completed);
  casefold = λ s. s;
  strip = λ s. s;
  is_in = str_eq;
  root_of = λ cwd. returned (cwd ∷ []);
  resolve = λ root value. returned (root ++ value ∷ []);
  exists = λ path. returned false;
  truth_of = λ n. true;
  text_of = λ v. "";
}

abbrev run_view : RunView
run_view = record {
  run_id = "run";
  messages = [];
  output_text = "done";
  stored_plan = StoredPlan.no_plan;
}

abbrev status_check : CompletionCheck ℕ
status_check = record { id = "status"; type = "run_status"; required = true; config = [] }

verify_iff_example :
    ((verify world run_view (status_check ∷ []) "/work" 1 RunStatus.completed).status
      ≡ CompletionVerificationStatus.verified)
    ↔ ((is_empty (status_check ∷ []) ≡ false)
        × ((records : List ToolEvidence) × (records_for world run_view (status_check ∷ [])
              ≡ returned records)
            × All
                (IsAccepted world run_view "/work" RunStatus.completed records)
                (status_check ∷ [])))
verify_iff_example = verify_iff world run_view "/work" RunStatus.completed (status_check ∷ []) 1

status_verified :
    (verify world run_view (status_check ∷ []) "/work" 1 RunStatus.completed).status
    ≡ CompletionVerificationStatus.verified
unfolding verify collect run_checks run_check passes strings status_value lookup contains
status_verified = refl

-- The file system raises for the second artifact: an error, and no failed check.
abbrev broken_world : World ℕ
broken_world = record world {
  resolve = λ root value. if str_eq value "bad" then raised CheckError.bad_path else returned root;
  exists = λ path. returned true;
}

abbrev artifact_check : CompletionCheck ℕ
artifact_check = record {
  id = "files";
  type = "artifacts_exist";
  required = true;
  config = ("paths", Value.texts ("good" ∷ "bad" ∷ [])) ∷ [];
}

artifact_error :
    (verify broken_world run_view (artifact_check ∷ []) "/work" 1 RunStatus.completed).status
    ≡ CompletionVerificationStatus.error
unfolding verify collect run_checks run_check passes strings nonempty_strings artifacts_exist
    workspace_artifact_exists lookup contains
artifact_error = refl

abbrev done_task : Task
done_task = record {
  id = "t";
  description = "";
  type = TaskType.analysis;
  dependencies = [];
  dependents = [];
  status = TaskStatus.completed;
  result = "";
  error = "";
  attempt = 1;
  child_run_id = some "child";
  reused_from = none;
  execution_state = "";
  start_time = 0;
  end_time = 0;
}

abbrev plan : ExecutionPlan
plan = record {
  id = "plan";
  goal = "";
  tasks = ("t", done_task) ∷ [];
  status = PlanStatus.running;
  schema_version = 2;
  version = 1;
  replan_count = 0;
  history = [];
  summary = "";
  created_at = 0;
  start_time = 0;
  end_time = 0;
  execution_order = [];
}

check_plan_tasks_iff_example :
    let tasks = tasks_by_id (all_tasks plan) [] in
    (check_plan_tasks world (StoredPlan.plan plan) [] ≡ returned true)
    ↔ All (IsFinished world tasks) (keys tasks)
check_plan_tasks_iff_example = check_plan_tasks_iff world plan []
