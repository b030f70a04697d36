-- ===== src/Completion/Checks.antt =====
-- The checks of src/axiom/runtime/completion.py: `_run_check` and its helpers. Python's methods of texts,
-- the rules of paths, and the two calls of the store are parameters.
use axiom_agent.Prelude.{
  String, Bool, true, false, ◌&&◌, not, Option, none, some, List, [], ◌∷◌, all, str_eq,
  if◌then◌else◌,
}
use axiom_agent.Dict.{Dict, lookup, insert, keys}
use axiom_agent.Models.{RunStatus, ToolExecutionStatus}
use axiom_agent.Plan.Task.{Task, is_completed}
use axiom_agent.Plan.Execution.{ExecutionPlan, all_tasks}
use axiom_agent.Completion.Contract.{Value, CheckError, Checked, returned, raised, ◌>>=◌}

-- What a check reads of a tool execution.
pub record ToolEvidence : Type 0 where
  pub tool_name : String
  pub status : ToolExecutionStatus
  pub is_error : Bool
  pub result : Option String

-- `state.strategy_state.get("plan")`: no dictionary, one that cannot be read, or a plan.
pub data StoredPlan : Type 0 where
  no_plan unreadable : StoredPlan
  plan : ExecutionPlan → StoredPlan

pub record Message : Type 0 where
  pub is_assistant : Bool
  pub has_tool_calls : Bool
  pub content : String

-- The fields of `Checkpoint` that a check reads.
pub record RunView : Type 0 where
  pub run_id : String
  pub messages : List Message
  pub output_text : String
  pub stored_plan : StoredPlan

-- What the verifier calls: the store, `str` methods, and `pathlib`. The parts of a resolved path are a
-- list, and `resolve` joins a relative path to a root first; the three calls of the file system may raise.
pub record World (Other : Type 0) : Type 0 where
  pub list_tool_executions : String → Checked (List ToolEvidence)
  pub load_status : String → Checked (Option RunStatus)
  pub casefold : String → String
  pub strip : String → String
  pub is_in : String → String → Bool
  pub root_of : String → Checked (List String)
  pub resolve : List String → String → Checked (List String)
  pub exists : List String → Checked Bool
  pub truth_of : Other → Bool
  pub text_of : Value Other → String

-- `candidate_status.value`
unfoldable pub status_value : RunStatus → String
status_value RunStatus.running = "RUNNING"
status_value RunStatus.interrupted = "INTERRUPTED"
status_value RunStatus.waiting_approval = "WAITING_APPROVAL"
status_value RunStatus.waiting_child = "WAITING_CHILD"
status_value RunStatus.completed = "COMPLETED"
status_value RunStatus.failed = "FAILED"
status_value RunStatus.cancelled = "CANCELLED"

abbrev pub is_completed_run : Option RunStatus → Bool
is_completed_run (some RunStatus.completed) = true
is_completed_run _ = false

abbrev pub is_succeeded : ToolExecutionStatus → Bool
is_succeeded ToolExecutionStatus.succeeded = true
is_succeeded _ = false

abbrev pub or_empty : Option String → String
or_empty none = ""
or_empty (some s) = s

abbrev pub is_empty {ℓ} : {A : Type ℓ} → List A → Bool
is_empty [] = true
is_empty (_ ∷ _) = false

-- `_candidate_output`: the last message of the assistant that calls no tool.
unfoldable pub last_answer : List Message → Option String
last_answer [] = none
last_answer (m ∷ ms) = elim (last_answer ms) [
  | some answer ↦ some answer
  | none ↦ if m.is_assistant && not m.has_tool_calls then some m.content else none
]

unfoldable pub candidate_output : RunView → String
unfolding last_answer
candidate_output state = elim (last_answer state.messages) [
  | some answer ↦ answer
  | none ↦ state.output_text
]

-- `{task.id: task for task in tasks}`
unfoldable pub tasks_by_id : List Task → Dict Task → Dict Task
tasks_by_id [] d = d
tasks_by_id (t ∷ ts) d = tasks_by_id ts (insert t.id t d)

-- `relative_to` raises no error
abbrev pub is_within : List String → List String → Bool
is_within [] path = true
is_within (r ∷ root) [] = false
is_within (r ∷ root) (p ∷ path) = str_eq r p && is_within root path

module _ {Other : Type 0} where
  -- `_strings`
  unfoldable pub strings : Value Other → Checked (List String)
  strings Value.null = returned []
  strings (Value.text s) = returned (s ∷ [])
  strings (Value.texts ss) = returned ss
  strings _ = raised CheckError.not_strings

  -- `config.get(key, default)`
  abbrev pub get_or : Value Other → String → Dict (Value Other) → Value Other
  get_or default key config = elim (lookup key config) [ none ↦ default | some v ↦ v ]

  abbrev pub get : String → Dict (Value Other) → Value Other
  get = get_or Value.null

  -- A setting that may not be empty.
  unfoldable pub nonempty_strings : Value Other → Checked (List String)
  unfolding strings
  nonempty_strings v =
      strings v >>= (λ ss. if is_empty ss then raised CheckError.empty_setting else returned ss)

module _ {Other : Type 0} (world : World Other) where
  -- `bool(v)`
  unfoldable pub is_true : Value Other → Bool
  is_true Value.null = false
  is_true (Value.flag b) = b
  is_true (Value.text s) = not (str_eq s "")
  is_true (Value.texts ss) = not (is_empty ss)
  is_true (Value.other v) = world.truth_of v

  -- `str(v or "")`
  unfoldable pub text_or_empty : Value Other → String
  unfolding is_true
  text_or_empty (Value.text s) = s
  text_or_empty v = if is_true v then world.text_of v else ""

  -- `_workspace_artifact_exists`
  unfoldable pub workspace_artifact_exists : String → String → Checked Bool
  workspace_artifact_exists cwd value = world.root_of cwd >>= (λ root.
      world.resolve root value
      >>= (λ path. if is_within root path then world.exists path else returned false))

  -- Whether no artifact is missing; each is looked for in turn.
  unfoldable pub artifacts_exist : String → List String → Checked Bool
  unfolding workspace_artifact_exists
  artifacts_exist cwd [] = returned true
  artifacts_exist cwd (path ∷ paths) =
      let rest = artifacts_exist cwd paths in
      workspace_artifact_exists cwd path
      >>= (λ there. rest >>= (λ others. returned (there && others)))

  -- The children of the selected tasks, each loaded in turn.
  unfoldable pub children_completed : Dict Task → List String → Checked Bool
  children_completed tasks [] = returned true
  children_completed tasks (id ∷ ids) =
      let rest = children_completed tasks ids in
      let child : String = elim (lookup id tasks) [
        | none ↦ ""
        | some t ↦ or_empty t.child_run_id
      ] in
      if str_eq child ""
      then rest
      else world.load_status child
        >>= (λ status. rest >>= (λ others. returned (is_completed_run status && others)))

  -- A selected task that there is not is missing, and one in another state is incomplete.
  abbrev pub is_done : Dict Task → String → Bool
  is_done tasks id = elim (lookup id tasks) [ none ↦ false | some t ↦ is_completed t.status ]

  -- `_check_plan_tasks`
  unfoldable pub check_plan_tasks : StoredPlan → List String → Checked Bool
  unfolding children_completed all_tasks tasks_by_id
  check_plan_tasks StoredPlan.no_plan required_ids = returned false
  check_plan_tasks StoredPlan.unreadable required_ids = raised CheckError.unreadable_plan
  check_plan_tasks (StoredPlan.plan p) required_ids =
      let tasks = tasks_by_id (all_tasks p) [] in
      let selected = if is_empty required_ids then keys tasks else required_ids in
      children_completed tasks selected
      >>= (λ children. returned (all (is_done tasks) selected && children))
