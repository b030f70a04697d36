-- ===== src/Plan/Execution.antt =====
-- `PlanVersion` and `ExecutionPlan` of src/axiom/plan/models.py, but for the execution order.
pub mod Links
pub mod AddTask
use axiom_agent.Prelude.{
  ℕ, ◌+◌, String, Bool, true, false, ◌||◌, not, Option, none, some, List, [], ◌∷◌, ◌++◌, all, any,
  keep, length, contains, if◌then◌else◌,
}
use axiom_agent.Dict.{Dict, lookup, insert, values}
use axiom_agent.Plan.Task.{Task, TaskStatus, add_dependent, is_completed, is_executable}

pub data PlanStatus : Type 0 where
  created running completed failed cancelled : PlanStatus

pub record PlanVersion : Type 0 where
  pub version : ℕ
  pub plan_id : String
  pub status : PlanStatus
  pub summary : String
  pub reason : String
  pub tasks : List Task
  pub created_at : ℕ

pub record ExecutionPlan : Type 0 where
  pub id : String
  pub goal : String
  pub tasks : Dict Task
  pub status : PlanStatus
  pub schema_version : ℕ
  pub version : ℕ
  pub replan_count : ℕ
  pub history : List PlanVersion
  pub summary : String
  pub created_at : ℕ
  pub start_time : ℕ
  pub end_time : ℕ
  pub execution_order : List String

-- The loop over `task.dependencies`: the tasks are objects, so a dependency changes in its place.
unfoldable pub link_dependencies : String → List String → Dict Task → Dict Task
link_dependencies task_id [] tasks = tasks
link_dependencies task_id (dep_id ∷ rest) tasks =
    link_dependencies task_id rest (elim (lookup dep_id tasks) [
      | none ↦ tasks
      | some dep ↦ insert dep_id (add_dependent task_id dep) tasks
    ])

-- The loop over `self.tasks.values()`: what it adds goes to the task that was put in.
unfoldable pub link_dependents : String → List Task → Dict Task → Dict Task
link_dependents task_id [] tasks = tasks
link_dependents task_id (existing ∷ rest) tasks =
    link_dependents task_id rest (elim (lookup task_id tasks) [
      | none ↦ tasks
      | some task ↦
          if contains task_id existing.dependencies
          then insert task_id (add_dependent existing.id task) tasks
          else tasks
    ])

unfoldable pub add_task : Task → ExecutionPlan → ExecutionPlan
unfolding link_dependencies link_dependents
add_task task plan =
    let linked = link_dependencies task.id task.dependencies (insert task.id task plan.tasks) in
    record plan { tasks = link_dependents task.id (values linked) linked; execution_order = [] }

unfoldable pub get_task : ExecutionPlan → String → Option Task
get_task plan task_id = lookup task_id plan.tasks

unfoldable pub all_tasks : ExecutionPlan → List Task
all_tasks plan = values plan.tasks

abbrev no_dependencies : Task → Bool
no_dependencies t = elim t.dependencies [ [] ↦ true | _ ∷ _ ↦ false ]

unfoldable pub root_tasks : ExecutionPlan → List Task
root_tasks plan = keep no_dependencies (values plan.tasks)

unfoldable pub executable_tasks : ExecutionPlan → List Task
executable_tasks plan = keep (is_executable plan.tasks) (values plan.tasks)

-- The numerator and the denominator of `progress`; `(1, 1)` stands for the 1.0 of an empty plan.
unfoldable pub progress : ExecutionPlan → ℕ × ℕ
progress plan = elim plan.tasks [
  | [] ↦ (1, 1)
  | _ ∷ _ ↦ (length (keep (λ t. is_completed t.status) (values plan.tasks)), length plan.tasks)
]

unfoldable pub is_all_completed : ExecutionPlan → Bool
is_all_completed plan = all (λ t. is_completed t.status) (values plan.tasks)

abbrev pub is_failed_or_cancelled : TaskStatus → Bool
is_failed_or_cancelled TaskStatus.failed = true
is_failed_or_cancelled TaskStatus.cancelled = true
is_failed_or_cancelled _ = false

unfoldable pub has_failed : ExecutionPlan → Bool
has_failed plan = any (λ t. is_failed_or_cancelled t.status) (values plan.tasks)

unfoldable pub mark_started : ℕ → ExecutionPlan → ExecutionPlan
mark_started now plan = record plan { status = PlanStatus.running; start_time = now }

unfoldable pub mark_completed : ℕ → ExecutionPlan → ExecutionPlan
mark_completed now plan = record plan { status = PlanStatus.completed; end_time = now }

unfoldable pub mark_failed : ℕ → ExecutionPlan → ExecutionPlan
mark_failed now plan = record plan { status = PlanStatus.failed; end_time = now }

-- `Task.from_dict(task.to_dict())` is a copy of the task.
unfoldable pub snapshot : ℕ → String → ExecutionPlan → PlanVersion
snapshot now reason plan = record {
  version = plan.version;
  plan_id = plan.id;
  status = plan.status;
  summary = plan.summary;
  reason = reason;
  tasks = values plan.tasks;
  created_at = now;
}
