-- ===== src/Plan/Task.antt =====
-- `Task` of src/axiom/plan/models.py. A time is a number of clock ticks, given by the caller.
use axiom_agent.Prelude.{
  ℕ, ◌+◌, String, Bool, true, false, Option, none, some, List, [], ◌∷◌, ◌++◌, all, contains,
  if◌then◌else◌,
}
use axiom_agent.Dict.{Dict, lookup}

pub data TaskType : Type 0 where
  planning file_read file_write command analysis verification : TaskType

pub data TaskStatus : Type 0 where
  pending running completed failed skipped cancelled : TaskStatus

pub record Task : Type 0 where
  pub id : String
  pub description : String
  pub type : TaskType
  pub dependencies : List String
  pub dependents : List String
  pub status : TaskStatus
  pub result : String
  pub error : String
  pub attempt : ℕ
  pub child_run_id : Option String
  pub reused_from : Option String
  pub execution_state : String
  pub start_time : ℕ
  pub end_time : ℕ

unfoldable pub add_dependency : String → Task → Task
add_dependency task_id t =
    if contains task_id t.dependencies
    then t
    else record t { dependencies = t.dependencies ++ task_id ∷ [] }

unfoldable pub add_dependent : String → Task → Task
add_dependent task_id t =
    if contains task_id t.dependents
    then t
    else record t { dependents = t.dependents ++ task_id ∷ [] }

unfoldable pub mark_started : ℕ → Task → Task
mark_started now t = record t {
  status = TaskStatus.running;
  attempt = t.attempt + 1;
  start_time = now;
}

unfoldable pub mark_completed : ℕ → String → Task → Task
mark_completed now result t = record t {
  status = TaskStatus.completed;
  result = result;
  end_time = now;
}

unfoldable pub mark_failed : ℕ → String → Task → Task
mark_failed now error t = record t { status = TaskStatus.failed; error = error; end_time = now }

unfoldable pub mark_skipped : ℕ → Task → Task
mark_skipped now t = record t { status = TaskStatus.skipped; end_time = now }

unfoldable pub mark_cancelled : ℕ → String → Task → Task
mark_cancelled now error t = record t {
  status = TaskStatus.cancelled;
  error = error;
  end_time = now;
}

-- `status == TaskStatus.COMPLETED` and the like.
abbrev pub is_completed : TaskStatus → Bool
is_completed TaskStatus.completed = true
is_completed _ = false

abbrev pub is_pending : TaskStatus → Bool
is_pending TaskStatus.pending = true
is_pending _ = false

-- `dep_id in all_tasks and all_tasks[dep_id].status == COMPLETED`
unfoldable pub dependency_completed : Dict Task → String → Bool
dependency_completed all_tasks dep_id = elim (lookup dep_id all_tasks) [
  | none ↦ false
  | some dep ↦ is_completed dep.status
]

unfoldable pub is_executable : Dict Task → Task → Bool
unfolding dependency_completed
is_executable all_tasks t =
    if is_pending t.status then all (dependency_completed all_tasks) t.dependencies else false
