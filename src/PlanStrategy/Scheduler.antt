-- ===== src/PlanStrategy/Scheduler.antt =====
-- `LocalPlanTaskScheduler.snapshot` of src/axiom/runtime/plan_strategy.py and the changes that its
-- strategy makes to tasks.
use axiom_agent.Prelude.{
  ℕ, suc, zero, String, Bool, true, false, ◌&&◌, Option, none, some, List, [], ◌∷◌, map, all, any,
  keep, length, if◌then◌else◌,
}
use axiom_agent.Dict.{Dict, lookup, insert}
use axiom_agent.Models.{RunStatus}
use axiom_agent.Plan.Task.{Task, TaskStatus, is_completed, is_pending, mark_skipped}

-- `{task.id: task.status for task in tasks}`
unfoldable pub statuses_from : Dict TaskStatus → List Task → Dict TaskStatus
statuses_from d [] = d
statuses_from d (t ∷ ts) = statuses_from (insert t.id t.status d) ts

abbrev pub is_running_task : TaskStatus → Bool
is_running_task TaskStatus.running = true
is_running_task _ = false

-- The states that a task does not leave.
abbrev pub is_terminal : TaskStatus → Bool
is_terminal TaskStatus.pending = false
is_terminal TaskStatus.running = false
is_terminal _ = true

-- `failed_states`
abbrev pub is_unsuccessful : TaskStatus → Bool
is_unsuccessful TaskStatus.failed = true
is_unsuccessful TaskStatus.cancelled = true
is_unsuccessful TaskStatus.skipped = true
is_unsuccessful _ = false

abbrev pub is_paused : RunStatus → Bool
is_paused RunStatus.waiting_approval = true
is_paused RunStatus.interrupted = true
is_paused _ = false

-- `statuses.get(dep) == COMPLETED` and `statuses.get(dep) in failed_states`
abbrev pub has_status : (TaskStatus → Bool) → Dict TaskStatus → String → Bool
has_status test statuses dep = elim (lookup dep statuses) [ none ↦ false | some s ↦ test s ]

pub record PlanSchedulerSnapshot : Type 0 where
  pub ready_task_ids : List String
  pub active_task_ids : List String
  pub waiting_task_ids : List String
  pub terminal_task_ids : List String

pub data Place : Type 0 where
  active waiting terminal elsewhere : Place

-- The list that the loop puts a task in, by the status of its child Run.
unfoldable pub place_of : (String → Option RunStatus) → Task → Place
place_of child t = if is_terminal t.status then Place.terminal else elim (child t.id) [
  | none ↦ if is_running_task t.status then Place.active else Place.elsewhere
  | some s ↦
      if is_paused s
      then Place.waiting
      else if is_running_task t.status
      then Place.active
      else Place.elsewhere
]

abbrev pub is_active_place : Place → Bool
is_active_place Place.active = true
is_active_place _ = false

abbrev pub is_waiting_place : Place → Bool
is_waiting_place Place.waiting = true
is_waiting_place _ = false

abbrev pub is_terminal_place : Place → Bool
is_terminal_place Place.terminal = true
is_terminal_place _ = false

abbrev pub ids_of : List Task → List String
ids_of ts = map (λ (t : Task). t.id) ts

-- `task.status == PENDING and all(statuses.get(dep) == COMPLETED for dep in task.dependencies)`
unfoldable pub is_ready_task : Dict TaskStatus → Task → Bool
is_ready_task statuses t =
    is_pending t.status && all (has_status is_completed statuses) t.dependencies

-- `ordered` has the plan's tasks in its execution order, and `all_tasks` as they stand in it.
unfoldable pub snapshot :
    List Task → List Task → (String → Option RunStatus) → PlanSchedulerSnapshot
unfolding is_ready_task statuses_from place_of
snapshot all_tasks ordered child =
    let statuses = statuses_from [] all_tasks in
    record {
      ready_task_ids = ids_of (keep (is_ready_task statuses) ordered);
      active_task_ids = ids_of (keep (λ t. is_active_place (place_of child t)) ordered);
      waiting_task_ids = ids_of (keep (λ t. is_waiting_place (place_of child t)) ordered);
      terminal_task_ids = ids_of (keep (λ t. is_terminal_place (place_of child t)) ordered);
    }

-- A round of the loop of `_skip_failed_dependents`. `message` makes the error from the ids.
unfoldable pub skip_task : ℕ → (List String → String) → Dict TaskStatus → Task → Task
skip_task now message statuses t =
    let failed = keep (has_status is_unsuccessful statuses) t.dependencies in
    if is_pending t.status && any (has_status is_unsuccessful statuses) t.dependencies
    then record (mark_skipped now t) { error = message failed; execution_state = "SKIPPED" }
    else t

abbrev pub must_skip : Dict TaskStatus → Task → Bool
must_skip statuses t =
    is_pending t.status && any (has_status is_unsuccessful statuses) t.dependencies

-- `none` where the fuel ends before a round changes nothing.
unfoldable pub skip_rounds : ℕ → ℕ → (List String → String) → List Task → Option (List Task)
unfolding skip_task statuses_from
skip_rounds zero now message tasks = none
skip_rounds (suc fuel) now message tasks =
    let statuses = statuses_from [] tasks in
    let rest = skip_rounds fuel now message (map (skip_task now message statuses) tasks) in
    if any (must_skip statuses) tasks then rest else some tasks

-- A round that changes a task takes a pending one away.
unfoldable pub skip_failed_dependents : ℕ → (List String → String) → List Task → Option (List Task)
unfolding skip_rounds
skip_failed_dependents now message tasks = skip_rounds (suc (length tasks)) now message tasks
