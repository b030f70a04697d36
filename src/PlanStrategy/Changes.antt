-- ===== src/PlanStrategy/Changes.antt =====
-- The changes of src/axiom/runtime/plan_strategy.py to the tasks of a plan: `_persist_ready_tasks`,
-- `_observe_child`, `_release_unstarted_tasks`, `on_cancel` and `_reuse_completed_tasks`. The ids of
-- child Runs and the normal form of a description are arguments.
use axiom_agent.Prelude.{
  ℕ, ◌==◌, String, Bool, true, false, ◌&&◌, ◌||◌, not, Option, none, some, List, [], ◌∷◌, map,
  str_eq, is_some, if◌then◌else◌,
}
use axiom_agent.Dict.{Dict, lookup, insert}
use axiom_agent.Models.{RunStatus}
use axiom_agent.Plan.Task.{
  Task, TaskStatus, is_completed, is_pending, mark_started, mark_completed, mark_failed,
  mark_cancelled,
}
use axiom_agent.Completion.Checks.{status_value}
use axiom_agent.PlanStrategy.Scheduler.{is_running_task, is_terminal, is_paused}

-- A ready task, in the body of the loop.
unfoldable pub schedule_task : ℕ → (String → ℕ → String) → Task → Task
schedule_task now child_id t =
    if is_pending t.status
    then elim t.child_run_id [
      | none ↦
          let started = mark_started now t in
          record started {
            child_run_id = some (child_id started.id started.attempt);
            execution_state = "ASSIGNED";
          }
      | some child ↦ record t {
        status = TaskStatus.running;
        start_time = if t.start_time == 0 then now else t.start_time;
        execution_state = "ASSIGNED";
      }
    ]
    else t

-- The loop over the ready ids, and the tasks that it scheduled.
unfoldable pub schedule_tasks :
    ℕ → (String → ℕ → String) → List String → Dict Task → List String × Dict Task
unfolding schedule_task
schedule_tasks now child_id [] tasks = ([], tasks)
schedule_tasks now child_id (k ∷ ks) tasks = elim (lookup k tasks) [
  | none ↦ schedule_tasks now child_id ks tasks
  | some t ↦
      if is_pending t.status
      then (let (scheduled, after) =
            schedule_tasks now child_id ks (insert k (schedule_task now child_id t) tasks) in
          (k ∷ scheduled, after))
      else schedule_tasks now child_id ks tasks
]

-- What `_observe_child` reads of a child Run.
pub record ChildRun : Type 0 where
  pub status : RunStatus
  pub output_text : String
  pub error_message : Option String

-- `child.status.value.lower()`, where it can be reached
unfoldable pub lower_value : RunStatus → String
lower_value RunStatus.cancelled = "cancelled"
lower_value RunStatus.waiting_child = "waiting_child"
lower_value _ = "failed"

abbrev pub has_text : Option String → Bool
has_text none = false
has_text (some s) = not (str_eq s "")

-- `mark_completed`, `mark_cancelled` or `mark_failed`, by the status of the child Run
unfoldable pub mark_settled : ℕ → RunStatus → String → String → Task → Task
mark_settled now RunStatus.completed output error t = record (mark_completed now output t) {
  error = "";
}
mark_settled now RunStatus.cancelled output error t = mark_cancelled now error t
mark_settled now _ output error t = mark_failed now error t

-- The task of a child Run that neither runs nor pauses.
unfoldable pub settle_task : ℕ → ChildRun → Task → Task
unfolding mark_settled lower_value
settle_task now child t =
    let error : String = elim child.error_message [
      | some message ↦ message
      | none ↦ lower_value child.status
    ] in
    record (mark_settled now child.status child.output_text error t) {
      execution_state = status_value child.status;
    }

abbrev pub is_running_child : RunStatus → Bool
is_running_child RunStatus.running = true
is_running_child _ = false

-- The task after `_observe_child`; `none` where it returns without a change.
unfoldable pub observe_child : ℕ → Option ChildRun → Task → Option Task
unfolding settle_task status_value
observe_child now none t = none
observe_child now (some child) t =
    if not (has_text t.child_run_id)
      || not (is_running_task t.status)
      || is_running_child child.status
    then none
    else if is_paused child.status
    then if str_eq t.execution_state (status_value child.status)
      then none
      else some (record t { execution_state = status_value child.status })
    else some (settle_task now child t)

-- A task whose child Run was never stored.
unfoldable pub release_task : (String → Option RunStatus) → Task → Task
release_task child t =
    if is_running_task t.status && has_text t.child_run_id && not (is_some (child t.id))
    then record t { status = TaskStatus.pending; execution_state = "" }
    else t

unfoldable pub cancel_task : ℕ → Task → Task
cancel_task now t =
    if is_terminal t.status
    then t
    else record (mark_cancelled now "cancelled" t) { execution_state = "CANCELLED" }

-- The completed tasks of the previous plan by their descriptions; a later one takes the place.
unfoldable pub completed_by_description : (String → String) → Dict Task → List Task → Dict Task
completed_by_description normal found [] = found
completed_by_description normal found (t ∷ ts) =
    completed_by_description normal
      (if is_completed t.status then insert (normal t.description) t found else found) ts

-- `reused` makes the text of `reused_from` from the id.
unfoldable pub reuse_task : (String → String) → (String → String) → Dict Task → Task → Task
reuse_task normal reused completed t = elim (lookup (normal t.description) completed) [
  | none ↦ t
  | some prior ↦ record t {
    status = TaskStatus.completed;
    result = prior.result;
    error = "";
    attempt = prior.attempt;
    child_run_id = prior.child_run_id;
    reused_from = some (reused prior.id);
    execution_state = prior.execution_state;
    start_time = prior.start_time;
    end_time = prior.end_time;
  }
]

unfoldable pub reuse_completed_tasks :
    (String → String) → (String → String) → List Task → List Task → List Task
unfolding reuse_task completed_by_description
reuse_completed_tasks normal reused previous replacement =
    map (reuse_task normal reused (completed_by_description normal [] previous)) replacement
