-- ===== src/Tests/StrategyTests.antt =====
-- The plan strategy of src/axiom/runtime/plan_strategy.py at concrete inputs.
use axiom_agent.Prelude.{
  ◌≤◌, String, ◌≡◌, ◌⊎◌, refl, true, false, none, some, List, [], ◌∷◌, arith, any, contains, length,
  remove, subst, is_some, ltb, str_eq, Bool-cases, inl, inr, eq_iff,
}
use axiom_agent.Dict.{Dict, lookup, insert}
use axiom_agent.Models.{RunStatus}
use axiom_agent.Plan.Task.{Task, TaskStatus, TaskType}
use axiom_agent.PlanStrategy.Scheduler.{
  statuses_from, must_skip, skip_failed_dependents, is_terminal, snapshot,
}
use axiom_agent.PlanStrategy.Skipping.{AreSkipped, skip_failed_dependents_correct}
use axiom_agent.PlanStrategy.Launching.{
  Finished, limit_of, fill, launch, settle_one, settle, start_of, execute, is_empty,
}
use axiom_agent.PlanStrategy.Parallel.{times, places, Reached, Reached-places}
use axiom_agent.PlanStrategy.Outcome.{AreRounds, execute_outcome}
use axiom_agent.PlanStrategy.Ready.{snapshot_ready}
use axiom_agent.PlanStrategy.Changes.{ChildRun, observe_child, settle_task}
use axiom_agent.PlanStrategy.Events.{Transition}
use axiom_agent.PlanStrategy.Transitions.{Change, event_of, Change-Transition}

abbrev first : Task
first = record {
  id = "a";
  description = "";
  type = TaskType.analysis;
  dependencies = [];
  dependents = "b" ∷ [];
  status = TaskStatus.failed;
  result = "";
  error = "";
  attempt = 1;
  child_run_id = some "child";
  reused_from = none;
  execution_state = "FAILED";
  start_time = 1;
  end_time = 2;
}

abbrev second : Task
second = record first {
  id = "b";
  dependencies = "a" ∷ [];
  dependents = "c" ∷ [];
  status = TaskStatus.pending;
}

abbrev third : Task
third = record second { id = "c"; dependencies = "b" ∷ []; dependents = [] }

abbrev chain : List Task
chain = third ∷ second ∷ first ∷ []

skip_failed_dependents_correct_example :
    (final : List Task) × (skip_failed_dependents 9 (λ ids. "failed") chain ≡ some final)
    × (any (must_skip (statuses_from [] final)) final ≡ false)
    × AreSkipped (statuses_from [] final) chain final
skip_failed_dependents_correct_example = skip_failed_dependents_correct 9 (λ ids. "failed") chain

abbrev two_tasks : List String
two_tasks = "a" ∷ "b" ∷ []

abbrev done : String → Finished
done k = record { task = k; child = RunStatus.completed; may_go_on = true }

-- Both tasks run at once, and one round sees the end of both.
abbrev one_round : List (List Finished)
one_round = (done "b" ∷ done "a" ∷ []) ∷ []

two_tasks_distinct : (k : String) → times k two_tasks ≤ 1
two_tasks_distinct k = elim (Bool-cases (str_eq "a" k)) [
  | inl here ↦ subst (λ x. times x two_tasks ≤ 1) ((eq_iff "a" k).0 here) (omega arith)
  | inr other ↦ ground (arith, other)
]

one_round_fits : AreRounds (limit_of 2) one_round (start_of two_tasks)
unfolding launch fill settle settle_one remove
one_round_fits = ((refl, (refl, tt)), tt)

execute_outcome_example :
    (results : Dict RunStatus) × (execute 2 one_round two_tasks ≡ some results)
    × ((k : String) → is_some (lookup k results) ≡ ltb 0 (times k two_tasks))
execute_outcome_example =
    execute_outcome 2 one_round two_tasks two_tasks_distinct one_round_fits (omega arith) refl

Reached-places_example :
    let s = launch 1 (start_of two_tasks) in
    (length s.running ≤ 1) × ((k : String) → places k s ≡ times k two_tasks)
Reached-places_example =
    Reached-places 1 two_tasks (launch 1 (start_of two_tasks)) two_tasks_distinct
      (Reached.launched Reached.started)

abbrev running_task : Task
running_task = record second { status = TaskStatus.running }

abbrev good_child : ChildRun
good_child = record { status = RunStatus.completed; output_text = "ok"; error_message = none }

good_child_observed :
    observe_child 5 (some good_child) running_task ≡ some (settle_task 5 good_child running_task)
unfolding observe_child
good_child_observed = refl

abbrev good_change : Change running_task (settle_task 5 good_child running_task)
good_change = Change.observed 5 (some good_child) good_child_observed

Change-Transition_example :
    Transition
      (event_of running_task (settle_task 5 good_child running_task) good_change)
      TaskStatus.running
      (settle_task 5 good_child running_task).status
    × ((is_terminal TaskStatus.running ≡ false)
        ⊎ ((settle_task 5 good_child running_task).status ≡ TaskStatus.running))
Change-Transition_example =
    Change-Transition running_task (settle_task 5 good_child running_task) good_change

abbrev fresh : List Task
fresh = record first { status = TaskStatus.pending; child_run_id = none } ∷ second ∷ []

snapshot_ready_example : is_empty (snapshot fresh fresh (λ id. none)).ready_task_ids ≡ false
unfolding statuses_from lookup insert contains
snapshot_ready_example = snapshot_ready fresh fresh (λ id. none) refl (refl, (refl, tt)) refl refl
