-- ===== src/Tests/PlanTests.antt =====
-- Plans of three and four tasks of src/axiom/plan/models.py.
use axiom_agent.Prelude.{
  String, ◌≡◌, refl, true, false, none, some, List, [], ◌∷◌, arith, contains, remove, inl, ◌⊎◌,
  eq_iff,
}
use axiom_agent.Dict.{lookup, insert, values, keys}
use axiom_agent.Plan.Task.{Task, TaskType, TaskStatus, add_dependent}
use axiom_agent.Plan.Execution.{ExecutionPlan, PlanStatus, add_task}
use axiom_agent.Plan.Execution.AddTask.{IsPlan, add_task-IsPlan}
use axiom_agent.Plan.Order.{
  compute_execution_order, search_order, visit_roots, visit, visit_all, execution_order,
}
use axiom_agent.Plan.Order.Cycles.{HasCycle}
use axiom_agent.Plan.Order.Correct.{IsOrderOf, compute_execution_order_correct, compute_true}
use axiom_agent.Plan.Batches.{execution_batches, batch_rounds, is_ready, dependencies_of, without}
use axiom_agent.Plan.Batches.Schedule.{is_scheduled, IsSchedule, execution_batches-IsSchedule}
use axiom_agent.Plan.Batches.Complete.{IsClosed, execution_batches_complete}
use axiom_agent.Plan.Restore.{
  from_dict, plan, cyclic_dependency, add_tasks, migrate_task, IsRestored, from_dict-IsRestored,
  from_dict-cyclic_dependency,
}

abbrev new_task : String → List String → Task
new_task k deps = record {
  id = k;
  description = "";
  type = TaskType.analysis;
  dependencies = deps;
  dependents = [];
  status = TaskStatus.pending;
  result = "";
  error = "";
  attempt = 0;
  child_run_id = none;
  reused_from = none;
  execution_state = "";
  start_time = 0;
  end_time = 0;
}

abbrev empty_plan : ExecutionPlan
empty_plan = record {
  id = "p";
  goal = "g";
  tasks = [];
  status = PlanStatus.created;
  schema_version = 2;
  version = 1;
  replan_count = 0;
  history = [];
  summary = "";
  created_at = 0;
  start_time = 0;
  end_time = 0;
  execution_order = [];
}

-- `c` needs `a` and `b`, and `b` needs `a`.
abbrev diamond : ExecutionPlan
diamond =
    add_task (new_task "a" [])
      (add_task (new_task "b" ("a" ∷ [])) (add_task (new_task "c" ("a" ∷ "b" ∷ [])) empty_plan))

diamond_order : (compute_execution_order diamond).1.execution_order ≡ "a" ∷ "b" ∷ "c" ∷ []
unfolding compute_execution_order search_order visit_roots visit visit_all add_task add_dependent
    lookup insert values contains remove
diamond_order = refl

diamond_batches : execution_batches diamond ≡ ("a" ∷ []) ∷ ("b" ∷ []) ∷ ("c" ∷ []) ∷ []
unfolding execution_batches batch_rounds is_ready dependencies_of without execution_order
    compute_execution_order search_order visit_roots visit visit_all add_task add_dependent lookup
    insert values keys contains remove
diamond_batches = refl

-- `a` and `b` need each other.
abbrev loop_tasks : List Task
loop_tasks = new_task "a" ("b" ∷ []) ∷ new_task "b" ("a" ∷ []) ∷ []

loop_refused : from_dict 2 empty_plan loop_tasks ≡ cyclic_dependency
unfolding from_dict add_tasks migrate_task compute_execution_order search_order visit_roots visit
    visit_all add_task add_dependent lookup insert values contains remove
loop_refused = refl

empty-IsPlan : IsPlan empty_plan
unfolding lookup
empty-IsPlan = record { keyed = tt; linked = λ a b t u ea eb i. cc }

add_task-IsPlan_example : IsPlan (add_task (new_task "b" ("a" ∷ [])) empty_plan)
add_task-IsPlan_example = add_task-IsPlan (new_task "b" ("a" ∷ [])) empty_plan empty-IsPlan

-- `b` needs `a`.
abbrev pair : ExecutionPlan
pair = add_task (new_task "a" []) (add_task (new_task "b" ("a" ∷ [])) empty_plan)

pair-IsPlan : IsPlan pair
pair-IsPlan =
    add_task-IsPlan (new_task "a" []) (add_task (new_task "b" ("a" ∷ [])) empty_plan)
      (add_task-IsPlan (new_task "b" ("a" ∷ [])) empty_plan empty-IsPlan)

compute_execution_order_correct_example :
    let (found, plan') = compute_execution_order pair in
    ((found ≡ true) × IsOrderOf pair.tasks plan'.execution_order × ¬ HasCycle pair.tasks)
    ⊎ ((found ≡ false) × HasCycle pair.tasks)
compute_execution_order_correct_example = compute_execution_order_correct pair pair-IsPlan.keyed

pair_found : (compute_execution_order pair).0 ≡ true
unfolding compute_execution_order search_order visit_roots visit visit_all add_task add_dependent
    lookup insert values contains remove
pair_found = refl

pair_acyclic : ¬ HasCycle pair.tasks
pair_acyclic = (compute_true pair pair-IsPlan.keyed pair_found).1

pair-IsClosed : IsClosed pair.tasks
unfolding add_task add_dependent lookup insert values contains
pair-IsClosed a d t at_a named =
    ground (arith, eq_iff "a" d, eq_iff d "a", eq_iff "b" a, eq_iff "a" a)

pair_has_b : lookup "b" pair.tasks ≡ some (new_task "b" ("a" ∷ []))
unfolding add_task add_dependent lookup insert values contains
pair_has_b = refl

no_cache : pair.execution_order ≡ []
unfolding add_task
no_cache = refl

execution_batches_complete_example : is_scheduled "b" (execution_batches pair) ≡ true
execution_batches_complete_example =
    execution_batches_complete pair pair-IsPlan.keyed (inl no_cache) pair_acyclic pair-IsClosed "b"
      (new_task "b" ("a" ∷ [])) pair_has_b

execution_batches-IsSchedule_example : IsSchedule pair.tasks [] (execution_batches pair)
execution_batches-IsSchedule_example = execution_batches-IsSchedule pair

-- Rows of a version 1 plan, in which `b` was running.
abbrev old_rows : List Task
old_rows =
    new_task "a" []
    ∷ record (new_task "b" ("a" ∷ [])) { status = TaskStatus.running; attempt = 1 }
    ∷ []

abbrev old_plan : ExecutionPlan
old_plan = (compute_execution_order (add_tasks 1 old_rows empty_plan)).1

old_plan_read : from_dict 1 empty_plan old_rows ≡ plan old_plan
unfolding from_dict add_tasks migrate_task compute_execution_order search_order visit_roots visit
    visit_all add_task add_dependent lookup insert values contains remove
old_plan_read = refl

from_dict-IsRestored_example : IsRestored old_plan
from_dict-IsRestored_example = from_dict-IsRestored 1 empty_plan old_rows old_plan old_plan_read

from_dict-cyclic_dependency_example : HasCycle (add_tasks 2 loop_tasks empty_plan).tasks
from_dict-cyclic_dependency_example =
    from_dict-cyclic_dependency 2 empty_plan loop_tasks loop_refused
