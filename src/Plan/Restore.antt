-- ===== src/Plan/Restore.antt =====
-- `ExecutionPlan.from_dict` of src/axiom/plan/models.py, from the rows that `Task.from_dict` has
-- read: the check of the schema, the change of a version 1 plan, and the check for cycles.
use axiom_agent.Prelude.{
  ℕ, ◌-◌, ◌≡◌, refl, Bool, true, false, ◌&&◌, ◌||◌, List, [], ◌∷◌, arith, Bool-cases, inl, inr,
  ◌==◌, String, none, sym, subst, if◌then◌else◌,
}
use axiom_agent.Plan.Task.{Task, TaskStatus}
use axiom_agent.Plan.Execution.{ExecutionPlan, add_task}
use axiom_agent.Plan.Execution.AddTask.{IsPlan, add_task-IsPlan}
use axiom_agent.Dict.{Dict, lookup}
use axiom_agent.Plan.Execution.Links.{IsLinked}
use axiom_agent.Plan.Order.{
  Visit, done, cyclic, out_of_fuel, search_order, store_order, compute_execution_order,
}
use axiom_agent.Plan.Order.Graph.{IsKeyed}
use axiom_agent.Plan.Order.Cycles.{HasCycle}
use axiom_agent.Plan.Order.Correct.{IsOrderOf, compute_true, compute_false}

-- The two messages of `ValueError`.
pub data Restored : Type 0 where
  plan : ExecutionPlan → Restored
  unsupported_schema_version : Restored
  cyclic_dependency : Restored

abbrev pub is_running : TaskStatus → Bool
is_running TaskStatus.running = true
is_running _ = false

-- A version 1 task that was running starts again: it has no child run to go back to.
unfoldable pub migrate_task : ℕ → Task → Task
migrate_task schema_version t =
    if schema_version == 1 && is_running t.status
    then record t {
      status = TaskStatus.pending;
      attempt = t.attempt - 1;
      start_time = 0;
      end_time = 0;
      result = "";
      error = "";
    }
    else t

unfoldable pub add_tasks : ℕ → List Task → ExecutionPlan → ExecutionPlan
add_tasks schema_version [] p = p
add_tasks schema_version (t ∷ ts) p =
    add_tasks schema_version ts (add_task (migrate_task schema_version t) p)

abbrev if_ordered : Bool × ExecutionPlan → Restored
if_ordered (true, p) = plan p
if_ordered (false, p) = cyclic_dependency

-- `header` has the plan's own fields; its tasks and its cache are those of a new object.
unfoldable pub from_dict : ℕ → ExecutionPlan → List Task → Restored
from_dict schema_version header tasks =
    if schema_version == 1 || schema_version == 2
    then if_ordered (
        compute_execution_order (
          add_tasks schema_version tasks
            (record header { schema_version = 2; tasks = []; execution_order = [] })))
    else unsupported_schema_version

lookup-nil : (k : String) → lookup {V = Task} k [] ≡ none
unfolding lookup
lookup-nil k = refl

add_tasks-IsPlan :
    (n : ℕ) (ts : List Task) (p : ExecutionPlan) → IsPlan p → IsPlan (add_tasks n ts p)
unfolding add_tasks
add_tasks-IsPlan n [] p h = h
add_tasks-IsPlan n (t ∷ ts) p h =
    add_tasks-IsPlan n ts (add_task (migrate_task n t) p) (add_task-IsPlan (migrate_task n t) p h)

-- What holds of a plan that came back.
pub record IsRestored (p : ExecutionPlan) : Type 0 where
  pub valid : IsPlan p
  pub ordered : IsOrderOf p.tasks p.execution_order
  pub acyclic : ¬ HasCycle p.tasks

tasks-compute_execution_order : (q : ExecutionPlan) → (compute_execution_order q).1.tasks ≡ q.tasks
unfolding compute_execution_order
tasks-compute_execution_order q = stored (search_order q.tasks)
  where
    stored : (v : Visit) → (store_order q v).1.tasks ≡ q.tasks
    stored (done m) = refl
    stored cyclic = refl
    stored out_of_fuel = refl

module _ (tasks : Dict Task) (keyed : IsKeyed tasks) (linked : IsLinked tasks) where
  if_ordered-IsRestored :
      (r : Bool × ExecutionPlan) {p : ExecutionPlan}
      → r.1.tasks ≡ tasks
      → (r.0 ≡ true → IsOrderOf tasks r.1.execution_order × ¬ HasCycle tasks)
      → if_ordered r ≡ plan p
      → IsRestored p
  if_ordered-IsRestored (false, q) same found e = cc
  if_ordered-IsRestored (true, q) {p} same found e =
      let q_is_p : q ≡ p = cc in
      let back = sym same in
      subst IsRestored q_is_p (record {
        valid = record { keyed = subst IsKeyed back keyed; linked = subst IsLinked back linked };
        ordered = subst (λ ts. IsOrderOf ts q.execution_order) back (found refl).0;
        acyclic = subst (λ ts. ¬ HasCycle ts) back (found refl).1;
      })

-- A plan that is read back has its tasks under their own ids, each dependency between two of them
-- known to both, no cycle, and a full order in its cache, whatever the rows hold.
pub from_dict-IsRestored :
    (schema_version : ℕ) (header : ExecutionPlan) (tasks : List Task) (p : ExecutionPlan)
    → from_dict schema_version header tasks ≡ plan p
    → IsRestored p
unfolding from_dict
from_dict-IsRestored n header tasks p e = elim (Bool-cases (n == 1 || n == 2)) [
  | inl known ↦
      let bare : ExecutionPlan = record header {
        schema_version = 2;
        tasks = [];
        execution_order = [];
      } in
      let q = add_tasks n tasks bare in
      let valid =
        add_tasks-IsPlan n tasks bare
          (record { keyed = tt; linked = λ a b t u ea eb i. cc (lookup-nil a, ea) }) in
      if_ordered-IsRestored q.tasks valid.keyed valid.linked (compute_execution_order q)
        (tasks-compute_execution_order q) (compute_true q valid.keyed) (rw known at e)
  | inr other ↦ absurd (ground (arith, e, other))
]

-- A plan of a known version is refused for a cycle only if its tasks have one.
pub from_dict-cyclic_dependency :
    (schema_version : ℕ) (header : ExecutionPlan) (tasks : List Task)
    → from_dict schema_version header tasks ≡ cyclic_dependency
    → HasCycle
        (add_tasks schema_version tasks
          (record header { schema_version = 2; tasks = []; execution_order = [] })).tasks
unfolding from_dict
from_dict-cyclic_dependency n header tasks e = elim (Bool-cases (n == 1 || n == 2)) [
  | inl known ↦
      let bare : ExecutionPlan = record header {
        schema_version = 2;
        tasks = [];
        execution_order = [];
      } in
      let q = add_tasks n tasks bare in
      let valid =
        add_tasks-IsPlan n tasks bare
          (record { keyed = tt; linked = λ a b t u ea eb i. cc (lookup-nil a, ea) }) in
      compute_false q valid.keyed (not_found (compute_execution_order q) (rw known at e))
  | inr other ↦ absurd (ground (arith, e, other))
]
  where
    not_found : (r : Bool × ExecutionPlan) → if_ordered r ≡ cyclic_dependency → r.0 ≡ false
    not_found (true, q) h = cc
    not_found (false, q) h = refl
