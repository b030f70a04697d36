-- ===== src/Plan/Order.antt =====
-- `compute_execution_order` and `execution_order` of src/axiom/plan/models.py: a depth-first
-- search. It takes fuel for the depth of the recursion; a depth of one more than the number of
-- tasks is enough, since the ids of the tasks being visited are distinct.
pub mod Graph
pub mod Topological
pub mod Acyclic
pub mod Cycles
pub mod Depth
pub mod Correct
use axiom_agent.Prelude.{
  ℕ, zero, suc, String, Bool, true, false, none, some, List, [], ◌∷◌, ◌++◌, length, contains,
  remove, if◌then◌else◌,
}
use axiom_agent.Dict.{Dict, lookup, values}
use axiom_agent.Plan.Task.{Task}
use axiom_agent.Plan.Execution.{ExecutionPlan}

-- The closure's variables.
pub record Marks : Type 0 where
  pub visiting : List String
  pub visited : List String
  pub order : List String

-- `visit` returned True, or it met a task being visited; or the fuel ran out.
pub data Visit : Type 0 where
  done : Marks → Visit
  cyclic : Visit
  out_of_fuel : Visit

infixl 5 ◌>>=◌
abbrev pub ◌>>=◌ : Visit → (Marks → Visit) → Visit
done m >>= f = f m
cyclic >>= f = cyclic
out_of_fuel >>= f = out_of_fuel

abbrev pub enter : String → Marks → Marks
enter k m = record m { visiting = k ∷ m.visiting }

abbrev pub leave : String → Marks → Marks
leave k m = record {
  visiting = remove k m.visiting;
  visited = k ∷ m.visited;
  order = m.order ++ k ∷ [];
}

-- The loop over a task's dependencies; one that is no task is passed over.
unfoldable pub visit_all : (Task → Marks → Visit) → Dict Task → List String → Marks → Visit
visit_all visit_one tasks [] m = done m
visit_all visit_one tasks (dep_id ∷ rest) m =
    elim (lookup dep_id tasks) [ none ↦ done m | some dep ↦ visit_one dep m ]
    >>= visit_all visit_one tasks rest

unfoldable pub visit : ℕ → Dict Task → Task → Marks → Visit
visit zero tasks task m = out_of_fuel
visit (suc fuel) tasks task m =
    if contains task.id m.visiting
    then cyclic
    else if contains task.id m.visited
    then done m
    else (visit_all (visit fuel tasks) tasks task.dependencies (enter task.id m) >>= λ m'.
        done (leave task.id m'))

-- The loop over all tasks.
unfoldable pub visit_roots : ℕ → Dict Task → List Task → Marks → Visit
visit_roots fuel tasks [] m = done m
visit_roots fuel tasks (task ∷ rest) m =
    (if contains task.id m.visited then done m else visit fuel tasks task m)
    >>= visit_roots fuel tasks rest

abbrev pub no_marks : Marks
no_marks = record { visiting = []; visited = []; order = [] }

unfoldable pub search_order : Dict Task → Visit
search_order tasks = visit_roots (suc (length tasks)) tasks (values tasks) no_marks

abbrev pub store_order : ExecutionPlan → Visit → Bool × ExecutionPlan
store_order plan (done m) = (true, record plan { execution_order = m.order })
store_order plan _ = (false, plan)

unfoldable pub compute_execution_order : ExecutionPlan → Bool × ExecutionPlan
compute_execution_order plan = store_order plan (search_order plan.tasks)

-- The method `execution_order`, which fills the cache.
unfoldable pub execution_order : ExecutionPlan → List String × ExecutionPlan
unfolding compute_execution_order
execution_order plan = elim plan.execution_order [
  | [] ↦ let plan' = (compute_execution_order plan).1 in (plan'.execution_order, plan')
  | _ ∷ _ ↦ (plan.execution_order, plan)
]
