-- ===== src/Plan/Batches.antt =====
-- `execution_batches` of src/axiom/plan/models.py. Every round of the loop
-- but the last takes a task out of `remaining`, so the number of tasks is fuel enough.
pub mod Schedule
pub mod Complete
use axiom_agent.Prelude.{
  ℕ, zero, suc, String, Bool, ◌&&◌, not, none, some, List, [], ◌∷◌, ◌++◌, length, all, keep,
  contains, map,
}
use axiom_agent.Dict.{Dict, lookup, keys}
use axiom_agent.Plan.Task.{Task}
use axiom_agent.Plan.Execution.{ExecutionPlan}
use axiom_agent.Plan.Order.{execution_order}

-- `self.tasks[task_id].dependencies`; the ids of an order are those of tasks.
unfoldable pub dependencies_of : Dict Task → String → List String
dependencies_of tasks task_id = elim (lookup task_id tasks) [ none ↦ [] | some t ↦ t.dependencies ]

-- The condition of the comprehension.
unfoldable pub is_ready : Dict Task → List String → List String → String → Bool
is_ready tasks remaining completed task_id =
    contains task_id remaining
    && all (λ dep_id. contains dep_id completed) (dependencies_of tasks task_id)

-- `remaining.difference_update(batch_ids)`
unfoldable pub without : List String → List String → List String
without batch_ids remaining = keep (λ k. not (contains k batch_ids)) remaining

-- The rest of the loop, behind the test of a batch.
abbrev pub put_batch : List String → List (List String) → List (List String)
put_batch [] rest = []
put_batch (k ∷ ks) rest = (k ∷ ks) ∷ rest

unfoldable pub batch_rounds :
    ℕ → Dict Task → List String → List String → List String → List (List String)
batch_rounds zero tasks order remaining completed = []
batch_rounds (suc fuel) tasks order [] completed = []
batch_rounds (suc fuel) tasks order (r ∷ rs) completed =
    let batch_ids = keep (is_ready tasks (r ∷ rs) completed) order in
    let rest =
      batch_rounds fuel tasks order (without batch_ids (r ∷ rs)) (batch_ids ++ completed) in
    put_batch batch_ids rest

-- The ids of the batches' tasks.
unfoldable pub execution_batches : ExecutionPlan → List (List String)
execution_batches plan =
    batch_rounds (length plan.tasks) plan.tasks (execution_order plan).0 (keys plan.tasks) []
