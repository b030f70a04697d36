-- ===== src/Plan/Order/Correct.antt =====
-- What `compute_execution_order` promises of a plan.
use axiom_agent.Prelude.{
  suc, String, ◌≡◌, refl, true, false, some, [], length, arith, contains, is_some, All, eq_iff, inl,
  inr, ◌⊎◌, List, ◌∷◌,
}
use axiom_agent.Dict.{Dict, lookup, values}
use axiom_agent.Plan.Task.{Task}
use axiom_agent.Plan.Execution.{ExecutionPlan}
use axiom_agent.Plan.Order.{
  Marks, Visit, done, cyclic, out_of_fuel, no_marks, search_order, store_order,
  compute_execution_order,
}
use axiom_agent.Plan.Order.Graph.{IsKeyed, IsTopological, values-IsFound}
use axiom_agent.Plan.Order.Topological.{IsOrdered, visit_roots-Extends}
use axiom_agent.Plan.Order.Acyclic.{no_cycle}
use axiom_agent.Plan.Order.Cycles.{HasCycle, visit_roots-HasCycle}
use axiom_agent.Plan.Order.Depth.{visit_roots-ends}

-- The order holds every task once, and nothing else, each behind what it depends on.
pub record IsOrderOf (tasks : Dict Task) (order : List String) : Type 0 where
  pub topological : IsTopological tasks [] order
  pub all_tasks : (k : String) (t : Task) → lookup k tasks ≡ some t → contains k order ≡ true
  pub only_tasks : (k : String) → contains k order ≡ true → is_some (lookup k tasks) ≡ true

IsOrdered-no_marks : (tasks : Dict Task) → IsOrdered tasks no_marks
unfolding contains
IsOrdered-no_marks tasks = record { same = λ k. refl; topological = tt; only_tasks = λ k h. cc }

-- A value of the dictionary's list is one of its tasks.
listed :
    (k : String) (t : Task) (tasks : Dict Task) (seen : List String)
    → IsKeyed tasks
    → lookup k tasks ≡ some t
    → All (λ u. contains u.id seen ≡ true) (values tasks)
    → contains k seen ≡ true
unfolding lookup values
listed k t [] seen keyed e h = cc
listed k t ((j, u) ∷ d) seen keyed e h = ground (arith, eq_iff j k, listed k t d seen keyed.2, h)

module _ (tasks : Dict Task) (keyed : IsKeyed tasks) where
  search_order-IsOrderOf : (m : Marks) → search_order tasks ≡ done m → IsOrderOf tasks m.order
  unfolding search_order
  search_order-IsOrderOf m e =
      let r =
        visit_roots-Extends tasks keyed (suc (length tasks)) (values tasks) no_marks m
          (values-IsFound tasks keyed) (IsOrdered-no_marks tasks) e in
      record {
        topological = r.0.ordered.topological;
        all_tasks = λ k t at_key.
            ground (arith, r.0.ordered.same k, listed k t tasks m.visited keyed at_key r.1);
        only_tasks = r.0.ordered.only_tasks;
      }

  search_order-HasCycle : search_order tasks ≡ cyclic → HasCycle tasks
  unfolding search_order
  search_order-HasCycle e =
      visit_roots-HasCycle tasks keyed (suc (length tasks)) (values tasks) no_marks
        (values-IsFound tasks keyed) (IsOrdered-no_marks tasks) refl e

  search_order-ends : search_order tasks ≡ out_of_fuel → ⊥
  unfolding search_order
  search_order-ends =
      visit_roots-ends tasks keyed (suc (length tasks)) (values tasks) no_marks
        (values-IsFound tasks keyed) (IsOrdered-no_marks tasks) (omega arith)

  search_order_correct :
      (v : Visit)
      → search_order tasks ≡ v
      → (plan : ExecutionPlan)
      → let (found, plan') = store_order plan v in
        ((found ≡ true) × IsOrderOf tasks plan'.execution_order × ¬ HasCycle tasks)
        ⊎ ((found ≡ false) × HasCycle tasks)
  search_order_correct (done m) e plan =
      let h = search_order-IsOrderOf m e in
      inl (refl, h, λ c. no_cycle tasks m.order h.topological h.all_tasks c.0 c.1)
  search_order_correct cyclic e plan = inr (refl, search_order-HasCycle e)
  search_order_correct out_of_fuel e plan = absurd (search_order-ends e)

-- Either `compute_execution_order` returns True, has stored an order with every task once, each
-- behind the tasks that it depends on, and no task depends on itself at a distance; or it returns
-- False, and some task does.
pub compute_execution_order_correct :
    (plan : ExecutionPlan)
    → IsKeyed plan.tasks
    → let (found, plan') = compute_execution_order plan in
      ((found ≡ true) × IsOrderOf plan.tasks plan'.execution_order × ¬ HasCycle plan.tasks)
      ⊎ ((found ≡ false) × HasCycle plan.tasks)
unfolding compute_execution_order
compute_execution_order_correct plan keyed =
    search_order_correct plan.tasks keyed (search_order plan.tasks) refl plan

-- The two cases by the result.
pub compute_true :
    (plan : ExecutionPlan)
    → IsKeyed plan.tasks
    → (compute_execution_order plan).0 ≡ true
    → IsOrderOf plan.tasks (compute_execution_order plan).1.execution_order × ¬ HasCycle plan.tasks
compute_true plan keyed e = elim (compute_execution_order_correct plan keyed) [
  | inl h ↦ (h.1, h.2)
  | inr h ↦ absurd (ground (arith, e, h.0))
]

pub compute_false :
    (plan : ExecutionPlan)
    → IsKeyed plan.tasks
    → (compute_execution_order plan).0 ≡ false
    → HasCycle plan.tasks
compute_false plan keyed e = elim (compute_execution_order_correct plan keyed) [
  | inl h ↦ absurd (ground (arith, e, h.0))
  | inr h ↦ h.1
]
