-- ===== src/PlanStrategy/Reuse.antt =====
-- `_reuse_completed_tasks` of src/axiom/runtime/plan_strategy.py as a step of a task's state.
use axiom_agent.Prelude.{
  String, ◌≡◌, refl, ap, true, Option, none, some, List, [], ◌∷◌, arith, str_eq, Bool-cases,
  Option-cases, inl, inr,
}
use axiom_agent.Dict.{Dict, lookup, insert, lookup-insert}
use axiom_agent.Plan.Task.{Task, TaskStatus, is_pending, is_completed}
use axiom_agent.PlanStrategy.Changes.{reuse_task, completed_by_description}
use axiom_agent.PlanStrategy.Events.{reusing, Transition, stays, reuses, via, is_pending-≡}

-- Only completed tasks of the previous plan are found again.
completed_by_description-completed :
    (normal : String → String) (found : Dict Task) (ts : List Task)
    → ((k : String) (p : Task) → lookup k found ≡ some p → is_completed p.status ≡ true)
    → (k : String) (p : Task) → lookup k (completed_by_description normal found ts) ≡ some p
    → is_completed p.status ≡ true
unfolding completed_by_description
completed_by_description-completed normal found [] all_completed k p e = all_completed k p e
completed_by_description-completed normal found (t ∷ ts) all_completed k p e =
    elim (Bool-cases (is_completed t.status)) [
      | inr other ↦
          completed_by_description-completed normal found ts all_completed k p
            (ground (arith, e, other))
      | inl done ↦
          completed_by_description-completed normal (insert (normal t.description) t found) ts
            (λ j q at. with_task t found (normal t.description) done all_completed j q at) k p
            (ground (arith, e, done))
    ]
  where
    with_task :
        (t : Task) (found : Dict Task) (n : String)
        → is_completed t.status ≡ true
        → ((j : String) (q : Task) → lookup j found ≡ some q → is_completed q.status ≡ true)
        → (j : String) (q : Task) → lookup j (insert n t found) ≡ some q
        → is_completed q.status ≡ true
    with_task t found n done old j q at =
        let put = lookup-insert j n t found in
        elim (Bool-cases (str_eq n j)) [
          | inl same ↦ let is_task : t ≡ q = ground (arith, at, put, same) in rw is_task at done
          | inr other ↦ old j q (ground (arith, at, put, other))
        ]

abbrev pub status_of_prior : Option Task → Option TaskStatus
status_of_prior none = none
status_of_prior (some p) = some p.status

is_completed-≡ : (s : TaskStatus) → is_completed s ≡ true → s ≡ TaskStatus.completed
is_completed-≡ s h = ground (arith, h)

-- The task of the previous plan that `t` is taken to be.
abbrev pub prior_of : (String → String) → List Task → Task → Option Task
prior_of normal previous t =
    lookup (normal t.description) (completed_by_description normal [] previous)

pub reuse_task-Transition :
    (normal reused : String → String) (previous : List Task) (t : Task)
    → is_pending t.status ≡ true
    → Transition
        (reusing (status_of_prior (prior_of normal previous t)))
        t.status
        (reuse_task normal reused (completed_by_description normal [] previous) t).status
unfolding reuse_task lookup
reuse_task-Transition normal reused previous t waits =
    elim (Option-cases (prior_of normal previous t)) [
      | inl absent ↦ via _ _ _ t.status _ t.status refl refl (ground (arith, absent)) stays
      | inr (p, found) ↦
          let done =
            completed_by_description-completed normal [] previous
              (λ k q e. absurd (ground (arith, e))) (normal t.description) p found in
          let read : status_of_prior (prior_of normal previous t) ≡ some TaskStatus.completed =
            ground (arith, found, is_completed-≡ p.status done) in
          via _ _ _ TaskStatus.pending _ TaskStatus.completed (ap reusing read)
            (is_pending-≡ t.status waits) (ground (arith, found)) reuses
    ]
