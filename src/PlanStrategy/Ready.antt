-- ===== src/PlanStrategy/Ready.antt =====
-- `LocalPlanTaskScheduler.snapshot` of src/axiom/runtime/plan_strategy.py on plans that can go on.
use axiom_agent.Prelude.{
  String, ◌≡◌, refl, Bool, true, false, ◌&&◌, ◌||◌, Option, some, List, [], ◌∷◌, all, any, keep,
  contains, All, arith, str_eq, eq_iff, Bool-cases, inl, inr,
}
use axiom_agent.Dict.{Dict, lookup}
use axiom_agent.Models.{RunStatus}
use axiom_agent.Plan.Task.{Task, TaskStatus, is_completed, is_pending}
use axiom_agent.PlanStrategy.Scheduler.{statuses_from, has_status, ids_of, is_ready_task, snapshot}
use axiom_agent.PlanStrategy.Launching.{is_empty}

-- Every dependency of a task stands before it, or is one of the ids that are seen.
abbrev pub is_ordered : List String → List Task → Bool
is_ordered seen [] = true
is_ordered seen (t ∷ ts) =
    all (λ dep. contains dep seen) t.dependencies && is_ordered (t.id ∷ seen) ts

all-contains :
    (statuses : Dict TaskStatus) (seen deps : List String)
    → ((k : String) → contains k seen ≡ true → has_status is_completed statuses k ≡ true)
    → all (λ dep. contains dep seen) deps ≡ true
    → all (has_status is_completed statuses) deps ≡ true
all-contains statuses seen [] done h = refl
all-contains statuses seen (d ∷ deps) done h =
    ground
      (arith, done d (ground (arith, h)), all-contains statuses seen deps done (ground (arith, h)))

ready_after :
    (statuses : Dict TaskStatus) (seen : List String) (ts : List Task)
    → ((k : String) → contains k seen ≡ true → has_status is_completed statuses k ≡ true)
    → is_ordered seen ts ≡ true
    → All (λ (t : Task). lookup t.id statuses ≡ some t.status) ts
    → all (λ t. is_completed t.status || is_pending t.status) ts ≡ true
    → any (λ t. is_pending t.status) ts ≡ true
    → is_empty (ids_of (keep (is_ready_task statuses) ts)) ≡ false
unfolding is_ready_task contains
ready_after statuses seen [] done order agree open_ waits = absurd (ground (arith, waits))
ready_after statuses seen (t ∷ ts) done order (own, agree) open_ waits =
    elim (Bool-cases (is_pending t.status)) [
      | inl pending ↦
          ground
            (arith, pending, all-contains statuses seen t.dependencies done (ground (arith, order)))
      | inr other ↦ ground (
        arith,
        other,
        ready_after statuses (t.id ∷ seen) ts
            (λ k h. elim (Bool-cases (str_eq k t.id)) [
              | inl here ↦ ground (arith, own, other, open_, eq_iff k t.id, here)
              | inr away ↦ done k (ground (arith, h, away))
            ])
            (ground (arith, order)) agree (ground (arith, open_)) (ground (arith, waits, other)),
      )
    ]

-- If the tasks in the plan's order have their dependencies before them, are the ones that the
-- statuses by id are of, and are all completed or pending, with one pending at least, then a task is
-- ready, whatever the child Runs do: the plan does not stall.
pub snapshot_ready :
    (all_tasks ordered : List Task) (child : String → Option RunStatus)
    → is_ordered [] ordered ≡ true
    → All (λ (t : Task). lookup t.id (statuses_from [] all_tasks) ≡ some t.status) ordered
    → all (λ t. is_completed t.status || is_pending t.status) ordered ≡ true
    → any (λ t. is_pending t.status) ordered ≡ true
    → is_empty (snapshot all_tasks ordered child).ready_task_ids ≡ false
unfolding snapshot contains
snapshot_ready all_tasks ordered child order agree open_ waits =
    ready_after (statuses_from [] all_tasks) [] ordered (λ k h. absurd (ground (arith, h))) order
      agree open_ waits
