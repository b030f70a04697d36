-- ===== src/Completion/Evidence.antt =====
-- What single checks of src/axiom/runtime/completion.py accept.
use axiom_agent.Prelude.{
  String, ◌≡◌, ◌↔◌, ◌⊎◌, refl, true, ◌&&◌, Option, none, some, List, [], ◌∷◌, all, All, arith,
  str_eq, eq_iff, Bool-cases, Option-cases, inl, inr, if◌then◌else◌,
}
use axiom_agent.Dict.{Dict, lookup, keys}
use axiom_agent.Models.{RunStatus}
use axiom_agent.Plan.Task.{Task, is_completed}
use axiom_agent.Plan.Execution.{ExecutionPlan, all_tasks}
use axiom_agent.Completion.Contract.{Checked-cases, returned}
use axiom_agent.Completion.Checks.{
  World, StoredPlan, is_completed_run, or_empty, is_empty, tasks_by_id, children_completed, is_done,
  check_plan_tasks,
}

module _ {Other : Type 0} (world : World Other) where
  -- The task is in the plan and completed, and so is its child Run, if it has one.
  pub record IsFinished (tasks : Dict Task) (id : String) : Type 0 where
    pub task : Task
    pub found : lookup id tasks ≡ some task
    pub completed : is_completed task.status ≡ true
    pub child :
        (or_empty task.child_run_id ≡ "")
        ⊎ (world.load_status (or_empty task.child_run_id) ≡ returned (some RunStatus.completed))

  is_completed_run-≡ :
      (o : Option RunStatus) → is_completed_run o ≡ true → o ≡ some RunStatus.completed
  is_completed_run-≡ none h = absurd (ground (arith, h))
  is_completed_run-≡ (some RunStatus.completed) h = refl
  is_completed_run-≡ (some RunStatus.running) h = absurd (ground (arith, h))
  is_completed_run-≡ (some RunStatus.interrupted) h = absurd (ground (arith, h))
  is_completed_run-≡ (some RunStatus.waiting_approval) h = absurd (ground (arith, h))
  is_completed_run-≡ (some RunStatus.waiting_child) h = absurd (ground (arith, h))
  is_completed_run-≡ (some RunStatus.failed) h = absurd (ground (arith, h))
  is_completed_run-≡ (some RunStatus.cancelled) h = absurd (ground (arith, h))

  All-IsFinished :
      (tasks : Dict Task) (ids : List String)
      → children_completed world tasks ids ≡ returned true
      → all (is_done world tasks) ids ≡ true
      → All (IsFinished tasks) ids
  unfolding children_completed
  All-IsFinished tasks [] e h = tt
  All-IsFinished tasks (id ∷ ids) e h = elim (Option-cases (lookup id tasks)) [
    | inl absent ↦ absurd (ground (arith, h, absent))
    | inr (task, there) ↦
        let child = or_empty task.child_run_id in
        elim (Bool-cases (str_eq child "")) [
          | inl alone ↦ (
            record {
              task = task;
              found = there;
              completed = ground (arith, h, there);
              child = inl (ground (arith, alone, eq_iff child ""));
            },
            All-IsFinished tasks ids (ground (arith, e, there, alone)) (ground (arith, h)),
          )
          | inr has ↦ elim (Checked-cases (world.load_status child)) [
            | inr (err, bad) ↦ absurd (ground (arith, e, there, has, bad))
            | inl (status, loaded) ↦ elim (Checked-cases (children_completed world tasks ids)) [
              | inr (err, bad) ↦ absurd (ground (arith, e, there, has, loaded, bad))
              | inl (others, rest) ↦
                  let both : is_completed_run status && others ≡ true =
                    ground (arith, e, there, has, loaded, rest) in
                  (
                    record {
                      task = task;
                      found = there;
                      completed = ground (arith, h, there);
                      child = inr (
                          ground (arith, loaded, is_completed_run-≡ status (ground (arith, both))));
                    },
                    All-IsFinished tasks ids (ground (arith, rest, both)) (ground (arith, h)),
                  )
            ]
          ]
        ]
  ]

  IsFinished-all :
      (tasks : Dict Task) (ids : List String)
      → All (IsFinished tasks) ids
      → (children_completed world tasks ids ≡ returned true)
        × (all (is_done world tasks) ids ≡ true)
  unfolding children_completed
  IsFinished-all tasks [] fine = (refl, refl)
  IsFinished-all tasks (id ∷ ids) (first, rest) =
      let (children, done) = IsFinished-all tasks ids rest in
      elim first.child [
        | inl alone ↦ (
          ground
              (arith, first.found, alone, children, eq_iff (or_empty first.task.child_run_id) ""),
          ground (arith, first.found, first.completed, done),
        )
        | inr loaded ↦ (
          ground (arith, first.found, loaded, children),
          ground (arith, first.found, first.completed, done),
        )
      ]

  -- The plan check passes exactly where every selected task, all tasks of the plan where none is named,
  -- is in the plan, is completed, and has no child Run or one that loads as completed.
  pub check_plan_tasks_iff :
      (p : ExecutionPlan) (required_ids : List String)
      → let tasks = tasks_by_id (all_tasks p) [] in
        (check_plan_tasks world (StoredPlan.plan p) required_ids ≡ returned true)
        ↔ All (IsFinished tasks) (if is_empty required_ids then keys tasks else required_ids)
  unfolding check_plan_tasks
  check_plan_tasks_iff p required_ids =
      let tasks = tasks_by_id (all_tasks p) [] in
      let selected = if is_empty required_ids then keys tasks else required_ids in
      (
        λ h. elim (Checked-cases (children_completed world tasks selected)) [
          | inr (err, bad) ↦ absurd (ground (arith, h, bad))
          | inl (children, good) ↦
              let both : all (is_done world tasks) selected && children ≡ true =
                ground (arith, h, good) in
              All-IsFinished tasks selected (ground (arith, good, both)) (ground (arith, both))
        ],
        λ fine.
            let (children, done) = IsFinished-all tasks selected fine in
            ground (arith, children, done),
      )
