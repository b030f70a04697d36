-- ===== src/Plan/Batches/Schedule.antt =====
-- A batch waits for what its tasks depend on.
use axiom_agent.Prelude.{
  ℕ, zero, suc, String, ◌≡◌, refl, Bool, true, false, some, List, [], ◌∷◌, ◌++◌, arith, all, any,
  keep, contains, contains-append, contains-keep, eq_iff,
}
use axiom_agent.Dict.{Dict, lookup}
use axiom_agent.Plan.Task.{Task}
use axiom_agent.Plan.Execution.{ExecutionPlan}
use axiom_agent.Plan.Batches.{
  dependencies_of, is_ready, without, put_batch, batch_rounds, execution_batches,
}

-- Some batch holds the task.
abbrev pub is_scheduled : String → List (List String) → Bool
is_scheduled k batches = any (contains k) batches

-- No task of a batch was completed before, and all that it depends on was.
abbrev pub IsSchedule : Dict Task → List String → List (List String) → Type 0
IsSchedule tasks completed [] = Unit
IsSchedule tasks completed (batch ∷ batches) =
    ((k : String) (t : Task)
      → contains k batch ≡ true
      → lookup k tasks ≡ some t
      → (contains k completed ≡ false)
        × ((d : String) → contains d t.dependencies ≡ true → contains d completed ≡ true))
    × IsSchedule tasks (batch ++ completed) batches

pub all-contains :
    (xs ys : List String) (d : String)
    → all (λ k. contains k ys) xs ≡ true
    → contains d xs ≡ true
    → contains d ys ≡ true
unfolding contains
all-contains [] ys d h i = cc
all-contains (x ∷ xs) ys d h i = ground (arith, eq_iff d x, all-contains xs ys d)

-- What is in `remaining` has not been completed.
abbrev AreApart : List String → List String → Type 0
AreApart remaining completed =
    (k : String) → contains k remaining ≡ true → contains k completed ≡ false

module _ (tasks : Dict Task) where
  ready :
      (order remaining completed : List String) (k : String) (t : Task)
      → AreApart remaining completed
      → contains k (keep (is_ready tasks remaining completed) order) ≡ true
      → lookup k tasks ≡ some t
      → (contains k completed ≡ false)
        × ((d : String) → contains d t.dependencies ≡ true → contains d completed ≡ true)
  unfolding is_ready dependencies_of
  ready order remaining completed k t apart i found =
      let both = rw contains-keep at i in
      let tested : all (λ d. contains d completed) t.dependencies ≡ true =
        ground (arith, both, found) in
      (ground (arith, both, apart k), λ d. all-contains t.dependencies completed d tested)

  without-AreApart :
      (batch remaining completed : List String)
      → AreApart remaining completed
      → AreApart (without batch remaining) (batch ++ completed)
  unfolding without
  without-AreApart batch remaining completed apart k i =
      let both = rw contains-keep at i in rw contains-append (ground (arith, both, apart k))

  batch_rounds-IsSchedule :
      (fuel : ℕ) (order remaining completed : List String)
      → AreApart remaining completed
      → IsSchedule tasks completed (batch_rounds fuel tasks order remaining completed)
  unfolding batch_rounds
  batch_rounds-IsSchedule zero order remaining completed apart = tt
  batch_rounds-IsSchedule (suc fuel) order [] completed apart = tt
  batch_rounds-IsSchedule (suc fuel) order (r ∷ rs) completed apart =
      placed (keep (is_ready tasks (r ∷ rs) completed) order)
        (λ k t. ready order (r ∷ rs) completed k t apart)
        (λ batch.
          batch_rounds-IsSchedule fuel order (without batch (r ∷ rs)) (batch ++ completed)
            (without-AreApart batch (r ∷ rs) completed apart))
    where
      placed :
          (batch : List String)
          → ((k : String) (t : Task)
              → contains k batch ≡ true
              → lookup k tasks ≡ some t
              → (contains k completed ≡ false)
                × ((d : String) → contains d t.dependencies ≡ true → contains d completed ≡ true))
          → ((b : List String)
              → IsSchedule tasks
                  (b ++ completed)
                  (batch_rounds fuel tasks order (without b (r ∷ rs)) (b ++ completed)))
          → IsSchedule tasks completed (
              put_batch batch
                (batch_rounds fuel tasks order (without batch (r ∷ rs)) (batch ++ completed)))
      placed [] good rest = tt
      placed (k ∷ ks) good rest = (good, rest (k ∷ ks))

-- In every plan, a task of a batch is in no batch before, and each task that it depends on is in
-- one of those.
pub execution_batches-IsSchedule :
    (plan : ExecutionPlan) → IsSchedule plan.tasks [] (execution_batches plan)
unfolding execution_batches contains
execution_batches-IsSchedule plan = batch_rounds-IsSchedule plan.tasks _ _ _ [] (λ k i. refl)
