-- ===== src/Plan/Batches/Complete.antt =====
-- Where the dependencies form no cycle and are all tasks of the plan, every task gets its batch.
use axiom_agent.Prelude.{
  ℕ, zero, suc, ◌≤◌, ◌<◌, String, ◌≡◌, ◌≢◌, refl, ap, ◌∙◌, Bool, true, false, ◌||◌, not, some,
  Option, List, [], ◌∷◌, ◌++◌, arith, length, all, keep, contains, contains-append, contains-keep,
  is_some, eq_iff, eq_refl, Bool-cases, inl, inr, Option-cases, ◌⊎◌,
}
use axiom_agent.Dict.{Dict, lookup, keys}
use axiom_agent.Plan.Task.{Task}
use axiom_agent.Plan.Execution.{ExecutionPlan}
use axiom_agent.Plan.Order.{compute_execution_order, execution_order}
use axiom_agent.Plan.Order.Graph.{IsKeyed, IsTopological, Depends, edge}
use axiom_agent.Plan.Order.Cycles.{HasCycle}
use axiom_agent.Plan.Order.Correct.{IsOrderOf, compute_true, compute_false}
use axiom_agent.Plan.Batches.{
  dependencies_of, is_ready, without, put_batch, batch_rounds, execution_batches,
}
use axiom_agent.Plan.Batches.Schedule.{is_scheduled}

-- Every dependency is a task of the plan.
abbrev pub IsClosed : Dict Task → Type 0
IsClosed tasks =
    (a d : String) (t : Task)
    → lookup a tasks ≡ some t
    → contains d t.dependencies ≡ true
    → is_some (lookup d tasks) ≡ true

length-keep_le : (p : String → Bool) (xs : List String) → length (keep p xs) ≤ length xs
length-keep_le p [] = omega arith
length-keep_le p (x ∷ xs) = ground (arith, length-keep_le p xs)

length-keep_lt :
    (p : String → Bool) (x : String) (xs : List String)
    → contains x xs ≡ true
    → p x ≡ false
    → length (keep p xs) < length xs
unfolding contains
length-keep_lt p x [] i h = cc
length-keep_lt p x (y ∷ ys) i h =
    ground (arith, eq_iff x y, length-keep_lt p x ys, length-keep_le p ys)

all-intro :
    (xs ys : List String)
    → ((d : String) → contains d xs ≡ true → contains d ys ≡ true)
    → all (λ k. contains k ys) xs ≡ true
unfolding contains
all-intro [] ys h = refl
all-intro (x ∷ xs) ys h =
    ground (arith, h x, eq_refl x, all-intro xs ys (λ d i. h d (ground arith)))

is_some-eq : {t : Option Task} → is_some t ≡ true → (u : Task) × (t ≡ some u)
is_some-eq {t} h = elim (Option-cases t) [
  | inl e ↦ absurd (ground (arith, e, h))
  | inr found ↦ found
]

module _ (tasks : Dict Task) (closed : IsClosed tasks) where
  -- The state of the loop: each task is still to come or completed.
  record IsRound (order remaining completed : List String) : Type 0 where
    split :
        (k : String)
        → is_some (lookup k tasks) ≡ true
        → (contains k remaining || contains k completed) ≡ true
    within : (k : String) → contains k remaining ≡ true → contains k order ≡ true

  head_is_ready :
      (seen remaining completed : List String) (x : String)
      → ((k : String)
          → is_some (lookup k tasks) ≡ true
          → (contains k remaining || contains k completed) ≡ true)
      → ((k : String) → contains k seen ≡ true → contains k remaining ≡ false)
      → ((b : String) → Depends tasks x b → contains b seen ≡ true)
      → contains x remaining ≡ true
      → is_ready tasks remaining completed x ≡ true
  unfolding is_ready dependencies_of
  head_is_ready seen remaining completed x split passed settled i =
      elim (Option-cases (lookup x tasks)) [
        | inl e ↦ rw (i, dependencies_of, e)
        | inr (t, e) ↦
            rw (i, dependencies_of, e)
              (all-intro t.dependencies completed (λ d n.
                let known : is_some (lookup d tasks) ≡ true = closed x d t e n in
                let (u, at_d) = is_some-eq known in
                ground (arith, split d known, passed d (settled d (edge t u e n at_d)))))
      ]

  -- The first id of the order that is still to come is ready.
  some_ready :
      (seen order remaining completed : List String) (k : String)
      → ((j : String)
          → is_some (lookup j tasks) ≡ true
          → (contains j remaining || contains j completed) ≡ true)
      → ((j : String) → contains j seen ≡ true → contains j remaining ≡ false)
      → IsTopological tasks seen order
      → contains k order ≡ true
      → contains k remaining ≡ true
      → (x : String) × (contains x remaining ≡ true)
        × (contains x (keep (is_ready tasks remaining completed) order) ≡ true)
  unfolding contains
  some_ready seen [] remaining completed k split passed h i r = cc
  some_ready seen (x ∷ xs) remaining completed k split passed h i r =
      elim (Bool-cases (contains x remaining)) [
        | inl there ↦
            let ok = head_is_ready seen remaining completed x split passed h.1 there in
            (x, there, rw ok (ground (arith, eq_refl x)))
        | inr gone ↦
            let (y, a, b) =
              some_ready (x ∷ seen) xs remaining completed k split
                (λ j m. ground (arith, m, eq_iff j x, passed j, gone)) h.2
                (ground (arith, i, r, gone, eq_iff k x)) r in
            (
              y,
              a,
              contains-keep (is_ready tasks remaining completed) y (x ∷ xs)
                  ∙ ground (arith, contains-keep (is_ready tasks remaining completed) y xs, b),
            )
      ]

  module _ (order : List String) (topological : IsTopological tasks [] order) where
    without-IsRound :
        (batch remaining completed : List String)
        → IsRound order remaining completed
        → IsRound order (without batch remaining) (batch ++ completed)
    unfolding without
    without-IsRound batch remaining completed h = record {
      split = λ k known. rw (contains-append, contains-keep) (ground (arith, h.split k known));
      within = λ k i.
          h.within k (ground (arith, contains-keep (λ j. not (contains j batch)) k remaining, i));
    }

    batch_rounds_complete :
        (fuel : ℕ) (remaining completed : List String)
        → length remaining ≤ fuel
        → IsRound order remaining completed
        → (k : String) → contains k remaining ≡ true
        → is_scheduled k (batch_rounds fuel tasks order remaining completed) ≡ true
    unfolding batch_rounds contains without
    batch_rounds_complete zero [] completed enough h k i = cc
    batch_rounds_complete zero (r ∷ rs) completed enough h k i = absurd (omega arith)
    batch_rounds_complete (suc fuel) [] completed enough h k i = cc
    batch_rounds_complete (suc fuel) (r ∷ rs) completed enough h k i =
        let remaining : List String = r ∷ rs in
        let batch = keep (is_ready tasks remaining completed) order in
        let (x, there, picked) =
          some_ready [] order remaining completed k h.split (λ j m. cc) topological (h.within k i)
            i in
        let less : length (without batch remaining) < length remaining =
          length-keep_lt (λ j. not (contains j batch)) x remaining there (rw picked) in
        let rest = batch_rounds fuel tasks order (without batch remaining) (batch ++ completed) in
        placed batch rest (λ e. cc (picked, ap (contains x) e))
          (λ k_out.
            batch_rounds_complete fuel (without batch remaining) (batch ++ completed) (omega arith)
              (without-IsRound batch remaining completed h) k
              (contains-keep (λ j. not (contains j batch)) k remaining ∙ ground (arith, i, k_out)))
      where
        placed :
            (b : List String) (rest : List (List String))
            → b ≢ []
            → (contains k b ≡ false → is_scheduled k rest ≡ true)
            → is_scheduled k (put_batch b rest) ≡ true
        placed [] rest ne later = absurd (ne refl)
        placed (j ∷ js) rest ne later = ground (arith, later)

contains-keys :
    (k : String) (tasks : Dict Task) → contains k (keys tasks) ≡ is_some (lookup k tasks)
unfolding contains keys lookup
contains-keys k [] = refl
contains-keys k ((j, t) ∷ d) = ground (arith, eq_iff k j, eq_iff j k, contains-keys k d)

length-keys : (tasks : Dict Task) → length (keys tasks) ≡ length tasks
unfolding keys
length-keys [] = refl
length-keys ((j, t) ∷ d) = ap suc (length-keys d)

-- The cache of the plan is empty, as `add_task` leaves it, or holds an order of its tasks.
abbrev pub HasGoodCache : ExecutionPlan → Type 0
HasGoodCache plan = (plan.execution_order ≡ []) ⊎ IsOrderOf plan.tasks plan.execution_order

execution_order-IsOrderOf :
    (plan : ExecutionPlan)
    → IsKeyed plan.tasks
    → HasGoodCache plan
    → ¬ HasCycle plan.tasks
    → IsOrderOf plan.tasks (execution_order plan).0
unfolding execution_order
execution_order-IsOrderOf plan keyed cache acyclic = cached plan.execution_order cache
  where
    cached :
        (order : List String)
        → (order ≡ []) ⊎ IsOrderOf plan.tasks order
        → IsOrderOf plan.tasks (execution_order (record plan { execution_order = order })).0
    cached [] c =
        let empty : ExecutionPlan = record plan { execution_order = [] } in
        elim (Bool-cases (compute_execution_order empty).0) [
          | inl found ↦ (compute_true empty keyed found).0
          | inr fails ↦ absurd (acyclic (compute_false empty keyed fails))
        ]
    cached (k ∷ ks) (inl e) = cc
    cached (k ∷ ks) (inr h) = h

-- In a plan whose dependencies are all tasks of it and form no cycle, every task is in a batch.
pub execution_batches_complete :
    (plan : ExecutionPlan)
    → IsKeyed plan.tasks
    → HasGoodCache plan
    → ¬ HasCycle plan.tasks
    → IsClosed plan.tasks
    → (k : String) (t : Task) → lookup k plan.tasks ≡ some t
    → is_scheduled k (execution_batches plan) ≡ true
unfolding execution_batches contains
execution_batches_complete plan keyed cache acyclic closed k t found =
    let order = execution_order-IsOrderOf plan keyed cache acyclic in
    batch_rounds_complete plan.tasks closed (execution_order plan).0 order.topological
      (length plan.tasks) (keys plan.tasks) [] (omega (arith, length-keys plan.tasks))
      (record {
        split = λ j known. ground (arith, contains-keys j plan.tasks, known);
        within = λ j i.
            let (u, at_j) = is_some-eq (ground (arith, contains-keys j plan.tasks, i)) in
            order.all_tasks j u at_j;
      })
      k (contains-keys k plan.tasks ∙ ap is_some found)
