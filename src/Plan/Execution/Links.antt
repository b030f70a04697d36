-- ===== src/Plan/Execution/Links.antt =====
-- `add_task` of src/axiom/plan/models.py: the links between a task and its dependents.
use axiom_agent.Prelude.{
  String, ◌≡◌, refl, true, ◌||◌, Option, none, some, List, [], ◌∷◌, arith, contains,
  contains-append, Bool-cases, Option-cases, inl, inr, eq_iff, eq_refl, str_eq, if◌then◌else◌,
  subst, ap, ◌∙◌,
}
use axiom_agent.Dict.{Dict, lookup, insert, values, lookup-insert}
use axiom_agent.Plan.Task.{Task, add_dependent}
use axiom_agent.Plan.Execution.{link_dependencies, link_dependents}
use axiom_agent.Plan.Order.Graph.{IsKeyed, id-lookup, insert-IsKeyed}

-- Each dependency between two tasks of the plan is known to the task that is depended on.
abbrev pub IsLinked : Dict Task → Type 0
IsLinked tasks =
    (a b : String) (t u : Task)
    → lookup a tasks ≡ some t
    → lookup b tasks ≡ some u
    → contains b t.dependencies ≡ true
    → contains a u.dependents ≡ true

abbrev pub on_some : (Task → Task) → Option Task → Option Task
on_some f none = none
on_some f (some t) = some (f t)

add_dependent_twice :
    (k : String) (t : Task) → add_dependent k (add_dependent k t) ≡ add_dependent k t
unfolding add_dependent contains
add_dependent_twice k t = ground (arith, contains-append k t.dependents (k ∷ []), eq_refl k)

pub contains-add_dependent :
    (j k : String) (t : Task)
    → contains j (add_dependent k t).dependents ≡ (str_eq j k || contains j t.dependents)
unfolding add_dependent contains
contains-add_dependent j k t = ground (arith, contains-append j t.dependents (k ∷ []), eq_iff j k)

-- What the first loop does to the task under `k`.
abbrev pub linked : String → List String → String → Task → Task
linked task_id deps k t = if contains k deps then add_dependent task_id t else t

pub lookup-link_dependencies :
    (task_id k : String) (deps : List String) (tasks : Dict Task)
    → lookup k (link_dependencies task_id deps tasks)
      ≡ on_some (linked task_id deps k) (lookup k tasks)
unfolding link_dependencies contains
lookup-link_dependencies task_id k [] tasks = elim (Option-cases (lookup k tasks)) [
  | inl e ↦ rw e
  | inr (t, e) ↦ rw e
]
lookup-link_dependencies task_id k (d ∷ ds) tasks = elim (Option-cases (lookup d tasks)) [
  | inl missing ↦
      rw missing (ground (arith, lookup-link_dependencies task_id k ds tasks, eq_iff k d))
  | inr (dep, found) ↦ rw found (
      ground (
        arith,
        lookup-link_dependencies task_id k ds (insert d (add_dependent task_id dep) tasks),
        lookup-insert k d (add_dependent task_id dep) tasks,
        eq_iff k d,
        eq_iff d k,
        add_dependent_twice task_id dep,
      ))
]

-- What the second loop adds to the task that was put in.
abbrev gather_one : String → Task → Task → Task
gather_one task_id u t = if contains task_id u.dependencies then add_dependent u.id t else t

pub gather : String → List Task → Task → Task
gather task_id [] t = t
gather task_id (u ∷ us) t = gather task_id us (gather_one task_id u t)

pub lookup-link_dependents :
    (task_id k : String) (ts : List Task) (tasks : Dict Task)
    → lookup k (link_dependents task_id ts tasks)
      ≡ (if str_eq task_id k then on_some (gather task_id ts) (lookup k tasks) else lookup k tasks)
unfolding link_dependents gather
lookup-link_dependents task_id k [] tasks = elim (Option-cases (lookup k tasks)) [
  | inl e ↦ rw e (ground arith)
  | inr (t, e) ↦ rw e (ground arith)
]
lookup-link_dependents task_id k (u ∷ us) tasks = elim (Option-cases (lookup task_id tasks)) [
  | inl missing ↦
      rw missing (ground (arith, lookup-link_dependents task_id k us tasks, eq_iff task_id k))
  | inr (t, found) ↦ elim (Bool-cases (contains task_id u.dependencies)) [
    | inl named ↦
        rw (found, named)
          (ground (
            arith,
            lookup-link_dependents task_id k us (insert task_id (add_dependent u.id t) tasks),
            lookup-insert k task_id (add_dependent u.id t) tasks,
            eq_iff task_id k,
          ))
    | inr other ↦
        rw (found, other)
          (ground (arith, lookup-link_dependents task_id k us tasks, eq_iff task_id k))
  ]
]

-- A task may be replaced by one with its id.
replace-IsKeyed :
    (k : String) (t u : Task) (tasks : Dict Task)
    → IsKeyed tasks
    → lookup k tasks ≡ some t
    → u.id ≡ t.id
    → IsKeyed (insert k u tasks)
replace-IsKeyed k t u tasks keyed found same =
    subst (λ j. IsKeyed (insert j u tasks)) (same ∙ id-lookup k t tasks keyed found)
      (insert-IsKeyed u tasks keyed)

pub dependencies-linked :
    (task_id : String) (deps : List String) (k : String) (t : Task)
    → (linked task_id deps k t).dependencies ≡ t.dependencies
unfolding add_dependent
dependencies-linked task_id deps k t = ground arith

pub dependencies-gather :
    (task_id : String) (ts : List Task) (t : Task)
    → (gather task_id ts t).dependencies ≡ t.dependencies
unfolding gather add_dependent
dependencies-gather task_id [] t = refl
dependencies-gather task_id (u ∷ us) t =
    dependencies-gather task_id us (gather_one task_id u t) ∙ ground arith

-- Nothing that a task knows of its dependents is lost.
pub dependents-linked :
    (j task_id : String) (deps : List String) (k : String) (t : Task)
    → contains j t.dependents ≡ true
    → contains j (linked task_id deps k t).dependents ≡ true
dependents-linked j task_id deps k t h = ground (arith, contains-add_dependent j task_id t)

pub dependents-gather :
    (j task_id : String) (ts : List Task) (t : Task)
    → contains j t.dependents ≡ true
    → contains j (gather task_id ts t).dependents ≡ true
unfolding gather
dependents-gather j task_id [] t h = h
dependents-gather j task_id (u ∷ us) t h =
    dependents-gather j task_id us (gather_one task_id u t)
      (ground (arith, contains-add_dependent j u.id t))

-- Every task that names the new one is gathered.
pub gather-values :
    (a task_id : String) (u : Task) (d : Dict Task) (t : Task)
    → IsKeyed d
    → lookup a d ≡ some u
    → contains task_id u.dependencies ≡ true
    → contains a (gather task_id (values d) t).dependents ≡ true
unfolding gather values lookup
gather-values a task_id u [] t keyed found named = cc
gather-values a task_id u ((j, w) ∷ d) t keyed found named = elim (Bool-cases (str_eq j a)) [
  | inl here ↦
      let same : w ≡ u = ground (arith, found, here) in
      let id_a : w.id ≡ a = ground (arith, keyed.0, here, eq_iff j a) in
      let names : contains task_id w.dependencies ≡ true =
        ap (λ (v : Task). contains task_id v.dependencies) same ∙ named in
      dependents-gather a task_id (values d) (gather_one task_id w t)
        (ground (arith, names, contains-add_dependent a w.id t, eq_iff a w.id))
  | inr other ↦
      gather-values a task_id u d (gather_one task_id w t) keyed.2 (ground (arith, found, other))
        named
]

pub link_dependencies-IsKeyed :
    (task_id : String) (deps : List String) (tasks : Dict Task)
    → IsKeyed tasks
    → IsKeyed (link_dependencies task_id deps tasks)
unfolding link_dependencies
link_dependencies-IsKeyed task_id [] tasks keyed = keyed
link_dependencies-IsKeyed task_id (d ∷ ds) tasks keyed = elim (Option-cases (lookup d tasks)) [
  | inl missing ↦ rw missing (link_dependencies-IsKeyed task_id ds tasks keyed)
  | inr (dep, found) ↦ rw found (
      link_dependencies-IsKeyed task_id ds (insert d (add_dependent task_id dep) tasks) (
        replace-IsKeyed d dep (add_dependent task_id dep) tasks keyed found
          (unfold add_dependent in ground arith)))
]

pub link_dependents-IsKeyed :
    (task_id : String) (ts : List Task) (tasks : Dict Task)
    → IsKeyed tasks
    → IsKeyed (link_dependents task_id ts tasks)
unfolding link_dependents
link_dependents-IsKeyed task_id [] tasks keyed = keyed
link_dependents-IsKeyed task_id (u ∷ us) tasks keyed = elim (Option-cases (lookup task_id tasks)) [
  | inl missing ↦ rw missing (link_dependents-IsKeyed task_id us tasks keyed)
  | inr (t, found) ↦ elim (Bool-cases (contains task_id u.dependencies)) [
    | inl named ↦
        rw (found, named)
          (link_dependents-IsKeyed task_id us (insert task_id (add_dependent u.id t) tasks) (
            replace-IsKeyed task_id t (add_dependent u.id t) tasks keyed found
              (unfold add_dependent in ground arith)))
    | inr other ↦ rw (found, other) (link_dependents-IsKeyed task_id us tasks keyed)
  ]
]
