-- ===== src/Plan/Execution/AddTask.antt =====
-- `add_task` of src/axiom/plan/models.py keeps the invariants of a plan's tasks.
use axiom_agent.Prelude.{
  String, ◌≡◌, refl, true, Option, none, some, arith, contains, Bool-cases, Option-cases, inl, inr,
  eq_iff, eq_refl, str_eq, if◌then◌else◌, ap, sym, ◌∙◌,
}
use axiom_agent.Dict.{Dict, lookup, insert, values, lookup-insert}
use axiom_agent.Plan.Task.{Task}
use axiom_agent.Plan.Execution.{ExecutionPlan, link_dependencies, link_dependents, add_task}
use axiom_agent.Plan.Execution.Links.{
  IsLinked, on_some, linked, gather, lookup-link_dependencies, lookup-link_dependents,
  contains-add_dependent, dependencies-linked, dependencies-gather, dependents-linked,
  dependents-gather, gather-values, link_dependencies-IsKeyed, link_dependents-IsKeyed,
}
use axiom_agent.Plan.Order.Graph.{IsKeyed, insert-IsKeyed}

-- Both invariants.
pub record IsPlan (plan : ExecutionPlan) : Type 0 where
  pub keyed : IsKeyed plan.tasks
  pub linked : IsLinked plan.tasks

on_some-eq_some :
    (f : Task → Task) (o : Option Task) {t : Task}
    → on_some f o ≡ some t
    → (t₀ : Task) × (o ≡ some t₀) × (f t₀ ≡ t)
on_some-eq_some f none h = cc
on_some-eq_some f (some t₀) h = (t₀, refl, cc)

module _ (task : Task) (tasks : Dict Task) (keyed : IsKeyed tasks) (known : IsLinked tasks) where
  abbrev put_in : Dict Task
  put_in = insert task.id task tasks

  abbrev forward : Dict Task
  forward = link_dependencies task.id task.dependencies put_in

  abbrev final : String → Task → Task
  final k t =
      let t' = linked task.id task.dependencies k t in
      if str_eq task.id k then gather task.id (values forward) t' else t'

  lookup-final :
      (k : String)
      → lookup k (link_dependents task.id (values forward) forward)
        ≡ on_some (final k) (lookup k put_in)
  lookup-final k =
      lookup-link_dependents task.id k (values forward) forward
      ∙ elim (Option-cases (lookup k put_in)) [
        | inl e ↦ ground (arith, e, lookup-link_dependencies task.id k task.dependencies put_in)
        | inr (t, e) ↦
            ground (arith, e, lookup-link_dependencies task.id k task.dependencies put_in)
      ]

  dependencies-final : (k : String) (t : Task) → (final k t).dependencies ≡ t.dependencies
  dependencies-final k t =
      let t' = linked task.id task.dependencies k t in
      ground (
        arith,
        dependencies-gather task.id (values forward) t',
        dependencies-linked task.id task.dependencies k t,
      )

  dependents-final :
      (j k : String) (t : Task)
      → contains j t.dependents ≡ true
      → contains j (final k t).dependents ≡ true
  dependents-final j k t h =
      let t' = linked task.id task.dependencies k t in
      ground (
        arith,
        dependents-gather j task.id (values forward) t',
        dependents-linked j task.id task.dependencies k t h,
      )

  forward-IsKeyed : IsKeyed forward
  forward-IsKeyed =
      link_dependencies-IsKeyed task.id task.dependencies put_in (insert-IsKeyed task tasks keyed)

  -- The three ways in which a dependency can touch the new task.
  put_in-linked :
      (a b : String) (t u : Task)
      → lookup a put_in ≡ some t
      → lookup b put_in ≡ some u
      → contains b t.dependencies ≡ true
      → contains a (final b u).dependents ≡ true
  put_in-linked a b t u ea eb n = elim (Bool-cases (str_eq task.id b)) [
    | inl to_new ↦
        let t' = linked task.id task.dependencies a t in
        let at_a : lookup a forward ≡ some t' =
          lookup-link_dependencies task.id a task.dependencies put_in
          ∙ ap (on_some (linked task.id task.dependencies a)) ea in
        let named : contains task.id t'.dependencies ≡ true =
          ground (
            arith,
            n,
            dependencies-linked task.id task.dependencies a t,
            to_new,
            eq_iff task.id b,
          ) in
        ground (
          arith,
          to_new,
          gather-values a task.id t' forward (linked task.id task.dependencies b u) forward-IsKeyed
              at_a named,
        )
    | inr to_old ↦ elim (Bool-cases (str_eq task.id a)) [
      | inl from_new ↦ ground (
        arith,
        to_old,
        from_new,
        n,
        ea,
        lookup-insert a task.id task tasks,
        eq_iff task.id a,
        eq_refl task.id,
        contains-add_dependent a task.id u,
      )
      | inr from_old ↦ dependents-final a b u (
          known a b t u (ground (arith, from_old, ea, lookup-insert a task.id task tasks))
            (ground (arith, to_old, eb, lookup-insert b task.id task tasks)) n)
    ]
  ]

  tasks-IsLinked : IsLinked (link_dependents task.id (values forward) forward)
  tasks-IsLinked a b t u ea eb n =
      let (t₀, ea₀, ft) = on_some-eq_some (final a) (lookup a put_in) (sym (lookup-final a) ∙ ea) in
      let (u₀, eb₀, fu) = on_some-eq_some (final b) (lookup b put_in) (sym (lookup-final b) ∙ eb) in
      let named : contains b t₀.dependencies ≡ true =
        ap (contains b) (sym (dependencies-final a t₀) ∙ ap (λ (v : Task). v.dependencies) ft)
        ∙ n in
      ap (λ (v : Task). contains a v.dependents) (sym fu) ∙ put_in-linked a b t₀ u₀ ea₀ eb₀ named

-- A task that is added, or put in the place of another, keeps the plan's tasks under their own ids
-- and every dependency between two of them known to the one that is depended on.
pub add_task-IsPlan :
    (task : Task) (plan : ExecutionPlan) → IsPlan plan → IsPlan (add_task task plan)
unfolding add_task
add_task-IsPlan task plan h = record {
  keyed =
      link_dependents-IsKeyed task.id (values (forward task plan.tasks h.keyed h.linked))
        (forward task plan.tasks h.keyed h.linked)
        (forward-IsKeyed task plan.tasks h.keyed h.linked);
  linked = tasks-IsLinked task plan.tasks h.keyed h.linked;
}
