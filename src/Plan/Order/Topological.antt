-- ===== src/Plan/Order/Topological.antt =====
-- A search that ends well leaves the tasks in a topological order.
use axiom_agent.Prelude.{
  ℕ, zero, suc, String, ◌≡◌, refl, ◌∙◌, ap, true, false, some, List, [], ◌∷◌, arith, contains,
  contains-append, remove, remove_absent, All, eq_iff, eq_refl, Bool-cases, Option-cases, inl, inr,
  if◌then◌else◌, is_some,
}
use axiom_agent.Dict.{Dict, lookup}
use axiom_agent.Plan.Task.{Task}
use axiom_agent.Plan.Order.{
  Marks, Visit, done, cyclic, out_of_fuel, ◌>>=◌, visit_all, visit, visit_roots, enter, leave,
}
use axiom_agent.Plan.Order.Graph.{
  IsKeyed, Depends, edge, IsTopological, IsFound, append-IsTopological, id-lookup,
}

pub record IsOrdered (tasks : Dict Task) (m : Marks) : Type 0 where
  pub same : (k : String) → contains k m.visited ≡ contains k m.order
  pub topological : IsTopological tasks [] m.order
  pub only_tasks : (k : String) → contains k m.order ≡ true → is_some (lookup k tasks) ≡ true

-- What a search from `m` to `m'` does to the marks.
pub record Extends (tasks : Dict Task) (m m' : Marks) : Type 0 where
  pub ordered : IsOrdered tasks m'
  pub visiting : m'.visiting ≡ m.visiting
  pub grows : (k : String) → contains k m.visited ≡ true → contains k m'.visited ≡ true
  pub spares :
      (k : String) → contains k m.visiting ≡ true → contains k m'.visited ≡ contains k m.visited

pub bind-done :
    (v : Visit) (f : Marks → Visit) {m' : Marks}
    → (v >>= f) ≡ done m'
    → (m : Marks) × (v ≡ done m) × (f m ≡ done m')
bind-done (done m) f h = (m, refl, h)
bind-done cyclic f h = cc
bind-done out_of_fuel f h = cc

pub Extends-refl : (tasks : Dict Task) (m : Marks) → IsOrdered tasks m → Extends tasks m m
Extends-refl tasks m h = record {
  ordered = h;
  visiting = refl;
  grows = λ k e. e;
  spares = λ k e. refl;
}

Extends-trans :
    (tasks : Dict Task) (m m' m'' : Marks)
    → Extends tasks m m'
    → Extends tasks m' m''
    → Extends tasks m m''
Extends-trans tasks m m' m'' a b = record {
  ordered = b.ordered;
  visiting = b.visiting ∙ a.visiting;
  grows = λ k e. b.grows k (a.grows k e);
  spares = λ k e. b.spares k (ap (contains k) a.visiting ∙ e) ∙ a.spares k e;
}

-- What is asked of a visit of one task.
abbrev pub VisitOk : Dict Task → (Task → Marks → Visit) → Type 0
VisitOk tasks visit_one =
    (t : Task) (m m' : Marks)
    → lookup t.id tasks ≡ some t
    → IsOrdered tasks m
    → visit_one t m ≡ done m'
    → Extends tasks m m' × (contains t.id m'.visited ≡ true)

-- Every task that is listed has been visited.
abbrev pub AreVisited : Dict Task → List String → Marks → Type 0
AreVisited tasks ids m =
    (b : String) (t : Task)
    → contains b ids ≡ true
    → lookup b tasks ≡ some t
    → contains b m.visited ≡ true

module _ (tasks : Dict Task) (keyed : IsKeyed tasks) where
  visit_all-Extends :
      (visit_one : Task → Marks → Visit)
      → VisitOk tasks visit_one
      → (ids : List String) (m m' : Marks) → IsOrdered tasks m
      → visit_all visit_one tasks ids m ≡ done m'
      → Extends tasks m m' × AreVisited tasks ids m'
  unfolding visit_all contains
  visit_all-Extends visit_one good [] m m' h e =
      let same : m' ≡ m = cc in (rw same (Extends-refl tasks m h), λ b t i _. cc)
  visit_all-Extends visit_one good (d ∷ ids) m m' h e = elim (Option-cases (lookup d tasks)) [
    | inl missing ↦
        let r = visit_all-Extends visit_one good ids m m' h (rw missing at e) in
        (r.0, λ b t i f. ground (arith, eq_iff b d, r.1 b t))
    | inr (dep, found) ↦
        let (m₁, e₁, e₂) =
          bind-done (visit_one dep m) (visit_all visit_one tasks ids) (rw found at e) in
        let key = id-lookup d dep tasks keyed found in
        let first = good dep m m₁ (simp key found) h e₁ in
        let r = visit_all-Extends visit_one good ids m₁ m' first.0.ordered e₂ in
        (
          Extends-trans tasks m m₁ m' first.0 r.0,
          λ b t i f. ground (arith, eq_iff b d, r.1 b t, r.0.grows b, first.1, key),
        )
  ]

  leave-Extends :
      (t : Task) (m m₁ : Marks)
      → lookup t.id tasks ≡ some t
      → contains t.id m.visiting ≡ false
      → contains t.id m.visited ≡ false
      → Extends tasks (enter t.id m) m₁
      → AreVisited tasks t.dependencies m₁
      → Extends tasks m (leave t.id m₁) × (contains t.id (leave t.id m₁).visited ≡ true)
  unfolding contains remove
  leave-Extends t m m₁ found idle fresh x deps = (
    record {
      ordered = record {
        same = λ k. rw contains-append (ground (arith, x.ordered.same k));
        topological =
            append-IsTopological tasks [] m₁.order t.id x.ordered.topological refl
              (ground (arith, x.ordered.same t.id, x.spares t.id, eq_refl t.id))
              (λ b d. ground (arith, x.ordered.same b, settled b d));
        only_tasks =
            λ k. rw contains-append (ground (arith, x.ordered.only_tasks k, eq_iff k t.id));
      };
      visiting = rw x.visiting (ground (arith, eq_refl t.id, remove_absent t.id m.visiting));
      grows = λ k e. ground (arith, x.grows k);
      spares = λ k e. ground (arith, x.spares k, eq_iff k t.id);
    },
    ground (arith, eq_refl t.id),
  )
    where
      settled : (b : String) → Depends tasks t.id b → contains b m₁.visited ≡ true
      settled b (edge u dep at_id named is_task) =
          deps b dep (ground (arith, at_id, found, named)) is_task

  pub visit-Extends : (fuel : ℕ) → VisitOk tasks (visit fuel tasks)
  unfolding visit
  visit-Extends zero t m m' found h e = cc
  visit-Extends (suc fuel) t m m' found h e = elim (Bool-cases (contains t.id m.visiting)) [
    | inl busy ↦ absurd (ground (arith, e, busy))
    | inr idle ↦ elim (Bool-cases (contains t.id m.visited)) [
      | inl old ↦
          let same : m' ≡ m = ground (arith, e, idle, old) in rw same (Extends-refl tasks m h, old)
      | inr fresh ↦
          let (m₁, e₁, e₂) =
            bind-done (visit_all (visit fuel tasks) tasks t.dependencies (enter t.id m))
              (λ k. done (leave t.id k)) (rw (idle, fresh) at e) in
          let inner : IsOrdered tasks (enter t.id m) = record {
            same = h.same;
            topological = h.topological;
            only_tasks = h.only_tasks;
          } in
          let r =
            visit_all-Extends (visit fuel tasks) (visit-Extends fuel) t.dependencies (enter t.id m)
              m₁ inner e₁ in
          let same : leave t.id m₁ ≡ m' = cc in
          rw (← same) (leave-Extends t m m₁ found idle fresh r.0 r.1)
    ]
  ]

  -- Every root that the loop has passed has been visited.
  pub visit_roots-Extends :
      (fuel : ℕ) (ts : List Task) (m m' : Marks)
      → All (IsFound tasks) ts
      → IsOrdered tasks m
      → visit_roots fuel tasks ts m ≡ done m'
      → Extends tasks m m' × All (λ t. contains t.id m'.visited ≡ true) ts
  unfolding visit_roots
  visit_roots-Extends fuel [] m m' found h e =
      let same : m' ≡ m = cc in (rw same (Extends-refl tasks m h), tt)
  visit_roots-Extends fuel (t ∷ ts) m m' (at_id, found) h e =
      let (m₁, e₁, e₂) =
        bind-done (if contains t.id m.visited then done m else visit fuel tasks t m)
          (visit_roots fuel tasks ts) e in
      let first = root m₁ e₁ in
      let r = visit_roots-Extends fuel ts m₁ m' found first.0.ordered e₂ in
      (Extends-trans tasks m m₁ m' first.0 r.0, (r.0.grows t.id first.1, r.1))
    where
      root :
          (m₁ : Marks)
          → (if contains t.id m.visited then done m else visit fuel tasks t m) ≡ done m₁
          → Extends tasks m m₁ × (contains t.id m₁.visited ≡ true)
      root m₁ e₁ = elim (Bool-cases (contains t.id m.visited)) [
        | inl old ↦
            let same : m₁ ≡ m = ground (arith, e₁, old) in rw same (Extends-refl tasks m h, old)
        | inr fresh ↦ visit-Extends fuel t m m₁ at_id h (rw fresh at e₁)
      ]
