-- ===== src/Plan/Order/Cycles.antt =====
-- A search that meets a task being visited has found a cycle.
use axiom_agent.Prelude.{
  ℕ, zero, suc, String, ◌≡◌, refl, true, some, List, [], ◌∷◌, arith, contains, All, eq_iff, eq_refl,
  Bool-cases, Option-cases, inl, inr, subst, ◌⊎◌, sym, ap, ◌∙◌,
}
use axiom_agent.Dict.{Dict, lookup}
use axiom_agent.Plan.Task.{Task}
use axiom_agent.Plan.Order.{
  Marks, Visit, done, cyclic, out_of_fuel, ◌>>=◌, visit_all, visit, visit_roots, enter, leave,
}
use axiom_agent.Plan.Order.Graph.{IsKeyed, Depends, edge, Reaches, one, more, IsFound, id-lookup}
use axiom_agent.Plan.Order.Topological.{IsOrdered, VisitOk, visit-Extends}

-- Some task depends on itself, at a distance.
abbrev pub HasCycle : Dict Task → Type 0
HasCycle tasks = (k : String) × Reaches tasks k k

bind-cyclic :
    (v : Visit) (f : Marks → Visit)
    → (v >>= f) ≡ cyclic
    → (v ≡ cyclic) ⊎ ((m : Marks) × (v ≡ done m) × (f m ≡ cyclic))
bind-cyclic (done m) f h = inr (m, refl, h)
bind-cyclic cyclic f h = inl refl
bind-cyclic out_of_fuel f h = cc

module _ (tasks : Dict Task) where
  -- Every task being visited reaches `k`.
  abbrev LeadTo : Marks → String → Type 0
  LeadTo m k = (a : String) → contains a m.visiting ≡ true → Reaches tasks a k

  abbrev FindsCycle : (Task → Marks → Visit) → Type 0
  FindsCycle visit_one =
      (t : Task) (m : Marks)
      → lookup t.id tasks ≡ some t
      → IsOrdered tasks m
      → LeadTo m t.id
      → visit_one t m ≡ cyclic
      → HasCycle tasks

  module _ (keyed : IsKeyed tasks) where
    visit_all-HasCycle :
        (visit_one : Task → Marks → Visit)
        → VisitOk tasks visit_one
        → FindsCycle visit_one
        → (t : Task) (ids : List String) (m : Marks) → lookup t.id tasks ≡ some t
        → ((b : String) → contains b ids ≡ true → contains b t.dependencies ≡ true)
        → IsOrdered tasks m
        → ((a : String) (b : String)
            → contains a m.visiting ≡ true
            → Depends tasks t.id b
            → Reaches tasks a b)
        → visit_all visit_one tasks ids m ≡ cyclic
        → HasCycle tasks
    unfolding visit_all contains
    visit_all-HasCycle visit_one good finds t [] m at_id within h lead e = cc
    visit_all-HasCycle visit_one good finds t (d ∷ ids) m at_id within h lead e =
        elim (Option-cases (lookup d tasks)) [
          | inl missing ↦
              visit_all-HasCycle visit_one good finds t ids m at_id (λ b i. within b (ground arith))
                h lead (rw missing at e)
          | inr (dep, found) ↦
              let key = id-lookup d dep tasks keyed found in
              let dep_at : lookup dep.id tasks ≡ some dep = simp key found in
              let named : contains dep.id t.dependencies ≡ true =
                simp key (within d (ground (arith, eq_refl d))) in
              elim (bind-cyclic (visit_one dep m) (visit_all visit_one tasks ids) (rw found at e)) [
                | inl here ↦
                    finds dep m dep_at h (λ a i. lead a dep.id i (edge t dep at_id named dep_at))
                      here
                | inr (m₁, e₁, e₂) ↦
                    let x = (good dep m m₁ dep_at h e₁).0 in
                    visit_all-HasCycle visit_one good finds t ids m₁ at_id
                      (λ b i. within b (ground arith)) x.ordered
                      (λ a b i dpd. lead a b (ap (contains a) (sym x.visiting) ∙ i) dpd) e₂
              ]
        ]

    visit-HasCycle : (fuel : ℕ) → FindsCycle (visit fuel tasks)
    unfolding visit contains
    visit-HasCycle zero t m found h lead e = cc
    visit-HasCycle (suc fuel) t m found h lead e = elim (Bool-cases (contains t.id m.visiting)) [
      | inl busy ↦ (t.id, lead t.id busy)
      | inr idle ↦ elim (Bool-cases (contains t.id m.visited)) [
        | inl old ↦ absurd (ground (arith, e, idle, old))
        | inr fresh ↦
            let inner : IsOrdered tasks (enter t.id m) = record {
              same = h.same;
              topological = h.topological;
              only_tasks = h.only_tasks;
            } in
            visit_all-HasCycle (visit fuel tasks) (visit-Extends tasks keyed fuel)
              (visit-HasCycle fuel) t t.dependencies (enter t.id m) found (λ b i. i) inner
              (λ a b i d. elim (Bool-cases (contains a m.visiting)) [
                | inl outer ↦ more (lead a outer) d
                | inr last ↦
                    let same : a ≡ t.id = ground (arith, i, last, eq_iff a t.id) in
                    subst (λ k. Reaches tasks k b) (sym same) (one d)
              ])
              (inner_cyclic (visit_all (visit fuel tasks) tasks t.dependencies (enter t.id m))
                (rw (idle, fresh) at e))
      ]
    ]
      where
        inner_cyclic : (v : Visit) → (v >>= λ k. done (leave t.id k)) ≡ cyclic → v ≡ cyclic
        inner_cyclic (done k) p = cc
        inner_cyclic cyclic p = refl
        inner_cyclic out_of_fuel p = cc

    pub visit_roots-HasCycle :
        (fuel : ℕ) (ts : List Task) (m : Marks)
        → All (IsFound tasks) ts
        → IsOrdered tasks m
        → m.visiting ≡ []
        → visit_roots fuel tasks ts m ≡ cyclic
        → HasCycle tasks
    unfolding visit_roots contains
    visit_roots-HasCycle fuel [] m found h none_open e = cc
    visit_roots-HasCycle fuel (t ∷ ts) m (at_id, found) h none_open e =
        elim (Bool-cases (contains t.id m.visited)) [
          | inl old ↦ visit_roots-HasCycle fuel ts m found h none_open (rw old at e)
          | inr fresh ↦
              elim (bind-cyclic (visit fuel tasks t m) (visit_roots fuel tasks ts)
                (rw fresh at e)) [
                  | inl here ↦
                      visit-HasCycle fuel t m at_id h
                        (λ a i. absurd (ground (arith, ap (contains a) none_open, i))) here
                  | inr (m₁, e₁, e₂) ↦
                      let x = (visit-Extends tasks keyed fuel t m m₁ at_id h e₁).0 in
                      visit_roots-HasCycle fuel ts m₁ found x.ordered (x.visiting ∙ none_open) e₂
                ]
        ]
