-- ===== src/Plan/Order/Depth.antt =====
-- The recursion of `visit` is at most one deeper than the number of tasks.
use axiom_agent.Prelude.{
  ℕ, zero, suc, ◌≤◌, ◌<◌, String, ◌≡◌, ◌≢◌, refl, ◌∙◌, false, some, List, [], ◌∷◌, length, arith,
  contains, All, eq_iff, Bool-cases, Option-cases, inl, inr, if◌then◌else◌,
}
use axiom_agent.Dict.{Dict, lookup}
use axiom_agent.Plan.Task.{Task}
use axiom_agent.Plan.Order.{
  Marks, Visit, done, cyclic, out_of_fuel, ◌>>=◌, visit_all, visit, visit_roots, enter, leave,
}
use axiom_agent.Plan.Order.Graph.{IsKeyed, IsFound, id-lookup}
use axiom_agent.Plan.Order.Topological.{IsOrdered, VisitOk, visit-Extends}

-- The number of tasks that are not being visited.
idle_count : Dict Task → List String → ℕ
idle_count [] visiting = 0
idle_count ((k, _) ∷ d) visiting =
    let rest = idle_count d visiting in if contains k visiting then rest else suc rest

idle_count-le : (d : Dict Task) (v : List String) → idle_count d v ≤ length d
unfolding idle_count
idle_count-le [] v = omega arith
idle_count-le ((k, t) ∷ d) v = ground (arith, idle_count-le d v)

idle_count-cons_le :
    (j : String) (d : Dict Task) (v : List String) → idle_count d (j ∷ v) ≤ idle_count d v
unfolding idle_count contains
idle_count-cons_le j [] v = omega arith
idle_count-cons_le j ((k, t) ∷ d) v = ground (arith, idle_count-cons_le j d v)

-- One task more is being visited, so one less is not.
idle_count-cons_lt :
    (j : String) (t : Task) (d : Dict Task) (v : List String)
    → lookup j d ≡ some t
    → contains j v ≡ false
    → idle_count d (j ∷ v) < idle_count d v
unfolding idle_count contains lookup
idle_count-cons_lt j u [] v found idle = cc
idle_count-cons_lt j u ((k, t) ∷ d) v found idle =
    ground (arith, eq_iff k j, idle_count-cons_lt j u d v, idle_count-cons_le j d v)

bind-ne-out_of_fuel :
    (v : Visit) (f : Marks → Visit)
    → v ≢ out_of_fuel
    → ((m : Marks) → v ≡ done m → f m ≢ out_of_fuel)
    → (v >>= f) ≢ out_of_fuel
bind-ne-out_of_fuel (done m) f h k = k m refl
bind-ne-out_of_fuel cyclic f h k = ground arith
bind-ne-out_of_fuel out_of_fuel f h k = absurd (h refl)

module _ (tasks : Dict Task) (keyed : IsKeyed tasks) where
  abbrev Ends : List String → (Task → Marks → Visit) → Type 0
  Ends visiting visit_one =
      (t : Task) (m : Marks)
      → lookup t.id tasks ≡ some t
      → IsOrdered tasks m
      → m.visiting ≡ visiting
      → visit_one t m ≢ out_of_fuel

  visit_all-Ends :
      (visit_one : Task → Marks → Visit)
      → VisitOk tasks visit_one
      → (visiting : List String) → Ends visiting visit_one
      → (ids : List String) (m : Marks) → IsOrdered tasks m
      → m.visiting ≡ visiting
      → visit_all visit_one tasks ids m ≢ out_of_fuel
  unfolding visit_all
  visit_all-Ends visit_one good v ends [] m h open_ids = ground arith
  visit_all-Ends visit_one good v ends (d ∷ ids) m h open_ids =
      elim (Option-cases (lookup d tasks)) [
        | inl missing ↦ rw missing (visit_all-Ends visit_one good v ends ids m h open_ids)
        | inr (dep, found) ↦
            let key = id-lookup d dep tasks keyed found in
            let dep_at : lookup dep.id tasks ≡ some dep = simp key found in
            rw found (
              bind-ne-out_of_fuel (visit_one dep m) (visit_all visit_one tasks ids)
                (ends dep m dep_at h open_ids)
                (λ m₁ e.
                  let x = (good dep m m₁ dep_at h e).0 in
                  visit_all-Ends visit_one good v ends ids m₁ x.ordered (x.visiting ∙ open_ids)))
      ]

  visit-ends :
      (fuel : ℕ) (t : Task) (m : Marks)
      → lookup t.id tasks ≡ some t
      → IsOrdered tasks m
      → idle_count tasks m.visiting < fuel
      → visit fuel tasks t m ≢ out_of_fuel
  unfolding visit
  visit-ends zero t m found h enough = absurd (omega arith)
  visit-ends (suc fuel) t m found h enough = elim (Bool-cases (contains t.id m.visiting)) [
    | inl busy ↦ rw busy (ground arith)
    | inr idle ↦ elim (Bool-cases (contains t.id m.visited)) [
      | inl old ↦ rw (idle, old) (ground arith)
      | inr fresh ↦
          let inner : IsOrdered tasks (enter t.id m) = record {
            same = h.same;
            topological = h.topological;
            only_tasks = h.only_tasks;
          } in
          let less = idle_count-cons_lt t.id t tasks m.visiting found idle in
          rw (idle, fresh)
            (bind-ne-out_of_fuel (visit_all (visit fuel tasks) tasks t.dependencies (enter t.id m))
              (λ k. done (leave t.id k))
              (visit_all-Ends (visit fuel tasks) (visit-Extends tasks keyed fuel)
                (t.id ∷ m.visiting)
                (λ u k at_id hk same. visit-ends fuel u k at_id hk (rw same (omega arith)))
                t.dependencies (enter t.id m) inner refl)
              (λ k e. ground arith))
    ]
  ]

  pub visit_roots-ends :
      (fuel : ℕ) (ts : List Task) (m : Marks)
      → All (IsFound tasks) ts
      → IsOrdered tasks m
      → length tasks < fuel
      → visit_roots fuel tasks ts m ≢ out_of_fuel
  unfolding visit_roots
  visit_roots-ends fuel [] m found h enough = ground arith
  visit_roots-ends fuel (t ∷ ts) m (at_id, found) h enough =
      elim (Bool-cases (contains t.id m.visited)) [
        | inl old ↦ rw old (visit_roots-ends fuel ts m found h enough)
        | inr fresh ↦ rw fresh (
            bind-ne-out_of_fuel (visit fuel tasks t m) (visit_roots fuel tasks ts)
              (visit-ends fuel t m at_id h (omega (arith, idle_count-le tasks m.visiting)))
              (λ m₁ e.
                visit_roots-ends fuel ts m₁ found
                  (visit-Extends tasks keyed fuel t m m₁ at_id h e).0.ordered enough))
      ]
