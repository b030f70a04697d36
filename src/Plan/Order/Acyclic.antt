-- ===== src/Plan/Order/Acyclic.antt =====
-- A topological order leaves no room for a cycle: positions fall along the edges.
use axiom_agent.Prelude.{
  ℕ, suc, ◌<◌, String, ◌≡◌, true, ◌⊎◌, inl, inr, List, [], ◌∷◌, arith, contains, str_eq, eq_iff,
  subst, some, Bool-cases, if◌then◌else◌,
}
use axiom_agent.Dict.{Dict, lookup}
use axiom_agent.Plan.Task.{Task}
use axiom_agent.Plan.Order.Graph.{Depends, edge, Reaches, one, more, IsTopological}

-- How many ids stand before the first `k`.
index_of : String → List String → ℕ
index_of k [] = 0
index_of k (x ∷ xs) = if str_eq k x then 0 else suc (index_of k xs)

module _ (tasks : Dict Task) where
  before :
      (seen xs : List String) (a b : String)
      → IsTopological tasks seen xs
      → Depends tasks a b
      → contains a xs ≡ true
      → (contains b seen ≡ true) ⊎ (index_of b xs < index_of a xs)
  unfolding contains index_of
  before seen [] a b h d i = cc
  before seen (x ∷ xs) a b h d i = elim (Bool-cases (str_eq a x)) [
    | inl same ↦ inl (h.1 b (subst (λ k. Depends tasks k b) ((eq_iff a x).0 same) d))
    | inr other ↦ ground (arith, other, before (x ∷ seen) xs a b h.2 d, eq_iff b x)
  ]

  module _ (order : List String) (topological : IsTopological tasks [] order) where
    Depends-index_of :
        (a b : String)
        → Depends tasks a b
        → contains a order ≡ true
        → index_of b order < index_of a order
    unfolding contains
    Depends-index_of a b d i = ground (arith, before [] order a b topological d i)

    Reaches-index_of :
        (all_in : (k : String) (t : Task) → lookup k tasks ≡ some t → contains k order ≡ true)
        (a b : String)
        → Reaches tasks a b
        → contains a order ≡ true
        → (index_of b order < index_of a order) × (contains b order ≡ true)
    Reaches-index_of all_in a b (one (edge t dep p q r)) i =
        (Depends-index_of a b (edge t dep p q r) i, all_in b dep r)
    Reaches-index_of all_in a c (more {b} path (edge t dep p q r)) i =
        let (less, there) = Reaches-index_of all_in a b path i in
        (omega (arith, less, Depends-index_of b c (edge t dep p q r) there), all_in c dep r)

    -- With every task in the order there is no path from a task to itself.
    pub no_cycle :
        ((k : String) (t : Task) → lookup k tasks ≡ some t → contains k order ≡ true)
        → (k : String) → ¬ Reaches tasks k k
    no_cycle all_in k path =
        absurd (omega (arith, (Reaches-index_of all_in k k path (start path)).0))
      where
        start : {b : String} → Reaches tasks k b → contains k order ≡ true
        start (one (edge t dep p q r)) = all_in k t p
        start (more path' d) = start path'
