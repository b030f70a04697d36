-- ===== src/Distributed/Ancestors.antt =====
-- The recursive query `_ANCESTORS_NOT_CANCELLED` of src/axiom/runtime/postgres.py against the chains of
-- parents that it is for.
use axiom_agent.Prelude.{
  ℕ, zero, suc, ◌≤◌, ◌<◌, String, ◌≡◌, ◌↔◌, sym, subst, Bool, true, false, Option, none, some, [],
  ◌∷◌, any, length, ◌⊎◌, inl, inr, arith, str_eq, eq_iff, Bool-cases, Option-cases,
}
use axiom_agent.Dict.{Dict, lookup, delete, lookup-delete}
use axiom_agent.Distributed.Rows.{Row, ancestors, ancestors_not_cancelled, is_cancelled}

length-delete_le {ℓ} : {V : Type ℓ} (k : String) (d : Dict V) → length (delete k d) ≤ length d
unfolding delete
length-delete_le k [] = omega arith
length-delete_le k ((j, v) ∷ d) = ground (arith, length-delete_le k d)

length-delete {ℓ} :
    {V : Type ℓ} (k : String) (v : V) (d : Dict V)
    → lookup k d ≡ some v
    → length (delete k d) < length d
unfolding lookup delete
length-delete k v [] e = absurd (ground (arith, e))
length-delete k v ((j, w) ∷ d) e = elim (Bool-cases (str_eq j k)) [
  | inl same ↦ ground (arith, same, length-delete_le k d)
  | inr other ↦ ground (arith, other, length-delete k v d (ground (arith, other, e)))
]

module _ {Body : Type 0} where
  -- The row is the n-th parent after the one that is named.
  pub data Reaches (runs : Dict (Row Body)) : ℕ → Option String → Row Body → Type 0 where
    here : {k : String} {r : Row Body} → lookup k runs ≡ some r → Reaches runs 0 (some k) r
    above :
        {n : ℕ} {k : String} {row r : Row Body}
        → lookup k runs ≡ some row
        → Reaches runs n row.parent_run_id r
        → Reaches runs (suc n) (some k) r

  lookup-delete_other :
      (j k : String) (row : Row Body) (runs : Dict (Row Body))
      → str_eq k j ≡ false
      → lookup j runs ≡ some row
      → lookup j (delete k runs) ≡ some row
  lookup-delete_other j k row runs other e = ground (arith, other, e, lookup-delete j k runs)

  -- A chain that avoids k is one without the row of k; one that does not has an end that starts there.
  Reaches-delete :
      (k : String) (runs : Dict (Row Body)) {n : ℕ} {p : Option String} {r : Row Body}
      → Reaches runs n p r
      → Reaches (delete k runs) n p r ⊎ ((m : ℕ) × (m ≤ n) × Reaches runs m (some k) r)
  Reaches-delete k runs (here {k = j} {r = r} e) = elim (Bool-cases (str_eq k j)) [
    | inl same ↦
        let eq : k ≡ j = ground (arith, eq_iff k j, same) in
        inr (0, omega arith, here (subst (λ x. lookup x runs ≡ some r) (sym eq) e))
    | inr other ↦ inl (here (lookup-delete_other j k r runs other e))
  ]
  Reaches-delete k runs (above {n = n} {k = j} {row = row} {r = r} e rest) =
      elim (Bool-cases (str_eq k j)) [
        | inl same ↦
            let eq : k ≡ j = ground (arith, eq_iff k j, same) in
            inr (suc n, omega arith, above (subst (λ x. lookup x runs ≡ some row) (sym eq) e) rest)
        | inr other ↦ elim (Reaches-delete k runs rest) [
          | inl avoids ↦ inl (above (lookup-delete_other j k row runs other e) avoids)
          | inr (m, le, suffix) ↦ inr (m, omega (arith, le), suffix)
        ]
      ]

  Reaches-lookup :
      (k : String) (runs : Dict (Row Body)) {n : ℕ} {p : Option String} {r : Row Body}
      → Reaches (delete k runs) n p r
      → Reaches runs n p r
  Reaches-lookup k runs (here {k = j} {r = r} e) = here (ground (arith, e, lookup-delete j k runs))
  Reaches-lookup k runs (above {n = n} {k = j} {row = row} e rest) =
      above {row = row} (ground (arith, e, lookup-delete j k runs)) (Reaches-lookup k runs rest)

  any-ancestors :
      (test : Row Body → Bool) (bound fuel n : ℕ) (runs : Dict (Row Body)) (p : Option String)
      (r : Row Body)
      → n < bound
      → length runs ≤ fuel
      → Reaches runs n p r
      → test r ≡ true
      → any test (ancestors fuel runs p) ≡ true
  unfolding ancestors
  any-ancestors test zero fuel n runs p r lt le path pass = absurd (omega (arith, lt))
  any-ancestors test (suc bound) zero n runs p r lt le (here {k = k} e) pass =
      absurd (omega (arith, le, length-delete k r runs e))
  any-ancestors test (suc bound) zero n runs p r lt le (above {k = k} {row = row} e path) pass =
      absurd (omega (arith, le, length-delete k row runs e))
  any-ancestors test (suc bound) (suc fuel) n runs p r lt le (here e) pass = ground (arith, e, pass)
  any-ancestors test (suc bound) (suc fuel) n runs p r lt le
        (above {n = m} {k = k} {row = row} e path) pass =
      elim (Reaches-delete k runs path) [
        | inl avoids ↦ ground (
          arith,
          e,
          any-ancestors test bound fuel m (delete k runs) row.parent_run_id r (omega (arith, lt))
              (omega (arith, le, length-delete k row runs e)) avoids pass,
        )
        | inr (i, short, suffix) ↦
            any-ancestors test bound (suc fuel) i runs (some k) r (omega (arith, lt, short)) le
              suffix pass
      ]

  ancestors-any :
      (test : Row Body → Bool) (fuel : ℕ) (runs : Dict (Row Body)) (p : Option String)
      → any test (ancestors fuel runs p) ≡ true
      → (n : ℕ) × (r : Row Body) × Reaches runs n p r × (test r ≡ true)
  unfolding ancestors
  ancestors-any test zero runs p h = absurd (ground (arith, h))
  ancestors-any test (suc fuel) runs none h = absurd (ground (arith, h))
  ancestors-any test (suc fuel) runs (some k) h = elim (Option-cases (lookup k runs)) [
    | inl absent ↦ absurd (ground (arith, absent, h))
    | inr (row, there) ↦ elim (Bool-cases (test row)) [
      | inl pass ↦ (0, row, here there, pass)
      | inr fail ↦
          let (n, r, path, pass) =
            ancestors-any test fuel (delete k runs) row.parent_run_id
              (ground (arith, there, h, fail)) in
          (suc n, r, above there (Reaches-lookup k runs path), pass)
    ]
  ]

  -- The query, which ends in the model also over a cycle, finds a cancelled row exactly where the chain
  -- of parents, of any length and cyclic or not, has one.
  pub ancestors_not_cancelled-Reaches :
      (runs : Dict (Row Body)) (row : Row Body)
      → (ancestors_not_cancelled runs row ≡ false) ↔ (
          (n : ℕ) × (r : Row Body) × Reaches runs n row.parent_run_id r
          × (is_cancelled r.status ≡ true))
  unfolding ancestors_not_cancelled
  ancestors_not_cancelled-Reaches runs row = (
    λ h.
        ancestors-any (λ a. is_cancelled a.status) (length runs) runs row.parent_run_id
          (ground (arith, h)),
    λ (n, r, path, pass). ground (
      arith,
      any-ancestors (λ a. is_cancelled a.status) (suc n) (length runs) n runs row.parent_run_id r
          (omega arith) (omega arith) path pass,
    ),
  )
