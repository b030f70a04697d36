-- ===== src/Distributed/Capacity.antt =====
-- What a successful claim of src/axiom/runtime/postgres.py gives, and the limits that it respects.
use axiom_agent.Prelude.{
  ℕ, ◌+◌, ◌≤◌, ◌<◌, String, ◌≡◌, refl, Bool, false, Option, none, some, [], ◌∷◌, ltb, arith,
  Bool-cases, Option-cases, inl, inr, if◌then◌else◌,
}
use axiom_agent.Dict.{Dict, lookup, insert, keys}
use axiom_agent.Distributed.Rows.{Row, Database, is_active, count_rows, active_count}
use axiom_agent.Distributed.Claims.{
  delivery_is_exhausted, claimed_row, exhausted_row, claim_locked_candidate, claim_candidate,
  no_candidate, claim_run, mark_delivery_exhausted, wake_parent, set_runnable, update_where,
}
use axiom_agent.Distributed.Queue.{Aging, candidates, first_of, comes_before, claim_next}
use axiom_agent.Distributed.Refinement.Next.{IsCandidate, candidates-AreCandidates, first_of-All}

abbrev one_if : Bool → ℕ
one_if b = if b then 1 else 0

module _ {Body : Type 0} where
  count_rows-insert :
      (p : Row Body → Bool) (k : String) (old new : Row Body) (runs : Dict (Row Body))
      → lookup k runs ≡ some old
      → count_rows p (insert k new runs) + one_if (p old) ≡ count_rows p runs + one_if (p new)
  unfolding count_rows lookup insert
  count_rows-insert p k old new [] e = absurd (ground (arith, e))
  count_rows-insert p k old new ((j, row) ∷ runs) e =
      ground (arith, e, count_rows-insert p k old new runs)

  -- Waking a parent does not change what is active.
  wake_parent-count :
      (now : ℕ) (parent : Option String) (runs : Dict (Row Body))
      → active_count now (wake_parent set_runnable parent runs) ≡ active_count now runs
  unfolding active_count is_active update_where
  wake_parent-count now none runs = refl
  wake_parent-count now (some k) runs = elim (Option-cases (lookup k runs)) [
    | inl absent ↦ ground (arith, absent)
    | inr (old, there) ↦
        ground (arith, there, count_rows-insert (is_active now) k old (set_runnable old) runs there)
  ]

  exhausted_row-is_active :
      (now : ℕ) (row : Row Body) → is_active now (exhausted_row now row) ≡ false
  unfolding is_active exhausted_row
  exhausted_row-is_active now row = refl

  mark_delivery_exhausted-active :
      (now : ℕ) (k : String) (row : Row Body) (db : Database Body)
      → lookup k db.runs ≡ some row
      → active_count now (mark_delivery_exhausted now k row db).runs ≤ active_count now db.runs
  unfolding mark_delivery_exhausted active_count
  mark_delivery_exhausted-active now k row db there =
      let runs' = insert k (exhausted_row now row) db.runs in
      ground (
        arith,
        wake_parent-count now row.parent_run_id runs',
        count_rows-insert (is_active now) k row (exhausted_row now row) db.runs there,
        exhausted_row-is_active now row,
      )

  insert-active :
      (now limit : ℕ) (k : String) (old new : Row Body) (runs : Dict (Row Body))
      → lookup k runs ≡ some old
      → active_count now runs < limit
      → active_count now (insert k new runs) ≤ limit
  unfolding active_count
  insert-active now limit k old new runs there lt =
      ground (arith, lt, count_rows-insert (is_active now) k old new runs there)

  claim_candidate-active :
      (now : ℕ) (worker : String) (seconds limit : ℕ) (max_attempts : Option ℕ) (k : String)
      (row : Row Body) (db : Database Body)
      → lookup k db.runs ≡ some row
      → active_count now db.runs ≤ limit
      → active_count now
          (claim_candidate now worker seconds (some limit) max_attempts k row db).1.runs
        ≤ limit
  unfolding claim_candidate claim_locked_candidate
  claim_candidate-active now worker seconds limit max_attempts k row db there le =
      elim (Bool-cases (delivery_is_exhausted row max_attempts)) [
        | inl done ↦ ground (arith, done, le, mark_delivery_exhausted-active now k row db there)
        | inr more ↦ elim (Bool-cases (ltb (active_count now db.runs) limit)) [
          | inl room ↦ ground (
            arith,
            more,
            room,
            insert-active now limit k row (claimed_row now worker seconds row) db.runs there,
          )
          | inr full ↦ ground (arith, more, full, le)
        ]
      ]

  -- A principal's limit is tested against the rows of one principal, the store's against all.
  claim_run-active :
      (now : ℕ) (k worker : String) (seconds limit : ℕ) (max_attempts max_principal : Option ℕ)
      (db : Database Body)
      → active_count now db.runs ≤ limit
      → active_count now
          (claim_run now k worker seconds (some limit) max_attempts max_principal db).1.runs
        ≤ limit
  unfolding claim_run no_candidate
  claim_run-active now k worker seconds limit max_attempts max_principal db le =
      elim (Option-cases (lookup k db.runs)) [
        | inl absent ↦ ground (arith, absent, le)
        | inr (row, there) ↦ ground (
          arith,
          there,
          le,
          claim_candidate-active now worker seconds limit max_attempts k row db there le,
        )
      ]

  -- If no more Runs are active than the limit, that is so after a claim of the next one with that limit.
  pub claim_next-active :
      (now : ℕ) (locked : String → Bool) (precedes : String → String → Bool) (aging : Aging)
      (worker : String) (seconds limit : ℕ) (max_attempts max_principal : Option ℕ)
      (db : Database Body)
      → active_count now db.runs ≤ limit
      → active_count now
          (claim_next now locked precedes aging worker seconds
            (some limit)
            max_attempts
            max_principal
            db).1.runs
        ≤ limit
  unfolding claim_next no_candidate
  claim_next-active now locked precedes aging worker seconds limit max_attempts max_principal db
        le =
      let cs = candidates now locked max_principal db.runs (keys db.runs) in
      elim (Option-cases (first_of (comes_before precedes aging now) cs)) [
        | inl nothing ↦ ground (arith, nothing, le)
        | inr (c, chosen) ↦
            let fine =
              first_of-All now
                (λ (d : String × Row Body). IsCandidate now locked max_principal db.runs d.0 d.1) _
                cs c (candidates-AreCandidates now locked max_principal db.runs (keys db.runs))
                chosen in
            ground (
              arith,
              chosen,
              claim_candidate-active now worker seconds limit max_attempts c.0 c.1 db fine.found le,
            )
      ]
