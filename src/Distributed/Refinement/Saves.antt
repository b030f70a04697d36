-- ===== src/Distributed/Refinement/Saves.antt =====
-- `save` of src/axiom/runtime/postgres.py as a step of a lease.
use axiom_agent.Prelude.{
  ℕ, String, ◌≡◌, refl, true, false, Option, none, some, arith, sym, ap, subst, str_eq, eq_iff,
  eq_refl, Bool-cases, Option-cases, inl, inr,
}
use axiom_agent.Dict.{Dict, lookup, insert}
use axiom_agent.Models.{finished}
use axiom_agent.Distributed.Rows.{
  RunState, Row, Database, Ownership, Outcome, returned, raised, owns,
}
use axiom_agent.Distributed.Claims.{update_where, wake_parent}
use axiom_agent.Distributed.Saves.{
  new_row, saved_row, write_state, closed_row, wake_now, any_row, is_for_run, close_run,
  check_ownership, save,
}
use axiom_agent.Distributed.Admission.{is_in_failure_queue, with_delivery}
use axiom_agent.Distributed.Machine.{
  Lease, lease_of, holds, LeaseStep, kept, freed, LeaseStep-weaken, Related, Related-then,
  Related-refl, insert-Related, insert_new-Related, update_where-Related, acting, SameLease, Step,
  Keeps, Refines,
}
use axiom_agent.Distributed.Refinement.{via, Refines-refl, wake_parent-Keeps}
use axiom_agent.Distributed.Leases.{validate_ownership}

module _ {Body : Type 0} (now : ℕ) where
  write_state-Keeps :
      (written : ℕ) (c : RunState Body) (runs runs' : Dict (Row Body))
      → write_state written c runs ≡ some runs'
      → Keeps runs runs'
  unfolding write_state saved_row
  write_state-Keeps written c runs runs' e = elim (Option-cases (lookup c.run_id runs)) [
    | inl absent ↦ to (insert c.run_id (new_row written false c) runs) (ground (arith, absent, e)) (
        insert_new-Related SameLease (λ k row. refl) c.run_id (new_row written false c) runs absent)
    | inr (row, there) ↦
        to (insert c.run_id (saved_row written c row) runs) (ground (arith, there, e)) (
          insert-Related SameLease (λ k r. refl) c.run_id row (saved_row written c row) runs there
            refl)
  ]
    where
      to : (x : Dict (Row Body)) → x ≡ runs' → Keeps runs x → Keeps runs runs'
      to x q h = subst (Keeps runs) q h

  -- A step that may be done to any lease.
  abbrev Free : Option Ownership → String → Row Body → Row Body → Type 0
  Free by k row row' = LeaseStep now (acting by k) false (lease_of row) (lease_of row')

  close_run-Free :
      (c : RunState Body) (by : Option Ownership) (runs : Dict (Row Body))
      → ((row : Row Body)
          → lookup c.run_id runs ≡ some row
          → Free by c.run_id row (closed_row (is_for_run by c.run_id) row))
      → Related (Free by) runs (close_run now c by runs)
  unfolding close_run
  close_run-Free c by runs step = elim (Bool-cases (finished c.status)) [
    | inr unfinished ↦
        to runs (ground (arith, unfinished)) (Related-refl (Free by) (λ k row. kept refl) runs)
    | inl done ↦
        let closed = update_where c.run_id any_row (closed_row (is_for_run by c.run_id)) runs in
        to (wake_parent (wake_now now) c.parent_run_id closed) (ground (arith, done)) (
          Related-then (Free by) SameLease (Free by) runs closed _
            (λ k x y z s same. subst (LeaseStep now (acting by k) false (lease_of x)) same s)
            (update_where-Related (Free by) (λ k row. kept refl) c.run_id any_row _ runs step)
            (wake_parent-Keeps (wake_now now) c.parent_run_id closed (λ r. refl)))
  ]
    where
      to :
          (x : Dict (Row Body))
          → x ≡ close_run now c by runs
          → Related (Free by) runs x
          → Related (Free by) runs (close_run now c by runs)
      to x q h = subst (Related (Free by) runs) q h

  -- Who passes the check holds the lease.
  check_ownership-holds :
      (o : Ownership) (db : Database Body)
      → check_ownership now (some o) db ≡ returned tt
      → (row : Row Body) × (lookup o.run_id db.runs ≡ some row) × (holds o (lease_of row) ≡ true)
  unfolding validate_ownership owns
  check_ownership-holds o db e = elim (Option-cases (lookup o.run_id db.runs)) [
    | inl absent ↦ absurd (ground (arith, e, absent))
    | inr (row, there) ↦ elim (Bool-cases (owns now o row)) [
      | inr lost ↦ absurd (ground (arith, e, there, lost))
      | inl owned ↦ (row, there, ground (arith, owned))
    ]
  ]

  closed-step :
      (by : Option Ownership) (c : RunState Body) (db : Database Body) (runs : Dict (Row Body))
      → check_ownership now by db ≡ returned tt
      → Keeps db.runs runs
      → (row : Row Body) → lookup c.run_id runs ≡ some row
      → Free by c.run_id row (closed_row (is_for_run by c.run_id) row)
  unfolding closed_row
  closed-step none c db runs checked keeps row there = kept refl
  closed-step (some o) c db runs checked keeps row there =
      elim (Bool-cases (str_eq c.run_id o.run_id)) [
        | inr other ↦ kept (ground (arith, other))
        | inl same ↦
            let is_run = (eq_iff c.run_id o.run_id).0 same in
            let (old, at, held) = check_ownership-holds o db checked in
            let (row', at', lease) = keeps o.run_id old at in
            let is_row : row' ≡ row = cc (at', there, ap (λ (n : String). lookup n runs) is_run) in
            let held' : holds o (lease_of row) ≡ true =
              subst (λ (r : Row Body). holds o (lease_of r) ≡ true) is_row
                (subst (λ (l : Lease). holds o l ≡ true) lease held) in
            freed o (ground (arith, is_run, eq_refl o.run_id)) held' (ground (arith, same))
      ]

  pub save-Refines :
      (written : ℕ) (c : RunState Body) (by : Option Ownership) (db : Database Body)
      → Refines now by db.runs (save now written c by db).1.runs
  unfolding save
  save-Refines written c by db =
      by_check (check_ownership now by db) refl (write_state written c db.runs) refl
    where
      by_check :
          (x : Outcome (Unit {0}))
          → check_ownership now by db ≡ x
          → (w : Option (Dict (Row Body))) → write_state written c db.runs ≡ w
          → Refines now by db.runs (save now written c by db).1.runs
      by_check (raised e) p w q =
          via now by _ db.runs _ (ground (arith, p)) (Refines-refl now by db.runs)
      by_check (returned _) p none q =
          via now by _ db.runs _ (ground (arith, p, q)) (Refines-refl now by db.runs)
      by_check (returned _) p (some runs) q =
          let keeps = write_state-Keeps written c db.runs runs q in
          via now by _ (close_run now c by runs) _ (ground (arith, p, q)) (
            Related-then SameLease (Free by) (Step now by) db.runs runs _
              (λ k x y z same s.
                LeaseStep-weaken now (acting by k) (is_in_failure_queue (with_delivery x))
                  (lease_of x) (lease_of z)
                  (subst (λ l. LeaseStep now (acting by k) false l (lease_of z)) (sym same) s))
              keeps (close_run-Free c by runs (closed-step by c db runs p keeps)))
