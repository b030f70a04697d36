-- ===== src/Distributed/Refinement.antt =====
-- Every transaction of src/axiom/runtime/postgres.py is steps of the leases of Runs: the claims.
pub mod Next
pub mod Saves
pub mod States
use axiom_agent.Prelude.{
  ℕ, ◌+◌, ◌≤◌, String, ◌≡◌, refl, sym, ap, subst, ◌∙◌, Bool, true, false, ◌&&◌, ◌||◌, not, Option,
  none, some, List, [], ◌∷◌, All, ◌==◌, arith, str_eq, eq_iff, eq_refl, is_some, Bool-cases,
  Option-cases, inl, inr, if◌then◌else◌,
}
use axiom_agent.Dict.{Dict, lookup, insert, keys}
use axiom_agent.Models.{finished}
use axiom_agent.Distributed.Rows.{
  RunState, Row, Submission, Database, Ownership, Outcome, returned, raised, is_null, is_past,
  is_after, is_claimable, owns, is_held_by, active_count,
}
use axiom_agent.Distributed.Claims.{
  is_below, update_where, claimed_row, exhausted_row, is_waiting_free, set_runnable, wake_parent,
  mark_delivery_exhausted, delivery_is_exhausted, claim_locked_candidate, claim_candidate,
  no_candidate, claim_run, principal_has_room,
}
use axiom_agent.Distributed.Leases.{renew_lease, released_row, release_lease}
use axiom_agent.Distributed.Queue.{Aging, candidates, first_of, comes_before, claim_next}
use axiom_agent.Distributed.Saves.{
  next_state, new_row, saved_row, write_state, closed_row, wake_now, any_row, is_for_run, close_run,
  check_ownership, save, mark_runnable,
}
use axiom_agent.Distributed.Admission.{
  admit, admit_run, insert_initial_run, admit_submission, find_submission, replay,
  record_submission, requeued_row, requeue_delivery_exhausted, is_in_failure_queue, with_delivery,
}
use axiom_agent.Distributed.Machine.{
  Lease, lease_of, LeaseStep, granted, renewed, freed, revoked, Related-then, Related-refl,
  insert-Related, update_where-Related, acting, SameLease, Step, Keeps, Refines, stay,
}

pub wake_parent-Keeps :
    {Body : Type 0} (wake : Row Body → Row Body) (parent : Option String) (runs : Dict (Row Body))
    → ((row : Row Body) → lease_of row ≡ lease_of (wake row))
    → Keeps runs (wake_parent wake parent runs)
wake_parent-Keeps wake none runs same = Related-refl SameLease (λ k row. refl) runs
wake_parent-Keeps wake (some parent) runs same =
    update_where-Related SameLease (λ k row. refl) parent is_waiting_free wake runs
      (λ row there. same row)

module _ {Body : Type 0} (now : ℕ) (by : Option Ownership) where
  pub via : (a b c : Dict (Row Body)) → b ≡ c → Refines now by a b → Refines now by a c
  via a b c e h = subst (Refines now by a) e h

  pub Refines-refl : (runs : Dict (Row Body)) → Refines now by runs runs
  Refines-refl = Related-refl (Step now by) (stay now by)

  pub insert-Refines :
      (j : String) (old new : Row Body) (runs : Dict (Row Body))
      → lookup j runs ≡ some old
      → Step now by j old new
      → Refines now by runs (insert j new runs)
  insert-Refines = insert-Related (Step now by) (stay now by)

  pub Refines-Keeps :
      (a b c : Dict (Row Body)) → Refines now by a b → Keeps b c → Refines now by a c
  Refines-Keeps a b c =
      Related-then (Step now by) SameLease (Step now by) a b c (λ k x y z step same.
        subst (LeaseStep now (acting by k) (is_in_failure_queue (with_delivery x)) (lease_of x))
          same step)

module _ {Body : Type 0} (now : ℕ) where
  -- What is claimable is held by nobody, or its lease has run out.
  pub is_claimable-is_free :
      (runs : Dict (Row Body)) (row : Row Body)
      → is_claimable now runs row ≡ true
      → (is_null row.owner_worker_id || is_past row.lease_until now) ≡ true
  unfolding is_claimable
  is_claimable-is_free runs row h = ground (arith, h)

  mark_delivery_exhausted-Refines :
      (k : String) (row : Row Body) (db : Database Body)
      → lookup k db.runs ≡ some row
      → (is_null row.owner_worker_id || is_past row.lease_until now) ≡ true
      → Refines now none db.runs (mark_delivery_exhausted now k row db).runs
  unfolding mark_delivery_exhausted exhausted_row
  mark_delivery_exhausted-Refines k row db there free =
      Refines-Keeps now none _ _ _
        (insert-Refines now none k row (exhausted_row now row) db.runs there
          (revoked (ground (arith, free)) refl))
        (wake_parent-Keeps set_runnable row.parent_run_id _ (λ r. refl))

  pub claim_candidate-Refines :
      (worker : String) (seconds : ℕ) (max_active max_attempts : Option ℕ) (k : String)
      (row : Row Body) (db : Database Body)
      → lookup k db.runs ≡ some row
      → (is_null row.owner_worker_id || is_past row.lease_until now) ≡ true
      → Refines now none db.runs
          (claim_candidate now worker seconds max_active max_attempts k row db).1.runs
  unfolding claim_candidate claim_locked_candidate claimed_row
  claim_candidate-Refines worker seconds max_active max_attempts k row db there free =
      let new = claimed_row now worker seconds row in
      elim (Bool-cases (delivery_is_exhausted row max_attempts)) [
        | inl spent ↦
            via now none _ (mark_delivery_exhausted now k row db).runs _ (ground (arith, spent))
              (mark_delivery_exhausted-Refines k row db there free)
        | inr left ↦ elim (Bool-cases (is_below (active_count now db.runs) max_active)) [
          | inr full ↦
              via now none _ db.runs _ (ground (arith, left, full)) (Refines-refl now none db.runs)
          | inl room ↦
              via now none _ (insert k new db.runs) _ (ground (arith, left, room))
                (insert-Refines now none k row new db.runs there (granted worker seconds free refl))
        ]
      ]

  pub no_candidate-Refines :
      (max_active : Option ℕ) (db : Database Body)
      → Refines now none db.runs (no_candidate now max_active db).1.runs
  unfolding no_candidate
  no_candidate-Refines max_active db =
      via now none _ db.runs _ (ground arith) (Refines-refl now none db.runs)

  pub claim_run-Refines :
      (k worker : String) (seconds : ℕ) (max_active max_attempts max_principal : Option ℕ)
      (db : Database Body)
      → Refines now none db.runs
          (claim_run now k worker seconds max_active max_attempts max_principal db).1.runs
  unfolding claim_run
  claim_run-Refines k worker seconds max_active max_attempts max_principal db =
      elim (Option-cases (lookup k db.runs)) [
        | inl absent ↦
            via now none _ (no_candidate now max_active db).1.runs _ (ground (arith, absent))
              (no_candidate-Refines max_active db)
        | inr (row, there) ↦
            elim (Bool-cases
              (is_claimable now db.runs row && principal_has_room now db.runs row max_principal)) [
                | inr miss ↦
                    via now none _ (no_candidate now max_active db).1.runs _
                      (ground (arith, there, miss)) (no_candidate-Refines max_active db)
                | inl hit ↦
                    via now none _
                      (claim_candidate now worker seconds max_active max_attempts k row db).1.runs _
                      (ground (arith, there, hit))
                      (claim_candidate-Refines worker seconds max_active max_attempts k row db there
                        (is_claimable-is_free db.runs row (ground (arith, hit))))
              ]
      ]

  pub renew_lease-Refines :
      (seconds : ℕ) (o : Ownership) (db : Database Body)
      → Refines now (some o) db.runs (renew_lease now seconds o db).1.runs
  unfolding renew_lease owns
  renew_lease-Refines seconds o db = elim (Option-cases (lookup o.run_id db.runs)) [
    | inl absent ↦
        via now (some o) _ db.runs _ (ground (arith, absent)) (Refines-refl now (some o) db.runs)
    | inr (row, there) ↦ elim (Bool-cases (owns now o row)) [
      | inr miss ↦
          via now (some o) _ db.runs _ (ground (arith, there, miss))
            (Refines-refl now (some o) db.runs)
      | inl hit ↦
          let new = record row {
            lease_until = some (now + seconds);
            last_heartbeat_at = some now;
          } in
          via now (some o) _ (insert o.run_id new db.runs) _ (ground (arith, there, hit)) (
            insert-Refines now (some o) o.run_id row new db.runs there
              (renewed o seconds (ground (arith, eq_refl o.run_id)) (ground (arith, hit)) refl))
    ]
  ]

  pub release_lease-Refines :
      (o : Ownership) (runnable : Bool) (db : Database Body)
      → Refines now (some o) db.runs (release_lease now o runnable db).1.runs
  unfolding release_lease released_row
  release_lease-Refines o runnable db = elim (Option-cases (lookup o.run_id db.runs)) [
    | inl absent ↦
        via now (some o) _ db.runs _ (ground (arith, absent)) (Refines-refl now (some o) db.runs)
    | inr (row, there) ↦ elim (Bool-cases (is_held_by o row)) [
      | inr miss ↦
          via now (some o) _ db.runs _ (ground (arith, there, miss))
            (Refines-refl now (some o) db.runs)
      | inl hit ↦
          via now (some o) _ (insert o.run_id (released_row now runnable row) db.runs) _
            (ground (arith, there, hit))
            (insert-Refines now (some o) o.run_id row (released_row now runnable row) db.runs there
              (freed o (ground (arith, eq_refl o.run_id)) hit refl))
    ]
  ]
