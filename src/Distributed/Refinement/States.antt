-- ===== src/Distributed/Refinement/States.antt =====
-- Markings, admissions and requeueings in src/axiom/runtime/postgres.py as steps of leases.
use axiom_agent.Prelude.{
  ℕ, String, ◌≡◌, refl, ◌∙◌, true, ◌&&◌, ◌||◌, not, Option, none, ◌==◌, arith, Bool-cases,
  Option-cases, inl, inr,
}
use axiom_agent.Dict.{lookup, insert}
use axiom_agent.Distributed.Rows.{
  RunState, Submission, Database, Outcome, returned, raised, is_null, is_open_status,
  deadline_is_live, ancestors_not_cancelled, queued_count,
}
use axiom_agent.Distributed.Claims.{is_below}
use axiom_agent.Distributed.Saves.{new_row, wake_now, mark_runnable}
use axiom_agent.Distributed.Admission.{
  admit, admit_run, insert_initial_run, admit_submission, find_submission, replay,
  record_submission, is_in_failure_queue, with_delivery, quota_has_room, requeued_row,
  requeue_delivery_exhausted,
}
use axiom_agent.Distributed.Machine.{kept, revoked, insert_new-Related, Step, Refines, stay}
use axiom_agent.Distributed.Refinement.{via, Refines-refl, insert-Refines}

module _ {Body : Type 0} (now : ℕ) where
  pub mark_runnable-Refines :
      (k : String) (db : Database Body) → Refines now none db.runs (mark_runnable now k db).1.runs
  unfolding mark_runnable
  mark_runnable-Refines k db = elim (Option-cases (lookup k db.runs)) [
    | inl absent ↦ via now none _ db.runs _ (ground (arith, absent)) (Refines-refl now none db.runs)
    | inr (row, there) ↦
        elim (Bool-cases (
          is_open_status row.status
          && deadline_is_live now row
          && ancestors_not_cancelled db.runs row)) [
            | inr miss ↦
                via now none _ db.runs _ (ground (arith, there, miss))
                  (Refines-refl now none db.runs)
            | inl hit ↦
                via now none _ (insert k (wake_now now row) db.runs) _ (ground (arith, there, hit))
                  (insert-Refines now none k row (wake_now now row) db.runs there (kept refl))
          ]
  ]

  admit-Refines :
      (written : ℕ) (c : RunState Body) (max_queued max_principal : Option ℕ) (db : Database Body)
      → Refines now none db.runs (admit now written c max_queued max_principal db).1.runs
  unfolding admit insert_initial_run
  admit-Refines written c max_queued max_principal db =
      elim (Option-cases (lookup c.run_id db.runs)) [
        | inr (row, there) ↦
            via now none _ db.runs _ (ground (arith, there)) (Refines-refl now none db.runs)
        | inl absent ↦
            elim (Bool-cases (
              is_below (queued_count now db.runs) max_queued
              && quota_has_room now db.runs c.principal_key max_principal)) [
                | inr full ↦
                    via now none _ db.runs _ (ground (arith, absent, full))
                      (Refines-refl now none db.runs)
                | inl room ↦
                    via now none _ (insert c.run_id (new_row written true c) db.runs) _
                      (ground (arith, absent, room))
                      (insert_new-Related (Step now none) (stay now none) c.run_id
                        (new_row written true c) db.runs absent)
              ]
      ]

  pub admit_run-Refines :
      (written : ℕ) (c : RunState Body) (max_queued max_principal : Option ℕ) (db : Database Body)
      → Refines now none db.runs (admit_run now written c max_queued max_principal db).1.runs
  unfolding admit_run
  admit_run-Refines written c max_queued max_principal db = elim (Bool-cases (c.sequence == 0)) [
    | inr old ↦ via now none _ db.runs _ (ground (arith, old)) (Refines-refl now none db.runs)
    | inl new ↦
        via now none _ (admit now written c max_queued max_principal db).1.runs _
          (ground (arith, new)) (admit-Refines written c max_queued max_principal db)
  ]

  record_submission-runs :
      (x : Submission) (r : Outcome (RunState Body) × Database Body)
      → r.1.runs ≡ (record_submission x r).1.runs
  record_submission-runs x (raised e, db) = refl
  record_submission-runs x (returned c, db) = refl

  replay-runs :
      (x : Submission) (fingerprint : String) (db : Database Body)
      → db.runs ≡ (replay x fingerprint db).1.runs
  unfolding replay
  replay-runs x fingerprint db = ground arith

  pub admit_submission-Refines :
      (written : ℕ) (c : RunState Body) (key fingerprint : String)
      (max_queued max_principal : Option ℕ) (db : Database Body)
      → Refines now none db.runs
          (admit_submission now written c key fingerprint max_queued max_principal db).1.runs
  unfolding admit_submission
  admit_submission-Refines written c key fingerprint max_queued max_principal db =
      elim (Bool-cases (not (c.sequence == 0) || not (is_null c.parent_run_id))) [
        | inl other ↦
            via now none _ db.runs _ (ground (arith, other)) (Refines-refl now none db.runs)
        | inr root ↦ elim (Option-cases (find_submission c.thread_id key db.submissions)) [
          | inr (x, known) ↦
              via now none _ db.runs _ (replay-runs x fingerprint db ∙ ground (arith, root, known))
                (Refines-refl now none db.runs)
          | inl unknown ↦
              let admitted = admit now written c max_queued max_principal db in
              let x : Submission = record {
                thread_id = c.thread_id;
                idempotency_key = key;
                request_fingerprint = fingerprint;
                run_id = c.run_id;
              } in
              via now none _ admitted.1.runs _
                (record_submission-runs x admitted ∙ ground (arith, root, unknown))
                (admit-Refines written c max_queued max_principal db)
        ]
      ]

  pub requeue-Refines :
      (k : String) (db : Database Body)
      → Refines now none db.runs (requeue_delivery_exhausted now k db).1.runs
  unfolding requeue_delivery_exhausted requeued_row
  requeue-Refines k db = elim (Option-cases (lookup k db.runs)) [
    | inl absent ↦ via now none _ db.runs _ (ground (arith, absent)) (Refines-refl now none db.runs)
    | inr (row, there) ↦ elim (Bool-cases (is_in_failure_queue (with_delivery row))) [
      | inr miss ↦
          via now none _ db.runs _ (ground (arith, there, miss)) (Refines-refl now none db.runs)
      | inl hit ↦
          via now none _ (insert k (requeued_row now row) db.runs) _ (ground (arith, there, hit)) (
            insert-Refines now none k row (requeued_row now row) db.runs there
              (revoked (ground (arith, hit)) refl))
    ]
  ]
