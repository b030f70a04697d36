-- ===== src/Distributed/Admission.antt =====
-- New Runs and requeued ones in src/axiom/runtime/postgres.py: `_admit_run`, `_admit_submission` and
-- `_requeue_delivery_exhausted`.
use axiom_agent.Prelude.{
  ℕ, ◌+◌, String, Bool, true, false, ◌&&◌, ◌||◌, not, Option, none, some, List, [], ◌∷◌, ◌++◌, ◌==◌,
  str_eq, is_some, if◌then◌else◌,
}
use axiom_agent.Dict.{Dict, lookup, insert}
use axiom_agent.Models.{RunStatus}
use axiom_agent.Distributed.Rows.{
  RunState, Row, Submission, Database, StoreError, Outcome, returned, raised, is_text, is_null,
  is_claimable, count_rows, queued_count,
}
use axiom_agent.Distributed.Claims.{is_below, run_delivery_exhausted}
use axiom_agent.Distributed.Saves.{no_delivery, next_state, new_row}

unfoldable pub find_submission : String → String → List Submission → Option Submission
find_submission thread_id key [] = none
find_submission thread_id key (x ∷ xs) =
    if str_eq x.thread_id thread_id && str_eq x.idempotency_key key
    then some x
    else find_submission thread_id key xs

abbrev pub is_failed : RunStatus → Bool
is_failed RunStatus.failed = true
is_failed _ = false

module _ {Body : Type 0} where
  abbrev pub count_rejection : Database Body → Database Body
  count_rejection db = record db {
    counters = record db.counters { admission_rejections = db.counters.admission_rejections + 1 };
  }

  -- `_check_principal_queue_quota`
  unfoldable pub quota_has_room : ℕ → Dict (Row Body) → String → Option ℕ → Bool
  quota_has_room now runs principal limit =
      is_below
        (count_rows
          (λ r.
            is_claimable now runs r
            && is_null r.parent_run_id
            && str_eq r.state_json.principal_key principal)
          runs)
        limit

  -- `_insert_initial_run`, of a state whose sequence is 0
  unfoldable pub insert_initial_run : ℕ → RunState Body → Database Body → Database Body
  unfolding new_row
  insert_initial_run written c db = record db {
    runs = insert c.run_id (new_row written true c) db.runs;
    checkpoints = db.checkpoints ++ next_state written c ∷ [];
  }

  -- The tests and the insertion that the two admissions share.
  unfoldable pub admit :
      ℕ
      → ℕ
      → RunState Body
      → Option ℕ
      → Option ℕ
      → Database Body
      → Outcome (RunState Body) × Database Body
  unfolding queued_count quota_has_room insert_initial_run
  admit now written c max_queued max_principal db =
      if is_some (lookup c.run_id db.runs)
      then (raised StoreError.run_exists, db)
      else if not (is_below (queued_count now db.runs) max_queued)
      then (raised StoreError.admission_rejected, count_rejection db)
      else if not (quota_has_room now db.runs c.principal_key max_principal)
      then (raised StoreError.principal_quota_exceeded, db)
      else (returned (next_state written c), insert_initial_run written c db)

  unfoldable pub admit_run :
      ℕ
      → ℕ
      → RunState Body
      → Option ℕ
      → Option ℕ
      → Database Body
      → Outcome (RunState Body) × Database Body
  unfolding admit
  admit_run now written c max_queued max_principal db =
      if c.sequence == 0
      then admit now written c max_queued max_principal db
      else (raised StoreError.only_new_run, db)

  -- `_checkpoint_with_delivery`
  abbrev pub with_delivery : Row Body → RunState Body
  with_delivery row = record row.state_json { delivery = row.delivery }

  -- The answer to a key that was used before.
  unfoldable pub replay :
      Submission → String → Database Body → Outcome (RunState Body × Bool) × Database Body
  replay found fingerprint db =
      if str_eq found.request_fingerprint fingerprint
      then elim (lookup found.run_id db.runs) [
        | none ↦ (raised StoreError.missing_run, db)
        | some row ↦ (
          returned (with_delivery row, false),
          record db {
            counters = record db.counters {
              idempotent_submission_replays = db.counters.idempotent_submission_replays + 1;
            };
          },
        )
      ]
      else (
        raised StoreError.idempotency_conflict,
        record db {
          counters = record db.counters {
            idempotency_conflicts = db.counters.idempotency_conflicts + 1;
          };
        },
      )

  -- The row of `submission_idempotency` is inserted with the Run.
  abbrev pub record_submission :
      Submission
      → Outcome (RunState Body) × Database Body
      → Outcome (RunState Body × Bool) × Database Body
  record_submission x (raised e, db) = (raised e, db)
  record_submission x (returned c, db) =
      (returned (c, true), record db { submissions = db.submissions ++ x ∷ [] })

  unfoldable pub admit_submission :
      ℕ
      → ℕ
      → RunState Body
      → String
      → String
      → Option ℕ
      → Option ℕ
      → Database Body
      → Outcome (RunState Body × Bool) × Database Body
  unfolding admit find_submission replay
  admit_submission now written c key fingerprint max_queued max_principal db =
      if not (c.sequence == 0) || not (is_null c.parent_run_id)
      then (raised StoreError.only_new_run, db)
      else elim (find_submission c.thread_id key db.submissions) [
        | some found ↦ replay found fingerprint db
        | none ↦
            record_submission
              (record {
                thread_id = c.thread_id;
                idempotency_key = key;
                request_fingerprint = fingerprint;
                run_id = c.run_id;
              })
              (admit now written c max_queued max_principal db)
      ]

  -- `status == FAILED`, the error of an exhausted delivery, and a place in the failure queue.
  abbrev pub is_in_failure_queue : RunState Body → Bool
  is_in_failure_queue state =
      is_failed state.status
      && is_text state.error_type run_delivery_exhausted
      && is_some state.delivery.failure_queued_at

  unfoldable pub requeued_state : ℕ → Row Body → RunState Body
  requeued_state now row = record row.state_json {
    status = RunStatus.running;
    sequence = row.current_sequence + 1;
    updated_at = now;
    error_type = none;
    delivery = no_delivery;
  }

  unfoldable pub requeued_row : ℕ → Row Body → Row Body
  unfolding requeued_state
  requeued_row now row = record row {
    status = RunStatus.running;
    current_sequence = row.current_sequence + 1;
    state_json = requeued_state now row;
    updated_at = now;
    runnable = true;
    owner_worker_id = none;
    lease_until = none;
    fencing_token = row.fencing_token + 1;
    delivery = no_delivery;
  }

  unfoldable pub requeue_delivery_exhausted :
      ℕ → String → Database Body → Outcome (RunState Body) × Database Body
  unfolding requeued_row
  requeue_delivery_exhausted now run_id db = elim (lookup run_id db.runs) [
    | none ↦ (raised StoreError.run_not_found, db)
    | some row ↦
        if is_in_failure_queue (with_delivery row)
        then (
          returned (requeued_state now row),
          record db {
            runs = insert run_id (requeued_row now row) db.runs;
            checkpoints = db.checkpoints ++ requeued_state now row ∷ [];
            counters = record db.counters { manual_requeues = db.counters.manual_requeues + 1 };
          },
        )
        else (raised StoreError.not_in_failure_queue, db)
  ]
