-- ===== src/Distributed/Saves.antt =====
-- Writes of Run states in src/axiom/runtime/postgres.py: `_save` and `_mark_runnable`. The
-- client's clock, `_now()`, is an argument beside `current_timestamp`. The primary key of
-- `checkpoints` is not modelled.
use axiom_agent.Prelude.{
  ℕ, ◌+◌, String, Bool, true, false, ◌&&◌, Option, none, some, [], ◌∷◌, ◌++◌, ◌==◌, str_eq,
  if◌then◌else◌,
}
use axiom_agent.Dict.{Dict, lookup, insert}
use axiom_agent.Models.{finished}
use axiom_agent.Distributed.Rows.{
  Delivery, RunState, Row, Database, Ownership, StoreError, Outcome, returned, raised,
  is_open_status, deadline_is_live, ancestors_not_cancelled,
}
use axiom_agent.Distributed.Claims.{wake_parent, update_where}
use axiom_agent.Distributed.Leases.{validate_ownership}

abbrev pub no_delivery : Delivery
no_delivery = record {
  attempt = 0;
  failure_queued_at = none;
  last_failure = none;
  last_failed_at = none;
  last_worker_id = none;
  last_fencing_token = none;
}

abbrev pub is_for_run : Option Ownership → String → Bool
is_for_run none run_id = false
is_for_run (some o) run_id = str_eq run_id o.run_id

module _ {Body : Type 0} where
  -- The state that is written, with the next sequence.
  abbrev pub next_state : ℕ → RunState Body → RunState Body
  next_state written c = record c { sequence = c.sequence + 1; updated_at = written }

  -- An inserted row; the other columns have their defaults.
  unfoldable pub new_row : ℕ → Bool → RunState Body → Row Body
  new_row written runnable c = record {
    thread_id = c.thread_id;
    status = c.status;
    current_sequence = c.sequence + 1;
    state_json = next_state written c;
    parent_run_id = c.parent_run_id;
    created_at = c.created_at;
    updated_at = written;
    runnable = runnable;
    owner_worker_id = none;
    lease_until = none;
    fencing_token = 0;
    claimed_at = none;
    last_heartbeat_at = none;
    delivery = no_delivery;
  }

  -- The row as the `update` of `_save` leaves it.
  unfoldable pub saved_row : ℕ → RunState Body → Row Body → Row Body
  saved_row written c row = record row {
    thread_id = c.thread_id;
    status = c.status;
    current_sequence = c.sequence + 1;
    state_json = next_state written c;
    parent_run_id = c.parent_run_id;
    updated_at = written;
  }

  -- The first statement: `none` where it returns no row.
  unfoldable pub write_state : ℕ → RunState Body → Dict (Row Body) → Option (Dict (Row Body))
  unfolding new_row saved_row
  write_state written c runs = elim (lookup c.run_id runs) [
    | none ↦ if c.sequence == 0 then some (insert c.run_id (new_row written false c) runs) else none
    | some row ↦
        if c.sequence == 0
        then none
        else if row.current_sequence == c.sequence
        then some (insert c.run_id (saved_row written c row) runs)
        else none
  ]

  -- A finished Run cannot be claimed; its worker's lease ends, if the save was the worker's.
  unfoldable pub closed_row : Bool → Row Body → Row Body
  closed_row owned row = record row {
    runnable = false;
    owner_worker_id = if owned then none else row.owner_worker_id;
    lease_until = if owned then none else row.lease_until;
  }

  abbrev pub wake_now : ℕ → Row Body → Row Body
  wake_now now row = record row {
    runnable = true;
    state_json = record row.state_json { runnable_since = some now };
  }

  abbrev pub any_row : Row Body → Bool
  any_row row = true

  unfoldable pub close_run :
      ℕ → RunState Body → Option Ownership → Dict (Row Body) → Dict (Row Body)
  unfolding closed_row update_where
  close_run now c ownership runs =
      if finished c.status
      then wake_parent (wake_now now) c.parent_run_id
          (update_where c.run_id any_row (closed_row (is_for_run ownership c.run_id)) runs)
      else runs

  abbrev pub check_ownership : ℕ → Option Ownership → Database Body → Outcome (Unit {0})
  check_ownership now none db = returned tt
  check_ownership now (some o) db = validate_ownership now o db

  -- The checkpoint's sequence after the call is the one of the result.
  unfoldable pub save :
      ℕ
      → ℕ
      → RunState Body
      → Option Ownership
      → Database Body
      → Outcome (RunState Body) × Database Body
  unfolding write_state close_run finished
  save now written c ownership db = elim (check_ownership now ownership db) [
    | raised e ↦ (raised e, db)
    | returned _ ↦ elim (write_state written c db.runs) [
      | none ↦ (raised StoreError.checkpoint_conflict, db)
      | some runs ↦ (
        returned (next_state written c),
        record db {
          runs = close_run now c ownership runs;
          checkpoints = db.checkpoints ++ next_state written c ∷ [];
        },
      )
    ]
  ]

  unfoldable pub mark_runnable : ℕ → String → Database Body → Outcome (Unit {0}) × Database Body
  mark_runnable now run_id db = elim (lookup run_id db.runs) [
    | none ↦ (raised StoreError.not_eligible, db)
    | some row ↦
        if is_open_status row.status
          && deadline_is_live now row
          && ancestors_not_cancelled db.runs row
        then (returned tt, record db { runs = insert run_id (wake_now now row) db.runs })
        else (raised StoreError.not_eligible, db)
  ]
