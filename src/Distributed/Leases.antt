-- ===== src/Distributed/Leases.antt =====
-- Leases of src/axiom/runtime/postgres.py: `_renew_lease`, `_release_lease`, `_get_ownership` and
-- `_validate_ownership`.
use axiom_agent.Prelude.{
  ℕ, ◌+◌, String, Bool, true, false, ◌&&◌, Option, none, some, ltb, if◌then◌else◌,
}
use axiom_agent.Dict.{lookup, insert}
use axiom_agent.Models.{RunStatus}
use axiom_agent.Distributed.Rows.{
  Row, Database, Ownership, StoreError, Outcome, returned, raised, is_held_by, owns,
}

abbrev pub is_running : RunStatus → Bool
is_running RunStatus.running = true
is_running _ = false

module _ {Body : Type 0} where
  unfoldable pub renew_lease : ℕ → ℕ → Ownership → Database Body → Option Ownership × Database Body
  unfolding owns
  renew_lease now lease_seconds o db = elim (lookup o.run_id db.runs) [
    | none ↦ (none, db)
    | some row ↦
        if owns now o row
        then (
          some (record {
            run_id = o.run_id;
            worker_id = o.worker_id;
            fencing_token = row.fencing_token;
            lease_until = now + lease_seconds;
            takeover = ltb 1 row.fencing_token;
            delivery_attempt = row.delivery.attempt;
          }),
          record db {
            runs =
                insert o.run_id
                  (record row {
                    lease_until = some (now + lease_seconds);
                    last_heartbeat_at = some now;
                  })
                  db.runs;
          },
        )
        else (none, db)
  ]

  unfoldable pub released_row : ℕ → Bool → Row Body → Row Body
  released_row now runnable row = record row {
    owner_worker_id = none;
    lease_until = none;
    runnable = if is_running row.status then runnable else false;
    state_json =
        if is_running row.status && runnable
        then record row.state_json { runnable_since = some now }
        else row.state_json;
  }

  unfoldable pub release_lease : ℕ → Ownership → Bool → Database Body → Bool × Database Body
  unfolding released_row
  release_lease now o runnable db = elim (lookup o.run_id db.runs) [
    | none ↦ (false, db)
    | some row ↦
        if is_held_by o row
        then (true, record db { runs = insert o.run_id (released_row now runnable row) db.runs })
        else (false, db)
  ]

  -- A row that is owned has a lease; a null one would fail in `_ownership`.
  unfoldable pub get_ownership : String → Database Body → Option Ownership
  get_ownership run_id db = elim (lookup run_id db.runs) [
    | none ↦ none
    | some row ↦ elim row.owner_worker_id [
      | none ↦ none
      | some worker ↦ elim row.lease_until [
        | none ↦ none
        | some until ↦ some (record {
          run_id = run_id;
          worker_id = worker;
          fencing_token = row.fencing_token;
          lease_until = until;
          takeover = ltb 1 row.fencing_token;
          delivery_attempt = row.delivery.attempt;
        })
      ]
    ]
  ]

  unfoldable pub validate_ownership : ℕ → Ownership → Database Body → Outcome (Unit {0})
  unfolding owns
  validate_ownership now o db = elim (lookup o.run_id db.runs) [
    | none ↦ raised StoreError.ownership_lost
    | some row ↦ if owns now o row then returned tt else raised StoreError.ownership_lost
  ]
