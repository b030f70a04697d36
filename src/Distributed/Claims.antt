-- ===== src/Distributed/Claims.antt =====
-- Claims of src/axiom/runtime/postgres.py: `_claim_run` and what it shares with `_claim_next`.
use axiom_agent.Prelude.{
  ℕ, ◌+◌, String, Bool, true, false, ◌&&◌, not, Option, none, some, [], ◌∷◌, ◌++◌, leb, ltb, ◌==◌,
  str_eq, if◌then◌else◌,
}
use axiom_agent.Dict.{Dict, lookup, insert}
use axiom_agent.Models.{RunStatus}
use axiom_agent.Distributed.Rows.{
  RunState, Row, Database, Ownership, is_null, is_waiting_child, is_claimable, is_active,
  count_rows, active_count,
}

-- `true` where there is no limit, or the count is below it
abbrev pub is_below : ℕ → Option ℕ → Bool
is_below n none = true
is_below n (some limit) = ltb n limit

-- `_delivery_is_exhausted`, of a row that was found
abbrev pub delivery_is_exhausted : {Body : Type 0} → Row Body → Option ℕ → Bool
delivery_is_exhausted row none = false
delivery_is_exhausted row (some limit) =
    not (is_null row.owner_worker_id) && leb limit row.delivery.attempt

abbrev pub now_if : {A : Type 0} → Bool → A → Option A → Option A
now_if test new old = if test then some new else old

-- `RUN_DELIVERY_EXHAUSTED`
abbrev pub run_delivery_exhausted : String
run_delivery_exhausted = "RUN_DELIVERY_EXHAUSTED"

module _ {Body : Type 0} where
  -- `update runs set … where run_id = k and …`
  unfoldable pub update_where :
      String → (Row Body → Bool) → (Row Body → Row Body) → Dict (Row Body) → Dict (Row Body)
  update_where k test change runs = elim (lookup k runs) [
    | none ↦ runs
    | some row ↦ if test row then insert k (change row) runs else runs
  ]

  -- The attempt that a claim makes: a takeover is a new one.
  unfoldable pub next_attempt : Row Body → ℕ
  next_attempt row =
      if not (is_null row.owner_worker_id)
      then row.delivery.attempt + 1
      else if row.delivery.attempt == 0
      then 1
      else row.delivery.attempt

  -- The row as `_claim_locked_candidate` leaves it.
  unfoldable pub claimed_row : ℕ → String → ℕ → Row Body → Row Body
  unfolding next_attempt
  claimed_row now worker_id lease_seconds row =
      let takeover = not (is_null row.owner_worker_id) in
      let d = row.delivery in
      record row {
        owner_worker_id = some worker_id;
        lease_until = some (now + lease_seconds);
        fencing_token = row.fencing_token + 1;
        claimed_at = some now;
        last_heartbeat_at = some now;
        delivery = record d {
          attempt = next_attempt row;
          last_failure = now_if takeover "lease_expired" d.last_failure;
          last_failed_at = now_if takeover now d.last_failed_at;
          last_worker_id = if takeover then row.owner_worker_id else d.last_worker_id;
          last_fencing_token = now_if takeover row.fencing_token d.last_fencing_token;
        };
      }

  unfoldable pub claim_locked_candidate :
      ℕ → String → Row Body → String → ℕ → Database Body → Ownership × Database Body
  unfolding claimed_row
  claim_locked_candidate now run_id row worker_id lease_seconds db =
      let row' = claimed_row now worker_id lease_seconds row in
      (
        record {
          run_id = run_id;
          worker_id = worker_id;
          fencing_token = row'.fencing_token;
          lease_until = now + lease_seconds;
          takeover = not (is_null row.owner_worker_id);
          delivery_attempt = row'.delivery.attempt;
        },
        record db { runs = insert run_id row' db.runs },
      )

  -- The state that `_mark_delivery_exhausted` writes.
  unfoldable pub exhausted_state : ℕ → Row Body → RunState Body
  exhausted_state now row = record row.state_json {
    status = RunStatus.failed;
    sequence = row.current_sequence + 1;
    updated_at = now;
    error_type = some run_delivery_exhausted;
    delivery = record {
      attempt = row.delivery.attempt;
      failure_queued_at = some now;
      last_failure = some "lease_expired";
      last_failed_at = some now;
      last_worker_id = row.owner_worker_id;
      last_fencing_token = some row.fencing_token;
    };
  }

  unfoldable pub exhausted_row : ℕ → Row Body → Row Body
  unfolding exhausted_state
  exhausted_row now row =
      let state = exhausted_state now row in
      record row {
        status = RunStatus.failed;
        current_sequence = row.current_sequence + 1;
        state_json = state;
        updated_at = now;
        runnable = false;
        owner_worker_id = none;
        lease_until = none;
        fencing_token = row.fencing_token + 1;
        delivery = record state.delivery { attempt = row.delivery.attempt };
      }

  -- `set runnable = true where run_id = … and status = 'WAITING_CHILD' and owner_worker_id is null`
  abbrev pub is_waiting_free : Row Body → Bool
  is_waiting_free row = is_waiting_child row.status && is_null row.owner_worker_id

  abbrev pub set_runnable : Row Body → Row Body
  set_runnable row = record row { runnable = true }

  abbrev pub wake_parent : (Row Body → Row Body) → Option String → Dict (Row Body) → Dict (Row Body)
  wake_parent wake none runs = runs
  wake_parent wake (some parent) runs = update_where parent is_waiting_free wake runs

  -- The row was locked in this transaction, so its sequence is still the expected one; the
  -- state of a row has the run's id.
  unfoldable pub mark_delivery_exhausted : ℕ → String → Row Body → Database Body → Database Body
  unfolding exhausted_row update_where
  mark_delivery_exhausted now run_id row db = record db {
    runs =
        wake_parent set_runnable row.parent_run_id (insert run_id (exhausted_row now row) db.runs);
    checkpoints = db.checkpoints ++ exhausted_state now row ∷ [];
  }

  abbrev pub count_blocked : Database Body → Database Body
  count_blocked db = record db {
    counters = record db.counters {
      capacity_blocked_claims = db.counters.capacity_blocked_claims + 1;
    };
  }

  -- The active rows of the candidate's principal are below the limit.
  unfoldable pub principal_has_room : ℕ → Dict (Row Body) → Row Body → Option ℕ → Bool
  principal_has_room now runs row limit =
      is_below
        (count_rows
          (λ r. is_active now r && str_eq r.state_json.principal_key row.state_json.principal_key)
          runs)
        limit

  -- What a claim does with the candidate that its query found.
  unfoldable pub claim_candidate :
      ℕ
      → String
      → ℕ
      → Option ℕ
      → Option ℕ
      → String
      → Row Body
      → Database Body
      → Option Ownership × Database Body
  unfolding claim_locked_candidate mark_delivery_exhausted active_count
  claim_candidate now worker_id lease_seconds max_active max_attempts run_id row db =
      if delivery_is_exhausted row max_attempts
      then (none, mark_delivery_exhausted now run_id row db)
      else if not (is_below (active_count now db.runs) max_active)
      then (none, count_blocked db)
      else (let (o, db') = claim_locked_candidate now run_id row worker_id lease_seconds db in
          (some o, db'))

  -- Where no row is found, the capacity is still looked at, and a blocked claim counted.
  unfoldable pub no_candidate : ℕ → Option ℕ → Database Body → Option Ownership × Database Body
  unfolding active_count
  no_candidate now max_active db =
      if not (is_below (active_count now db.runs) max_active)
      then (none, count_blocked db)
      else (none, db)

  unfoldable pub claim_run :
      ℕ
      → String
      → String
      → ℕ
      → Option ℕ
      → Option ℕ
      → Option ℕ
      → Database Body
      → Option Ownership × Database Body
  unfolding claim_candidate no_candidate is_claimable principal_has_room
  claim_run now run_id worker_id lease_seconds max_active max_attempts max_principal db =
      elim (lookup run_id db.runs) [
        | none ↦ no_candidate now max_active db
        | some row ↦
            if is_claimable now db.runs row && principal_has_room now db.runs row max_principal
            then claim_candidate now worker_id lease_seconds max_active max_attempts run_id row db
            else no_candidate now max_active db
      ]
