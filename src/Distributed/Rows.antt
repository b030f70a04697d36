-- ===== src/Distributed/Rows.antt =====
-- The tables of src/axiom/runtime/postgres.py, and the conditions that its queries share.
use axiom_agent.Prelude.{
  ℕ, zero, suc, ◌+◌, String, Bool, true, false, ◌&&◌, ◌||◌, not, Option, none, some, List, [], ◌∷◌,
  any, leb, ltb, ◌==◌, str_eq, length, if◌then◌else◌,
}
use axiom_agent.Prelude.Int.{ℤ}
use axiom_agent.Dict.{Dict, lookup, delete}
use axiom_agent.Models.{RunStatus}

-- The columns about deliveries, which a stored state repeats.
pub record Delivery : Type 0 where
  pub attempt : ℕ
  pub failure_queued_at : Option ℕ
  pub last_failure : Option String
  pub last_failed_at : Option ℕ
  pub last_worker_id : Option String
  pub last_fencing_token : Option ℕ

-- The keys of `state_json` that the store reads or writes, and the others as `Body`.
pub record RunState (Body : Type 0) : Type 0 where
  pub run_id : String
  pub thread_id : String
  pub parent_run_id : Option String
  pub principal_key : String
  pub status : RunStatus
  pub sequence : ℕ
  pub created_at : ℕ
  pub updated_at : ℕ
  pub max_wall_time_seconds : Option ℕ
  pub base_priority : Option ℤ
  pub runnable_since : Option ℕ
  pub error_type : Option String
  pub delivery : Delivery
  pub body : Body

-- A row of `runs`, under its `run_id`.
pub record Row (Body : Type 0) : Type 0 where
  pub thread_id : String
  pub status : RunStatus
  pub current_sequence : ℕ
  pub state_json : RunState Body
  pub parent_run_id : Option String
  pub created_at : ℕ
  pub updated_at : ℕ
  pub runnable : Bool
  pub owner_worker_id : Option String
  pub lease_until : Option ℕ
  pub fencing_token : ℕ
  pub claimed_at : Option ℕ
  pub last_heartbeat_at : Option ℕ
  pub delivery : Delivery

-- A row of `submission_idempotency`.
pub record Submission : Type 0 where
  pub thread_id : String
  pub idempotency_key : String
  pub request_fingerprint : String
  pub run_id : String

-- The counts that a store object keeps outside its tables.
pub record Counters : Type 0 where
  pub admission_rejections : ℕ
  pub capacity_blocked_claims : ℕ
  pub idempotent_submission_replays : ℕ
  pub idempotency_conflicts : ℕ
  pub manual_requeues : ℕ

pub record Database (Body : Type 0) : Type 0 where
  pub runs : Dict (Row Body)
  pub checkpoints : List (RunState Body)
  pub submissions : List Submission
  pub counters : Counters

-- `RunOwnership`
pub record Ownership : Type 0 where
  pub run_id : String
  pub worker_id : String
  pub fencing_token : ℕ
  pub lease_until : ℕ
  pub takeover : Bool
  pub delivery_attempt : ℕ

-- The exceptions, and the refusals of `ApiError`.
pub data StoreError : Type 0 where
  only_new_run run_exists admission_rejected principal_quota_exceeded : StoreError
  idempotency_conflict missing_run run_not_found not_in_failure_queue : StoreError
  not_eligible ownership_lost checkpoint_conflict : StoreError

pub data Outcome {ℓ} (A : Type ℓ) : Type ℓ where
  returned : A → Outcome A
  raised : StoreError → Outcome A

-- `a = b`, of a column that may be null
abbrev pub is_text : Option String → String → Bool
is_text none s = false
is_text (some t) s = str_eq t s

abbrev pub is_null {ℓ} : {A : Type ℓ} → Option A → Bool
is_null none = true
is_null (some _) = false

-- `t > current_timestamp` and `t <= current_timestamp`, of a column that may be null
abbrev pub is_after : Option ℕ → ℕ → Bool
is_after none now = false
is_after (some t) now = ltb now t

abbrev pub is_past : Option ℕ → ℕ → Bool
is_past none now = false
is_past (some t) now = leb t now

-- `status in ('RUNNING', 'WAITING_CHILD')`
abbrev pub is_open_status : RunStatus → Bool
is_open_status RunStatus.running = true
is_open_status RunStatus.waiting_child = true
is_open_status _ = false

abbrev pub is_cancelled : RunStatus → Bool
is_cancelled RunStatus.cancelled = true
is_cancelled _ = false

abbrev pub is_waiting_child : RunStatus → Bool
is_waiting_child RunStatus.waiting_child = true
is_waiting_child _ = false

abbrev pub or_zero : Option ℕ → ℕ
or_zero none = 0
or_zero (some n) = n

module _ {Body : Type 0} where
  -- `_DEADLINE_IS_LIVE`
  unfoldable pub deadline_is_live : ℕ → Row Body → Bool
  deadline_is_live now row =
      let limit = or_zero row.state_json.max_wall_time_seconds in
      leb limit 0 || ltb now (row.created_at + limit)

  -- The rows of the recursive query of `_ANCESTORS_NOT_CANCELLED`. A row is taken out once it was
  -- reached; a chain of parents that comes back to a row, where the query does not end, ends there.
  unfoldable pub ancestors : ℕ → Dict (Row Body) → Option String → List (Row Body)
  ancestors zero runs parent = []
  ancestors (suc fuel) runs none = []
  ancestors (suc fuel) runs (some k) =
      let rest = λ (p : Option String). ancestors fuel (delete k runs) p in
      elim (lookup k runs) [ none ↦ [] | some row ↦ row ∷ rest row.parent_run_id ]

  unfoldable pub ancestors_not_cancelled : Dict (Row Body) → Row Body → Bool
  ancestors_not_cancelled runs row =
      not (any (λ a. is_cancelled a.status) (ancestors (length runs) runs row.parent_run_id))

  -- `_RUN_IS_CLAIMABLE`, which is `_RUN_IS_QUEUED` too
  unfoldable pub is_claimable : ℕ → Dict (Row Body) → Row Body → Bool
  is_claimable now runs row =
      row.runnable
      && is_open_status row.status
      && (is_null row.owner_worker_id || is_past row.lease_until now)
      && deadline_is_live now row
      && ancestors_not_cancelled runs row

  -- `_RUN_IS_ACTIVE`
  unfoldable pub is_active : ℕ → Row Body → Bool
  is_active now row =
      is_open_status row.status && not (is_null row.owner_worker_id) && is_after row.lease_until now

  -- `select count(*) from runs where …`
  unfoldable pub count_rows : (Row Body → Bool) → Dict (Row Body) → ℕ
  count_rows p [] = 0
  count_rows p ((_, row) ∷ runs) = (if p row then 1 else 0) + count_rows p runs

  unfoldable pub active_count : ℕ → Dict (Row Body) → ℕ
  active_count now runs = count_rows (is_active now) runs

  unfoldable pub queued_count : ℕ → Dict (Row Body) → ℕ
  queued_count now runs = count_rows (is_claimable now runs) runs

  -- `run_id = … and owner_worker_id = … and fencing_token = …`, of the row of that run
  abbrev pub is_held_by : Ownership → Row Body → Bool
  is_held_by o row = is_text row.owner_worker_id o.worker_id && row.fencing_token == o.fencing_token

  -- The condition of `_validate_ownership` and `_renew_lease`.
  unfoldable pub owns : ℕ → Ownership → Row Body → Bool
  owns now o row = is_held_by o row && is_open_status row.status && is_after row.lease_until now
