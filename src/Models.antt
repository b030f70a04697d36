-- ===== src/Models.antt =====
-- src/axiom/runtime/models.py: the states of Runs and tool executions, and what a tool execution is
-- read back as. Instants that are only stored and copied are texts, as in the source.
pub mod Retry
use axiom_agent.Prelude.{
  ℕ, String, Bool, true, false, ◌&&◌, ◌||◌, Option, none, some, ltb, str_eq, is_some, if◌then◌else◌,
}

pub data RunStatus : Type 0 where
  running interrupted waiting_approval waiting_child completed failed cancelled : RunStatus

-- `RunState.finished`
unfoldable pub finished : RunStatus → Bool
finished RunStatus.completed = true
finished RunStatus.failed = true
finished RunStatus.cancelled = true
finished _ = false

pub data ToolExecutionStatus : Type 0 where
  pending running succeeded failed unknown : ToolExecutionStatus

pub data ToolRetryState : Type 0 where
  no_retry retry_pending retry_suppressed retry_exhausted : ToolRetryState

-- The fields of `ToolExecutionRecord` that its own code looks at, and the others as `Body`.
pub record ToolExecutionRecord (Body : Type 0) : Type 0 where
  pub invocation_id : String
  pub run_id : String
  pub arguments_hash : String
  pub status : ToolExecutionStatus
  pub attempt : ℕ
  pub retry_state : ToolRetryState
  pub retry_suppressed_reason : Option String
  pub next_retry_at : Option String
  pub updated_at : ℕ
  pub body : Body

abbrev pub is_exhausted : ToolRetryState → Bool
is_exhausted ToolRetryState.retry_exhausted = true
is_exhausted _ = false

-- The setter of the property `retry_exhausted`.
unfoldable pub set_retry_exhausted : Bool → ToolRetryState → ToolRetryState
set_retry_exhausted value state =
    if value
    then ToolRetryState.retry_exhausted
    else if is_exhausted state
    then ToolRetryState.no_retry
    else state

-- `self.retry_state.value`
unfoldable pub retry_state_value : ToolRetryState → String
retry_state_value ToolRetryState.no_retry = "NONE"
retry_state_value ToolRetryState.retry_pending = "RETRY_PENDING"
retry_state_value ToolRetryState.retry_suppressed = "RETRY_SUPPRESSED"
retry_state_value ToolRetryState.retry_exhausted = "RETRY_EXHAUSTED"

-- `ToolRetryState(str(value))`; `none` is its `ValueError`.
unfoldable pub parse_retry_state : String → Option ToolRetryState
parse_retry_state value =
    if str_eq value "NONE"
    then some ToolRetryState.no_retry
    else if str_eq value "RETRY_PENDING"
    then some ToolRetryState.retry_pending
    else if str_eq value "RETRY_SUPPRESSED"
    then some ToolRetryState.retry_suppressed
    else if str_eq value "RETRY_EXHAUSTED"
    then some ToolRetryState.retry_exhausted
    else none

abbrev pub is_no_retry : ToolRetryState → Bool
is_no_retry ToolRetryState.no_retry = true
is_no_retry _ = false

abbrev pub is_failed_or_unknown : ToolExecutionStatus → Bool
is_failed_or_unknown ToolExecutionStatus.failed = true
is_failed_or_unknown ToolExecutionStatus.unknown = true
is_failed_or_unknown _ = false

-- What the row says of a retry, if it is anything but NONE: the `try` of `_tool_retry_state`.
unfoldable pub stored_retry_state : Option String → Option ToolRetryState
unfolding parse_retry_state
stored_retry_state none = none
stored_retry_state (some value) = elim (parse_retry_state value) [
  | none ↦ none
  | some parsed ↦ if is_no_retry parsed then none else some parsed
]

-- The dictionary of a stored tool execution.
pub record ToolRow (Body : Type 0) : Type 0 where
  pub invocation_id : String
  pub run_id : String
  pub arguments_hash : String
  pub status : ToolExecutionStatus
  pub attempt : ℕ
  pub retry_state : Option String
  pub retry_exhausted : Bool
  pub retry_suppressed_reason : Option String
  pub next_retry_at : Option String
  pub updated_at : ℕ
  pub body : Body

-- The reason that `from_dict` fills in.
unfoldable pub suppressed_reason :
    ToolRetryState → ToolExecutionStatus → Option String → Option String
suppressed_reason ToolRetryState.retry_suppressed ToolExecutionStatus.unknown none =
    some "unknown_outcome"
suppressed_reason ToolRetryState.retry_suppressed status none = some "legacy_failure"
suppressed_reason state status reason = reason

module _ {Body : Type 0} where
  -- `_tool_retry_state`
  unfoldable pub tool_retry_state : ToolRow Body → ToolRetryState
  unfolding stored_retry_state
  tool_retry_state row = elim (stored_retry_state row.retry_state) [
    | some state ↦ state
    | none ↦
        if row.retry_exhausted
        then ToolRetryState.retry_exhausted
        else if is_some row.retry_suppressed_reason
        then ToolRetryState.retry_suppressed
        else if is_some row.next_retry_at
        then ToolRetryState.retry_pending
        else if ltb 0 row.attempt && is_failed_or_unknown row.status
        then ToolRetryState.retry_suppressed
        else ToolRetryState.no_retry
  ]

  unfoldable pub from_dict : ToolRow Body → ToolExecutionRecord Body
  unfolding tool_retry_state suppressed_reason
  from_dict row =
      let state = tool_retry_state row in
      record {
        invocation_id = row.invocation_id;
        run_id = row.run_id;
        arguments_hash = row.arguments_hash;
        status = row.status;
        attempt = row.attempt;
        retry_state = state;
        retry_suppressed_reason = suppressed_reason state row.status row.retry_suppressed_reason;
        next_retry_at = row.next_retry_at;
        updated_at = row.updated_at;
        body = row.body;
      }

  -- `to_dict` writes no key `retry_exhausted`.
  unfoldable pub to_dict : ToolExecutionRecord Body → ToolRow Body
  unfolding retry_state_value
  to_dict r = record {
    invocation_id = r.invocation_id;
    run_id = r.run_id;
    arguments_hash = r.arguments_hash;
    status = r.status;
    attempt = r.attempt;
    retry_state = some (retry_state_value r.retry_state);
    retry_exhausted = false;
    retry_suppressed_reason = r.retry_suppressed_reason;
    next_retry_at = r.next_retry_at;
    updated_at = r.updated_at;
    body = r.body;
  }
