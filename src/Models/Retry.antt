-- ===== src/Models/Retry.antt =====
-- What a stored tool execution says of retries after a restart.
use axiom_agent.Prelude.{
  ◌<◌, String, ◌≡◌, ◌≢◌, refl, ap, sym, ◌∙◌, true, false, Option, none, some, arith, inl, inr,
  Bool-cases, if◌then◌else◌,
}
use axiom_agent.Models.{
  ToolExecutionStatus, ToolRetryState, ToolExecutionRecord, ToolRow, retry_state_value,
  stored_retry_state, is_no_retry, is_failed_or_unknown, tool_retry_state, suppressed_reason,
  from_dict, to_dict,
}

stored-value :
    (s : ToolRetryState)
    → stored_retry_state (some (retry_state_value s)) ≡ (if is_no_retry s then none else some s)
unfolding stored_retry_state retry_state_value
stored-value ToolRetryState.no_retry = refl
stored-value ToolRetryState.retry_pending = refl
stored-value _ = refl

suppressed_reason_twice :
    (s : ToolRetryState) (t : ToolExecutionStatus) (r : Option String)
    → suppressed_reason s t (suppressed_reason s t r) ≡ suppressed_reason s t r
unfolding suppressed_reason
suppressed_reason_twice s t r = ground arith

no_retry-reason :
    (t : ToolExecutionStatus) (r : Option String)
    → suppressed_reason ToolRetryState.no_retry t r ≡ r
unfolding suppressed_reason
no_retry-reason t r = ground arith

not_no_retry : (s : ToolRetryState) → is_no_retry s ≡ false → s ≢ ToolRetryState.no_retry
not_no_retry s h e = ground (arith, h, e)

is_no_retry-eq : (s : ToolRetryState) → is_no_retry s ≡ true → s ≡ ToolRetryState.no_retry
is_no_retry-eq s h = ground arith

module _ {Body : Type 0} where
  state_is_stored :
      (r : ToolExecutionRecord Body)
      → r.retry_state ≢ ToolRetryState.no_retry
      → tool_retry_state (to_dict r) ≡ r.retry_state
  unfolding tool_retry_state to_dict
  state_is_stored r ne = ground (arith, stored-value r.retry_state)

  -- Whatever was stored, a failed or unknown attempt is never read back as one with no retry
  -- decision, so a restart cannot start it anew.
  pub from_dict-stops :
      (row : ToolRow Body)
      → 0 < row.attempt
      → is_failed_or_unknown row.status ≡ true
      → (from_dict row).retry_state ≢ ToolRetryState.no_retry
  unfolding from_dict stored_retry_state
  from_dict-stops row tried bad e = ground arith

  -- A row that leaves no decision says nothing of one.
  same_no_retry :
      (row : ToolRow Body)
      → tool_retry_state row ≡ ToolRetryState.no_retry
      → tool_retry_state (to_dict (from_dict row)) ≡ ToolRetryState.no_retry
  unfolding tool_retry_state from_dict to_dict
  same_no_retry row e =
      let reason = no_retry-reason row.status row.retry_suppressed_reason in
      simp (e, reason) (ground arith)

  same_state :
      (row : ToolRow Body) → tool_retry_state (to_dict (from_dict row)) ≡ tool_retry_state row
  same_state row = elim (Bool-cases (is_no_retry (tool_retry_state row))) [
    | inl none_left ↦
        let e = is_no_retry-eq (tool_retry_state row) none_left in same_no_retry row e ∙ sym e
    | inr decided ↦
        state_is_stored (from_dict row)
          (unfold from_dict in not_no_retry (tool_retry_state row) decided)
        ∙ (unfold from_dict in refl)
  ]

  -- What was read from a row is read back unchanged once it is written.
  pub from_dict-to_dict : (row : ToolRow Body) → from_dict (to_dict (from_dict row)) ≡ from_dict row
  unfolding from_dict to_dict
  from_dict-to_dict row =
      let state = tool_retry_state row in
      rw same_state (
        ap (λ (reason : Option String). record (from_dict row) { retry_suppressed_reason = reason })
          (suppressed_reason_twice state row.status row.retry_suppressed_reason))
