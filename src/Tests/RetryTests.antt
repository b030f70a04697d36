-- ===== src/Tests/RetryTests.antt =====
-- Retries of src/axiom/runtime/dependency.py and stored tool executions of
-- src/axiom/runtime/models.py at concrete inputs.
use axiom_agent.Prelude.{◌/◌, String, ◌≡◌, ◌≢◌, ◌↔◌, refl, true, false, none, some, arith}
use axiom_agent.Prelude.Int.{pos, negsuc}
use axiom_agent.Dependency.{
  FailureCategory, RetrySafety, BackoffPolicy, RetryPolicy, Failure, delay_seconds, chosen_delay,
  decide, is_retryable, make_retry_policy, refused, max_below_base, one,
}
use axiom_agent.Dependency.Retry.{MayRetry, decide_iff}
use axiom_agent.Dependency.Category.{ErrorFields}
use axiom_agent.Models.{ToolExecutionStatus, ToolRetryState, ToolRow, from_dict, to_dict}
use axiom_agent.Models.Retry.{from_dict-to_dict}

-- Three attempts, 500 ticks at first and 4000 at most.
abbrev policy : RetryPolicy
policy = record {
  max_attempts = 3;
  base_backoff_seconds = 500;
  max_backoff_seconds = 4000;
  jitter_enabled = false;
  retryable_error = none;
  backoff_seconds = none;
}

abbrev rate_limit : Failure
rate_limit = record {
  category = FailureCategory.rate_limited;
  attempt = 2;
  safety = RetrySafety.idempotent;
  error = "429";
  sample = 0;
  remaining_seconds = some (pos 60000);
  retry_after_seconds = some (pos 2500);
}

abbrev plain_backoff : BackoffPolicy
plain_backoff = record {
  base_delay_seconds = 500;
  max_delay_seconds = 4000;
  jitter_enabled = false;
}

delays :
    (delay_seconds plain_backoff 1 0 ≡ 500)
    × (delay_seconds plain_backoff 3 0 ≡ 2000)
    × (delay_seconds plain_backoff 9 0 ≡ 4000)
    × (delay_seconds (record plain_backoff { jitter_enabled = true }) 3 (one / 4) ≡ 500)
unfolding delay_seconds
delays = (refl, refl, refl, refl)

retried : ((decide policy rate_limit).retry ≡ true) × ((decide policy rate_limit).delay ≡ 2500)
unfolding decide is_retryable chosen_delay
retried = (refl, refl)

fixed_delay_below :
    make_retry_policy (pos 3) (pos 500) (pos 4000) true none (some (negsuc 0))
    ≢ refused max_below_base
unfolding make_retry_policy
fixed_delay_below = ground arith

decide_iff_example : ((decide policy rate_limit).retry ≡ true) ↔ MayRetry policy rate_limit
decide_iff_example = decide_iff policy rate_limit

abbrev server_error : ErrorFields
server_error = record {
  failure_category = none;
  category = some "strange";
  status_code = some (pos 503);
  error_type = some "timeout";
  error = none;
}

abbrev same_text : String → String
same_text s = s

-- A row from before retries were recorded.
abbrev legacy_row : ToolRow Unit
legacy_row = record {
  invocation_id = "i";
  run_id = "r";
  arguments_hash = "h";
  status = ToolExecutionStatus.failed;
  attempt = 1;
  retry_state = none;
  retry_exhausted = false;
  retry_suppressed_reason = none;
  next_retry_at = none;
  updated_at = 0;
  body = tt;
}

legacy_row_read :
    ((from_dict legacy_row).retry_state ≡ ToolRetryState.retry_suppressed)
    × ((from_dict legacy_row).retry_suppressed_reason ≡ some "legacy_failure")
unfolding from_dict
legacy_row_read = (refl, refl)

from_dict-to_dict_example : from_dict (to_dict (from_dict legacy_row)) ≡ from_dict legacy_row
from_dict-to_dict_example = from_dict-to_dict legacy_row
