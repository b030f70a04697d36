-- ===== src/Dependency.antt =====
-- src/axiom/runtime/dependency.py: deadlines, backoff, retry decisions, failure categories. A time
-- is a whole number of ticks, and a random sample a whole number of 2^-53, as CPython draws it; the
-- product of the two is rounded down.
pub mod Backoff
pub mod Retry
pub mod Category
use axiom_agent.Prelude.{
  ℕ, zero, suc, ◌*◌, ◌/◌, ◌^◌, ◌-◌, min, max, String, Bool, true, false, not, Option, none, some,
  ltb, leb, if◌then◌else◌,
}
use axiom_agent.Prelude.Int.{ℤ, pos_part, is_nonpositive, is_negative, ltb_ℤ}

pub data FailureCategory : Type 0 where
  timeout rate_limited transient_server_error connection_error : FailureCategory
  validation_error auth_error policy_denied permanent_error unknown : FailureCategory

-- Membership in `_RETRYABLE_CATEGORIES`.
unfoldable pub is_retryable : FailureCategory → Bool
is_retryable FailureCategory.timeout = true
is_retryable FailureCategory.rate_limited = true
is_retryable FailureCategory.transient_server_error = true
is_retryable FailureCategory.connection_error = true
is_retryable _ = false

pub data RetrySafety : Type 0 where
  safe idempotent unsafe : RetrySafety

abbrev pub is_unsafe : RetrySafety → Bool
is_unsafe RetrySafety.unsafe = true
is_unsafe _ = false

pub record OperationDeadline : Type 0 where
  pub configured_timeout_seconds : ℤ
  pub remaining_run_seconds : Option ℤ

unfoldable pub effective_timeout_seconds : OperationDeadline → ℕ
effective_timeout_seconds d =
    let configured = pos_part d.configured_timeout_seconds in
    elim d.remaining_run_seconds [
      | none ↦ configured
      | some remaining ↦ min configured (pos_part remaining)
    ]

unfoldable pub exhausted : OperationDeadline → Bool
unfolding effective_timeout_seconds
exhausted d = leb (effective_timeout_seconds d) 0

-- The `ValueError`s of the two constructors.
pub data PolicyError : Type 0 where
  base_negative max_negative max_below_base attempts_not_positive : PolicyError

pub data Made {ℓ} (A : Type ℓ) : Type ℓ where
  made : A → Made A
  refused : PolicyError → Made A

pub record BackoffPolicy : Type 0 where
  pub base_delay_seconds : ℕ
  pub max_delay_seconds : ℕ
  pub jitter_enabled : Bool

-- `BackoffPolicy.__post_init__`
unfoldable pub make_backoff : ℤ → ℤ → Bool → Made BackoffPolicy
make_backoff base maximum jitter =
    if is_negative base
    then refused base_negative
    else if is_negative maximum
    then refused max_negative
    else if ltb_ℤ maximum base
    then refused max_below_base
    else made (record {
      base_delay_seconds = pos_part base;
      max_delay_seconds = pos_part maximum;
      jitter_enabled = jitter;
    })

-- What 1.0 is as a sample.
abbrev pub one : ℕ
one = 2 ^ 53

unfoldable pub delay_seconds : BackoffPolicy → ℕ → ℕ → ℕ
delay_seconds p failure_number sample =
    let upper = min p.max_delay_seconds (p.base_delay_seconds * 2 ^ (failure_number - 1)) in
    if not p.jitter_enabled then upper else upper * min one sample / one

pub record RetryPolicy : Type 0 where
  pub max_attempts : ℕ
  pub base_backoff_seconds : ℕ
  pub max_backoff_seconds : ℕ
  pub jitter_enabled : Bool
  pub retryable_error : Option (String → Bool)
  pub backoff_seconds : Option ℕ

unfoldable pub base_delay : RetryPolicy → ℕ
base_delay p = elim p.backoff_seconds [ none ↦ p.base_backoff_seconds | some d ↦ d ]

unfoldable pub max_delay : RetryPolicy → ℕ
max_delay p = elim p.backoff_seconds [ none ↦ p.max_backoff_seconds | some d ↦ d ]

abbrev or_delay : Option ℤ → ℤ → ℤ
or_delay none d = d
or_delay (some b) d = b

abbrev size_of : Option ℤ → Option ℕ
size_of none = none
size_of (some b) = some (pos_part b)

abbrev if_made : Made BackoffPolicy → RetryPolicy → Made RetryPolicy
if_made (made _) p = made p
if_made (refused e) p = refused e

-- `RetryPolicy.__post_init__`. What it accepts is not negative, and is kept as its size. Only the
-- delays in force are checked: behind a fixed delay the others may be anything.
unfoldable pub make_retry_policy :
    ℤ → ℤ → ℤ → Bool → Option (String → Bool) → Option ℤ → Made RetryPolicy
unfolding make_backoff
make_retry_policy max_attempts base maximum jitter retryable backoff =
    if is_nonpositive max_attempts
    then refused attempts_not_positive
    else if_made (make_backoff (or_delay backoff base) (or_delay backoff maximum) jitter) (record {
      max_attempts = pos_part max_attempts;
      base_backoff_seconds = pos_part base;
      max_backoff_seconds = pos_part maximum;
      jitter_enabled = jitter;
      retryable_error = retryable;
      backoff_seconds = size_of backoff;
    })

-- `self.retryable_error is None or self.retryable_error(error)`
abbrev pub classifier_allows : Option (String → Bool) → String → Bool
classifier_allows none error = true
classifier_allows (some f) error = f error

unfoldable pub can_retry : RetryPolicy → String → ℕ → Bool
can_retry p error attempt =
    if leb p.max_attempts attempt then false else classifier_allows p.retryable_error error

-- The texts of `reason`.
pub data Reason : Type 0 where
  not_retryable unsafe_after_failure rejected_by_classifier allowance_exhausted : Reason
  retry_disabled no_time_left retry_allowed : Reason

pub record RetryDecision : Type 0 where
  pub retry : Bool
  pub category : FailureCategory
  pub reason : Reason
  pub delay : ℕ
  pub is_exhausted : Bool
  pub blocked_by_deadline : Bool
  pub unsafe_suppressed : Bool

-- A decision with the defaults of the data class.
abbrev pub no_retry : FailureCategory → Reason → RetryDecision
no_retry category reason = record {
  retry = false;
  category = category;
  reason = reason;
  delay = 0;
  is_exhausted = false;
  blocked_by_deadline = false;
  unsafe_suppressed = false;
}

pub record Failure : Type 0 where
  pub category : FailureCategory
  pub attempt : ℕ
  pub safety : RetrySafety
  pub error : String
  pub sample : ℕ
  pub remaining_seconds : Option ℤ
  pub retry_after_seconds : Option ℤ

-- The delay in force: the backoff, or what the other side asks for.
unfoldable pub chosen_delay : RetryPolicy → Failure → ℕ
unfolding delay_seconds base_delay max_delay
chosen_delay p f =
    let delay =
      delay_seconds
        (record {
          base_delay_seconds = base_delay p;
          max_delay_seconds = max_delay p;
          jitter_enabled = p.jitter_enabled;
        })
        f.attempt f.sample in
    elim f.retry_after_seconds [ none ↦ delay | some after ↦ max delay (pos_part after) ]

-- `remaining_seconds is not None and delay >= max(0.0, remaining_seconds)`
unfoldable pub is_too_late : Option ℤ → ℕ → Bool
is_too_late none delay = false
is_too_late (some remaining) delay = leb (pos_part remaining) delay

unfoldable pub decide : RetryPolicy → Failure → RetryDecision
unfolding is_too_late
decide p f =
    if not (is_retryable f.category)
    then no_retry f.category not_retryable
    else if is_unsafe f.safety
    then record (no_retry f.category unsafe_after_failure) { unsafe_suppressed = true }
    else if not (classifier_allows p.retryable_error f.error)
    then no_retry f.category rejected_by_classifier
    else if leb p.max_attempts f.attempt
    then record (no_retry f.category
        (if ltb 1 p.max_attempts then allowance_exhausted else retry_disabled)) {
          is_exhausted = ltb 1 p.max_attempts;
        }
    else if is_too_late f.remaining_seconds (chosen_delay p f)
    then record (no_retry f.category no_time_left) {
      delay = chosen_delay p f;
      blocked_by_deadline = true;
    }
    else record (no_retry f.category retry_allowed) { retry = true; delay = chosen_delay p f }
