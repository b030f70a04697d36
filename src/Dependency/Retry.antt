-- ===== src/Dependency/Retry.antt =====
-- When `decide` retries.
use axiom_agent.Prelude.{
  ℕ, ◌≤◌, ◌<◌, ◌≡◌, Bool, true, false, none, some, arith, ◌⊎◌, ◌↔◌, ◌≢◌, ◌+◌, Option,
}
use axiom_agent.Prelude.Int.{ℤ, pos_part}
use axiom_agent.Dependency.{
  RetryPolicy, Failure, is_retryable, is_unsafe, classifier_allows, chosen_delay, is_too_late,
  decide,
}

-- The wait ends before the Run's deadline, if there is one.
abbrev pub FitsDeadline : Option ℤ → ℕ → Type 0
FitsDeadline none delay = Unit
FitsDeadline (some remaining) delay = delay < pos_part remaining

-- All that a retry asks for.
pub record MayRetry (p : RetryPolicy) (f : Failure) : Type 0 where
  pub retryable : is_retryable f.category ≡ true
  pub not_unsafe : is_unsafe f.safety ≡ false
  pub allowed : classifier_allows p.retryable_error f.error ≡ true
  pub attempts_left : f.attempt < p.max_attempts
  pub in_time : FitsDeadline f.remaining_seconds (chosen_delay p f)

FitsDeadline-iff :
    (r : Option ℤ) (d : ℕ)
    → (is_too_late r d ≡ false → FitsDeadline r d) × (FitsDeadline r d → is_too_late r d ≡ false)
unfolding is_too_late
FitsDeadline-iff none d = ((λ h. tt), (λ h. ground arith))
FitsDeadline-iff (some r) d = ((λ h. ground arith), (λ h. ground arith))

pub decide-MayRetry : (p : RetryPolicy) (f : Failure) → (decide p f).retry ≡ true → MayRetry p f
unfolding decide
decide-MayRetry p f h = record {
  retryable = ground arith;
  not_unsafe = ground arith;
  allowed = ground arith;
  attempts_left = ground arith;
  in_time = (FitsDeadline-iff f.remaining_seconds (chosen_delay p f)).0 (ground arith);
}

MayRetry-decide : (p : RetryPolicy) (f : Failure) → MayRetry p f → (decide p f).retry ≡ true
unfolding decide
MayRetry-decide p f m =
    ground (arith, (FitsDeadline-iff f.remaining_seconds (chosen_delay p f)).1 m.in_time)

-- `decide` retries exactly when the category can be retried, the operation is not unsafe, the
-- classifier allows it, an attempt is left and the chosen delay ends before the deadline.
pub decide_iff : (p : RetryPolicy) (f : Failure) → ((decide p f).retry ≡ true) ↔ MayRetry p f
decide_iff p f = (decide-MayRetry p f, MayRetry-decide p f)

abbrev pub flag : Bool → ℕ
flag false = 0
flag true = 1

-- A decision is a retry after the chosen delay, or it sets at most one of its three flags. The flag
-- `exhausted` is set only with no attempt left, `blocked_by_deadline` only with one left and a
-- deadline, and `unsafe_suppressed` only for an unsafe operation.
pub decide_flags :
    (p : RetryPolicy) (f : Failure)
    → let d = decide p f in
      (flag d.retry + flag d.is_exhausted + flag d.blocked_by_deadline + flag d.unsafe_suppressed
        ≤ 1)
      × ((d.retry ≡ false) ⊎ (d.delay ≡ chosen_delay p f))
      × ((d.is_exhausted ≡ false) ⊎ (p.max_attempts ≤ f.attempt))
      × ((d.blocked_by_deadline ≡ false)
          ⊎ ((f.attempt < p.max_attempts) × (f.remaining_seconds ≢ none)))
      × ((d.unsafe_suppressed ≡ false) ⊎ (is_unsafe f.safety ≡ true))
unfolding decide
decide_flags p f = ground arith
