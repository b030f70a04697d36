-- ===== src/Progress/State.antt =====
-- `ProgressPolicy`, `ProgressObservation`, `ProgressState` and `ProgressDecision` of
-- src/axiom/runtime/progress.py. A policy's numbers are at least 0 here: a lower one fails the same tests
-- of `__post_init__`.
use axiom_agent.Prelude.{ℕ, ◌*◌, String, Bool, false, ◌&&◌, Option, none, List, [], max, leb}

pub data DetectorType : Type 0 where
  identical_action_loop repeated_error action_cycle state_stagnation : DetectorType

pub data DecisionType : Type 0 where
  continue recover terminate : DecisionType

pub record ProgressPolicy : Type 0 where
  pub enabled : Bool
  pub max_identical_actions : ℕ
  pub max_identical_errors : ℕ
  pub max_cycle_repetitions : ℕ
  pub max_stagnant_steps : ℕ
  pub max_recovery_attempts : ℕ
  pub history_limit : ℕ

abbrev is_between : ℕ → ℕ → ℕ → Bool
is_between low n high = leb low n && leb n high

-- `__post_init__` raises no error
unfoldable pub policy_is_valid : ProgressPolicy → Bool
policy_is_valid p =
    is_between 2 p.max_identical_actions 100
    && is_between 2 p.max_identical_errors 100
    && is_between 2 p.max_cycle_repetitions 100
    && is_between 2 p.max_stagnant_steps 100
    && leb p.max_recovery_attempts 10
    && is_between 8 p.history_limit 256
    && leb
        (max p.max_identical_actions
          (max p.max_identical_errors (max p.max_stagnant_steps (p.max_cycle_repetitions * 4))))
        p.history_limit

pub record ProgressObservation : Type 0 where
  pub operation_id : String
  pub step : ℕ
  pub action_fingerprint : Option String
  pub error_fingerprint : Option String
  pub state_fingerprint : Option String
  pub eligible_for_stagnation : Bool

pub record ProgressState : Type 0 where
  pub action_history : List String
  pub error_history : List String
  pub progress_history : List String
  pub processed_operations : List String
  pub action_repeat_count : ℕ
  pub error_repeat_count : ℕ
  pub stagnant_steps : ℕ
  pub recovery_attempts : ℕ
  pub recovery_signal_pending : Bool
  pub last_progress_step : ℕ
  pub detected : Bool
  pub detector_type : Option DetectorType
  pub cycle_length : Option ℕ
  pub repetition_count : ℕ
  pub last_action_fingerprint : Option String
  pub last_error_fingerprint : Option String

abbrev pub new_state : ProgressState
new_state = record {
  action_history = [];
  error_history = [];
  progress_history = [];
  processed_operations = [];
  action_repeat_count = 0;
  error_repeat_count = 0;
  stagnant_steps = 0;
  recovery_attempts = 0;
  recovery_signal_pending = false;
  last_progress_step = 0;
  detected = false;
  detector_type = none;
  cycle_length = none;
  repetition_count = 0;
  last_action_fingerprint = none;
  last_error_fingerprint = none;
}

pub record ProgressDecision : Type 0 where
  pub decision : DecisionType
  pub detector_type : Option DetectorType
  pub repetition_count : ℕ
  pub cycle_length : Option ℕ
  pub duplicate : Bool

-- `ProgressDecision(ProgressDecisionType.CONTINUE)`
abbrev pub go_on : ProgressDecision
go_on = record {
  decision = DecisionType.continue;
  detector_type = none;
  repetition_count = 0;
  cycle_length = none;
  duplicate = false;
}
