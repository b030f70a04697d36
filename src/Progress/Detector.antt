-- ===== src/Progress/Detector.antt =====
-- `ProgressDetector.observe` of src/axiom/runtime/progress.py and its helpers, on a state that is passed
-- on.
use axiom_agent.Prelude.{
  ℕ, zero, suc, ◌+◌, ◌-◌, ◌*◌, String, Bool, true, false, ◌&&◌, not, Option, none, some, List, [],
  ◌∷◌, ◌++◌, length, contains, leb, ltb, str_eq, if◌then◌else◌, take, drop,
}
use axiom_agent.Progress.State.{
  DetectorType, DecisionType, ProgressPolicy, ProgressObservation, ProgressState, ProgressDecision,
  go_on,
}

-- `_append_bounded`
unfoldable pub append_bounded : List String → String → ℕ → List String
append_bounded values value limit =
    let longer = values ++ value ∷ [] in
    if ltb limit (length longer) then drop (length longer - limit) longer else longer

-- `xs == ys`
abbrev pub texts_eq : List String → List String → Bool
texts_eq [] [] = true
texts_eq [] (y ∷ ys) = false
texts_eq (x ∷ xs) [] = false
texts_eq (x ∷ xs) (y ∷ ys) = str_eq x y && texts_eq xs ys

-- The slices of `size` texts of a tail, as many as are counted, are all the unit.
unfoldable pub repeats_unit : ℕ → ℕ → List String → List String → Bool
repeats_unit size zero unit tail = true
repeats_unit size (suc n) unit tail =
    texts_eq (take size tail) unit && repeats_unit size n unit (drop size tail)

-- One round of the loop. Where nothing is needed, no slice is looked at.
unfoldable pub ends_with_cycle : List String → ℕ → ℕ → Bool
ends_with_cycle history required size =
    let needed = size * required in
    let tail = drop (length history - needed) history in
    leb needed (length history) && repeats_unit size required (take size tail) tail

-- `_detect_cycle`
unfoldable pub detect_cycle : List String → ℕ → Option ℕ × ℕ
detect_cycle history required =
    if ends_with_cycle history required 2
    then (some 2, required)
    else if ends_with_cycle history required 3
    then (some 3, required)
    else if ends_with_cycle history required 4
    then (some 4, required)
    else (none, 0)

-- `bool(s)`, of a text or None
abbrev pub is_truthy : Option String → Bool
is_truthy none = false
is_truthy (some s) = not (str_eq s "")

abbrev pub is_last : Option String → String → Bool
is_last none s = false
is_last (some t) s = str_eq t s

unfoldable pub is_meaningful : ProgressState → Option String → Bool
is_meaningful state none = false
is_meaningful state (some s) = not (str_eq s "") && not (contains s state.progress_history)

-- The state after progress: the window of detection starts again.
unfoldable pub note_progress : ProgressPolicy → ℕ → String → ProgressState → ProgressState
note_progress p step fingerprint state = record state {
  progress_history = append_bounded state.progress_history fingerprint p.history_limit;
  stagnant_steps = 0;
  last_progress_step = step;
  recovery_attempts = 0;
  recovery_signal_pending = false;
  detected = false;
  detector_type = none;
  cycle_length = none;
  repetition_count = 0;
  action_history = [];
  error_history = [];
}

unfoldable pub note_state : ProgressPolicy → ProgressObservation → ProgressState → ProgressState
note_state p o state = elim o.state_fingerprint [
  | none ↦
      if o.eligible_for_stagnation
      then record state { stagnant_steps = state.stagnant_steps + 1 }
      else state
  | some s ↦
      if is_meaningful state (some s)
      then note_progress p o.step s state
      else if o.eligible_for_stagnation
      then record state { stagnant_steps = state.stagnant_steps + 1 }
      else state
]

unfoldable pub note_action : ProgressPolicy → Bool → Option String → ProgressState → ProgressState
note_action p meaningful none state = record state { action_repeat_count = 0 }
note_action p meaningful (some action) state =
    if is_truthy (some action)
    then record state {
      action_repeat_count =
          if is_last state.last_action_fingerprint action && not meaningful
          then state.action_repeat_count + 1
          else 1;
      last_action_fingerprint = some action;
      action_history = append_bounded state.action_history action p.history_limit;
    }
    else record state { action_repeat_count = 0 }

unfoldable pub note_error : ProgressPolicy → Bool → Option String → ProgressState → ProgressState
note_error p meaningful none state = record state {
  error_repeat_count = 0;
  last_error_fingerprint = none;
}
note_error p meaningful (some error) state =
    if is_truthy (some error)
    then record state {
      error_repeat_count =
          if is_last state.last_error_fingerprint error && not meaningful
          then state.error_repeat_count + 1
          else 1;
      last_error_fingerprint = some error;
      error_history = append_bounded state.error_history error p.history_limit;
    }
    else record state { error_repeat_count = 0; last_error_fingerprint = none }

-- What is detected, how often it was seen, and the length of a cycle.
unfoldable pub detect : ProgressPolicy → ProgressState → Option (DetectorType × ℕ × Option ℕ)
detect p state =
    if leb p.max_identical_errors state.error_repeat_count
    then some (DetectorType.repeated_error, state.error_repeat_count, none)
    else if leb p.max_identical_actions state.action_repeat_count
    then some (DetectorType.identical_action_loop, state.action_repeat_count, none)
    else let (found, repetitions) = detect_cycle state.action_history p.max_cycle_repetitions in
      elim found [
        | some size ↦ some (DetectorType.action_cycle, repetitions, some size)
        | none ↦
            if leb p.max_stagnant_steps state.stagnant_steps
            then some (DetectorType.state_stagnation, state.stagnant_steps, none)
            else none
      ]

-- `_reset_detection_window`
unfoldable pub reset_detection_window : ProgressState → ProgressState
reset_detection_window state = record state {
  action_history = [];
  error_history = [];
  action_repeat_count = 0;
  error_repeat_count = 0;
  stagnant_steps = 0;
  last_action_fingerprint = none;
  last_error_fingerprint = none;
}

unfoldable pub note_detection : DetectorType → ℕ → Option ℕ → ProgressState → ProgressState
note_detection kind repetitions size state = record state {
  detected = true;
  detector_type = some kind;
  cycle_length = size;
  repetition_count = repetitions;
}

-- The end of `observe`, after a detection or none.
unfoldable pub decide :
    ProgressPolicy
    → Option (DetectorType × ℕ × Option ℕ)
    → ProgressState
    → ProgressDecision × ProgressState
decide p none state = (go_on, state)
decide p (some (kind, repetitions, size)) state =
    let seen = note_detection kind repetitions size state in
    if ltb state.recovery_attempts p.max_recovery_attempts
    then (
      record {
        decision = DecisionType.recover;
        detector_type = some kind;
        repetition_count = repetitions;
        cycle_length = size;
        duplicate = false;
      },
      reset_detection_window (record seen {
        recovery_attempts = state.recovery_attempts + 1;
        recovery_signal_pending = true;
      }),
    )
    else (
      record {
        decision = DecisionType.terminate;
        detector_type = some kind;
        repetition_count = repetitions;
        cycle_length = size;
        duplicate = false;
      },
      record seen { recovery_signal_pending = false },
    )

-- The state that `observe` looks at for a detection.
unfoldable pub note : ProgressPolicy → ProgressObservation → ProgressState → ProgressState
note p o state =
    let known = record state {
      processed_operations =
          append_bounded state.processed_operations o.operation_id p.history_limit;
    } in
    let meaningful = is_meaningful known o.state_fingerprint in
    note_error p meaningful o.error_fingerprint
      (note_action p meaningful o.action_fingerprint (note_state p o known))

unfoldable pub observe :
    ProgressPolicy → ProgressState → ProgressObservation → ProgressDecision × ProgressState
observe p state o =
    if not p.enabled
    then (go_on, state)
    else if contains o.operation_id state.processed_operations
    then (record go_on { duplicate = true }, state)
    else (let noted = note p o state in decide p (detect p noted) noted)

unfoldable pub mark_recovery_delivered : ProgressState → ProgressState
mark_recovery_delivered state = record state { recovery_signal_pending = false }
