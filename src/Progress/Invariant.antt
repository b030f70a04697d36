-- ===== src/Progress/Invariant.antt =====
-- What every state of the detector of src/axiom/runtime/progress.py satisfies.
use axiom_agent.Prelude.{
  ℕ, zero, suc, ◌-◌, ◌≤◌, ◌<◌, String, ◌≡◌, Bool, true, false, not, Option, none, some, List, [],
  ◌∷◌, ◌++◌, length, contains, arith, is_some, Bool-cases, Option-cases, inl, inr, if◌then◌else◌,
  drop, ltb,
}
use axiom_agent.Progress.State.{
  DetectorType, ProgressPolicy, ProgressObservation, ProgressState, ProgressDecision, new_state,
}
use axiom_agent.Progress.Detector.{
  append_bounded, detect, decide, note, note_state, note_action, note_error, note_progress,
  is_meaningful, note_detection, reset_detection_window, observe, mark_recovery_delivered,
}

length-drop {ℓ} : {A : Type ℓ} (n : ℕ) (xs : List A) → length (drop n xs) ≡ length xs - n
length-drop zero xs = omega arith
length-drop (suc n) [] = omega arith
length-drop (suc n) (x ∷ xs) = omega (arith, length-drop n xs)

either {ℓ κ} :
    {A : Type ℓ} (P : A → Type κ) (b : Bool) (x y : A) → P x → P y → P (if b then x else y)
either P true x y h k = h
either P false x y h k = k

length-append_bounded :
    (xs : List String) (x : String) (limit : ℕ) → length (append_bounded xs x limit) ≤ limit
unfolding append_bounded
length-append_bounded xs x limit =
    let longer = xs ++ x ∷ [] in ground (arith, length-drop (length longer - limit) longer)

-- The histories are within the limit, recoveries within theirs, a signal is of a recovery, and there is
-- a detector where and only where something is detected.
pub record IsValid (p : ProgressPolicy) (s : ProgressState) : Type 0 where
  pub actions : length s.action_history ≤ p.history_limit
  pub errors : length s.error_history ≤ p.history_limit
  pub progress : length s.progress_history ≤ p.history_limit
  pub operations : length s.processed_operations ≤ p.history_limit
  pub recoveries : s.recovery_attempts ≤ p.max_recovery_attempts
  pub signal : s.recovery_signal_pending ≡ true → 0 < s.recovery_attempts
  pub kind : is_some s.detector_type ≡ s.detected

note_state-IsValid :
    (p : ProgressPolicy) (o : ProgressObservation) (s : ProgressState)
    → IsValid p s
    → IsValid p (note_state p o s)
unfolding note_state note_progress
note_state-IsValid p o s v = elim (Option-cases o.state_fingerprint) [
  | inl absent ↦ record {
    actions = ground (arith, v.actions, absent);
    errors = ground (arith, v.errors, absent);
    progress = ground (arith, v.progress, absent);
    operations = ground (arith, v.operations, absent);
    recoveries = ground (arith, v.recoveries, absent);
    signal = ground (arith, v.signal, absent);
    kind = ground (arith, v.kind, absent);
  }
  | inr (t, there) ↦ record {
    actions = ground (arith, v.actions, there);
    errors = ground (arith, v.errors, there);
    progress =
        ground
          (arith, v.progress, there, length-append_bounded s.progress_history t p.history_limit);
    operations = ground (arith, v.operations, there);
    recoveries = ground (arith, v.recoveries, there);
    signal = ground (arith, v.signal, there);
    kind = ground (arith, v.kind, there);
  }
]

note_action-IsValid :
    (p : ProgressPolicy) (b : Bool) (a : Option String) (s : ProgressState)
    → IsValid p s
    → IsValid p (note_action p b a s)
unfolding note_action
note_action-IsValid p b none s v = record {
  actions = ground (arith, v.actions);
  errors = ground (arith, v.errors);
  progress = ground (arith, v.progress);
  operations = ground (arith, v.operations);
  recoveries = ground (arith, v.recoveries);
  signal = ground (arith, v.signal);
  kind = ground (arith, v.kind);
}
note_action-IsValid p b (some a) s v = record {
  actions = ground (arith, v.actions, length-append_bounded s.action_history a p.history_limit);
  errors = ground (arith, v.errors);
  progress = ground (arith, v.progress);
  operations = ground (arith, v.operations);
  recoveries = ground (arith, v.recoveries);
  signal = ground (arith, v.signal);
  kind = ground (arith, v.kind);
}

note_error-IsValid :
    (p : ProgressPolicy) (b : Bool) (a : Option String) (s : ProgressState)
    → IsValid p s
    → IsValid p (note_error p b a s)
unfolding note_error
note_error-IsValid p b none s v = record {
  actions = ground (arith, v.actions);
  errors = ground (arith, v.errors);
  progress = ground (arith, v.progress);
  operations = ground (arith, v.operations);
  recoveries = ground (arith, v.recoveries);
  signal = ground (arith, v.signal);
  kind = ground (arith, v.kind);
}
note_error-IsValid p b (some a) s v = record {
  actions = ground (arith, v.actions);
  errors = ground (arith, v.errors, length-append_bounded s.error_history a p.history_limit);
  progress = ground (arith, v.progress);
  operations = ground (arith, v.operations);
  recoveries = ground (arith, v.recoveries);
  signal = ground (arith, v.signal);
  kind = ground (arith, v.kind);
}

decide-IsValid :
    (p : ProgressPolicy) (d : Option (DetectorType × ℕ × Option ℕ)) (s : ProgressState)
    → IsValid p s
    → IsValid p (decide p d s).1
unfolding decide note_detection reset_detection_window
decide-IsValid p none s v = v
decide-IsValid p (some (kind, repetitions, size)) s v =
    elim (Bool-cases (ltb s.recovery_attempts p.max_recovery_attempts)) [
      | inl more ↦ record {
        actions = ground (arith, v.actions, more);
        errors = ground (arith, v.errors, more);
        progress = ground (arith, v.progress, more);
        operations = ground (arith, v.operations, more);
        recoveries = ground (arith, v.recoveries, more);
        signal = ground (arith, v.signal, more);
        kind = ground (arith, v.kind, more);
      }
      | inr full ↦ record {
        actions = ground (arith, v.actions, full);
        errors = ground (arith, v.errors, full);
        progress = ground (arith, v.progress, full);
        operations = ground (arith, v.operations, full);
        recoveries = ground (arith, v.recoveries, full);
        signal = ground (arith, v.signal, full);
        kind = ground (arith, v.kind, full);
      }
    ]

note-IsValid :
    (p : ProgressPolicy) (o : ProgressObservation) (s : ProgressState)
    → IsValid p s
    → IsValid p (note p o s)
unfolding note
note-IsValid p o s v =
    let known : ProgressState = record s {
      processed_operations = append_bounded s.processed_operations o.operation_id p.history_limit;
    } in
    let v' : IsValid p known = record {
      actions = ground (arith, v.actions);
      errors = ground (arith, v.errors);
      progress = ground (arith, v.progress);
      operations = ground (
        arith,
        v.operations,
        length-append_bounded s.processed_operations o.operation_id p.history_limit,
      );
      recoveries = ground (arith, v.recoveries);
      signal = ground (arith, v.signal);
      kind = ground (arith, v.kind);
    } in
    let b = is_meaningful known o.state_fingerprint in
    note_error-IsValid p b o.error_fingerprint _
      (note_action-IsValid p b o.action_fingerprint _ (note_state-IsValid p o known v'))

-- The state of a new Run is valid, and from a valid state `observe`, with any policy and observation,
-- and the delivery of a signal lead to a valid one.
pub observe-IsValid :
    (p : ProgressPolicy) (o : ProgressObservation) (s : ProgressState)
    → IsValid p s
    → IsValid p new_state × IsValid p (observe p s o).1 × IsValid p (mark_recovery_delivered s)
unfolding observe mark_recovery_delivered
observe-IsValid p o s v = (
  record {
    actions = ground arith;
    errors = ground arith;
    progress = ground arith;
    operations = ground arith;
    recoveries = ground arith;
    signal = ground arith;
    kind = ground arith;
  },
  either (λ (r : ProgressDecision × ProgressState). IsValid p r.1) (not p.enabled) _ _ v
      (either (λ (r : ProgressDecision × ProgressState). IsValid p r.1)
        (contains o.operation_id s.processed_operations) _ _ v
        (decide-IsValid p (detect p (note p o s)) (note p o s) (note-IsValid p o s v))),
  record {
    actions = ground (arith, v.actions);
    errors = ground (arith, v.errors);
    progress = ground (arith, v.progress);
    operations = ground (arith, v.operations);
    recoveries = ground (arith, v.recoveries);
    signal = ground (arith, v.signal);
    kind = ground (arith, v.kind);
  },
)
