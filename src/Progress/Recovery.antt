-- ===== src/Progress/Recovery.antt =====
-- A Run without progress is stopped by src/axiom/runtime/progress.py after a bounded number of steps.
use axiom_agent.Prelude.{
  ℕ, zero, suc, ◌+◌, ◌-◌, ◌*◌, ◌≤◌, ◌<◌, String, ◌≡◌, refl, Bool, true, false, ◌&&◌, not, Option,
  none, some, List, [], ◌∷◌, any, length, contains, arith, is_some, Bool-cases, Option-cases, inl,
  inr, ◌⊎◌, ltb,
}
use axiom_agent.Progress.State.{
  DecisionType, ProgressPolicy, ProgressObservation, ProgressState, ProgressDecision, new_state,
  policy_is_valid,
}
use axiom_agent.Progress.Detector.{
  append_bounded, detect, decide, note, note_state, note_action, note_error, is_meaningful,
  note_detection, reset_detection_window, observe,
}

-- The decisions on observations in turn.
unfoldable pub observe_all :
    ProgressPolicy → ProgressState → List ProgressObservation → List ProgressDecision
observe_all p s [] = []
observe_all p s (o ∷ os) = let (d, s') = observe p s o in d ∷ observe_all p s' os

abbrev pub is_terminate : ProgressDecision → Bool
is_terminate d = elim d.decision [ DecisionType.terminate ↦ true | _ ↦ false ]

-- A new operation that counts for stagnation and shows no new state.
abbrev pub is_idle : ProgressState → ProgressObservation → Bool
is_idle s o =
    not (contains o.operation_id s.processed_operations)
    && o.eligible_for_stagnation
    && not (is_meaningful s o.state_fingerprint)

abbrev pub all_idle : ProgressPolicy → ProgressState → List ProgressObservation → Bool
all_idle p s [] = true
all_idle p s (o ∷ os) = is_idle s o && all_idle p (observe p s o).1 os

note_action-stagnant :
    (p : ProgressPolicy) (b : Bool) (a : Option String) (s : ProgressState)
    → ((note_action p b a s).stagnant_steps ≡ s.stagnant_steps)
      × ((note_action p b a s).recovery_attempts ≡ s.recovery_attempts)
unfolding note_action
note_action-stagnant p b none s = (refl, refl)
note_action-stagnant p b (some a) s = (ground arith, ground arith)

note_error-stagnant :
    (p : ProgressPolicy) (b : Bool) (a : Option String) (s : ProgressState)
    → ((note_error p b a s).stagnant_steps ≡ s.stagnant_steps)
      × ((note_error p b a s).recovery_attempts ≡ s.recovery_attempts)
unfolding note_error
note_error-stagnant p b none s = (refl, refl)
note_error-stagnant p b (some a) s = (ground arith, ground arith)

note_state-stagnant :
    (p : ProgressPolicy) (o : ProgressObservation) (s : ProgressState)
    → o.eligible_for_stagnation ≡ true
    → is_meaningful s o.state_fingerprint ≡ false
    → ((note_state p o s).stagnant_steps ≡ s.stagnant_steps + 1)
      × ((note_state p o s).recovery_attempts ≡ s.recovery_attempts)
unfolding note_state
note_state-stagnant p o s counts old = elim (Option-cases o.state_fingerprint) [
  | inl absent ↦ ground (arith, absent, counts)
  | inr (t, there) ↦ ground (arith, there, counts, old)
]

is_meaningful_known :
    (s : ProgressState) (operations : List String) (fingerprint : Option String)
    → is_meaningful (record s { processed_operations = operations }) fingerprint
      ≡ is_meaningful s fingerprint
unfolding is_meaningful
is_meaningful_known s operations none = refl
is_meaningful_known s operations (some t) = refl

note-stagnant :
    (p : ProgressPolicy) (s : ProgressState) (o : ProgressObservation)
    → is_idle s o ≡ true
    → ((note p o s).stagnant_steps ≡ s.stagnant_steps + 1)
      × ((note p o s).recovery_attempts ≡ s.recovery_attempts)
unfolding note
note-stagnant p s o idle =
    let known : ProgressState = record s {
      processed_operations = append_bounded s.processed_operations o.operation_id p.history_limit;
    } in
    let b = is_meaningful known o.state_fingerprint in
    let state = note_state p o known in
    let counted = note_state-stagnant p o known (ground (arith, idle)) (
      ground (arith, idle, is_meaningful_known s known.processed_operations o.state_fingerprint)) in
    let acted = note_action-stagnant p b o.action_fingerprint state in
    let failed =
      note_error-stagnant p b o.error_fingerprint (note_action p b o.action_fingerprint state) in
    ground (arith, counted, acted, failed)

detect_stagnant :
    (p : ProgressPolicy) (s : ProgressState)
    → p.max_stagnant_steps ≤ s.stagnant_steps
    → is_some (detect p s) ≡ true
unfolding detect
detect_stagnant p s le = ground (arith, le)

-- What one idle observation does: it stops the Run, or it counts a step, or it uses a recovery.
observe_idle :
    (p : ProgressPolicy) (s : ProgressState) (o : ProgressObservation)
    → p.enabled ≡ true
    → is_idle s o ≡ true
    → let (d, s') = observe p s o in
      (is_terminate d ≡ true)
      ⊎ ((s'.recovery_attempts ≡ s.recovery_attempts)
          × (s'.stagnant_steps ≡ s.stagnant_steps + 1)
          × (s'.stagnant_steps < p.max_stagnant_steps))
      ⊎ ((s'.recovery_attempts ≡ s.recovery_attempts + 1)
          × (s'.stagnant_steps ≡ 0)
          × (s.recovery_attempts < p.max_recovery_attempts))
unfolding observe decide reset_detection_window note_detection
observe_idle p s o on idle =
    let n = note p o s in
    let (steps, tries) = note-stagnant p s o idle in
    elim (Option-cases (detect p n)) [
      | inl nothing ↦ elim (Bool-cases (ltb n.stagnant_steps p.max_stagnant_steps)) [
        | inl less ↦ inr (inl (ground (arith, on, idle, nothing, steps, tries, less)))
        | inr enough ↦
            absurd (ground (arith, nothing, detect_stagnant p n (ground (arith, enough))))
      ]
      | inr ((kind, repetitions, size), found) ↦
          elim (Bool-cases (ltb n.recovery_attempts p.max_recovery_attempts)) [
            | inl more ↦ inr (inr (ground (arith, on, idle, found, tries, more)))
            | inr full ↦ inl (ground (arith, on, idle, found, full))
          ]
    ]

one_less_times : (n m : ℕ) → 0 < n → (n - 1) * m + m ≡ n * m
one_less_times zero m pos = absurd (omega (arith, pos))
one_less_times (suc n) m pos = ground arith

-- With `more` recoveries allowed still.
stops_within :
    (p : ProgressPolicy) (more : ℕ) (s : ProgressState) (os : List ProgressObservation)
    → p.enabled ≡ true
    → s.stagnant_steps < p.max_stagnant_steps
    → s.recovery_attempts + more ≡ p.max_recovery_attempts
    → all_idle p s os ≡ true
    → more * p.max_stagnant_steps + (p.max_stagnant_steps - s.stagnant_steps) ≤ length os
    → any is_terminate (observe_all p s os) ≡ true
unfolding observe_all
stops_within p more s [] on below tries idle enough = absurd (omega (arith, below, enough))
stops_within p more s (o ∷ os) on below tries idle enough =
    let (d, s') = observe p s o in
    elim (observe_idle p s o on (ground (arith, idle))) [
      | inl stop ↦ ground (arith, stop)
      | inr (inl (same, up, less)) ↦ ground (
        arith,
        stops_within p more s' os on less (omega (arith, same, tries)) (ground (arith, idle))
            (omega (arith, up, enough, below)),
      )
      | inr (inr (used, reset, allowed)) ↦
          let some_left : 0 < more = omega (arith, allowed, tries) in
          let fewer = one_less_times more p.max_stagnant_steps some_left in
          ground (
            arith,
            stops_within p (more - 1) s' os on (omega (arith, reset, below))
                (omega (arith, used, tries, some_left)) (ground (arith, idle))
                (omega (arith, reset, enough, below, fewer)),
          )
    ]

-- With a policy that is enabled and valid, a new Run whose steps show no new state is told to
-- terminate within (max_recovery_attempts + 1) * max_stagnant_steps new operations that count,
-- whatever their actions and errors.
pub no_progress_terminates :
    (p : ProgressPolicy) (os : List ProgressObservation)
    → p.enabled ≡ true
    → policy_is_valid p ≡ true
    → all_idle p new_state os ≡ true
    → (p.max_recovery_attempts + 1) * p.max_stagnant_steps ≤ length os
    → any is_terminate (observe_all p new_state os) ≡ true
unfolding policy_is_valid
no_progress_terminates p os on valid idle enough =
    stops_within p p.max_recovery_attempts new_state os on (ground (arith, valid)) (omega arith)
      idle (ground (arith, enough))
