-- ===== src/Progress/Duplicates.antt =====
-- An operation that src/axiom/runtime/progress.py is shown twice.
use axiom_agent.Prelude.{
  ℕ, zero, suc, ◌-◌, ◌≤◌, ◌<◌, String, ◌≡◌, refl, ◌∙◌, Bool, true, Option, none, some, List, [],
  ◌∷◌, ◌++◌, length, length-append, contains, contains-append, arith, eq_refl, Option-cases, inl,
  inr, drop,
}
use axiom_agent.Progress.State.{
  DetectorType, ProgressPolicy, ProgressObservation, ProgressState, go_on, policy_is_valid,
}
use axiom_agent.Progress.Detector.{
  append_bounded, detect, decide, note, note_state, note_progress, note_action, note_error,
  note_detection, reset_detection_window, observe,
}

contains-drop :
    (n : ℕ) (xs : List String) (x : String)
    → n ≤ length xs
    → contains x (drop n (xs ++ x ∷ [])) ≡ true
unfolding contains
contains-drop zero xs x le = ground (arith, contains-append x xs (x ∷ []), eq_refl x)
contains-drop (suc n) [] x le = absurd (omega (arith, le))
contains-drop (suc n) (y ∷ ys) x le = contains-drop n ys x (omega (arith, le))

contains-append_bounded :
    (xs : List String) (x : String) (limit : ℕ)
    → 0 < limit
    → contains x (append_bounded xs x limit) ≡ true
unfolding append_bounded
contains-append_bounded xs x limit pos =
    let longer = xs ++ x ∷ [] in
    ground (
      arith,
      pos,
      length-append xs (x ∷ []),
      contains-drop 0 xs x (omega arith),
      contains-drop (length longer - limit) xs x (omega (arith, pos, length-append xs (x ∷ []))),
    )

note_state-processed :
    (p : ProgressPolicy) (o : ProgressObservation) (s : ProgressState)
    → (note_state p o s).processed_operations ≡ s.processed_operations
unfolding note_state note_progress
note_state-processed p o s = elim (Option-cases o.state_fingerprint) [
  | inl absent ↦ ground (arith, absent)
  | inr (t, there) ↦ ground (arith, there)
]

note_action-processed :
    (p : ProgressPolicy) (b : Bool) (a : Option String) (s : ProgressState)
    → (note_action p b a s).processed_operations ≡ s.processed_operations
unfolding note_action
note_action-processed p b none s = refl
note_action-processed p b (some a) s = ground arith

note_error-processed :
    (p : ProgressPolicy) (b : Bool) (a : Option String) (s : ProgressState)
    → (note_error p b a s).processed_operations ≡ s.processed_operations
unfolding note_error
note_error-processed p b none s = refl
note_error-processed p b (some a) s = ground arith

decide-processed :
    (p : ProgressPolicy) (d : Option (DetectorType × ℕ × Option ℕ)) (s : ProgressState)
    → (decide p d s).1.processed_operations ≡ s.processed_operations
unfolding decide note_detection reset_detection_window
decide-processed p none s = refl
decide-processed p (some (kind, repetitions, size)) s = ground arith

note-processed :
    (p : ProgressPolicy) (o : ProgressObservation) (s : ProgressState)
    → (note p o s).processed_operations
      ≡ append_bounded s.processed_operations o.operation_id p.history_limit
unfolding note
note-processed p o s =
    note_error-processed p _ o.error_fingerprint _
    ∙ note_action-processed p _ o.action_fingerprint _
    ∙ note_state-processed p o _

-- With a valid policy, an observation whose operation was observed just before changes nothing,
-- whatever it says of actions, errors and states: it continues, and is a duplicate if the detector is
-- enabled.
pub observe_again :
    (p : ProgressPolicy) (s : ProgressState) (o o' : ProgressObservation)
    → policy_is_valid p ≡ true
    → o'.operation_id ≡ o.operation_id
    → let (_, s') = observe p s o in observe p s' o' ≡ (record go_on { duplicate = p.enabled }, s')
unfolding observe policy_is_valid
observe_again p s o o' valid same =
    let n = note p o s in
    let kept =
      contains-append_bounded s.processed_operations o.operation_id p.history_limit
        (ground (arith, valid)) in
    ground (arith, same, kept, note-processed p o s, decide-processed p (detect p n) n)
