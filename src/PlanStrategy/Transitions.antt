-- ===== src/PlanStrategy/Transitions.antt =====
-- The states of a task under the changes of src/axiom/runtime/plan_strategy.py.
use axiom_agent.Prelude.{
  ℕ, String, ◌≡◌, refl, ap, Bool, true, false, ◌&&◌, not, Option, none, some, List, [], any, arith,
  is_some, Bool-cases, Option-cases, ◌⊎◌, inl, inr,
}
use axiom_agent.Dict.{Dict}
use axiom_agent.Models.{RunStatus}
use axiom_agent.Plan.Task.{
  Task, TaskStatus, is_pending, mark_started, mark_completed, mark_failed, mark_cancelled,
  mark_skipped,
}
use axiom_agent.PlanStrategy.Scheduler.{
  is_terminal, is_running_task, skip_task, must_skip, is_paused, has_status, is_unsuccessful,
}
use axiom_agent.PlanStrategy.Changes.{
  schedule_task, ChildRun, mark_settled, settle_task, observe_child, release_task, cancel_task,
  is_running_child, reuse_task, completed_by_description, has_text,
}
use axiom_agent.PlanStrategy.Events.{
  Event, scheduling, skipping, observing, releasing, cancelling, reusing, Transition, stays, starts,
  skips, completes, fails, fails_waiting, ends_cancelled, releases, cancels, gives_up,
  Transition-terminal, via, is_pending-≡, is_running_task-≡,
}
use axiom_agent.PlanStrategy.Reuse.{status_of_prior, prior_of, reuse_task-Transition}

schedule_task-Transition :
    (now : ℕ) (child_id : String → ℕ → String) (t : Task)
    → Transition scheduling t.status (schedule_task now child_id t).status
unfolding schedule_task mark_started
schedule_task-Transition now child_id t = elim (Bool-cases (is_pending t.status)) [
  | inr other ↦ via _ _ _ t.status _ t.status refl refl (ground (arith, other)) stays
  | inl ready ↦ elim (Option-cases t.child_run_id) [
    | inl absent ↦
        via _ _ _ TaskStatus.pending _ TaskStatus.running refl (is_pending-≡ t.status ready)
          (ground (arith, ready, absent)) starts
    | inr (child, there) ↦
        via _ _ _ TaskStatus.pending _ TaskStatus.running refl (is_pending-≡ t.status ready)
          (ground (arith, ready, there)) starts
  ]
]

abbrev has_failed_dependency : Dict TaskStatus → Task → Bool
has_failed_dependency statuses t = any (has_status is_unsuccessful statuses) t.dependencies

skip_task-Transition :
    (now : ℕ) (message : List String → String) (statuses : Dict TaskStatus) (t : Task)
    → Transition
        (skipping (has_failed_dependency statuses t))
        t.status
        (skip_task now message statuses t).status
unfolding skip_task mark_skipped
skip_task-Transition now message statuses t = elim (Bool-cases (must_skip statuses t)) [
  | inr kept ↦ via _ _ _ t.status _ t.status refl refl (ground (arith, kept)) stays
  | inl skipped ↦
      let failed : has_failed_dependency statuses t ≡ true = ground (arith, skipped) in
      via _ _ _ TaskStatus.pending _ TaskStatus.skipped (ap skipping failed)
        (is_pending-≡ t.status (ground (arith, skipped))) (ground (arith, skipped)) skips
]

settle_task-Transition :
    (now : ℕ) (status : RunStatus) (output : String) (error : Option String) (t : Task)
    → is_running_child status ≡ false
    → is_paused status ≡ false
    → Transition
        (observing (some status))
        TaskStatus.running
        (settle_task now
          (record { status = status; output_text = output; error_message = error })
          t).status
unfolding settle_task mark_settled mark_completed mark_failed mark_cancelled
settle_task-Transition now RunStatus.completed output error t goes ends = completes
settle_task-Transition now RunStatus.cancelled output error t goes ends = ends_cancelled
settle_task-Transition now RunStatus.failed output error t goes ends = fails
settle_task-Transition now RunStatus.running output error t goes ends =
    absurd (ground (arith, goes))
settle_task-Transition now RunStatus.interrupted output error t goes ends =
    absurd (ground (arith, ends))
settle_task-Transition now RunStatus.waiting_approval output error t goes ends =
    absurd (ground (arith, ends))
settle_task-Transition now RunStatus.waiting_child output error t goes ends = fails_waiting

abbrev status_of_child : Option ChildRun → Option RunStatus
status_of_child none = none
status_of_child (some child) = some child.status

observe_child-Transition :
    (now : ℕ) (child : Option ChildRun) (t t' : Task)
    → observe_child now child t ≡ some t'
    → Transition (observing (status_of_child child)) t.status t'.status
unfolding observe_child
observe_child-Transition now none t t' e = absurd (ground (arith, e))
observe_child-Transition now (some child) t t' e = elim (Bool-cases (is_running_task t.status)) [
  | inr other ↦ absurd (ground (arith, e, other))
  | inl runs ↦ elim (Bool-cases (is_running_child child.status)) [
    | inl goes ↦ absurd (ground (arith, e, runs, goes))
    | inr still ↦ elim (Bool-cases (is_paused child.status)) [
      | inl paused ↦
          via _ _ _ t.status _ t.status refl refl (ground (arith, e, runs, still, paused)) stays
      | inr ended ↦
          via _ _ _ TaskStatus.running _ (settle_task now child t).status refl
            (is_running_task-≡ t.status runs) (ground (arith, e, runs, still, ended))
            (settle_task-Transition now child.status child.output_text child.error_message t still
              ended)
    ]
  ]
]

release_task-Transition :
    (child : String → Option RunStatus) (t : Task)
    → Transition (releasing (child t.id)) t.status (release_task child t).status
unfolding release_task
release_task-Transition child t =
    elim (Bool-cases
      (is_running_task t.status && has_text t.child_run_id && not (is_some (child t.id)))) [
        | inr kept ↦ via _ _ _ t.status _ t.status refl refl (ground (arith, kept)) stays
        | inl alone ↦ elim (Option-cases (child t.id)) [
          | inr (run, stored) ↦ absurd (ground (arith, alone, stored))
          | inl missing ↦
              via _ _ _ TaskStatus.running _ TaskStatus.pending (ap releasing missing)
                (is_running_task-≡ t.status (ground (arith, alone))) (ground (arith, alone))
                releases
        ]
      ]

cancel_task-Transition :
    (now : ℕ) (t : Task) → Transition cancelling t.status (cancel_task now t).status
unfolding cancel_task mark_cancelled
cancel_task-Transition now t = elim (Bool-cases (is_terminal t.status)) [
  | inl ended ↦ via _ _ _ t.status _ t.status refl refl (ground (arith, ended)) stays
  | inr goes ↦ elim (Bool-cases (is_pending t.status)) [
    | inl waits ↦
        via _ _ _ TaskStatus.pending _ TaskStatus.cancelled refl (is_pending-≡ t.status waits)
          (ground (arith, goes)) gives_up
    | inr runs ↦
        via _ _ _ TaskStatus.running _ TaskStatus.cancelled refl
          (is_running_task-≡ t.status (ground (arith, goes, runs))) (ground (arith, goes)) cancels
  ]
]

-- One change to a task: it is scheduled, skipped, released or cancelled, its child Run is observed,
-- or, pending as the planner makes the tasks of a replacement, it takes over a completed task of the
-- previous plan.
pub data Change (t : Task) : Task → Type 0 where
  scheduled : (now : ℕ) (child_id : String → ℕ → String) → Change t (schedule_task now child_id t)
  skipped :
      (now : ℕ) (message : List String → String) (statuses : Dict TaskStatus)
      → Change t (skip_task now message statuses t)
  observed :
      (now : ℕ) (child : Option ChildRun) {t' : Task}
      → observe_child now child t ≡ some t'
      → Change t t'
  released : (child : String → Option RunStatus) → Change t (release_task child t)
  cancelled : (now : ℕ) → Change t (cancel_task now t)
  taken_over :
      (normal reused : String → String) (previous : List Task)
      → is_pending t.status ≡ true
      → Change t (reuse_task normal reused (completed_by_description normal [] previous) t)

-- What a change is about.
abbrev pub event_of : (t t' : Task) → Change t t' → Event
event_of t t' (scheduled now child_id) = scheduling
event_of t t' (skipped now message statuses) = skipping (has_failed_dependency statuses t)
event_of t t' (observed now child e) = observing (status_of_child child)
event_of t t' (released child) = releasing (child t.id)
event_of t t' (cancelled now) = cancelling
event_of t t' (taken_over normal reused previous waits) =
    reusing (status_of_prior (prior_of normal previous t))

Change-one :
    (t t' : Task) (change : Change t t') → Transition (event_of t t' change) t.status t'.status
Change-one t t' (scheduled now child_id) = schedule_task-Transition now child_id t
Change-one t t' (skipped now message statuses) = skip_task-Transition now message statuses t
Change-one t t' (observed now child e) = observe_child-Transition now child t t' e
Change-one t t' (released child) = release_task-Transition child t
Change-one t t' (cancelled now) = cancel_task-Transition now t
Change-one t t' (taken_over normal reused previous waits) =
    reuse_task-Transition normal reused previous t waits

-- A change, a reuse being one of a pending task, takes a task only from pending to running, when it is
-- scheduled, to skipped, if a dependency failed, was cancelled or was skipped, to completed, if a
-- completed task of the previous plan is reused, or to cancelled, when the Run is; or from running to
-- completed, failed or cancelled, as the child Run that was observed ended (a child Run that waits for
-- another one counts as failed), to pending, if its child Run was not stored, or to cancelled, when the
-- Run is. So a task that ended keeps its state.
pub Change-Transition :
    (t t' : Task) (change : Change t t')
    → Transition (event_of t t' change) t.status t'.status
      × ((is_terminal t.status ≡ false) ⊎ (t'.status ≡ t.status))
Change-Transition t t' change =
    let step = Change-one t t' change in
    elim (Bool-cases (is_terminal t.status)) [
      | inl ended ↦ (step, inr (Transition-terminal _ t.status t'.status ended step))
      | inr goes ↦ (step, inl goes)
    ]
