-- ===== src/PlanStrategy/Events.antt =====
-- What the changes of src/axiom/runtime/plan_strategy.py to a task are about, and the steps of its
-- state.
use axiom_agent.Prelude.{◌≡◌, refl, sym, subst, Bool, true, Option, none, some, arith}
use axiom_agent.Models.{RunStatus}
use axiom_agent.Plan.Task.{TaskStatus, is_pending}
use axiom_agent.PlanStrategy.Scheduler.{is_terminal, is_running_task}

-- What a change is about, with what it read: of the dependencies, of the child Run, or of the
-- completed task of the previous plan with the same description.
pub data Event : Type 0 where
  scheduling : Event
  skipping : (dependency_failed : Bool) → Event
  observing : (child : Option RunStatus) → Event
  releasing : (child : Option RunStatus) → Event
  cancelling : Event
  reusing : (prior : Option TaskStatus) → Event

-- The steps of a task's state, and the event that each needs.
pub data Transition : Event → TaskStatus → TaskStatus → Type 0 where
  stays : {e : Event} {s : TaskStatus} → Transition e s s
  starts : Transition scheduling TaskStatus.pending TaskStatus.running
  skips : Transition (skipping true) TaskStatus.pending TaskStatus.skipped
  completes :
      Transition (observing (some RunStatus.completed)) TaskStatus.running TaskStatus.completed
  fails : Transition (observing (some RunStatus.failed)) TaskStatus.running TaskStatus.failed
  fails_waiting :
      Transition (observing (some RunStatus.waiting_child)) TaskStatus.running TaskStatus.failed
  ends_cancelled :
      Transition (observing (some RunStatus.cancelled)) TaskStatus.running TaskStatus.cancelled
  releases : Transition (releasing none) TaskStatus.running TaskStatus.pending
  cancels : Transition cancelling TaskStatus.running TaskStatus.cancelled
  gives_up : Transition cancelling TaskStatus.pending TaskStatus.cancelled
  reuses : Transition (reusing (some TaskStatus.completed)) TaskStatus.pending TaskStatus.completed

pub Transition-terminal :
    (e : Event) (s t : TaskStatus) → is_terminal s ≡ true → Transition e s t → t ≡ s
Transition-terminal e s t ended stays = refl
Transition-terminal e s t ended starts = absurd (ground (arith, ended))
Transition-terminal e s t ended skips = absurd (ground (arith, ended))
Transition-terminal e s t ended completes = absurd (ground (arith, ended))
Transition-terminal e s t ended fails = absurd (ground (arith, ended))
Transition-terminal e s t ended fails_waiting = absurd (ground (arith, ended))
Transition-terminal e s t ended ends_cancelled = absurd (ground (arith, ended))
Transition-terminal e s t ended releases = absurd (ground (arith, ended))
Transition-terminal e s t ended cancels = absurd (ground (arith, ended))
Transition-terminal e s t ended gives_up = absurd (ground (arith, ended))
Transition-terminal e s t ended reuses = absurd (ground (arith, ended))

pub via :
    (e e' : Event) (s s' t t' : TaskStatus)
    → e ≡ e'
    → s ≡ s'
    → t ≡ t'
    → Transition e' s' t'
    → Transition e s t
via e e' s s' t t' o p q step =
    subst (λ d. Transition d s t) (sym o)
      (subst (λ x. Transition e' x t) (sym p) (subst (λ y. Transition e' s' y) (sym q) step))

pub is_pending-≡ : (s : TaskStatus) → is_pending s ≡ true → s ≡ TaskStatus.pending
is_pending-≡ s h = ground (arith, h)

pub is_running_task-≡ : (s : TaskStatus) → is_running_task s ≡ true → s ≡ TaskStatus.running
is_running_task-≡ s h = ground (arith, h)
