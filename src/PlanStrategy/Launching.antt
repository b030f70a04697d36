-- ===== src/PlanStrategy/Launching.antt =====
-- The loop of `LocalPlanTaskScheduler.execute` of src/axiom/runtime/plan_strategy.py, with its tasks as
-- ids. What `asyncio.wait` returns, and what the observer says, are arguments of a round; without an
-- observer nothing is said against going on. A child that raises is not modelled.
use axiom_agent.Prelude.{
  ℕ, max, String, Bool, true, false, ◌&&◌, ◌||◌, not, Option, none, some, List, [], ◌∷◌, ◌++◌,
  length, remove, ltb, if◌then◌else◌,
}
use axiom_agent.Dict.{Dict, insert}
use axiom_agent.Models.{RunStatus}

pub record Launcher : Type 0 where
  pub queue : List String
  pub running : List String
  pub results : Dict RunStatus
  pub stop_launching : Bool

-- A task of `done`, with the status of its child Run and the observer's word.
pub record Finished : Type 0 where
  pub task : String
  pub child : RunStatus
  pub may_go_on : Bool

-- `child.status in {FAILED, CANCELLED}`
abbrev pub is_stopping : RunStatus → Bool
is_stopping RunStatus.failed = true
is_stopping RunStatus.cancelled = true
is_stopping _ = false

-- `limit = max(1, int(self.max_parallel_tasks))`
abbrev pub limit_of : ℕ → ℕ
limit_of max_parallel_tasks = max 1 max_parallel_tasks

-- The inner loop: the first tasks of the queue start while there is room.
unfoldable pub fill : ℕ → List String → List String → List String × List String
fill limit [] running = ([], running)
fill limit (t ∷ queue) running =
    let rest = fill limit queue (running ++ t ∷ []) in
    if ltb (length running) limit then rest else (t ∷ queue, running)

unfoldable pub launch : ℕ → Launcher → Launcher
unfolding fill
launch limit s =
    if s.stop_launching
    then s
    else (let (queue, running) = fill limit s.queue s.running in
        record s { queue = queue; running = running })

unfoldable pub settle_one : Finished → Launcher → Launcher
settle_one f s = record s {
  running = remove f.task s.running;
  results = insert f.task f.child s.results;
  stop_launching = s.stop_launching || is_stopping f.child || not f.may_go_on;
}

unfoldable pub settle : List Finished → Launcher → Launcher
unfolding settle_one
settle [] s = s
settle (f ∷ fs) s = settle fs (settle_one f s)

abbrev pub start_of : List String → Launcher
start_of tasks = record { queue = tasks; running = []; results = []; stop_launching = false }

abbrev pub is_empty : List String → Bool
is_empty [] = true
is_empty (_ ∷ _) = false

-- `running or (queue and not stop_launching)`
abbrev pub goes_on : Launcher → Bool
goes_on s = not (is_empty s.running) || (not (is_empty s.queue) && not s.stop_launching)

-- `none` where the rounds that are given end before the loop does.
unfoldable pub execute_from : ℕ → List (List Finished) → Launcher → Option (Dict RunStatus)
unfolding launch settle
execute_from limit [] s =
    if goes_on s
    then if is_empty (launch limit s).running then some (launch limit s).results else none
    else some s.results
execute_from limit (fs ∷ rounds) s =
    let s' = launch limit s in
    let rest = execute_from limit rounds (settle fs s') in
    if goes_on s then if is_empty s'.running then some s'.results else rest else some s.results

unfoldable pub execute : ℕ → List (List Finished) → List String → Option (Dict RunStatus)
unfolding execute_from
execute max_parallel_tasks rounds tasks =
    execute_from (limit_of max_parallel_tasks) rounds (start_of tasks)
