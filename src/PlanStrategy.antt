-- ===== src/PlanStrategy.antt =====
-- src/axiom/runtime/plan_strategy.py: how the tasks of a plan become child Runs. What a step reads of
-- the child Runs is an argument; saving, events and spans are not modelled.
pub mod Scheduler
pub mod Skipping
pub mod Launching
pub mod Parallel
pub mod Outcome
pub mod Changes
pub mod Events
pub mod Reuse
pub mod Transitions
pub mod Ready
