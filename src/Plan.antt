-- ===== src/Plan.antt =====
-- src/axiom/plan/models.py: tasks, plans, the execution order and its batches.
pub mod Task
pub mod Execution
pub mod Order
pub mod Batches
pub mod Restore
