-- ===== src/Budget.antt =====
-- src/axiom/runtime/budget.py: the budget ledger that a root Run shares with its descendants.
pub mod Types
pub mod Policy
pub mod Usage
pub mod Checks
pub mod Counts
pub mod Operations
pub mod Reach
pub mod Store
pub mod Snapshot
