-- ===== src/Tests.antt =====
-- The theorems at concrete inputs, and runs of the code on them.
mod PlanTests
mod BudgetTests
mod LedgerTests
mod StoreTests
mod RetryTests
mod PolicyTests
mod LeaseTests
mod ProgressTests
mod StrategyTests
