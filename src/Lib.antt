-- ===== src/Lib.antt =====
-- Axiom Agent: the runtime of a coding agent, whose Runs survive restarts.
--
-- A Run saves its state as checkpoints in a store, plans its work as a graph of tasks, calls models
-- and tools, and retries the calls that fail. Before each call it asks a budget that a root Run
-- shares with its descendants, and before each tool call a permission policy. This library models
-- these parts of src/axiom, each as a module over shared helpers.
--
-- Prelude, Dict: names, lists and numbers; Python's dictionaries with text keys.
-- Checkpoints: `MemoryCheckpointStore` of src/axiom/runtime/checkpoints.py. A method is a function
-- from the store to a result and a store. Checkpoints/History.antt is about Runs and
-- Checkpoints/Tools.antt about tool executions.
-- Models: the records of src/axiom/runtime/models.py that the store holds.
-- Budget: src/axiom/runtime/budget.py. Types, Policy and Usage hold its records and sums; Checks
-- has `_preflight`, `_first_violation` and `_mark_soft`; Operations has the changes that the
-- methods of `BudgetManager` make to a ledger; Reach the ledgers they reach, as a step relation;
-- Store has `_mutate`, which saves a change through Checkpoints; Snapshot its views with
-- the remainders. The other modules prove.
-- Tasks and plans, src/axiom/plan/models.py, are the module Plan: Task and Execution hold the
-- records and their methods; Order has the depth-first search of `compute_execution_order`; Batches
-- the rounds of `execution_batches`; Restore `ExecutionPlan.from_dict`.
-- Dependency: src/axiom/runtime/dependency.py: deadlines, backoff, `RetryPolicy.decide`, and in
-- Category the classifier of failures.
-- Policy: src/axiom/policy. Network is network.py, Permissions is permissions.py with
-- path_guard.py; what they take from Python is the record `Platform`.
-- Supervisor: `ActiveRunSupervisor` of src/axiom/runtime/supervisor.py.
-- Distributed: src/axiom/runtime/postgres.py, the Runs that several workers share. Rows has the tables
-- and the conditions of the queries; Claims, Leases, Queue, Saves, Admission and Rates have the
-- methods, a transaction each; Machine has the abstract lease. The other modules prove.
-- Progress: `ProgressDetector` of src/axiom/runtime/progress.py, in State and Detector.
-- Completion: `CompletionVerifier` of src/axiom/runtime/completion.py, in Contract, Checks and Verifier.
-- PlanStrategy: src/axiom/runtime/plan_strategy.py. Scheduler has the snapshots and the skipping of
-- dependents, Launching the parallel loop of `execute`, Changes the changes to a task, Events the steps
-- of its state.
-- Tests: runs at concrete inputs.
--
-- Numbers are natural numbers or integers with no bound, as Python's; there is no machine width.
-- Times are whole ticks, prices whole units, and a sample of jitter a whole number of 2^-53, so
-- rounding of floats and of Decimal is not modelled. The search has one unit of fuel more than there
-- are tasks, since a path of visited tasks has no repetition; the batches have one for each task,
-- since a round takes a task away; `_mutate` has the 32 rounds of the code; the walk up the parents of a
-- Run has one unit for each row, since a row is taken out when it is reached; the
-- skipping of dependents has one round more than there are tasks, since a round takes a pending task
-- away.
--
-- Not modelled: models, tools, networks, processes and the SQLite store; the asyncio loop of a Run and
-- of a worker; the steps of the strategies, but for what the plan strategy does to tasks; capacity
-- views of the shared store; publishing to observability; JSON forms; the texts of
-- messages and how fingerprints are computed; the chain of causes of an exception.
pub mod Prelude
pub mod Dict
pub mod Models
pub mod Checkpoints
pub mod Plan
pub mod Dependency
pub mod Budget
pub mod Policy
pub mod Supervisor
pub mod Distributed
pub mod Progress
pub mod Completion
pub mod PlanStrategy
mod Tests
