-- ===== src/Distributed.antt =====
-- src/axiom/runtime/postgres.py: the Runs that several workers share through one database. A method
-- is one transaction, so a function of the database and of its `current_timestamp`, which is a number
-- of ticks; one that raises leaves the tables as they were. The statements are read as SQL defines
-- them: a comparison with null holds of no row.
pub mod Rows
pub mod Ancestors
pub mod Claims
pub mod Leases
pub mod Queue
pub mod Saves
pub mod Admission
pub mod Machine
pub mod Refinement
pub mod Fencing
pub mod Capacity
pub mod Granting
pub mod Exclusion
pub mod Replay
pub mod Rates
pub mod Throttle
