-- ===== src/Completion.antt =====
-- src/axiom/runtime/completion.py: whether a Run that says that it is done is done, by its contract.
pub mod Contract
pub mod Checks
pub mod Verifier
pub mod Verified
pub mod Evidence
