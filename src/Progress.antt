-- ===== src/Progress.antt =====
-- src/axiom/runtime/progress.py: the detector that stops a Run whose steps do not get anywhere.
-- Fingerprints are texts, and how they are computed is not modelled.
pub mod State
pub mod Detector
pub mod Invariant
pub mod Recovery
pub mod Cycles
pub mod Windows
pub mod Duplicates
