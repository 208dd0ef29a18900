-- ===== src/State.antt =====
-- state/: the decisions that a resumed run is built on.
pub mod Reconcile
mod Gate
mod Approvals
pub mod DirectAnswer
mod SoleAnswer
mod Tests
