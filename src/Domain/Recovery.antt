-- ===== src/Domain/Recovery.antt =====
-- domain/_rules_recovery.py.
pub mod Effects
pub mod Merge
pub mod Cancel
pub mod Procedures
pub mod Resume
