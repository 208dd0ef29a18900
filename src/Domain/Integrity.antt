-- ===== src/Domain/Integrity.antt =====
-- domain/_rules_integrity.py.
pub mod Effects
pub mod Detection
pub mod Incident
pub mod Resolution
