-- ===== src/Identity.antt =====
-- identity/: who wrote a comment, whose decisions count, and the chain of verified records.
pub mod Errors
pub mod Actor
pub mod Allowlist
pub mod Decision
pub mod Records
pub mod Marker
pub mod Chain
