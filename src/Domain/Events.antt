-- ===== src/Domain/Events.antt =====
-- domain/events.py.
pub mod Types
pub mod Data
pub mod Checks
