-- ===== src/Domain/Values.antt =====
-- domain/values.py.
pub mod Kinds
pub mod Responses
pub mod Codes
pub mod Opaque
pub mod Records
pub mod Blocks
pub mod Integrity
pub mod Machine
