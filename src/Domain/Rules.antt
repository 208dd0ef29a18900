-- ===== src/Domain/Rules.antt =====
-- domain/_ruledefs.py.
pub mod Kinds
pub mod Match
pub mod Guards
pub mod Tables
