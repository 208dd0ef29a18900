-- ===== src/Domain/Workflow.antt =====
-- domain/_rules_workflow.py.
pub mod Effects
pub mod Builders
pub mod Produced
pub mod Review
pub mod Gate
