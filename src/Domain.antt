-- ===== src/Domain.antt =====
-- The domain state machine (src/claude_code_codex_review_loop/domain).
pub mod States
pub mod Errors
pub mod Commands
pub mod Values
pub mod Events
pub mod Rules
pub mod Workflow
pub mod Recovery
pub mod Integrity
pub mod Validity
pub mod Machine
pub mod Safety
