-- ===== src/Domain/Safety.antt =====
-- The proofs about the rules of domain/ and about domain/machine.py.
pub mod Rule
pub mod Advance
pub mod Events
pub mod Produced
pub mod Blocking
pub mod Merge
pub mod Outcome
pub mod Cancel
pub mod Resume
pub mod Procedures
pub mod Violations
pub mod Detection
pub mod HaltGate
pub mod Incident
pub mod Replay
pub mod WorkflowRules
pub mod RecoveryRules
pub mod IntegrityRules
pub mod Registry
pub mod Transition
pub mod Selection
pub mod Invariants
pub mod Kept
pub mod Remainder
pub mod RoundTrip
pub mod Accepted
pub mod NoLoss
pub mod MergeOnce
pub mod Runs
pub mod Scenario
pub mod Examples
