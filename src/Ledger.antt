-- ===== src/Ledger.antt =====
-- packages/kernel/agent_workflow_kernel/storage.py: the SQLite ledger `WorkflowLedger`.
pub mod Rows
pub mod State
pub mod Invariant
pub mod Update
pub mod Leases
pub mod Retry
pub mod Claim
pub mod Sweep
pub mod Inserts
pub mod Operator
pub mod Late
pub mod Human
pub mod Repair
pub mod Invocations
pub mod Discovery
pub mod Receipts
pub mod Reachable
