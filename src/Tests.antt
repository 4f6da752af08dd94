-- ===== src/Tests.antt =====
-- Sample ledgers, and the theorems at them.
mod Samples
mod Leases
mod Operator
mod Sweep
mod Reachable
mod Policy
mod Gates
mod Sessions
mod Workflow
mod Kernel
mod Lease
mod Adapters
