-- ===== src/Policy.antt =====
-- packages/kernel/agent_workflow_kernel/policy.py: which actions the kernel permits, and the approvals
-- that are bound to one exact action. `digest` stands for SHA-256 of `json.dumps` with sorted keys,
-- `isoformat` for the text of a datetime in UTC; both are Python's.
pub mod Fingerprint
pub mod Approval
pub mod Decide
