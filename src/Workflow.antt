-- ===== src/Workflow.antt =====
-- Workflow definitions: packages/kernel/agent_workflow_kernel/validation.py and what dsl.py makes of a
-- mapping.
pub mod Plain
pub mod Validation
pub mod Dsl
