-- ===== src/Contracts/InstanceStatus.antt =====
-- `WorkflowStatus` of packages/kernel/agent_workflow_kernel/contracts.py: the enumeration and its texts.
use agent_workflow_kernel.Prelude.{String, Bool, true, false}

pub data WorkflowStatus : Type 0 where
  pending running waiting_on_agent waiting_on_human waiting_on_schedule retrying blocked :
      WorkflowStatus
  policy_denied final_approval_required done cancelled : WorkflowStatus

unfoldable pub workflow_status_value : WorkflowStatus → String
workflow_status_value pending = "pending"
workflow_status_value running = "running"
workflow_status_value waiting_on_agent = "waiting_on_agent"
workflow_status_value waiting_on_human = "waiting_on_human"
workflow_status_value waiting_on_schedule = "waiting_on_schedule"
workflow_status_value retrying = "retrying"
workflow_status_value blocked = "blocked"
workflow_status_value policy_denied = "policy_denied"
workflow_status_value final_approval_required = "final_approval_required"
workflow_status_value done = "done"
workflow_status_value cancelled = "cancelled"

-- The tests of one status.
abbrev pub is_instance_blocked : WorkflowStatus → Bool
is_instance_blocked blocked = true
is_instance_blocked _ = false

abbrev pub is_instance_waiting_on_human : WorkflowStatus → Bool
is_instance_waiting_on_human waiting_on_human = true
is_instance_waiting_on_human _ = false
