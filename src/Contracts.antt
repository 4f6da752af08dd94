-- ===== src/Contracts.antt =====
-- packages/kernel/agent_workflow_kernel/contracts.py: the enumerations, one to a child, and the
-- records that the ledger takes and returns. A timestamp is the microseconds since the epoch of a
-- UTC datetime.
pub mod StageStatus
pub mod InstanceStatus
pub mod Failure
pub mod Risk
pub mod Stages
pub mod Workflow
pub mod Results
use agent_workflow_kernel.Prelude.{ℕ, String, Option}
use agent_workflow_kernel.Contracts.StageStatus.{StageRunStatus}
use agent_workflow_kernel.Contracts.Failure.{FailureClass}

-- A lease as the policy of lease.py resolves it.
pub record ResolvedLeasePolicy : Type 0 where
  pub lease_seconds : ℕ
  pub source : String
  pub source_ref : String
  pub actor_ref : Option String

-- The view of a `stage_runs` row that `_stage_run_from_row` hands out.
pub record StageRun : Type 0 where
  pub stage_run_id : String
  pub instance_id : String
  pub stage_id : String
  pub status : StageRunStatus
  pub attempt : ℕ
  pub adapter_id : Option String
  pub actor_ref : Option String
  pub lease_token : Option String
  pub lease_seconds : Option ℕ
  pub lease_source : Option String
  pub lease_source_ref : Option String
  pub receipt_id : Option String
  pub failure_class : Option FailureClass
  pub retry_after_at : Option ℕ
  pub idempotency_key : Option String
