-- ===== src/Ledger/Rows.antt =====
-- The tables of packages/kernel/agent_workflow_kernel/storage.py: a record for each, with the
-- columns of its CREATE TABLE (and of the columns that are added behind it). A column that holds
-- JSON text holds the value; the uuid of an event is left out, since nothing reads it.
use agent_workflow_kernel.Prelude.{ℕ, String, Bool, Option}
use agent_workflow_kernel.Json.{Json}
use agent_workflow_kernel.Contracts.StageStatus.{StageRunStatus}
use agent_workflow_kernel.Contracts.InstanceStatus.{WorkflowStatus}
use agent_workflow_kernel.Contracts.Failure.{FailureClass}
use agent_workflow_kernel.Contracts.Results.{Receipt}

pub record InstanceRow : Type 0 where
  pub instance_id : String
  pub workflow_def_id : String
  pub workflow_version : String
  pub status : WorkflowStatus
  pub current_stage_id : Option String
  pub idempotency_key : Option String
  pub input_hash : String
  pub input_snapshot : Option Json
  pub workflow_definition_json : Option String
  pub workflow_definition_hash : Option String
  pub workflow_source_uri : Option String
  pub recovery_epoch : ℕ
  pub created_at : ℕ
  pub updated_at : ℕ

pub record StageRunRow : Type 0 where
  pub stage_run_id : String
  pub instance_id : String
  pub stage_id : String
  pub attempt : ℕ
  pub status : StageRunStatus
  pub adapter_id : Option String
  pub actor_ref : Option String
  pub failure_class : Option FailureClass
  pub failure_summary : Option String
  pub approval_required : Bool
  pub idempotency_key : Option String
  pub input_hash : String
  pub output_hash : Option String
  pub prompt_hash : Option String
  pub context_packet_ref : Option String
  pub context_packet_hash : Option String
  pub rendered_context_hash : Option String
  pub retry_count : ℕ
  pub retry_after_at : Option ℕ
  pub lease_owner : Option String
  pub lease_token : Option String
  pub lease_expires_at : Option ℕ
  pub lease_seconds : Option ℕ
  pub lease_source : Option String
  pub lease_source_ref : Option String
  pub parent_stage_run_id : Option String
  pub receipt_id : Option String
  pub created_at : ℕ
  pub started_at : Option ℕ
  pub completed_at : Option ℕ
  pub updated_at : ℕ

pub record InvocationRow : Type 0 where
  pub invocation_id : String
  pub workflow_id : String
  pub instance_id : String
  pub stage_run_id : String
  pub adapter_family : String
  pub adapter_id : String
  pub operation : String
  pub input_ref : Option String
  pub context_packet_ref : Option String
  pub idempotency_key : Option String
  pub status : String
  pub request_hash : Option String
  pub response_hash : Option String
  pub external_ref : Option String
  pub error_class : Option String
  pub error_summary : Option String
  pub started_at : ℕ
  pub completed_at : Option ℕ
  pub invocation_json : Json

pub record EventRow : Type 0 where
  pub instance_id : String
  pub stage_run_id : Option String
  pub event_type : String
  pub actor : String
  pub payload : Json
  pub created_at : ℕ

pub record DecisionRow : Type 0 where
  pub decision_id : String
  pub instance_id : String
  pub stage_run_id : String
  pub gate_id : String
  pub decision : String
  pub human_ref : String
  pub canonical_surface : String
  pub exact_action_approved : String
  pub action_fingerprint : String
  pub receipt_json : Json
  pub created_at : ℕ

pub record LateResultRow : Type 0 where
  pub late_result_id : String
  pub instance_id : String
  pub stage_run_id : String
  pub reported_lease_token : Option String
  pub reported_owner : Option String
  pub result_kind : String
  pub result_hash : Option String
  pub external_ref : Option String
  pub evidence : Json
  pub observed_at : ℕ
  pub recorded_at : ℕ

pub record ReceiptRow : Type 0 where
  pub receipt_id : String
  pub instance_id : String
  pub stage_run_id : Option String
  pub receipt_kind : String
  pub actor : String
  pub status : String
  pub failure_class : Option String
  pub summary : String
  pub receipt_json : Receipt
  pub created_at : ℕ

pub record ArtifactRow : Type 0 where
  pub artifact_id : String
  pub instance_id : String
  pub stage_run_id : Option String
  pub receipt_id : Option String
  pub role : String
  pub uri : String
  pub content_hash : String
  pub mime_type : String
  pub size_bytes : Option ℕ
  pub created_by : Option String
  pub visibility : String
  pub created_at : ℕ
