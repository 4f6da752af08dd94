-- ===== src/Contracts/Results.antt =====
-- packages/kernel/agent_workflow_kernel/contracts.py: what an adapter returns, and the receipts that are
-- kept of it. A dictionary of arbitrary values is the fields of a JSON object, a timestamp a number.
use agent_workflow_kernel.Prelude.{ℕ, String, Option, List}
use agent_workflow_kernel.Json.{Fields}

pub record ArtifactRef : Type 0 where
  pub artifact_id : String
  pub role : String
  pub uri : String
  pub content_hash : String
  pub mime_type : String
  pub size_bytes : Option ℕ
  pub created_by : Option String
  pub visibility : String

pub record Receipt : Type 0 where
  pub receipt_id : String
  pub kind : String
  pub workflow_id : String
  pub instance_id : String
  pub stage_id : String
  pub stage_run_id : String
  pub status : String
  pub summary : String
  pub created_at : ℕ
  pub artifact_refs : List ArtifactRef
  pub context_packet_ref : Option String
  pub prompt_provenance : Fields
  pub runtime_provenance : Fields
  pub policy_snapshot : Fields
  pub residual_risk : Option String
  pub next_action : Option String

pub record AdapterResult : Type 0 where
  pub invocation_id : String
  pub status : String
  pub outputs : Fields
  pub artifact_refs : List ArtifactRef
  pub receipt_ref : Option String
  pub residual_risk : Option String
  pub next_hint : Option String
