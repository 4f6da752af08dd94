-- ===== src/Ledger/Inserts.antt =====
-- packages/kernel/agent_workflow_kernel/storage.py: `insert_workflow_instance`,
-- `update_workflow_instance`, `append_event` and `insert_stage_run`.
pub mod Laws
use agent_workflow_kernel.Prelude.{ℕ, String, false, Option, none, ◌∷◌, [], ◌++◌, if◌then◌else◌}
use agent_workflow_kernel.Json.{Json}
use agent_workflow_kernel.Contracts.{StageRun}
use agent_workflow_kernel.Contracts.InstanceStatus.{WorkflowStatus}
use agent_workflow_kernel.Ledger.Rows.{InstanceRow, StageRunRow, EventRow}
use agent_workflow_kernel.Ledger.State.{
  ok, err, integrity, ◌>>=◌, Body, has_instance, append_event, insert_run, update_instance,
}

-- `WorkflowInstance` of contracts.py.
pub record WorkflowInstance : Type 0 where
  pub instance_id : String
  pub workflow_def_id : String
  pub workflow_version : String
  pub status : WorkflowStatus
  pub input_hash : String
  pub current_stage_id : Option String
  pub idempotency_key : Option String
  pub recovery_epoch : ℕ

-- The keyword arguments of `insert_workflow_instance`.
pub record Provenance : Type 0 where
  pub input_snapshot : Option Json
  pub workflow_definition_json : Option String
  pub workflow_definition_hash : Option String
  pub workflow_source_uri : Option String

abbrev pub instance_to_row : WorkflowInstance → Provenance → ℕ → InstanceRow
instance_to_row i p now = record {
  instance_id = i.instance_id;
  workflow_def_id = i.workflow_def_id;
  workflow_version = i.workflow_version;
  status = i.status;
  current_stage_id = i.current_stage_id;
  idempotency_key = i.idempotency_key;
  input_hash = i.input_hash;
  input_snapshot = p.input_snapshot;
  workflow_definition_json = p.workflow_definition_json;
  workflow_definition_hash = p.workflow_definition_hash;
  workflow_source_uri = p.workflow_source_uri;
  recovery_epoch = i.recovery_epoch;
  created_at = now;
  updated_at = now;
}

unfoldable pub insert_workflow_instance : WorkflowInstance → Provenance → ℕ → Body (Unit {0})
insert_workflow_instance i p now s =
    if has_instance i.instance_id s
    then err integrity
    else ok (tt, record s { instances = s.instances ++ instance_to_row i p now ∷ [] })

-- `_workflow_instance_from_row`
unfoldable pub workflow_instance_from_row : InstanceRow → WorkflowInstance
workflow_instance_from_row r = record {
  instance_id = r.instance_id;
  workflow_def_id = r.workflow_def_id;
  workflow_version = r.workflow_version;
  status = r.status;
  input_hash = r.input_hash;
  current_stage_id = r.current_stage_id;
  idempotency_key = r.idempotency_key;
  recovery_epoch = r.recovery_epoch;
}

-- The arguments of `update_workflow_instance`. With no such instance the UPDATE writes nothing, and
-- the event is refused by its foreign key.
unfoldable pub update_workflow_instance :
    String → WorkflowStatus → Option String → ℕ → String → String → Json → Body (Unit {0})
update_workflow_instance i status stage now actor kind payload s = do
  s' ←
      append_event
        (record {
          instance_id = i;
          stage_run_id = none;
          event_type = kind;
          actor = actor;
          payload = payload;
          created_at = now;
        })
        (update_instance i
          (λ r. record r { status = status; current_stage_id = stage; updated_at = now }) s)
  ok (tt, s')

-- The columns that `insert_stage_run` writes; the lease columns but the token are left out.
abbrev pub run_to_row : StageRun → String → Option String → Option String → ℕ → StageRunRow
run_to_row r input_hash key parent now = record {
  stage_run_id = r.stage_run_id;
  instance_id = r.instance_id;
  stage_id = r.stage_id;
  attempt = r.attempt;
  status = r.status;
  adapter_id = r.adapter_id;
  actor_ref = r.actor_ref;
  failure_class = r.failure_class;
  failure_summary = none;
  approval_required = false;
  idempotency_key = key;
  input_hash = input_hash;
  output_hash = none;
  prompt_hash = none;
  context_packet_ref = none;
  context_packet_hash = none;
  rendered_context_hash = none;
  retry_count = 0;
  retry_after_at = r.retry_after_at;
  lease_owner = none;
  lease_token = r.lease_token;
  lease_expires_at = none;
  lease_seconds = none;
  lease_source = none;
  lease_source_ref = none;
  parent_stage_run_id = parent;
  receipt_id = r.receipt_id;
  created_at = now;
  started_at = none;
  completed_at = none;
  updated_at = now;
}

unfoldable pub insert_stage_run :
    StageRun → String → Option String → Option String → ℕ → Body (Unit {0})
insert_stage_run r input_hash key parent now s = do
  s' ← insert_run (run_to_row r input_hash key parent now) s
  ok (tt, s')

-- `append_event`, a transaction of one event.
unfoldable pub record_event : EventRow → Body (Unit {0})
record_event e s = do s' ← append_event e s; ok (tt, s')
