-- ===== src/Tests/Samples.antt =====
-- Two ledgers: one run that is queued, and the same run under a lease until 5000000.
use agent_workflow_kernel.Prelude.{refl, true, none, some, [], ◌∷◌, exists}
use agent_workflow_kernel.Json.{null}
use agent_workflow_kernel.Contracts.{StageRun}
use agent_workflow_kernel.Contracts.StageStatus.{queued, claimed}
use agent_workflow_kernel.Contracts.InstanceStatus.{running}
use agent_workflow_kernel.Ledger.Rows.{StageRunRow}
use agent_workflow_kernel.Ledger.State.{Ledger, empty}
use agent_workflow_kernel.Ledger.Invariant.{IsWellFormed}
use agent_workflow_kernel.Ledger.Inserts.{WorkflowInstance, Provenance, instance_to_row, run_to_row}
use agent_workflow_kernel.Ledger.Leases.{LeaseCall}
use agent_workflow_kernel.Ledger.Claim.{ClaimCall}

abbrev pub instance_one : WorkflowInstance
instance_one = record {
  instance_id = "i1";
  workflow_def_id = "review";
  workflow_version = "1";
  status = running;
  input_hash = "h";
  current_stage_id = some "draft";
  idempotency_key = none;
  recovery_epoch = 0;
}

abbrev pub no_provenance : Provenance
no_provenance = record {
  input_snapshot = none;
  workflow_definition_json = none;
  workflow_definition_hash = none;
  workflow_source_uri = none;
}

abbrev pub run_one : StageRun
run_one = record {
  stage_run_id = "i1:draft:1";
  instance_id = "i1";
  stage_id = "draft";
  status = queued;
  attempt = 1;
  adapter_id = some "runtime.local";
  actor_ref = none;
  lease_token = none;
  lease_seconds = none;
  lease_source = none;
  lease_source_ref = none;
  receipt_id = none;
  failure_class = none;
  retry_after_at = none;
  idempotency_key = none;
}

abbrev pub queued_row : StageRunRow
queued_row = run_to_row run_one "h" none none 10

abbrev pub leased_row : StageRunRow
leased_row = record queued_row {
  status = claimed;
  lease_owner = some "worker";
  lease_token = some "token";
  lease_expires_at = some 5000000;
}

abbrev pub holding : StageRunRow → Ledger
holding r = record empty {
  instances = instance_to_row instance_one no_provenance 5 ∷ [];
  runs = r ∷ [];
}

abbrev pub queued_ledger : Ledger
queued_ledger = holding queued_row

abbrev pub leased_ledger : Ledger
leased_ledger = holding leased_row

pub queued_ledger-IsWellFormed : IsWellFormed queued_ledger
unfolding exists
queued_ledger-IsWellFormed = record {
  instances_unique = (refl, tt);
  runs_unique = (refl, tt);
  attempts_unique = (refl, tt);
  instances_known = (refl, tt);
}

pub leased_ledger-IsWellFormed : IsWellFormed leased_ledger
unfolding exists
leased_ledger-IsWellFormed = record {
  instances_unique = (refl, tt);
  runs_unique = (refl, tt);
  attempts_unique = (refl, tt);
  instances_known = (refl, tt);
}

abbrev pub by_worker : LeaseCall
by_worker = record {
  stage_run_id = "i1:draft:1";
  lease_token = "token";
  actor = "worker";
  owner_id = none;
  now = 4000000;
}

abbrev pub claim_one : ClaimCall
claim_one = record {
  owner_id = "worker";
  instance_id = none;
  lease_seconds = some 3;
  lease_resolver = none;
  claim_predicate = λ _. true;
  claim_context = null;
  fresh_token = "token";
  now = 20;
}
