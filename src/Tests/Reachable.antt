-- ===== src/Tests/Reachable.antt =====
-- A ledger with one instance and its first run, which a worker claims and completes.
use agent_workflow_kernel.Prelude.{
  ◌≡◌, refl, none, some, select, select_first, order_by, insert_by, exists, update_where,
}
use agent_workflow_kernel.Contracts.{ResolvedLeasePolicy}
use agent_workflow_kernel.Ledger.State.{Ledger, ok, append_event, insert_run}
use agent_workflow_kernel.Ledger.Inserts.{insert_workflow_instance, insert_stage_run}
use agent_workflow_kernel.Ledger.Claim.{
  claim_next_queued_run, claim_candidate, claim_row, claim_change, is_claimable, created_before,
  resolve_lease, positive_int,
}
use agent_workflow_kernel.Ledger.Claim.Selection.{claimed_state}
use agent_workflow_kernel.Ledger.Reachable.{
  IsReachable, start, next, instance_inserted, run_inserted, run_claimed,
}
use agent_workflow_kernel.Tests.Samples.{
  instance_one, no_provenance, run_one, queued_row, queued_ledger, claim_one,
}

abbrev for_three_seconds : ResolvedLeasePolicy
for_three_seconds = record {
  lease_seconds = 3;
  source = "runner_default";
  source_ref = "WorkflowRunner.run_once.lease_seconds";
  actor_ref = none;
}

abbrev claimed_ledger : Ledger
claimed_ledger = claimed_state claim_one for_three_seconds queued_row queued_ledger

claims_queued :
    claim_next_queued_run claim_one queued_ledger
    ≡ ok (some (claim_change claim_one for_three_seconds queued_row), claimed_ledger)
unfolding claim_next_queued_run claim_candidate claim_row resolve_lease positive_int is_claimable
    created_before select select_first order_by insert_by exists update_where append_event
    claim_change
claims_queued = refl

queued_ledger-IsReachable : IsReachable queued_ledger
unfolding insert_workflow_instance insert_stage_run insert_run exists
queued_ledger-IsReachable =
    next (next start (instance_inserted instance_one no_provenance 5 refl))
      (run_inserted run_one "h" none none 10 refl)

claimed_ledger-IsReachable : IsReachable claimed_ledger
claimed_ledger-IsReachable = next queued_ledger-IsReachable (run_claimed claim_one _ claims_queued)
