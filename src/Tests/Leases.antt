-- ===== src/Tests/Leases.antt =====
-- The theorems on leases and claims, at the sample ledgers.
use agent_workflow_kernel.Prelude.{
  ◌≡◌, ◌≢◌, ◌↔◌, refl, none, some, [], ◌∷◌, ◌++◌, arith, ◌==◌, exists, select, select_first,
  order_by, insert_by, update_where, if◌then◌else◌, String,
}
use agent_workflow_kernel.Contracts.{ResolvedLeasePolicy}
use agent_workflow_kernel.Contracts.StageStatus.{claimed}
use agent_workflow_kernel.Contracts.Failure.{runtime_failure}
use agent_workflow_kernel.Ledger.Rows.{StageRunRow, EventRow}
use agent_workflow_kernel.Ledger.State.{
  Ledger, ok, err, conflict, not_leased_by_token, run_row, append_event,
}
use agent_workflow_kernel.Ledger.Invariant.{IsWellFormed}
use agent_workflow_kernel.Ledger.Leases.{is_active_lease, only_claimed}
use agent_workflow_kernel.Ledger.Leases.Authority.{HasAuthority}
use agent_workflow_kernel.Ledger.Leases.Effects.{expected_row, complete, fail, perform}
use agent_workflow_kernel.Ledger.Leases.Guarded.{
  perform_effect, perform_iff, released_lease_is_dead,
}
use agent_workflow_kernel.Ledger.Claim.{
  is_claimable, created_before, claim_change, claim_row, claim_candidate, claim_next_queued_run,
  resolve_lease, positive_int,
}
use agent_workflow_kernel.Ledger.Claim.Selection.{claimed_state}
use agent_workflow_kernel.Ledger.Claim.Laws.{
  claim_finds_work, claim_is_exclusive, claim_grants_authority,
}
use agent_workflow_kernel.Tests.Samples.{
  queued_row, leased_row, queued_ledger, leased_ledger, leased_ledger-IsWellFormed, by_worker,
  claim_one,
}

pub worker-HasAuthority : HasAuthority by_worker is_active_lease leased_ledger leased_row
unfolding select_first
worker-HasAuthority = record {
  found = refl;
  token = refl;
  owner = refl;
  status = refl;
  expiry = 5000000;
  expires = refl;
  live = omega arith;
}

perform_effect_example :
    (s' : Ledger) × (perform (complete none none) by_worker leased_ledger ≡ ok (tt, s'))
    × ((k : String)
        → run_row k s' ≡ (
            if "i1:draft:1" == k
            then some (expected_row (complete none none) by_worker leased_row)
            else run_row k leased_ledger))
    × (s' ≡ record leased_ledger { runs = s'.runs; events = s'.events })
    × ((e : EventRow) × (s'.events ≡ leased_ledger.events ++ e ∷ [])
        × (e.instance_id ≡ "i1")
        × (e.stage_run_id ≡ some "i1:draft:1")
        × (e.event_type ≡ "stage_completed")
        × (e.actor ≡ "worker")
        × (e.created_at ≡ by_worker.now))
perform_effect_example =
    perform_effect (complete none none) by_worker leased_ledger leased_ledger-IsWellFormed
      leased_row worker-HasAuthority

perform_iff_example :
    ((s' : Ledger) × (perform (complete none none) by_worker leased_ledger ≡ ok (tt, s')))
    ↔ ((row : StageRunRow) × HasAuthority by_worker is_active_lease leased_ledger row)
perform_iff_example =
    perform_iff (complete none none) by_worker leased_ledger leased_ledger-IsWellFormed

abbrev completed : Ledger
completed =
    (perform_effect (complete none none) by_worker leased_ledger leased_ledger-IsWellFormed
      leased_row worker-HasAuthority).0

completes : perform (complete none none) by_worker leased_ledger ≡ ok (tt, completed)
completes =
    (perform_effect (complete none none) by_worker leased_ledger leased_ledger-IsWellFormed
      leased_row worker-HasAuthority).1

released_lease_is_dead_example :
    perform (fail runtime_failure "late" claimed none) by_worker completed
    ≡ err (conflict not_leased_by_token)
released_lease_is_dead_example =
    released_lease_is_dead (complete none none) (fail runtime_failure "late" claimed none) by_worker
      by_worker leased_ledger completed leased_ledger-IsWellFormed refl completes refl

abbrev second_row : StageRunRow
second_row = record queued_row { stage_run_id = "i1:draft:2"; attempt = 2; created_at = 11 }

abbrev two_runs : Ledger
two_runs = record queued_ledger { runs = second_row ∷ queued_row ∷ [] }

two_runs-IsWellFormed : IsWellFormed two_runs
unfolding exists
two_runs-IsWellFormed = record {
  instances_unique = (refl, tt);
  runs_unique = (refl, (refl, tt));
  attempts_unique = (refl, (refl, tt));
  instances_known = (refl, (refl, tt));
}

abbrev three_seconds : ResolvedLeasePolicy
three_seconds = record {
  lease_seconds = 3;
  source = "runner_default";
  source_ref = "WorkflowRunner.run_once.lease_seconds";
  actor_ref = none;
}

abbrev first_claim : Ledger
first_claim = claimed_state claim_one three_seconds queued_row two_runs

claims_first :
    claim_next_queued_run claim_one two_runs
    ≡ ok (some (claim_change claim_one three_seconds queued_row), first_claim)
unfolding claim_next_queued_run claim_candidate claim_row resolve_lease positive_int is_claimable
    created_before select select_first order_by insert_by exists update_where append_event
    claim_change
claims_first = refl

claims_second :
    claim_next_queued_run claim_one first_claim
    ≡ ok (
      some (claim_change claim_one three_seconds second_row),
      claimed_state claim_one three_seconds second_row first_claim,
    )
unfolding claim_next_queued_run claim_candidate claim_row resolve_lease positive_int is_claimable
    created_before select select_first order_by insert_by exists update_where append_event
    claim_change
claims_second = refl

claim_is_exclusive_example :
    (claim_change claim_one three_seconds second_row).stage_run_id
    ≢ (claim_change claim_one three_seconds queued_row).stage_run_id
claim_is_exclusive_example =
    claim_is_exclusive claim_one claim_one two_runs first_claim
      (claimed_state claim_one three_seconds second_row first_claim)
      (claim_change claim_one three_seconds queued_row)
      (claim_change claim_one three_seconds second_row) two_runs-IsWellFormed claims_first
      claims_second

claim_grants_authority_example :
    HasAuthority
      (record by_worker { now = 3000000 })
      only_claimed
      first_claim
      (claim_change claim_one three_seconds queued_row)
unfolding claim_change
claim_grants_authority_example =
    claim_grants_authority claim_one two_runs two_runs-IsWellFormed
      (claim_change claim_one three_seconds queued_row) first_claim 3000020
      (record by_worker { now = 3000000 }) claims_first refl refl refl refl (omega arith)

claim_finds_work_example :
    (r : StageRunRow) × (s' : Ledger) × (claim_next_queued_run claim_one two_runs ≡ ok (some r, s'))
unfolding select_first is_claimable resolve_lease positive_int
claim_finds_work_example =
    claim_finds_work claim_one two_runs two_runs-IsWellFormed "i1:draft:1" queued_row refl refl refl
      (λ y due. (record three_seconds { actor_ref = y.actor_ref }, refl))
