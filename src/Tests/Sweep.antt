-- ===== src/Tests/Sweep.antt =====
-- The theorems on the sweep, at a run that was started under a lease until 5000000.
use agent_workflow_kernel.Prelude.{
  ◌≡◌, ◌⊎◌, refl, true, false, none, some, List, [], ◌∷◌, All, exists, select_first,
}
use agent_workflow_kernel.Json.{null}
use agent_workflow_kernel.Contracts.StageStatus.{started, is_blocked}
use agent_workflow_kernel.Ledger.Rows.{StageRunRow, EventRow}
use agent_workflow_kernel.Ledger.State.{Ledger, ok, run_row}
use agent_workflow_kernel.Ledger.Invariant.{IsWellFormed}
use agent_workflow_kernel.Ledger.Sweep.{
  RecoveryAction, sweep_stale_leases, has_start_evidence, is_stale, verdict,
}
use agent_workflow_kernel.Ledger.Sweep.Laws.{swept_run, sweep_is_pointwise}
use agent_workflow_kernel.Ledger.Sweep.Outcomes.{
  started_run_is_not_requeued, sweep_leaves_no_stale_lease,
}
use agent_workflow_kernel.Tests.Samples.{leased_row, leased_ledger, leased_ledger-IsWellFormed}

abbrev start_event : EventRow
start_event = record {
  instance_id = "i1";
  stage_run_id = some "i1:draft:1";
  event_type = "stage_started";
  actor = "worker";
  payload = null;
  created_at = 30;
}

abbrev started_row : StageRunRow
started_row = record leased_row { status = started }

abbrev started_ledger : Ledger
started_ledger = record leased_ledger { runs = started_row ∷ []; events = start_event ∷ [] }

started_ledger-IsWellFormed : IsWellFormed started_ledger
unfolding exists
started_ledger-IsWellFormed = record {
  instances_unique = (refl, tt);
  runs_unique = (refl, tt);
  attempts_unique = (refl, tt);
  instances_known = (refl, tt);
}

sweep_is_pointwise_example :
    (actions : List RecoveryAction) × (s' : Ledger) × (sweep_stale_leases 6000000 "janitor"
        started_ledger
      ≡ ok (actions, s'))
    × IsWellFormed s'
    × All
        (λ r. run_row r.stage_run_id s' ≡ some (swept_run 6000000 started_ledger r))
        started_ledger.runs
sweep_is_pointwise_example =
    sweep_is_pointwise 6000000 "janitor" started_ledger started_ledger-IsWellFormed

abbrev swept_actions : List RecoveryAction
swept_actions = (sweep_is_pointwise 6000000 "janitor" started_ledger started_ledger-IsWellFormed).0

abbrev swept_ledger : Ledger
swept_ledger = (sweep_is_pointwise 6000000 "janitor" started_ledger started_ledger-IsWellFormed).1

sweeps : sweep_stale_leases 6000000 "janitor" started_ledger ≡ ok (swept_actions, swept_ledger)
sweeps = (sweep_is_pointwise 6000000 "janitor" started_ledger started_ledger-IsWellFormed).2

started_run_is_not_requeued_example :
    (r' : StageRunRow) × (run_row "i1:draft:1" swept_ledger ≡ some r')
    × ((r' ≡ started_row)
        ⊎ ((is_blocked r'.status ≡ true) × (r'.approval_required ≡ true) × (r'.lease_token ≡ none)))
unfolding select_first has_start_evidence exists
started_run_is_not_requeued_example =
    started_run_is_not_requeued 6000000 "janitor" started_ledger swept_ledger swept_actions
      started_ledger-IsWellFormed sweeps started_row refl refl

abbrev early_actions : List RecoveryAction
early_actions = (sweep_is_pointwise 4000000 "janitor" leased_ledger leased_ledger-IsWellFormed).0

abbrev early_ledger : Ledger
early_ledger = (sweep_is_pointwise 4000000 "janitor" leased_ledger leased_ledger-IsWellFormed).1

early_sweep : sweep_stale_leases 4000000 "janitor" leased_ledger ≡ ok (early_actions, early_ledger)
early_sweep = (sweep_is_pointwise 4000000 "janitor" leased_ledger leased_ledger-IsWellFormed).2

-- The sweep comes too early for the lease, which stands.
early_leaves_leased : run_row "i1:draft:1" early_ledger ≡ some leased_row
unfolding verdict
early_leaves_leased =
    (sweep_is_pointwise 4000000 "janitor" leased_ledger leased_ledger-IsWellFormed).4.0

sweep_leaves_no_stale_lease_example : is_stale 4000000 leased_row ≡ false
unfolding select_first
sweep_leaves_no_stale_lease_example =
    sweep_leaves_no_stale_lease 4000000 "janitor" leased_ledger early_ledger early_actions
      leased_ledger-IsWellFormed early_sweep leased_row refl leased_row early_leaves_leased refl
      refl
