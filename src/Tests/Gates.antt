-- ===== src/Tests/Gates.antt =====
-- The theorems on late results and human gates, at the sample ledgers.
use agent_workflow_kernel.Prelude.{
  ◌≡◌, refl, true, false, none, some, [], ◌∷◌, select, select_first, exists, update_where, order_by,
  insert_by, decimal, strip,
}
use agent_workflow_kernel.Json.{null}
use agent_workflow_kernel.Contracts.StageStatus.{
  StageRunStatus, succeeded, is_blocked, is_waiting_on_human,
}
use agent_workflow_kernel.Contracts.InstanceStatus.{
  WorkflowStatus, is_instance_blocked, is_instance_waiting_on_human,
}
use agent_workflow_kernel.Ledger.Rows.{StageRunRow}
use agent_workflow_kernel.Ledger.State.{
  Ledger, ok, err, conflict, not_waiting_on_human, run_row, append_event, insert_run, empty,
}
use agent_workflow_kernel.Ledger.Invariant.{IsWellFormed}
use agent_workflow_kernel.Ledger.Inserts.{instance_to_row}
use agent_workflow_kernel.Ledger.Late.{LateCall, late_row, record_late_result}
use agent_workflow_kernel.Ledger.Late.Laws.{late_result_is_inert}
use agent_workflow_kernel.Ledger.Human.{
  DecidedCall, complete_waiting_human_stage_run, decided_change,
}
use agent_workflow_kernel.Ledger.Human.Laws.{Decided, complete_waiting_lem, gate_is_decided_once}
use agent_workflow_kernel.Ledger.Repair.{
  require_gate, latest_attempt, queue_attempt, defect_change, RepairCall, Repaired, gate_attempt,
  retry_blocked_human_gate, reissue_waiting_human_gate_for_transport_repair,
}
use agent_workflow_kernel.Ledger.Repair.Requeued.{Requeued}
use agent_workflow_kernel.Ledger.Repair.Laws.{
  with_defect, IsOpenGate, blocked_gate_retry_lem, gate_reissue_lem,
}
use agent_workflow_kernel.Ledger.Retry.{attempt_id}
use agent_workflow_kernel.Tests.Samples.{instance_one, no_provenance, queued_row, leased_ledger}

abbrev late_one : LateCall
late_one = record {
  stage_run_id = "i1:draft:1";
  result_kind = "runtime";
  evidence = null;
  reported_lease_token = some "old";
  reported_owner = some "worker";
  result_hash = none;
  external_ref = none;
  observed_at = 70;
  actor = "worker";
  late_result_id = "l1";
  recorded_at = 71;
}

late_recorded : (s' : Ledger) × (record_late_result late_one leased_ledger ≡ ok ("l1", s'))
unfolding record_late_result append_event select_first exists
late_recorded = (_, refl)

late_result_is_inert_example :
    ((row : StageRunRow) × (run_row "i1:draft:1" leased_ledger ≡ some row)
      × (late_recorded.0.late_results ≡ late_row late_one row ∷ []))
    × (late_recorded.0.runs ≡ leased_ledger.runs)
    × (late_recorded.0.instances ≡ leased_ledger.instances)
    × (late_recorded.0.invocations ≡ leased_ledger.invocations)
    × (late_recorded.0.decisions ≡ leased_ledger.decisions)
late_result_is_inert_example =
    late_result_is_inert late_one leased_ledger late_recorded.0 "l1" late_recorded.1

-- A gate of the instance, in a status of the run and one of the instance.
abbrev gate_row : StageRunStatus → StageRunRow
gate_row st = record queued_row { status = st; approval_required = true }

abbrev gate_ledger : WorkflowStatus → StageRunStatus → Ledger
gate_ledger wst st = record empty {
  instances = record (instance_to_row instance_one no_provenance 5) { status = wst } ∷ [];
  runs = gate_row st ∷ [];
}

gate_ledger-IsWellFormed :
    (wst : WorkflowStatus) (st : StageRunStatus) → IsWellFormed (gate_ledger wst st)
unfolding exists
gate_ledger-IsWellFormed wst st = record {
  instances_unique = (refl, tt);
  runs_unique = (refl, tt);
  attempts_unique = (refl, tt);
  instances_known = (refl, tt);
}

abbrev waiting_ledger : Ledger
waiting_ledger = gate_ledger WorkflowStatus.waiting_on_human StageRunStatus.waiting_on_human

abbrev blocked_ledger : Ledger
blocked_ledger = gate_ledger WorkflowStatus.blocked StageRunStatus.blocked

abbrev approve : DecidedCall
approve = record {
  stage_run_id = "i1:draft:1";
  status = succeeded;
  receipt_id = some "r1";
  output_hash = none;
  failure_class = none;
  failure_summary = none;
  now = 80;
  actor = "human";
}

decided : (s' : Ledger) × (complete_waiting_human_stage_run approve waiting_ledger ≡ ok (tt, s'))
unfolding complete_waiting_human_stage_run append_event select_first exists update_where
    decided_change
decided = (_, refl)

complete_waiting_lem_example :
    ((row : StageRunRow)
      → run_row "i1:draft:1" waiting_ledger ≡ some row
      → is_waiting_on_human row.status ≡ true
      → (s' : Ledger) × (complete_waiting_human_stage_run approve waiting_ledger ≡ ok (tt, s'))
        × Decided approve row waiting_ledger s')
    × ((row : StageRunRow)
        → run_row "i1:draft:1" waiting_ledger ≡ some row
        → is_waiting_on_human row.status ≡ false
        → complete_waiting_human_stage_run approve waiting_ledger
          ≡ err (conflict not_waiting_on_human))
    × (run_row "i1:draft:1" waiting_ledger ≡ none
        → complete_waiting_human_stage_run approve waiting_ledger
          ≡ err (conflict not_waiting_on_human))
complete_waiting_lem_example =
    complete_waiting_lem approve waiting_ledger
      (gate_ledger-IsWellFormed WorkflowStatus.waiting_on_human StageRunStatus.waiting_on_human)

gate_is_decided_once_example :
    complete_waiting_human_stage_run approve decided.0 ≡ err (conflict not_waiting_on_human)
gate_is_decided_once_example =
    gate_is_decided_once approve approve waiting_ledger decided.0
      (gate_ledger-IsWellFormed WorkflowStatus.waiting_on_human StageRunStatus.waiting_on_human)
      refl decided.1 refl

abbrev repair_one : RepairCall
repair_one = record {
  instance_id = "i1";
  reason = "card lost";
  verified = true;
  actor = "operator";
  now = 90;
}

gate_retried :
    (p : Repaired) × (s' : Ledger) × (retry_blocked_human_gate repair_one blocked_ledger
      ≡ ok (p, s'))
unfolding retry_blocked_human_gate strip require_gate select_first latest_attempt order_by select
    insert_by exists queue_attempt insert_run gate_attempt attempt_id decimal append_event
    update_where
gate_retried = (_, _, refl)

blocked_gate_retry_lem_example :
    (repair_one.verified ≡ true)
    × ((row : StageRunRow) × IsOpenGate "i1" is_instance_blocked is_blocked blocked_ledger row
        × IsWellFormed gate_retried.1
        × Requeued repair_one row gate_retried.0 blocked_ledger gate_retried.1)
blocked_gate_retry_lem_example =
    blocked_gate_retry_lem repair_one blocked_ledger gate_retried.1 gate_retried.0
      (gate_ledger-IsWellFormed WorkflowStatus.blocked StageRunStatus.blocked) gate_retried.2

gate_reissued :
    (p : Repaired) × (s' : Ledger) × (reissue_waiting_human_gate_for_transport_repair repair_one
        waiting_ledger
      ≡ ok (p, s'))
unfolding reissue_waiting_human_gate_for_transport_repair strip require_gate select_first
    latest_attempt order_by select insert_by exists queue_attempt insert_run update_where
    defect_change gate_attempt attempt_id decimal append_event
gate_reissued = (_, _, refl)

gate_reissue_lem_example :
    (repair_one.verified ≡ true)
    × ((row : StageRunRow) × IsOpenGate "i1" is_instance_waiting_on_human is_waiting_on_human
          waiting_ledger row
        × IsWellFormed gate_reissued.1
        × Requeued repair_one row gate_reissued.0
            (record waiting_ledger { runs = with_defect repair_one row waiting_ledger.runs })
            gate_reissued.1)
gate_reissue_lem_example =
    gate_reissue_lem repair_one waiting_ledger gate_reissued.1 gate_reissued.0
      (gate_ledger-IsWellFormed WorkflowStatus.waiting_on_human StageRunStatus.waiting_on_human)
      gate_reissued.2
