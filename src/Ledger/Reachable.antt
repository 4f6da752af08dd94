-- ===== src/Ledger/Reachable.antt =====
-- The life of a ledger of storage.py: from the empty tables on, by operations that go through.
pub mod Kept
use agent_workflow_kernel.Prelude.{
  ℕ, String, ◌≡◌, refl, sym, subst, Bool, not, Option, some, List, [], inl, inr, ◌∷◌, ◌++◌, ◌∙◌,
  arith, exists-append, ◌==◌, ◌&&◌, ◌||◌, Bool-cases, Option-cases, Unique-append, All, has_key,
}
use agent_workflow_kernel.Json.{Json}
use agent_workflow_kernel.Contracts.{StageRun}
use agent_workflow_kernel.Contracts.InstanceStatus.{WorkflowStatus}
use agent_workflow_kernel.Contracts.Failure.{FailureClass}
use agent_workflow_kernel.Contracts.Results.{Receipt}
use agent_workflow_kernel.Ledger.Rows.{InstanceRow, StageRunRow, EventRow, DecisionRow}
use agent_workflow_kernel.Ledger.State.{
  Ledger, empty, ok, bind-ok, ok_pair, has_instance, has_run, instance_row,
}
use agent_workflow_kernel.Ledger.Invariant.{IsWellFormed, InstanceKnown, append_event-IsWellFormed}
use agent_workflow_kernel.Ledger.Leases.{LeaseCall}
use agent_workflow_kernel.Ledger.Leases.Effects.{Mutation, perform}
use agent_workflow_kernel.Ledger.Leases.Guarded.{perform-IsWellFormed}
use agent_workflow_kernel.Ledger.Claim.{ClaimCall, claim_next_queued_run}
use agent_workflow_kernel.Ledger.Claim.Laws.{claim-IsWellFormed}
use agent_workflow_kernel.Ledger.Retry.{schedule_retry}
use agent_workflow_kernel.Ledger.Retry.Kept.{schedule_retry-IsWellFormed}
use agent_workflow_kernel.Ledger.Sweep.{RecoveryAction, sweep_stale_leases}
use agent_workflow_kernel.Ledger.Sweep.Laws.{sweep_is_pointwise}
use agent_workflow_kernel.Ledger.Inserts.{
  WorkflowInstance, Provenance, insert_workflow_instance, instance_to_row, update_workflow_instance,
  insert_stage_run, record_event,
}
use agent_workflow_kernel.Ledger.Inserts.Laws.{
  update_workflow_instance-IsWellFormed, insert_stage_run-IsWellFormed, record_event-IsWellFormed,
  record_receipt-IsWellFormed,
}
use agent_workflow_kernel.Ledger.Receipts.{record_receipt}
use agent_workflow_kernel.Ledger.Operator.{
  RetireCall, Retirement, is_terminal, is_parked_or_terminal, cancel_workflow_instance,
  park_stale_workflow_instance,
}
use agent_workflow_kernel.Ledger.Operator.Laws.{cancel_retires, park_retires}
use agent_workflow_kernel.Ledger.Human.{
  Decision, record_human_decision, DecidedCall, complete_waiting_human_stage_run,
}
use agent_workflow_kernel.Ledger.Human.Laws.{complete_waiting_lem}
use agent_workflow_kernel.Ledger.Repair.{
  RepairCall, Repaired, retry_blocked_human_gate, reissue_waiting_human_gate_for_transport_repair,
}
use agent_workflow_kernel.Ledger.Repair.Laws.{blocked_gate_retry_lem, gate_reissue_lem}
use agent_workflow_kernel.Ledger.Late.{LateCall, record_late_result}
use agent_workflow_kernel.Ledger.Late.Laws.{late_result_is_inert}

-- A transaction that goes through. One that raises leaves the ledger as it was, and is no step.
-- Not among the steps are renewals of leases, the records of adapter calls and of prompt contexts,
-- and the terminalization of blocked stages.
pub data Step (s s' : Ledger) : Type 0 where
  instance_inserted :
      (i : WorkflowInstance) (p : Provenance) (now : ℕ)
      → insert_workflow_instance i p now s ≡ ok (tt, s')
      → Step s s'
  instance_updated :
      (i : String) (status : WorkflowStatus) (stage : Option String) (now : ℕ) (actor kind : String)
      (payload : Json)
      → update_workflow_instance i status stage now actor kind payload s ≡ ok (tt, s')
      → Step s s'
  run_inserted :
      (r : StageRun) (hash : String) (key parent : Option String) (now : ℕ)
      → insert_stage_run r hash key parent now s ≡ ok (tt, s')
      → Step s s'
  event_recorded : (e : EventRow) → record_event e s ≡ ok (tt, s') → Step s s'
  receipt_recorded : (r : Receipt) → record_receipt r s ≡ ok (tt, s') → Step s s'
  run_claimed :
      (c : ClaimCall) (r : StageRunRow) → claim_next_queued_run c s ≡ ok (some r, s') → Step s s'
  lease_used : (m : Mutation) (c : LeaseCall) → perform m c s ≡ ok (tt, s') → Step s s'
  retry_scheduled :
      (c : LeaseCall) (class : FailureClass) (summary : String) (at : ℕ)
      → schedule_retry c class summary at s ≡ ok (tt, s')
      → Step s s'
  leases_swept :
      (at : ℕ) (actor : String) (actions : List RecoveryAction)
      → sweep_stale_leases at actor s ≡ ok (actions, s')
      → Step s s'
  instance_cancelled :
      (c : RetireCall) (force : Bool) (r : Retirement)
      → cancel_workflow_instance c force s ≡ ok (r, s')
      → Step s s'
  instance_parked :
      (c : RetireCall) (r : Retirement) → park_stale_workflow_instance c s ≡ ok (r, s') → Step s s'
  decision_recorded :
      (d : Decision) (i run : String) (now : ℕ) (actor : String)
      → record_human_decision d i run now actor s ≡ ok (tt, s')
      → Step s s'
  gate_completed :
      (c : DecidedCall) → complete_waiting_human_stage_run c s ≡ ok (tt, s') → Step s s'
  gate_retried :
      (c : RepairCall) (p : Repaired) → retry_blocked_human_gate c s ≡ ok (p, s') → Step s s'
  gate_reissued :
      (c : RepairCall) (p : Repaired)
      → reissue_waiting_human_gate_for_transport_repair c s ≡ ok (p, s')
      → Step s s'
  late_result_recorded :
      (c : LateCall) (id : String) → record_late_result c s ≡ ok (id, s') → Step s s'

-- What operations can make of the empty ledger.
pub data IsReachable : Ledger → Type 0 where
  start : IsReachable empty
  next : {s s' : Ledger} → IsReachable s → Step s s' → IsReachable s'
