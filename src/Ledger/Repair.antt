-- ===== src/Ledger/Repair.antt =====
-- packages/kernel/agent_workflow_kernel/storage.py: `retry_blocked_human_gate` and
-- `reissue_waiting_human_gate_for_transport_repair`, which queue a fresh attempt of a human gate.
pub mod Latest
pub mod Requeued
pub mod Laws
use Prim.Native.String.{compare}
use text.Mathlib.Text.{is_lt}
use agent_workflow_kernel.Prelude.{
  ℕ, suc, String, Bool, true, not, ◌&&◌, ◌||◌, Option, none, some, ◌∷◌, [], ◌==◌, ltb, eqb, select,
  order_by, exists, limit_one, strip, if◌then◌else◌,
}
use agent_workflow_kernel.Json.{Json, str, bool, object}
use agent_workflow_kernel.Contracts.StageStatus.{StageRunStatus, is_waiting_on_human, is_blocked}
use agent_workflow_kernel.Contracts.InstanceStatus.{
  WorkflowStatus, running, is_instance_blocked, is_instance_waiting_on_human,
}
use agent_workflow_kernel.Contracts.Failure.{runtime_failure}
use agent_workflow_kernel.Ledger.Rows.{InstanceRow, StageRunRow, EventRow, DecisionRow}
use agent_workflow_kernel.Ledger.State.{
  Ledger, Result, ok, err, Conflict, conflict, not_waiting_on_human, not_blocked, gate_missing,
  already_decided, missing_key, bad_value, ◌>>=◌, Body, instance_row, append_event, insert_run,
  update_runs, update_instance,
}
use agent_workflow_kernel.Ledger.Retry.{fresh_run, attempt_id}

-- `ORDER BY attempt DESC, created_at DESC, stage_run_id DESC`
unfoldable pub attempt_after : StageRunRow → StageRunRow → Bool
attempt_after a b =
    ltb b.attempt a.attempt
    || (eqb a.attempt b.attempt
        && (ltb b.created_at a.created_at
            || (eqb a.created_at b.created_at && is_lt (compare b.stage_run_id a.stage_run_id))))

unfoldable pub latest_attempt : String → String → Ledger → Option StageRunRow
latest_attempt i st s =
    limit_one
      (order_by attempt_after (select (λ r. (r.instance_id == i) && (r.stage_id == st)) s.runs))

-- `str(instance["current_stage_id"] or "")`
abbrev pub current_stage : InstanceRow → String
current_stage i = elim i.current_stage_id [ none ↦ "" | some st ↦ st ]

abbrev pub has_decision : String → Ledger → Bool
has_decision run s = exists (λ (d : DecisionRow). d.stage_run_id == run) s.decisions

-- What the latest attempt of the current stage must be: a gate in the expected status, undecided.
abbrev pub check_attempt :
    InstanceRow
    → (StageRunStatus → Bool)
    → Ledger
    → Option StageRunRow
    → Result (InstanceRow × StageRunRow)
check_attempt inst run_ok s none = err (conflict gate_missing)
check_attempt inst run_ok s (some row) =
    if not (run_ok row.status) || not row.approval_required
    then err (conflict gate_missing)
    else if has_decision row.stage_run_id s
    then err (conflict already_decided)
    else ok (inst, row)

abbrev pub check_instance :
    String
    → (WorkflowStatus → Bool)
    → Conflict
    → (StageRunStatus → Bool)
    → Ledger
    → Option InstanceRow
    → Result (InstanceRow × StageRunRow)
check_instance i instance_ok why run_ok s none = err missing_key
check_instance i instance_ok why run_ok s (some inst) =
    if not (instance_ok inst.status)
    then err (conflict why)
    else check_attempt inst run_ok s (latest_attempt i (current_stage inst) s)

-- The checks that the repairs of a gate share: the instance, its current stage's latest attempt,
-- and no decision on it. What the two statuses must be differs.
unfoldable pub require_gate :
    String
    → (WorkflowStatus → Bool)
    → Conflict
    → (StageRunStatus → Bool)
    → Ledger
    → Result (InstanceRow × StageRunRow)
require_gate i instance_ok why run_ok s =
    check_instance i instance_ok why run_ok s (instance_row i s)

pub record RepairCall : Type 0 where
  pub instance_id : String
  pub reason : String
  pub verified : Bool
  pub actor : String
  pub now : ℕ

pub record Repaired : Type 0 where
  pub instance_id : String
  pub previous_stage_run_id : String
  pub stage_run_id : String
  pub stage_id : String
  pub attempt : ℕ
  pub status : StageRunStatus
  pub reason : String

-- The attempt that is queued: a fresh idempotency key, and no approval yet.
unfoldable pub gate_attempt : StageRunRow → ℕ → StageRunRow
gate_attempt row now =
    let id = attempt_id row.instance_id row.stage_id (suc row.attempt) in
    record (fresh_run id row (suc row.attempt) now) {
      idempotency_key = some id;
      retry_count = suc row.retry_count;
    }

abbrev pub resume : ℕ → InstanceRow → InstanceRow
resume now i = record i {
  status = running;
  recovery_epoch = suc i.recovery_epoch;
  updated_at = now;
}

pub repair_payload : String → String → String → StageRunRow → StageRunRow → Json
repair_payload old_key verified_key reason row next = object (
    (old_key, str row.stage_run_id)
    ∷ ("new_stage_run_id", str next.stage_run_id)
    ∷ ("reason", str reason)
    ∷ (verified_key, bool true)
    ∷ [])

abbrev pub repair_event : RepairCall → String → String → Json → EventRow
repair_event c run kind payload = record {
  instance_id = c.instance_id;
  stage_run_id = some run;
  event_type = kind;
  actor = c.actor;
  payload = payload;
  created_at = c.now;
}

-- The INSERT, the UPDATE of the instance and the two events, and the dictionary that is returned.
unfoldable pub queue_attempt :
    RepairCall → String → String → (StageRunRow → Json) → StageRunRow → Body Repaired
queue_attempt c authorized requeued payload row s = do
  let next = gate_attempt row c.now
  s1 ← insert_run next s
  s2 ←
      append_event (repair_event c row.stage_run_id authorized (payload next))
        (update_instance c.instance_id (resume c.now) s1)
  s3 ← append_event (repair_event c next.stage_run_id requeued (payload next)) s2
  ok (
    record {
      instance_id = c.instance_id;
      previous_stage_run_id = row.stage_run_id;
      stage_run_id = next.stage_run_id;
      stage_id = row.stage_id;
      attempt = next.attempt;
      status = StageRunStatus.queued;
      reason = strip c.reason;
    },
    s3,
  )

unfoldable pub retry_blocked_human_gate : RepairCall → Body Repaired
retry_blocked_human_gate c s =
    if not c.verified || (strip c.reason == "") then err bad_value else do
      (inst, row) ← require_gate c.instance_id is_instance_blocked not_blocked is_blocked s
      queue_attempt c "blocked_human_gate_retry_authorized" "blocked_human_gate_retry_queued"
          (repair_payload "blocked_stage_run_id" "verified_no_external_effect" (strip c.reason) row)
          row s

unfoldable pub defect_change : RepairCall → StageRunRow → StageRunRow
defect_change c r = record r {
  status = StageRunStatus.blocked;
  failure_class = some runtime_failure;
  failure_summary = some (strip c.reason);
  updated_at = c.now;
}

unfoldable pub reissue_waiting_human_gate_for_transport_repair : RepairCall → Body Repaired
reissue_waiting_human_gate_for_transport_repair c s =
    if not c.verified || (strip c.reason == "") then err bad_value else do
      (inst, row) ←
          require_gate c.instance_id is_instance_waiting_on_human not_waiting_on_human
            is_waiting_on_human s
      queue_attempt c "waiting_human_gate_transport_repair_authorized"
          "waiting_human_gate_transport_repair_queued"
          (repair_payload "defective_stage_run_id" "verified_no_human_decision" (strip c.reason)
            row)
          row
          (update_runs (λ r. (r.stage_run_id == row.stage_run_id) && is_waiting_on_human r.status)
            (defect_change c) s)
