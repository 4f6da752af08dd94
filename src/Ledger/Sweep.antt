-- ===== src/Ledger/Sweep.antt =====
-- packages/kernel/agent_workflow_kernel/storage.py: `sweep_stale_leases`, the recovery of runs
-- whose lease has expired, and the evidence that it asks for.
pub mod Step
pub mod Laws
pub mod Outcomes
use Prim.Native.String.{compare}
use text.Mathlib.Text.{is_lt}
use agent_workflow_kernel.Prelude.{
  ℕ, suc, String, Bool, true, false, not, ◌&&◌, ◌||◌, Option, none, some, List, ◌∷◌, [], ◌==◌, ltb,
  leb, eqb, column_is, is_some, select, order_by, exists, if◌then◌else◌,
}
use agent_workflow_kernel.Json.{str, object}
use agent_workflow_kernel.Contracts.StageStatus.{
  StageRunStatus, queued, claimed, started, waiting, waiting_on_child, validating, blocked,
  status_value,
}
use agent_workflow_kernel.Contracts.InstanceStatus
use agent_workflow_kernel.Contracts.InstanceStatus.{WorkflowStatus}
use agent_workflow_kernel.Contracts.Failure.{
  FailureClass, stale_lease, unknown_side_effect_state, failure_value,
}
use agent_workflow_kernel.Ledger.Rows.{InstanceRow, StageRunRow, InvocationRow, EventRow}
use agent_workflow_kernel.Ledger.State.{
  Ledger, Result, ok, ◌>>=◌, Body, append_event, instance_row, update_runs, update_instance,
}
use agent_workflow_kernel.Ledger.Leases.{release}

abbrev pub is_start_event : String → EventRow → Bool
is_start_event run e =
    column_is e.stage_run_id run
    && ((e.event_type == "stage_started") || (e.event_type == "adapter_invocation_preflight"))

-- `_stage_run_has_start_evidence`
unfoldable pub has_start_evidence : String → Ledger → Bool
has_start_evidence run s =
    exists (λ (i : InvocationRow). i.stage_run_id == run) s.invocations
    || exists (is_start_event run) s.events

pub data Action : Type 0 where
  requeued blocked_run : Action

abbrev pub action_text : Action → String
action_text requeued = "requeued"
action_text blocked_run = "blocked"

-- The columns that the sweep writes, and the action that it reports.
pub record Recovery : Type 0 where
  pub action : Action
  pub new_status : StageRunStatus
  pub approval_required : Bool
  pub failure_class : FailureClass
  pub failure_summary : String

abbrev pub block_recovery : String → Recovery
block_recovery summary = record {
  action = blocked_run;
  new_status = blocked;
  approval_required = true;
  failure_class = unknown_side_effect_state;
  failure_summary = summary;
}

abbrev pub requeue_recovery : Recovery
requeue_recovery = record {
  action = requeued;
  new_status = queued;
  approval_required = false;
  failure_class = stale_lease;
  failure_summary = "Lease expired before adapter work started.";
}

abbrev pub started_recovery : Recovery
started_recovery = block_recovery "Lease expired after work may have started."

-- The ladder over the status of an expired row.
unfoldable pub recovery_of : StageRunStatus → Bool → Option Recovery
recovery_of claimed true =
    some (block_recovery "Lease expired after adapter invocation may have started.")
recovery_of claimed false = some requeue_recovery
recovery_of started _ = some started_recovery
recovery_of waiting _ = some started_recovery
recovery_of waiting_on_child _ = some started_recovery
recovery_of validating _ = some started_recovery
recovery_of _ _ = none

unfoldable pub recovery_change : ℕ → Recovery → StageRunRow → StageRunRow
recovery_change at rec r = record (release r) {
  status = rec.new_status;
  failure_class = some rec.failure_class;
  failure_summary = some rec.failure_summary;
  approval_required = rec.approval_required;
  updated_at = at;
}

-- `WHERE lease_token IS NOT NULL AND lease_expires_at IS NOT NULL`
abbrev pub is_leased : StageRunRow → Bool
is_leased r = is_some r.lease_token && is_some r.lease_expires_at

abbrev expires_before : Option ℕ → Option ℕ → Bool
expires_before (some a) (some b) = ltb a b
expires_before _ _ = false

abbrev same_expiry : Option ℕ → Option ℕ → Bool
same_expiry (some a) (some b) = eqb a b
same_expiry _ _ = false

-- `ORDER BY lease_expires_at, stage_run_id`
unfoldable pub sweep_before : StageRunRow → StageRunRow → Bool
sweep_before a b =
    expires_before a.lease_expires_at b.lease_expires_at
    || (same_expiry a.lease_expires_at b.lease_expires_at
        && is_lt (compare a.stage_run_id b.stage_run_id))

-- `if expires_at > swept_at: continue`
abbrev pub is_stale : ℕ → StageRunRow → Bool
is_stale at r = elim r.lease_expires_at [ none ↦ false | some e ↦ leb e at ]

abbrev pub is_settled : WorkflowStatus → Bool
is_settled InstanceStatus.WorkflowStatus.done = true
is_settled InstanceStatus.WorkflowStatus.cancelled = true
is_settled InstanceStatus.WorkflowStatus.blocked = true
is_settled InstanceStatus.WorkflowStatus.policy_denied = true
is_settled _ = false

abbrev pub bump_epoch : ℕ → InstanceRow → InstanceRow
bump_epoch at i = record i { recovery_epoch = suc i.recovery_epoch; updated_at = at }

abbrev pub mark_blocked : ℕ → InstanceRow → InstanceRow
mark_blocked at i = record i { status = InstanceStatus.WorkflowStatus.blocked; updated_at = at }

pub recovery_event : ℕ → String → StageRunRow → Recovery → EventRow
recovery_event at actor row rec = record {
  instance_id = row.instance_id;
  stage_run_id = some row.stage_run_id;
  event_type = "recovery";
  actor = actor;
  payload = object (
      ("action", str (action_text rec.action))
      ∷ ("previous_status", str (status_value row.status))
      ∷ ("failure_class", str (failure_value rec.failure_class))
      ∷ ("failure_summary", str rec.failure_summary)
      ∷ []);
  created_at = at;
}

pub blocked_event : ℕ → String → StageRunRow → Recovery → EventRow
blocked_event at actor row rec = record {
  instance_id = row.instance_id;
  stage_run_id = some row.stage_run_id;
  event_type = "workflow_blocked";
  actor = actor;
  payload = object (
      ("stage_id", str row.stage_id)
      ∷ ("stage_run_id", str row.stage_run_id)
      ∷ ("reason", str rec.failure_summary)
      ∷ ("failure_class", str (failure_value rec.failure_class))
      ∷ ("source", str "stale_lease_recovery")
      ∷ []);
  created_at = at;
}

abbrev pub should_block : StageRunRow → Option InstanceRow → Bool
should_block row none = false
should_block row (some i) = column_is i.current_stage_id row.stage_id && not (is_settled i.status)

-- The instance follows a blocked run, if the run is at its current stage and it has not settled.
unfoldable pub block_instance : ℕ → String → StageRunRow → Recovery → Ledger → Result Ledger
block_instance at actor row rec s =
    if should_block row (instance_row row.instance_id s)
    then append_event (blocked_event at actor row rec)
        (update_instance row.instance_id (mark_blocked at) s)
    else ok s

unfoldable pub follow_action : ℕ → String → StageRunRow → Recovery → Action → Ledger → Result Ledger
follow_action at actor row rec requeued s = ok s
follow_action at actor row rec blocked_run s = block_instance at actor row rec s

pub record RecoveryAction : Type 0 where
  pub stage_run_id : String
  pub previous_status : StageRunStatus
  pub action : Action
  pub failure_class : FailureClass

unfoldable pub recover_row : ℕ → String → StageRunRow → Recovery → Ledger → Result Ledger
recover_row at actor row rec s = do
  s1 ← follow_action at actor row rec rec.action (
      update_instance row.instance_id (bump_epoch at)
        (update_runs (λ r. r.stage_run_id == row.stage_run_id) (recovery_change at rec) s))
  append_event (recovery_event at actor row rec) s1

-- What the sweep does to a row, given the evidence that it finds.
unfoldable pub verdict : ℕ → StageRunRow → Ledger → Option Recovery
verdict at row s =
    if is_stale at row then recovery_of row.status (has_start_evidence row.stage_run_id s) else none

-- The loop over the rows that were selected before the first write.
unfoldable pub sweep_rows : ℕ → String → List StageRunRow → Body (List RecoveryAction)
sweep_rows at actor [] s = ok ([], s)
sweep_rows at actor (row ∷ rows) s = elim (verdict at row s) [
  | none ↦ sweep_rows at actor rows s
  | some rec ↦ do
    s1 ← recover_row at actor row rec s
    (actions, s2) ← sweep_rows at actor rows s1
    ok (
      record {
        stage_run_id = row.stage_run_id;
        previous_status = row.status;
        action = rec.action;
        failure_class = rec.failure_class;
      }
          ∷ actions,
      s2,
    )
]

unfoldable pub sweep_stale_leases : ℕ → String → Body (List RecoveryAction)
sweep_stale_leases at actor s =
    sweep_rows at actor (order_by sweep_before (select is_leased s.runs)) s
