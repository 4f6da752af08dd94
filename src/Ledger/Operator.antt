-- ===== src/Ledger/Operator.antt =====
-- packages/kernel/agent_workflow_kernel/storage.py: `cancel_workflow_instance` and
-- `park_stale_workflow_instance`, the operator's ways to retire an instance.
pub mod Supersede
pub mod Laws
use agent_workflow_kernel.Prelude.{
  ℕ, String, Bool, true, false, not, ◌&&◌, Option, none, some, List, ◌∷◌, [], ◌==◌, map, select,
  order_by, if◌then◌else◌,
}
use agent_workflow_kernel.Json.{Json, str, bool, arr, strings, opt_str, object}
use agent_workflow_kernel.Contracts.StageStatus.{StageRunStatus, superseded}
use agent_workflow_kernel.Contracts.InstanceStatus.{
  WorkflowStatus, done, cancelled, blocked, policy_denied, workflow_status_value,
}
use agent_workflow_kernel.Ledger.Rows.{InstanceRow, StageRunRow}
use agent_workflow_kernel.Ledger.State.{
  Ledger, Result, ok, err, missing_key, ◌>>=◌, Body, instance_row, append_event, update_runs,
  update_instance,
}
use agent_workflow_kernel.Ledger.Leases.{release}
use agent_workflow_kernel.Ledger.Claim.{created_before}

-- `active_stage_statuses`
abbrev pub is_unfinished : StageRunStatus → Bool
is_unfinished StageRunStatus.queued = true
is_unfinished StageRunStatus.claimed = true
is_unfinished StageRunStatus.started = true
is_unfinished StageRunStatus.waiting = true
is_unfinished StageRunStatus.waiting_on_child = true
is_unfinished StageRunStatus.waiting_on_human = true
is_unfinished StageRunStatus.validating = true
is_unfinished StageRunStatus.approval_required = true
is_unfinished _ = false

abbrev pub is_terminal : WorkflowStatus → Bool
is_terminal done = true
is_terminal cancelled = true
is_terminal policy_denied = true
is_terminal _ = false

-- `leave_unchanged`
abbrev pub is_parked_or_terminal : WorkflowStatus → Bool
is_parked_or_terminal done = true
is_parked_or_terminal cancelled = true
is_parked_or_terminal policy_denied = true
is_parked_or_terminal blocked = true
is_parked_or_terminal _ = false

abbrev pub unfinished_of : String → StageRunRow → Bool
unfinished_of i r = (r.instance_id == i) && is_unfinished r.status

unfoldable pub supersede_change : ℕ → StageRunRow → StageRunRow
supersede_change now r = record (release r) { status = superseded; updated_at = now }

-- `executemany`: one UPDATE for each id.
unfoldable pub supersede_all : ℕ → List String → Ledger → Ledger
supersede_all now [] s = s
supersede_all now (id ∷ ids) s =
    supersede_all now ids (update_runs (λ r. r.stage_run_id == id) (supersede_change now) s)

unfoldable pub unfinished_ids : String → Ledger → List String
unfinished_ids i s =
    map (λ (r : StageRunRow). r.stage_run_id)
      (order_by created_before (select (unfinished_of i) s.runs))

-- The dictionary that both operations return.
pub record Retirement : Type 0 where
  pub changed : Bool
  pub instance_id : String
  pub previous_status : WorkflowStatus
  pub status : WorkflowStatus
  pub superseded_stage_runs : List String
  pub reason : Option String

abbrev pub unchanged : InstanceRow → String → Retirement
unchanged i why = record {
  changed = false;
  instance_id = i.instance_id;
  previous_status = i.status;
  status = i.status;
  superseded_stage_runs = [];
  reason = some why;
}

abbrev pub retire_instance : WorkflowStatus → ℕ → InstanceRow → InstanceRow
retire_instance target now i = record i {
  status = target;
  current_stage_id = none;
  updated_at = now;
}

pub record RetireCall : Type 0 where
  pub instance_id : String
  pub actor : String
  pub reason : Option String
  pub updated_at : ℕ

-- The writes that the two share: supersede the unfinished runs, move the instance, log the event.
unfoldable pub retire :
    RetireCall → WorkflowStatus → String → (List String → Json) → InstanceRow → Body Retirement
retire c target kind payload row s = do
  let ids = unfinished_ids c.instance_id s
  s' ←
      append_event
        (record {
          instance_id = c.instance_id;
          stage_run_id = none;
          event_type = kind;
          actor = c.actor;
          payload = payload ids;
          created_at = c.updated_at;
        })
        (update_instance c.instance_id (retire_instance target c.updated_at)
          (supersede_all c.updated_at ids s))
  ok (
    record {
      changed = true;
      instance_id = c.instance_id;
      previous_status = row.status;
      status = target;
      superseded_stage_runs = ids;
      reason = c.reason;
    },
    s',
  )

pub cancel_payload : RetireCall → Bool → InstanceRow → List String → Json
cancel_payload c force row ids = object (
    ("previous_status", str (workflow_status_value row.status))
    ∷ ("previous_stage_id", opt_str row.current_stage_id)
    ∷ ("reason", opt_str c.reason)
    ∷ ("force", bool force)
    ∷ ("superseded_stage_runs", arr (strings ids))
    ∷ [])

pub park_payload : RetireCall → InstanceRow → List String → Json
park_payload c row ids = object (
    ("previous_status", str (workflow_status_value row.status))
    ∷ ("previous_stage_id", opt_str row.current_stage_id)
    ∷ ("reason", opt_str c.reason)
    ∷ ("superseded_stage_runs", arr (strings ids))
    ∷ [])

abbrev pub cancel_found :
    RetireCall → Bool → Ledger → Option InstanceRow → Result (Retirement × Ledger)
cancel_found c force s none = err missing_key
cancel_found c force s (some row) =
    if is_terminal row.status && not force
    then ok (unchanged row "already_terminal", s)
    else retire c cancelled "workflow_cancelled" (cancel_payload c force row) row s

unfoldable pub cancel_workflow_instance : RetireCall → Bool → Body Retirement
cancel_workflow_instance c force s = cancel_found c force s (instance_row c.instance_id s)

abbrev pub park_found : RetireCall → Ledger → Option InstanceRow → Result (Retirement × Ledger)
park_found c s none = err missing_key
park_found c s (some row) =
    if is_parked_or_terminal row.status
    then ok (unchanged row "already_parked_or_terminal", s)
    else retire c blocked "workflow_auto_parked_stale_definition" (park_payload c row) row s

unfoldable pub park_stale_workflow_instance : RetireCall → Body Retirement
park_stale_workflow_instance c s = park_found c s (instance_row c.instance_id s)
