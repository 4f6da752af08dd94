-- ===== src/Ledger/Leases.antt =====
-- packages/kernel/agent_workflow_kernel/storage.py: `_require_leased_run` and the operations on a
-- stage run that it guards. `mutate_leased` is the shape that they share: the guard, one UPDATE of
-- the row that holds the token, one event.
pub mod Authority
pub mod Effects
pub mod Guarded
use agent_workflow_kernel.Prelude.{
  ℕ, String, Bool, true, false, not, ◌&&◌, Option, none, some, ◌∷◌, [], ◌==◌, leb, column_is,
  coalesce, select_first, if◌then◌else◌,
}
use agent_workflow_kernel.Json.{Json, str, bool, opt_str, opt_num, object}
use agent_workflow_kernel.Contracts.StageStatus.{
  StageRunStatus, claimed, started, waiting, waiting_on_child, validating, succeeded, failed,
  invalid_output, blocked, waiting_on_human, status_value,
}
use agent_workflow_kernel.Contracts.Failure.{FailureClass, failure_value, is_invalid_output}
use agent_workflow_kernel.Ledger.Rows.{StageRunRow, EventRow}
use agent_workflow_kernel.Ledger.State.{
  Ledger, Result, ok, err, conflict, not_leased_by_token, not_leased_by_owner, wrong_status,
  lease_expired, ◌>>=◌, Body, append_event, update_runs,
}

-- The arguments that every guarded operation takes. `now` is the time of the mutation.
pub record LeaseCall : Type 0 where
  pub stage_run_id : String
  pub lease_token : String
  pub actor : String
  pub owner_id : Option String
  pub now : ℕ

-- `_ACTIVE_LEASE_STATUSES`
abbrev pub is_active_lease : StageRunStatus → Bool
is_active_lease claimed = true
is_active_lease started = true
is_active_lease waiting = true
is_active_lease waiting_on_child = true
is_active_lease validating = true
is_active_lease _ = false

abbrev pub only_claimed : StageRunStatus → Bool
only_claimed claimed = true
only_claimed _ = false

-- Python's `a or b` on texts: an empty text counts as missing.
abbrev pub or_text : Option String → String → String
or_text none d = d
or_text (some s) d = if s == "" then d else s

abbrev pub owner_of : LeaseCall → String
owner_of c = or_text c.owner_id c.actor

-- `WHERE stage_run_id = ? AND lease_token = ?`
abbrev pub holds_token : LeaseCall → StageRunRow → Bool
holds_token c r = (r.stage_run_id == c.stage_run_id) && column_is r.lease_token c.lease_token

-- A lease authorizes the times strictly before it expires.
abbrev pub expired_at : ℕ → Option ℕ → Bool
expired_at t none = true
expired_at t (some e) = leb e t

unfoldable pub check_authority :
    LeaseCall → (StageRunStatus → Bool) → Option StageRunRow → Result StageRunRow
check_authority c permitted none = err (conflict not_leased_by_token)
check_authority c permitted (some r) =
    if not (column_is r.lease_owner (owner_of c))
    then err (conflict not_leased_by_owner)
    else if not (permitted r.status)
    then err (conflict wrong_status)
    else if expired_at c.now r.lease_expires_at
    then err (conflict lease_expired)
    else ok r

-- `_require_leased_run`
unfoldable pub require_leased_run :
    LeaseCall → (StageRunStatus → Bool) → Ledger → Result StageRunRow
unfolding check_authority
require_leased_run c permitted s = check_authority c permitted (select_first (holds_token c) s.runs)

abbrev pub run_event : LeaseCall → StageRunRow → String → Json → EventRow
run_event c r kind payload = record {
  instance_id = r.instance_id;
  stage_run_id = some c.stage_run_id;
  event_type = kind;
  actor = c.actor;
  payload = payload;
  created_at = c.now;
}

unfoldable pub mutate_leased :
    LeaseCall
    → (StageRunStatus → Bool)
    → (StageRunRow → StageRunRow)
    → String
    → (StageRunRow → Json)
    → Body (Unit {0})
mutate_leased c permitted change kind payload s = do
  row ← require_leased_run c permitted s
  s' ← append_event (run_event c row kind (payload row)) (update_runs (holds_token c) change s)
  ok (tt, s')

-- The columns that every release of a lease clears.
abbrev pub release : StageRunRow → StageRunRow
release r = record r { lease_owner = none; lease_token = none; lease_expires_at = none }

-- What `mark_stage_run_started` is told of the work that begins.
pub record StartScope : Type 0 where
  pub idempotency_key : Option String
  pub side_effect_scope : Json
  pub adapter_family : Option String
  pub adapter_id : Option String
  pub operation : Option String
  pub request_hash : Option String

unfoldable pub start_change : ℕ → Option String → StageRunRow → StageRunRow
start_change now key r = record r {
  status = started;
  started_at = coalesce r.started_at (some now);
  idempotency_key = coalesce r.idempotency_key key;
  updated_at = now;
}

-- Python's `a or b` on columns.
abbrev pub or_column : Option String → Option String → Option String
or_column none b = b
or_column (some s) b = if s == "" then b else some s

start_payload : StartScope → StageRunRow → Json
start_payload scope r = object (
    ("previous_status", str (status_value r.status))
    ∷ ("idempotency_key", opt_str (or_column scope.idempotency_key r.idempotency_key))
    ∷ ("adapter_family", opt_str scope.adapter_family)
    ∷ ("adapter_id", opt_str scope.adapter_id)
    ∷ ("operation", opt_str scope.operation)
    ∷ ("request_hash", opt_str scope.request_hash)
    ∷ ("side_effect_scope", scope.side_effect_scope)
    ∷ [])

unfoldable pub mark_stage_run_started : LeaseCall → StartScope → Body (Unit {0})
unfolding start_payload
mark_stage_run_started c scope =
    mutate_leased c only_claimed (start_change c.now scope.idempotency_key) "stage_started"
      (start_payload scope)

unfoldable pub complete_change : ℕ → Option String → Option String → StageRunRow → StageRunRow
complete_change now receipt output r = record (release r) {
  status = succeeded;
  receipt_id = coalesce receipt r.receipt_id;
  output_hash = coalesce output r.output_hash;
  completed_at = some now;
  updated_at = now;
}

unfoldable pub complete_stage_run : LeaseCall → Option String → Option String → Body (Unit {0})
complete_stage_run c receipt output =
    mutate_leased c is_active_lease (complete_change c.now receipt output) "stage_completed"
      (λ _. object (("receipt_id", opt_str receipt) ∷ ("output_hash", opt_str output) ∷ []))

unfoldable pub fail_change :
    ℕ → StageRunStatus → FailureClass → String → Option ℕ → StageRunRow → StageRunRow
fail_change now status class summary retry_at r = record (release r) {
  status = status;
  failure_class = some class;
  failure_summary = some summary;
  retry_after_at = retry_at;
  completed_at = some now;
  updated_at = now;
}

unfoldable pub fail_stage_run :
    LeaseCall → FailureClass → String → StageRunStatus → Option ℕ → Body (Unit {0})
fail_stage_run c class summary status retry_at =
    mutate_leased c is_active_lease (fail_change c.now status class summary retry_at) "stage_failed"
      (λ _. object (
        ("failure_class", str (failure_value class))
        ∷ ("failure_summary", str summary)
        ∷ ("retry_after_at", opt_num retry_at)
        ∷ ("status", str (status_value status))
        ∷ []))

unfoldable pub block_change : ℕ → FailureClass → String → Bool → StageRunRow → StageRunRow
block_change now class summary approval r = record (release r) {
  status = blocked;
  failure_class = some class;
  failure_summary = some summary;
  approval_required = approval;
  completed_at = some now;
  updated_at = now;
}

abbrev block_payload : FailureClass → String → Bool → Json
block_payload class summary approval = object (
    ("failure_class", str (failure_value class))
    ∷ ("failure_summary", str summary)
    ∷ ("approval_required", bool approval)
    ∷ [])

unfoldable pub block_stage_run : LeaseCall → FailureClass → String → Bool → Body (Unit {0})
block_stage_run c class summary approval =
    mutate_leased c is_active_lease (block_change c.now class summary approval) "stage_blocked"
      (λ _. block_payload class summary approval)

unfoldable pub wait_change : ℕ → FailureClass → String → StageRunRow → StageRunRow
wait_change now class summary r = record (release r) {
  status = waiting_on_human;
  failure_class = some class;
  failure_summary = some summary;
  approval_required = true;
  updated_at = now;
}

unfoldable pub wait_stage_run_for_human_decision :
    LeaseCall → FailureClass → String → Body (Unit {0})
wait_stage_run_for_human_decision c class summary =
    mutate_leased c is_active_lease (wait_change c.now class summary) "stage_waiting_on_human"
      (λ _. block_payload class summary true)

-- `_stage_status_for_failure`
unfoldable pub stage_status_for_failure : FailureClass → StageRunStatus
stage_status_for_failure class = if is_invalid_output class then invalid_output else failed
