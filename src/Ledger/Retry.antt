-- ===== src/Ledger/Retry.antt =====
-- packages/kernel/agent_workflow_kernel/storage.py: `schedule_retry`, which retires an attempt and
-- queues the next one, and `next_stage_attempt`.
pub mod Attempts
pub mod Shape
pub mod Kept
pub mod Laws
use Prim.Native.Nat.{max}
use Prim.Native.String.{◌++◌ as append}
use agent_workflow_kernel.Prelude.{
  ℕ, suc, String, false, ◌&&◌, none, some, List, [], ◌∷◌, ◌==◌, decimal, if◌then◌else◌,
}
use agent_workflow_kernel.Json.{Json, str, num, opt_str, object}
use agent_workflow_kernel.Contracts.StageStatus.{queued}
use agent_workflow_kernel.Contracts.Failure.{FailureClass, failure_value}
use agent_workflow_kernel.Ledger.Rows.{StageRunRow}
use agent_workflow_kernel.Ledger.State.{
  Ledger, ok, ◌>>=◌, Body, append_event, insert_run, update_runs,
}
use agent_workflow_kernel.Ledger.Leases.{
  LeaseCall, is_active_lease, holds_token, release, require_leased_run, run_event,
  stage_status_for_failure,
}

-- `COALESCE(MAX(attempt), 0)` over the attempts of a stage of an instance.
unfoldable pub max_attempt : String → String → List StageRunRow → ℕ
max_attempt i st [] = 0
max_attempt i st (r ∷ rs) =
    let rest = max_attempt i st rs in
    if (r.instance_id == i) && (r.stage_id == st) then max r.attempt rest else rest

unfoldable pub next_stage_attempt : String → String → Ledger → ℕ
next_stage_attempt i st s = suc (max_attempt i st s.runs)

-- `f"{instance_id}:{stage_id}:{attempt}"`
unfoldable pub attempt_id : String → String → ℕ → String
attempt_id i st n = append i (append ":" (append st (append ":" (decimal n))))

unfoldable pub retire_change : ℕ → FailureClass → String → ℕ → ℕ → StageRunRow → StageRunRow
retire_change now class summary count retry_at r = record (release r) {
  status = stage_status_for_failure class;
  failure_class = some class;
  failure_summary = some summary;
  retry_count = count;
  retry_after_at = some retry_at;
  completed_at = some now;
  updated_at = now;
}

-- A row that an INSERT makes: the columns that it leaves out are NULL, or have their default.
abbrev pub fresh_run : String → StageRunRow → ℕ → ℕ → StageRunRow
fresh_run id parent n now = record {
  stage_run_id = id;
  instance_id = parent.instance_id;
  stage_id = parent.stage_id;
  attempt = n;
  status = queued;
  adapter_id = parent.adapter_id;
  actor_ref = parent.actor_ref;
  failure_class = none;
  failure_summary = none;
  approval_required = false;
  idempotency_key = parent.idempotency_key;
  input_hash = parent.input_hash;
  output_hash = none;
  prompt_hash = none;
  context_packet_ref = none;
  context_packet_hash = none;
  rendered_context_hash = none;
  retry_count = 0;
  retry_after_at = none;
  lease_owner = none;
  lease_token = none;
  lease_expires_at = none;
  lease_seconds = none;
  lease_source = none;
  lease_source_ref = none;
  parent_stage_run_id = some parent.stage_run_id;
  receipt_id = none;
  created_at = now;
  started_at = none;
  completed_at = none;
  updated_at = now;
}

unfoldable pub retry_run : StageRunRow → ℕ → ℕ → ℕ → StageRunRow
unfolding attempt_id
retry_run parent n retry_at now =
    record (fresh_run (attempt_id parent.instance_id parent.stage_id n) parent n now) {
      retry_count = suc parent.retry_count;
      retry_after_at = some retry_at;
    }

pub scheduled_payload : FailureClass → String → ℕ → StageRunRow → Json
scheduled_payload class summary retry_at next = object (
    ("failure_class", str (failure_value class))
    ∷ ("failure_summary", str summary)
    ∷ ("retry_after_at", num retry_at)
    ∷ ("new_stage_run_id", str next.stage_run_id)
    ∷ ("new_attempt", num next.attempt)
    ∷ [])

pub queued_payload : FailureClass → ℕ → StageRunRow → StageRunRow → Json
queued_payload class retry_at row next = object (
    ("parent_stage_run_id", str row.stage_run_id)
    ∷ ("failure_class", str (failure_value class))
    ∷ ("retry_after_at", num retry_at)
    ∷ ("attempt", num next.attempt)
    ∷ ("idempotency_key", opt_str row.idempotency_key)
    ∷ [])

unfoldable pub schedule_retry : LeaseCall → FailureClass → String → ℕ → Body (Unit {0})
schedule_retry c class summary retry_at s = do
  row ← require_leased_run c is_active_lease s
  let n = next_stage_attempt row.instance_id row.stage_id s
  let next = retry_run row n retry_at c.now
  let retired =
      update_runs (holds_token c) (retire_change c.now class summary (suc row.retry_count) retry_at)
        s
  s1 ← insert_run next retired
  s2 ←
      append_event
        (run_event c row "stage_retry_scheduled" (scheduled_payload class summary retry_at next)) s1
  s3 ←
      append_event
        (record (run_event c row "stage_retry_queued" (queued_payload class retry_at row next)) {
          stage_run_id = some next.stage_run_id;
        })
        s2
  ok (tt, s3)
