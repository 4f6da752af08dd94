-- ===== src/Ledger/Retry/Shape.antt =====
-- The rows that `schedule_retry` of storage.py writes.
use agent_workflow_kernel.Contracts.StageStatus.{queued, failed, invalid_output}
use agent_workflow_kernel.Prelude.{
  false, if◌then◌else◌, ℕ, suc, String, ◌≡◌, refl, Option, none, some, [], ◌∷◌, ◌++◌, coalesce,
  update_where,
}
use agent_workflow_kernel.Contracts.Failure.{FailureClass, is_invalid_output}
use agent_workflow_kernel.Ledger.Rows.{StageRunRow}
use agent_workflow_kernel.Ledger.State.{Ledger}
use agent_workflow_kernel.Ledger.Invariant.{SameIdentity}
use agent_workflow_kernel.Ledger.Leases.{LeaseCall, holds_token}
use agent_workflow_kernel.Ledger.Retry.{attempt_id, next_stage_attempt, retire_change, retry_run}

module _ (c : LeaseCall) (class : FailureClass) (summary : String) (retry_at : ℕ) where
  -- The attempt that is retired, and the one that follows it.
  abbrev pub retired : StageRunRow → StageRunRow
  retired row = retire_change c.now class summary (suc row.retry_count) retry_at row

  abbrev pub successor : StageRunRow → Ledger → StageRunRow
  successor row s = retry_run row (next_stage_attempt row.instance_id row.stage_id s) retry_at c.now

  -- The state before the two events.
  abbrev pub queued_state : StageRunRow → Ledger → Ledger
  queued_state row s = record s {
    runs =
        update_where (holds_token c)
          (retire_change c.now class summary (suc row.retry_count) retry_at) s.runs
        ++ successor row s ∷ [];
  }

-- The retired attempt, column by column: it failed and holds no lease. What is not named it keeps.
abbrev pub retired_row : LeaseCall → FailureClass → String → ℕ → StageRunRow → StageRunRow
retired_row c class summary retry_at row = record row {
  status = (if is_invalid_output class then invalid_output else failed);
  lease_owner = none;
  lease_token = none;
  lease_expires_at = none;
  failure_class = some class;
  failure_summary = some summary;
  retry_count = suc row.retry_count;
  retry_after_at = some retry_at;
  completed_at = some c.now;
  updated_at = c.now;
}

-- The attempt with a given number that follows: it is queued until its time, and holds no lease and no
-- result. What is not named it has from the attempt before.
abbrev pub following_row : ℕ → ℕ → ℕ → StageRunRow → StageRunRow
following_row n retry_at now row = record row {
  stage_run_id = attempt_id row.instance_id row.stage_id n;
  attempt = n;
  status = queued;
  failure_class = none;
  failure_summary = none;
  approval_required = false;
  output_hash = none;
  prompt_hash = none;
  context_packet_ref = none;
  context_packet_hash = none;
  rendered_context_hash = none;
  retry_count = suc row.retry_count;
  retry_after_at = some retry_at;
  lease_owner = none;
  lease_token = none;
  lease_expires_at = none;
  lease_seconds = none;
  lease_source = none;
  lease_source_ref = none;
  parent_stage_run_id = some row.stage_run_id;
  receipt_id = none;
  created_at = now;
  started_at = none;
  completed_at = none;
  updated_at = now;
}

pub retire-SameIdentity :
    (now : ℕ) (class : FailureClass) (summary : String) (n retry_at : ℕ) (r : StageRunRow)
    → SameIdentity r (retire_change now class summary n retry_at r)
unfolding retire_change
retire-SameIdentity now class summary n retry_at r = record {
  stage_run_id = refl;
  instance_id = refl;
  stage_id = refl;
  attempt = refl;
}

pub coalesce-none : {A : Type 0} (o : Option A) → coalesce o none ≡ o
coalesce-none none = refl
coalesce-none (some x) = refl
