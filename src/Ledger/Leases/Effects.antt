-- ===== src/Ledger/Leases/Effects.antt =====
-- What a guarded operation of storage.py does to the ledger, for all of them at once.
use agent_workflow_kernel.Prelude.{
  ℕ, String, ◌≡◌, refl, Bool, true, false, Option, none, some, coalesce, ◌==◌, eq_refl, ≡→==,
  by_key-key, if◌then◌else◌,
}
use agent_workflow_kernel.Json.{Json}
use agent_workflow_kernel.Contracts.StageStatus.{
  StageRunStatus, started, succeeded, blocked, waiting_on_human,
}
use agent_workflow_kernel.Contracts.Failure.{FailureClass}
use agent_workflow_kernel.Ledger.Rows.{StageRunRow, EventRow}
use agent_workflow_kernel.Ledger.State.{Ledger, ok, Body, run_row}
use agent_workflow_kernel.Ledger.Invariant.{IsWellFormed}
use agent_workflow_kernel.Ledger.Leases.{
  LeaseCall, StartScope, holds_token, is_active_lease, only_claimed, run_event, mutate_leased,
  mark_stage_run_started, start_change, complete_stage_run, complete_change, fail_stage_run,
  fail_change, block_stage_run, block_change, wait_stage_run_for_human_decision, wait_change,
}
use agent_workflow_kernel.Ledger.Update.{rewritten, run_row-update, append_event-update}
use agent_workflow_kernel.Ledger.Leases.Authority.{HasAuthority, HasAuthority-require_leased_run}

-- The guarded operations that write one row.
pub data Mutation : Type 0 where
  start : StartScope → Mutation
  complete : Option String → Option String → Mutation
  fail : FailureClass → String → StageRunStatus → Option ℕ → Mutation
  block : FailureClass → String → Bool → Mutation
  wait : FailureClass → String → Mutation

unfoldable pub perform : Mutation → LeaseCall → Body (Unit {0})
perform (start scope) c = mark_stage_run_started c scope
perform (complete receipt output) c = complete_stage_run c receipt output
perform (fail class summary status retry_at) c = fail_stage_run c class summary status retry_at
perform (block class summary approval) c = block_stage_run c class summary approval
perform (wait class summary) c = wait_stage_run_for_human_decision c class summary

abbrev pub permits : Mutation → StageRunStatus → Bool
permits (start _) = only_claimed
permits _ = is_active_lease

-- The row that the operation leaves.
abbrev pub written : Mutation → LeaseCall → StageRunRow → StageRunRow
written (start scope) c = start_change c.now scope.idempotency_key
written (complete receipt output) c = complete_change c.now receipt output
written (fail class summary status retry_at) c = fail_change c.now status class summary retry_at
written (block class summary approval) c = block_change c.now class summary approval
written (wait class summary) c = wait_change c.now class summary

-- The row that the operation is to leave, column by column: every column that is not named is kept.
abbrev pub expected_row : Mutation → LeaseCall → StageRunRow → StageRunRow
expected_row (start scope) c r = record r {
  status = started;
  started_at = coalesce r.started_at (some c.now);
  idempotency_key = coalesce r.idempotency_key scope.idempotency_key;
  updated_at = c.now;
}
expected_row (complete receipt output) c r = record r {
  status = succeeded;
  lease_owner = none;
  lease_token = none;
  lease_expires_at = none;
  receipt_id = coalesce receipt r.receipt_id;
  output_hash = coalesce output r.output_hash;
  completed_at = some c.now;
  updated_at = c.now;
}
expected_row (fail class summary status retry_at) c r = record r {
  status = status;
  lease_owner = none;
  lease_token = none;
  lease_expires_at = none;
  failure_class = some class;
  failure_summary = some summary;
  retry_after_at = retry_at;
  completed_at = some c.now;
  updated_at = c.now;
}
expected_row (block class summary approval) c r = record r {
  status = blocked;
  lease_owner = none;
  lease_token = none;
  lease_expires_at = none;
  failure_class = some class;
  failure_summary = some summary;
  approval_required = approval;
  completed_at = some c.now;
  updated_at = c.now;
}
expected_row (wait class summary) c r = record r {
  status = waiting_on_human;
  lease_owner = none;
  lease_token = none;
  lease_expires_at = none;
  failure_class = some class;
  failure_summary = some summary;
  approval_required = true;
  updated_at = c.now;
}

abbrev pub expected_event : Mutation → String
expected_event (start _) = "stage_started"
expected_event (complete _ _) = "stage_completed"
expected_event (fail _ _ _ _) = "stage_failed"
expected_event (block _ _ _) = "stage_blocked"
expected_event (wait _ _) = "stage_waiting_on_human"

pub written-expected :
    (m : Mutation) (c : LeaseCall) (r : StageRunRow) → written m c r ≡ expected_row m c r
unfolding start_change complete_change fail_change block_change wait_change
written-expected (start _) c r = refl
written-expected (complete _ _) c r = refl
written-expected (fail _ _ _ _) c r = refl
written-expected (block _ _ _) c r = refl
written-expected (wait _ _) c r = refl

pub stage_run_id-written :
    (m : Mutation) (c : LeaseCall) (r : StageRunRow) → (written m c r).stage_run_id ≡ r.stage_run_id
unfolding start_change complete_change fail_change block_change wait_change
stage_run_id-written (start _) c r = refl
stage_run_id-written (complete _ _) c r = refl
stage_run_id-written (fail _ _ _ _) c r = refl
stage_run_id-written (block _ _ _) c r = refl
stage_run_id-written (wait _ _) c r = refl

abbrev pub after : LeaseCall → (StageRunRow → StageRunRow) → EventRow → Ledger → Ledger
after c = rewritten (holds_token c)

module _ (c : LeaseCall) (permitted : StageRunStatus → Bool) (change : StageRunRow → StageRunRow)
    (keeps : (r : StageRunRow) → (change r).stage_run_id ≡ r.stage_run_id) (s : Ledger)
    (row : StageRunRow) (a : HasAuthority c permitted s row) where
  pub token_hits : holds_token c row ≡ true
  token_hits =
      rw
        (
          a.token,
          ≡→== row.stage_run_id c.stage_run_id
              (by_key-key (λ (r : StageRunRow). r.stage_run_id) c.stage_run_id s.runs row a.found),
          eq_refl,
        )
        refl

  pub other_misses :
      (r : StageRunRow) → (r.stage_run_id == c.stage_run_id) ≡ false → holds_token c r ≡ false
  other_misses r h = rw h refl

  pub mutate_leased_lem :
      (w : IsWellFormed s) (kind : String) (payload : StageRunRow → Json)
      → mutate_leased c permitted change kind payload s
        ≡ ok (tt, after c change (run_event c row kind (payload row)) s)
  unfolding mutate_leased
  mutate_leased_lem w kind payload = rw (HasAuthority-require_leased_run c permitted s w row a) (
      rw
        (append_event-update (holds_token c) change keeps s c.stage_run_id row a.found token_hits
          other_misses w (run_event c row kind (payload row)) refl refl)
        refl)

  -- Only the row of the call changes.
  pub run_row-after :
      (e : EventRow) (k : String)
      → run_row k (after c change e s)
        ≡ (if c.stage_run_id == k then some (change row) else run_row k s)
  run_row-after e k =
      run_row-update (holds_token c) change keeps s c.stage_run_id row a.found token_hits
        other_misses k
