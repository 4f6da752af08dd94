-- ===== src/Ledger/Retry/Kept.antt =====
-- What a retry that went through in `schedule_retry` of storage.py had, and what it keeps.
use agent_workflow_kernel.Prelude.{ℕ, suc, String, ◌≡◌, ◌∙◌}
use agent_workflow_kernel.Contracts.Failure.{FailureClass}
use agent_workflow_kernel.Ledger.Rows.{StageRunRow, EventRow}
use agent_workflow_kernel.Ledger.State.{Ledger, ok, append_event, insert_run, update_runs, bind-ok}
use agent_workflow_kernel.Ledger.Invariant.{
  IsWellFormed, append_event-IsWellFormed, insert_run-IsWellFormed, update_runs-IsWellFormed,
}
use agent_workflow_kernel.Ledger.Leases.{
  LeaseCall, is_active_lease, holds_token, require_leased_run,
}
use agent_workflow_kernel.Ledger.Leases.Authority.{HasAuthority, require_leased_run-HasAuthority}
use agent_workflow_kernel.Ledger.Retry.{retire_change, schedule_retry}
use agent_workflow_kernel.Ledger.Retry.Shape.{successor, retire-SameIdentity}

-- What a retry that went through has passed.
record Passed (c : LeaseCall) (class : FailureClass) (summary : String) (retry_at : ℕ)
    (s s' : Ledger) : Type 0 where
  row : StageRunRow
  s1 : Ledger
  s2 : Ledger
  e1 : EventRow
  e2 : EventRow
  guard : require_leased_run c is_active_lease s ≡ ok row
  inserted :
      insert_run (successor c class summary retry_at row s) (
        update_runs
          (holds_token c)
          (retire_change c.now class summary (suc row.retry_count) retry_at)
          s)
      ≡ ok s1
  logged : append_event e1 s1 ≡ ok s2
  logged_again : append_event e2 s2 ≡ ok s'

module _ (c : LeaseCall) (class : FailureClass) (summary : String) (retry_at : ℕ) (s : Ledger)
    (w : IsWellFormed s) where
  schedule_retry-Passed :
      (s' : Ledger)
      → schedule_retry c class summary retry_at s ≡ ok (tt, s')
      → Passed c class summary retry_at s s'
  unfolding schedule_retry
  schedule_retry-Passed s' h =
      let (row, guard, h1) = bind-ok (require_leased_run c is_active_lease s) _ (tt, s') h in
      let (s1, inserted, h2) = bind-ok _ _ (tt, s') h1 in
      let (s2, logged, h3) = bind-ok _ _ (tt, s') h2 in
      let (s3, logged_again, h4) = bind-ok _ _ (tt, s') h3 in
      record {
        row = row;
        s1 = s1;
        s2 = s2;
        e1 = _;
        e2 = _;
        guard = guard;
        inserted = inserted;
        logged = logged;
        logged_again = logged_again ∙ cc h4;
      }

  -- A retry that goes through on a well-formed ledger leaves a well-formed one.
  pub schedule_retry-IsWellFormed :
      (s' : Ledger) → schedule_retry c class summary retry_at s ≡ ok (tt, s') → IsWellFormed s'
  schedule_retry-IsWellFormed s' h =
      let p = schedule_retry-Passed s' h in
      append_event-IsWellFormed p.e2 p.s2 s' p.logged_again (
        append_event-IsWellFormed p.e1 p.s1 p.s2 p.logged (
          insert_run-IsWellFormed (successor c class summary retry_at p.row s) _ p.s1 p.inserted (
            update_runs-IsWellFormed (holds_token c)
              (retire_change c.now class summary (suc p.row.retry_count) retry_at)
              (retire-SameIdentity c.now class summary (suc p.row.retry_count) retry_at) w)))

  -- A retry that goes through on a well-formed ledger has a caller with authority over a run, in a
  -- status that can use a lease.
  pub schedule_retry-HasAuthority :
      (s' : Ledger)
      → schedule_retry c class summary retry_at s ≡ ok (tt, s')
      → (row : StageRunRow) × HasAuthority c is_active_lease s row
  schedule_retry-HasAuthority s' h =
      let p = schedule_retry-Passed s' h in
      (p.row, require_leased_run-HasAuthority c is_active_lease s w p.row p.guard)
