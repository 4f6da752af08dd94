-- ===== src/Ledger/Sweep/Outcomes.antt =====
-- What the sweep of storage.py never does: requeue work that may have begun, or leave a stale lease.
use agent_workflow_kernel.Prelude.{
  ℕ, String, ◌≡◌, ap, sym, subst, ◌∙◌, true, false, none, some, List, ◌⊎◌, arith, All-by_key,
}
use agent_workflow_kernel.Contracts.StageStatus.{is_blocked}
use agent_workflow_kernel.Ledger.Rows.{StageRunRow}
use agent_workflow_kernel.Ledger.State.{Ledger, ok, run_row, ok_pair}
use agent_workflow_kernel.Ledger.Invariant.{IsWellFormed}
use agent_workflow_kernel.Ledger.Leases.{is_active_lease}
use agent_workflow_kernel.Ledger.Sweep.{
  RecoveryAction, recovery_change, has_start_evidence, is_leased, is_stale, verdict, recovery_of,
  sweep_stale_leases,
}
use agent_workflow_kernel.Ledger.Sweep.Laws.{swept_run, run_key, sweep_is_pointwise}

swept_started :
    (at : ℕ) (s : Ledger) (r : StageRunRow)
    → has_start_evidence r.stage_run_id s ≡ true
    → (swept_run at s r ≡ r)
      ⊎ ((is_blocked (swept_run at s r).status ≡ true)
          × ((swept_run at s r).approval_required ≡ true)
          × ((swept_run at s r).lease_token ≡ none))
unfolding verdict recovery_of recovery_change
swept_started at s r e = ground arith

swept_not_stale :
    (at : ℕ) (s : Ledger) (r : StageRunRow)
    → is_active_lease (swept_run at s r).status ≡ true
    → is_leased (swept_run at s r) ≡ true
    → is_stale at (swept_run at s r) ≡ false
unfolding verdict recovery_of recovery_change
swept_not_stale at s r active leased = ground arith

module _ (at : ℕ) (actor : String) (s s' : Ledger) (actions : List RecoveryAction)
    (w : IsWellFormed s) (swept : sweep_stale_leases at actor s ≡ ok (actions, s'))
    (r : StageRunRow) (found : run_row r.stage_run_id s ≡ some r) where
  pub run_row-sweep : run_row r.stage_run_id s' ≡ some (swept_run at s r)
  run_row-sweep =
      let (_, t, done, _, each) = sweep_is_pointwise at actor s w in
      ap (run_row r.stage_run_id) (ok_pair (sym swept ∙ done)).1
      ∙ All-by_key run_key (λ x. run_row x.stage_run_id t ≡ some (swept_run at s x)) r.stage_run_id
          s.runs r each found

  -- A run of a well-formed ledger with evidence that its work began (an invocation, or an event of its
  -- start) is not put back into the queue by a sweep that returned: its row stays as it was, or it
  -- is blocked, without a token, and marked for approval.
  pub started_run_is_not_requeued :
      has_start_evidence r.stage_run_id s ≡ true
      → (r' : StageRunRow) × (run_row r.stage_run_id s' ≡ some r')
        × ((r' ≡ r)
            ⊎ ((is_blocked r'.status ≡ true)
                × (r'.approval_required ≡ true)
                × (r'.lease_token ≡ none)))
  started_run_is_not_requeued e = (swept_run at s r, run_row-sweep, swept_started at s r e)

  -- After a sweep of a well-formed ledger that returned, a run that is in a status that can use a
  -- lease, and that holds a token and an expiry, has one that lies after the time of the sweep.
  pub sweep_leaves_no_stale_lease :
      (r' : StageRunRow)
      → run_row r.stage_run_id s' ≡ some r'
      → is_active_lease r'.status ≡ true
      → is_leased r' ≡ true
      → is_stale at r' ≡ false
  sweep_leaves_no_stale_lease r' after active leased =
      let it : swept_run at s r ≡ r' = cc (run_row-sweep, after) in
      subst (λ x. is_stale at x ≡ false) it
        (swept_not_stale at s r (rw (← it) at active) (rw (← it) at leased))
