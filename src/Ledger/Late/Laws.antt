-- ===== src/Ledger/Late/Laws.antt =====
-- That late evidence has no authority: what `record_late_result` of storage.py leaves alone.
use agent_workflow_kernel.Prelude.{
  String, ◌≡◌, ap, sym, ◌∙◌, some, [], ◌∷◌, ◌++◌, inl, inr, Bool-cases, Option-cases, has_key,
}
use agent_workflow_kernel.Ledger.Rows.{StageRunRow, LateResultRow}
use agent_workflow_kernel.Ledger.State.{Ledger, ok, run_row, bind-ok}
use agent_workflow_kernel.Ledger.Invariant.{append_event-ok}
use agent_workflow_kernel.Ledger.Late.{LateCall, late_row, record_late_result}

-- A late result that is recorded is of a run that is there, and is kept with what was reported. No run,
-- no instance, no invocation and no decision changes by it.
pub late_result_is_inert :
    (c : LateCall) (s s' : Ledger) (id : String)
    → record_late_result c s ≡ ok (id, s')
    → ((row : StageRunRow) × (run_row c.stage_run_id s ≡ some row)
        × (s'.late_results ≡ s.late_results ++ late_row c row ∷ []))
      × (s'.runs ≡ s.runs)
      × (s'.instances ≡ s.instances)
      × (s'.invocations ≡ s.invocations)
      × (s'.decisions ≡ s.decisions)
unfolding record_late_result
late_result_is_inert c s s' id h = elim (Option-cases (run_row c.stage_run_id s)) [
  | inl nobody ↦ absurd (cc (rw (nobody, record_late_result) at h))
  | inr (row, found) ↦
      elim (Bool-cases
        (has_key (λ (l : LateResultRow). l.late_result_id) c.late_result_id s.late_results)) [
          | inl taken ↦ absurd (cc (rw (found, taken, record_late_result) at h))
          | inr free ↦
              let (t, logged, done) =
                bind-ok _ _ (id, s') (rw (found, free, record_late_result) at h) in
              let e = append_event-ok _ _ t logged in
              let same : t ≡ s' = cc done in
              let final = sym same ∙ e in
              (
                (row, found, ap (λ (x : Ledger). x.late_results) final),
                ap (λ (x : Ledger). x.runs) final,
                ap (λ (x : Ledger). x.instances) final,
                ap (λ (x : Ledger). x.invocations) final,
                ap (λ (x : Ledger). x.decisions) final,
              )
        ]
]
