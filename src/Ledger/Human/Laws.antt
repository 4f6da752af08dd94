-- ===== src/Ledger/Human/Laws.antt =====
-- That a human gate of storage.py is decided once.
use agent_workflow_kernel.Ledger.Update.{rewritten, run_row-update, append_event-update}
use agent_workflow_kernel.Prelude.{
  coalesce, [], ◌∷◌, ◌++◌, if◌then◌else◌, String, ◌≡◌, refl, ap, sym, subst, ◌∙◌, true, false, some,
  none, inl, inr, ◌==◌, Option-cases, by_key-guarded, by_key-key, by_key-update, kept_if,
  kept_if-some, select_first, ≡→==,
}
use agent_workflow_kernel.Contracts.StageStatus.{is_waiting_on_human}
use agent_workflow_kernel.Ledger.Rows.{StageRunRow, EventRow}
use agent_workflow_kernel.Ledger.State.{
  Ledger, ok, err, conflict, not_waiting_on_human, run_row, bind-ok,
}
use agent_workflow_kernel.Ledger.Invariant.{
  IsWellFormed, SameIdentity, append_event-ok, append_event-IsWellFormed, update_runs-IsWellFormed,
}
use agent_workflow_kernel.Ledger.Human.{
  DecidedCall, waits_for, decided_change, decided_event, complete_waiting_human_stage_run,
}

abbrev run_key : StageRunRow → String
run_key r = r.stage_run_id

decided-SameIdentity : (c : DecidedCall) (r : StageRunRow) → SameIdentity r (decided_change c r)
unfolding decided_change
decided-SameIdentity c r = record {
  stage_run_id = refl;
  instance_id = refl;
  stage_id = refl;
  attempt = refl;
}

-- The query for a waiting run, by the primary key.
waiting_by_key :
    (c : DecidedCall) (s : Ledger)
    → IsWellFormed s
    → select_first (waits_for c) s.runs
      ≡ kept_if (λ r. is_waiting_on_human r.status) (run_row c.stage_run_id s)
waiting_by_key c s w =
    by_key-guarded run_key c.stage_run_id (λ r. is_waiting_on_human r.status) s.runs w.runs_unique

-- What a decision went through.
pub complete_waiting-done :
    (c : DecidedCall) (s s' : Ledger)
    → IsWellFormed s
    → complete_waiting_human_stage_run c s ≡ ok (tt, s')
    → (row : StageRunRow) × (run_row c.stage_run_id s ≡ some row)
      × (is_waiting_on_human row.status ≡ true)
      × IsWellFormed s'
      × (run_row c.stage_run_id s' ≡ some (decided_change c row))
unfolding complete_waiting_human_stage_run
complete_waiting-done c s s' w h = elim (Option-cases (select_first (waits_for c) s.runs)) [
  | inl nobody ↦ absurd (cc (rw (nobody, complete_waiting_human_stage_run) at h))
  | inr (row, selected) ↦
      let (t, logged, done) =
        bind-ok _ _ (tt, s') (rw (selected, complete_waiting_human_stage_run) at h) in
      let same : t ≡ s' = cc done in
      let (found, waits) =
        kept_if-some (λ (r : StageRunRow). is_waiting_on_human r.status) (run_row c.stage_run_id s)
          row (sym (waiting_by_key c s w) ∙ selected) in
      let named : (row.stage_run_id == c.stage_run_id) ≡ true =
        ≡→== row.stage_run_id c.stage_run_id (by_key-key run_key c.stage_run_id s.runs row found) in
      (
        row,
        found,
        waits,
        subst IsWellFormed same (
            append_event-IsWellFormed _ _ t logged (
              update_runs-IsWellFormed (waits_for c) (decided_change c) (decided-SameIdentity c)
                w)),
        ap (run_row c.stage_run_id) (sym same ∙ append_event-ok _ _ t logged)
            ∙ by_key-update run_key (waits_for c) (decided_change c)
                (λ r. (decided-SameIdentity c r).stage_run_id) c.stage_run_id s.runs
            ∙ rw found (rw (named, waits) refl),
      )
]

-- What a decision leaves: the decided run has the columns that the caller gives, and keeps the others;
-- a receipt or an output that is not given is kept too. No other run and no other table but the log
-- changes, to which one event of the caller about the run is added.
pub record Decided (c : DecidedCall) (row : StageRunRow) (s s' : Ledger) : Type 0 where
  pub runs :
      (k : String)
      → run_row k s' ≡ (
          if c.stage_run_id == k
          then some (record row {
            status = c.status;
            receipt_id = coalesce c.receipt_id row.receipt_id;
            output_hash = coalesce c.output_hash row.output_hash;
            failure_class = c.failure_class;
            failure_summary = c.failure_summary;
            completed_at = some c.now;
            updated_at = c.now;
          })
          else run_row k s)
  pub others : s' ≡ record s { runs = s'.runs; events = s'.events }
  pub event : EventRow
  pub logged : s'.events ≡ s.events ++ event ∷ []
  pub about_run : event.stage_run_id ≡ some c.stage_run_id
  pub named : event.event_type ≡ "human_stage_decided"
  pub by_caller : event.actor ≡ c.actor

module _ (c : DecidedCall) (s : Ledger) (w : IsWellFormed s) where
  decides :
      (row : StageRunRow)
      → run_row c.stage_run_id s ≡ some row
      → is_waiting_on_human row.status ≡ true
      → (s' : Ledger) × (complete_waiting_human_stage_run c s ≡ ok (tt, s')) × Decided c row s s'
  unfolding complete_waiting_human_stage_run decided_change
  decides row found waits =
      let e = decided_event c row in
      let keeps : (r : StageRunRow) → (decided_change c r).stage_run_id ≡ r.stage_run_id =
        λ r. (decided-SameIdentity c r).stage_run_id in
      let named : (row.stage_run_id == c.stage_run_id) ≡ true =
        ≡→== row.stage_run_id c.stage_run_id (by_key-key run_key c.stage_run_id s.runs row found) in
      let hits : waits_for c row ≡ true = rw (named, waits) refl in
      let misses : (r : StageRunRow)
          → (r.stage_run_id == c.stage_run_id) ≡ false
          → waits_for c r ≡ false =
        λ r apart. rw apart refl in
      let selected : select_first (waits_for c) s.runs ≡ some row =
        waiting_by_key c s w ∙ rw found (rw waits refl) in
      (
        rewritten (waits_for c) (decided_change c) e s,
        rw selected (
            rw
              (append_event-update (waits_for c) (decided_change c) keeps s c.stage_run_id row found
                hits misses w e refl refl)
              refl),
        record {
          runs =
              run_row-update (waits_for c) (decided_change c) keeps s c.stage_run_id row found hits
                misses;
          others = refl;
          event = e;
          logged = refl;
          about_run = refl;
          named = refl;
          by_caller = refl;
        },
      )

  refuses :
      kept_if (λ (r : StageRunRow). is_waiting_on_human r.status) (run_row c.stage_run_id s) ≡ none
      → complete_waiting_human_stage_run c s ≡ err (conflict not_waiting_on_human)
  unfolding complete_waiting_human_stage_run
  refuses nobody = rw (waiting_by_key c s w ∙ nobody) refl

  -- On a well-formed ledger, a decision on a run that waits for a human goes through and writes what
  -- the caller decided into this run alone. On a run that does not wait for a human, or is not there,
  -- it is refused with a conflict.
  pub complete_waiting_lem :
      ((row : StageRunRow)
        → run_row c.stage_run_id s ≡ some row
        → is_waiting_on_human row.status ≡ true
        → (s' : Ledger) × (complete_waiting_human_stage_run c s ≡ ok (tt, s')) × Decided c row s s')
      × ((row : StageRunRow)
          → run_row c.stage_run_id s ≡ some row
          → is_waiting_on_human row.status ≡ false
          → complete_waiting_human_stage_run c s ≡ err (conflict not_waiting_on_human))
      × (run_row c.stage_run_id s ≡ none
          → complete_waiting_human_stage_run c s ≡ err (conflict not_waiting_on_human))
  complete_waiting_lem = (
    decides,
    λ row found idle. refuses (rw found (rw idle refl)),
    λ nobody. refuses (rw nobody refl),
  )

-- After a decision that went through on a well-formed ledger, and that does not leave the run waiting
-- for a human, the next decision on the run is refused.
pub gate_is_decided_once :
    (c c' : DecidedCall) (s s' : Ledger)
    → IsWellFormed s
    → is_waiting_on_human c.status ≡ false
    → complete_waiting_human_stage_run c s ≡ ok (tt, s')
    → c'.stage_run_id ≡ c.stage_run_id
    → complete_waiting_human_stage_run c' s' ≡ err (conflict not_waiting_on_human)
unfolding complete_waiting_human_stage_run decided_change
gate_is_decided_once c c' s s' w settles h same =
    let (row, _, _, well, after) = complete_waiting-done c s s' w h in
    let none_waits : select_first (waits_for c') s'.runs ≡ none =
      waiting_by_key c' s' well
      ∙ ap (λ k. kept_if (λ r. is_waiting_on_human r.status) (run_row k s')) same
      ∙ rw after (rw settles refl) in
    rw none_waits refl
