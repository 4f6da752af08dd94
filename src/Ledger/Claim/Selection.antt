-- ===== src/Ledger/Claim/Selection.antt =====
-- Which run `claim_next_queued_run` of storage.py takes, and what it makes of it.
use agent_workflow_kernel.Prelude.{
  ◌≤◌, String, ◌≡◌, refl, Bool, true, false, none, some, List, arith, ◌==◌, eq_refl, All,
  All-select, select-holds, All-of_select, All-select_first, order_by-All, All-of_order_by,
  order_by-Ascending, select_first-least, select_first-holds, select_first-none_All, by_key_self,
  exists, exists-by_key, select, order_by, if◌then◌else◌,
}
use agent_workflow_kernel.Contracts.{ResolvedLeasePolicy}
use agent_workflow_kernel.Contracts.StageStatus.{is_queued}
use agent_workflow_kernel.Ledger.Rows.{StageRunRow, EventRow}
use agent_workflow_kernel.Ledger.State.{Ledger, ok, run_row}
use agent_workflow_kernel.Ledger.Invariant.{IsWellFormed, SameIdentity}
use agent_workflow_kernel.Ledger.Update.{
  rewritten, rewritten-IsWellFormed, run_row-update, run_row-update_self, append_event-update,
}
use agent_workflow_kernel.Ledger.Claim.{
  ClaimCall, stage_run_from_row, is_claimable, created_before, resolve_lease, claim_change,
  claim_payload, still_queued, claim_row, claim_candidate,
}

-- A run that the call may take: its query finds it, and the predicate accepts it.
abbrev pub accepts : ClaimCall → StageRunRow → Bool
accepts c r = c.claim_predicate (stage_run_from_row r)

created_before-le : (a b : StageRunRow) → created_before a b ≡ true → a.created_at ≤ b.created_at
unfolding created_before
created_before-le a b h = ground arith

created_before-ge : (a b : StageRunRow) → created_before a b ≡ false → b.created_at ≤ a.created_at
unfolding created_before
created_before-ge a b h = ground arith

module _ (c : ClaimCall) (s : Ledger) where
  candidates : List StageRunRow
  candidates = order_by created_before (select (is_claimable c) s.runs)

  -- The candidate is a run of the ledger that the call may take.
  pub candidate-taken :
      (row : StageRunRow)
      → IsWellFormed s
      → claim_candidate c s ≡ some row
      → (run_row row.stage_run_id s ≡ some row)
        × (is_claimable c row ≡ true)
        × (accepts c row ≡ true)
  unfolding claim_candidate candidates
  candidate-taken row w e =
      let found =
        All-select_first (λ r. run_row r.stage_run_id s ≡ some r) (accepts c) candidates row
          (order_by-All (λ r. run_row r.stage_run_id s ≡ some r) created_before
            (select (is_claimable c) s.runs)
            (All-select (λ r. run_row r.stage_run_id s ≡ some r) (is_claimable c) s.runs
              (by_key_self (λ (r : StageRunRow). r.stage_run_id) s.runs w.runs_unique)))
          e in
      let fits =
        All-select_first (λ r. is_claimable c r ≡ true) (accepts c) candidates row
          (order_by-All (λ r. is_claimable c r ≡ true) created_before
            (select (is_claimable c) s.runs) (select-holds (is_claimable c) s.runs))
          e in
      (found, fits, select_first-holds (accepts c) candidates row e)

  -- No run that the call may take is older.
  pub candidate-oldest :
      (row : StageRunRow)
      → claim_candidate c s ≡ some row
      → All
          (λ r. is_claimable c r ≡ true → accepts c r ≡ true → row.created_at ≤ r.created_at)
          s.runs
  unfolding claim_candidate candidates
  candidate-oldest row e =
      All-of_select (λ r. accepts c r ≡ true → row.created_at ≤ r.created_at) (is_claimable c)
        s.runs
        (All-of_order_by (λ r. accepts c r ≡ true → row.created_at ≤ r.created_at) created_before
          (select (is_claimable c) s.runs)
          (select_first-least (λ (r : StageRunRow). r.created_at) (accepts c) candidates row
            (order_by-Ascending (λ (r : StageRunRow). r.created_at) created_before created_before-le
              created_before-ge (select (is_claimable c) s.runs))
            e))

  -- With no candidate there is no run that the call may take.
  pub candidate-none :
      claim_candidate c s ≡ none → All (λ r. is_claimable c r ≡ true → accepts c r ≡ false) s.runs
  unfolding claim_candidate candidates
  candidate-none e =
      All-of_select (λ r. accepts c r ≡ false) (is_claimable c) s.runs
        (All-of_order_by (λ r. accepts c r ≡ false) created_before (select (is_claimable c) s.runs)
          (select_first-none_All (accepts c) candidates e))

pub claimable-queued :
    (c : ClaimCall) (r : StageRunRow) → is_claimable c r ≡ true → is_queued r.status ≡ true
unfolding is_claimable
claimable-queued c r h = ground arith

claim_change-SameIdentity :
    (c : ClaimCall) (lease : ResolvedLeasePolicy) (r : StageRunRow)
    → SameIdentity r (claim_change c lease r)
unfolding claim_change
claim_change-SameIdentity c lease r = record {
  stage_run_id = refl;
  instance_id = refl;
  stage_id = refl;
  attempt = refl;
}

abbrev pub claim_event : ClaimCall → ResolvedLeasePolicy → StageRunRow → EventRow
claim_event c lease row = record {
  instance_id = row.instance_id;
  stage_run_id = some row.stage_run_id;
  event_type = "stage_claimed";
  actor = c.owner_id;
  payload = claim_payload c lease row;
  created_at = c.now;
}

abbrev pub claimed_state : ClaimCall → ResolvedLeasePolicy → StageRunRow → Ledger → Ledger
claimed_state c lease row =
    rewritten (still_queued row) (claim_change c lease) (claim_event c lease row)

module _ (c : ClaimCall) (s : Ledger) (w : IsWellFormed s) (row : StageRunRow)
    (found : run_row row.stage_run_id s ≡ some row) (free : is_queued row.status ≡ true)
    (lease : ResolvedLeasePolicy) (leased : resolve_lease c row ≡ ok lease) where
  hits : still_queued row row ≡ true
  hits = rw (eq_refl row.stage_run_id, free) refl

  misses :
      (r : StageRunRow) → (r.stage_run_id == row.stage_run_id) ≡ false → still_queued row r ≡ false
  misses r h = rw h refl

  keeps : (r : StageRunRow) → (claim_change c lease r).stage_run_id ≡ r.stage_run_id
  unfolding claim_change
  keeps r = refl

  some_queued : exists (still_queued row) s.runs ≡ true
  some_queued =
      exists-by_key (λ (r : StageRunRow). r.stage_run_id) (still_queued row) row.stage_run_id s.runs
        row found hits

  pub run_row-claimed :
      (k : String)
      → run_row k (claimed_state c lease row s)
        ≡ (if row.stage_run_id == k then some (claim_change c lease row) else run_row k s)
  run_row-claimed =
      run_row-update (still_queued row) (claim_change c lease) keeps s row.stage_run_id row found
        hits misses

  pub claim_row_lem :
      claim_row c row s ≡ ok (some (claim_change c lease row), claimed_state c lease row s)
  unfolding claim_row
  claim_row_lem =
      rw
        (
          leased,
          some_queued,
          append_event-update (still_queued row) (claim_change c lease) keeps s row.stage_run_id row
              found hits misses w (claim_event c lease row) refl refl,
        )
        (rw
          (run_row-update_self (still_queued row) (claim_change c lease) keeps s row.stage_run_id
            row found hits misses)
          refl)

  pub claimed-IsWellFormed : IsWellFormed (claimed_state c lease row s)
  claimed-IsWellFormed =
      rewritten-IsWellFormed (still_queued row) (claim_change c lease) (claim_event c lease row)
        (claim_change-SameIdentity c lease) w
