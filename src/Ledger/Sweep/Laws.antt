-- ===== src/Ledger/Sweep/Laws.antt =====
-- What `sweep_stale_leases` of storage.py does to a whole ledger: the loop, over rows that were
-- read before its first write, is one decision for each run.
use agent_workflow_kernel.Prelude.{
  ℕ, String, ◌≡◌, refl, ap, subst, ◌∙◌, true, false, Option, none, some, List, ◌∷◌, [], inl, inr,
  arith, ◌==◌, eq_iff, eq_refl, ==→≡, Bool-cases, Option-cases, All, All-map, All-both, All-select,
  All-of_select, All-of_order_by, order_by-All, select-holds, exists, exists-none, Unique,
  Unique-select, Unique-order_by, by_key_self, has_key, select, order_by, if◌then◌else◌,
}
use agent_workflow_kernel.Ledger.Rows.{StageRunRow}
use agent_workflow_kernel.Ledger.State.{Ledger, ok, run_row}
use agent_workflow_kernel.Ledger.Invariant.{IsWellFormed}
use agent_workflow_kernel.Ledger.Sweep.{
  Recovery, RecoveryAction, recovery_change, recover_row, has_start_evidence, is_leased, verdict,
  sweep_before, sweep_rows, sweep_stale_leases,
}
use agent_workflow_kernel.Ledger.Sweep.Step.{recover_row-done}

-- What a verdict makes of a run.
abbrev pub settled : ℕ → Option Recovery → StageRunRow → StageRunRow
settled at none r = r
settled at (some rec) r = recovery_change at rec r

abbrev pub run_key : StageRunRow → String
run_key r = r.stage_run_id

abbrev pub reported : StageRunRow → Recovery → RecoveryAction
reported row rec = record {
  stage_run_id = row.stage_run_id;
  previous_status = row.status;
  action = rec.action;
  failure_class = rec.failure_class;
}

-- The loop over rows that stand in the ledger as they were read.
pub record Swept (at : ℕ) (rows : List StageRunRow) (t t' : Ledger) : Type 0 where
  pub well_formed : IsWellFormed t'
  pub listed : All (λ r. run_row r.stage_run_id t' ≡ some (settled at (verdict at r t) r)) rows
  pub others : (k : String) → has_key run_key k rows ≡ false → run_row k t' ≡ run_row k t

verdict-evidence :
    (at : ℕ) (r : StageRunRow) (t t' : Ledger)
    → has_start_evidence r.stage_run_id t' ≡ has_start_evidence r.stage_run_id t
    → verdict at r t' ≡ verdict at r t
unfolding verdict
verdict-evidence at r t t' e = rw e refl

still_found :
    (row : StageRunRow) (rows : List StageRunRow) (t t1 : Ledger)
    → has_key run_key row.stage_run_id rows ≡ false
    → ((k : String) → (row.stage_run_id == k) ≡ false → run_row k t1 ≡ run_row k t)
    → All (λ r. run_row r.stage_run_id t ≡ some r) rows
    → All (λ r. run_row r.stage_run_id t1 ≡ some r) rows
unfolding exists
still_found row [] t t1 free same found = tt
still_found row (r ∷ rs) t t1 free same found =
    let apart : (row.stage_run_id == r.stage_run_id) ≡ false =
      ground
        (arith, eq_iff row.stage_run_id r.stage_run_id, eq_iff r.stage_run_id row.stage_run_id) in
    (same r.stage_run_id apart ∙ found.0, still_found row rs t t1 (ground arith) same found.1)

module _ (at : ℕ) (actor : String) where
  -- One row ahead of a loop that has been described.
  cons-Swept :
      (row : StageRunRow) (rows : List StageRunRow) (t t1 t' : Ledger)
      → has_key run_key row.stage_run_id rows ≡ false
      → run_row row.stage_run_id t1 ≡ some (settled at (verdict at row t) row)
      → ((k : String) → (row.stage_run_id == k) ≡ false → run_row k t1 ≡ run_row k t)
      → ((r : StageRunRow) → verdict at r t1 ≡ verdict at r t)
      → Swept at rows t1 t'
      → Swept at (row ∷ rows) t t'
  unfolding exists
  cons-Swept row rows t t1 t' free mine same judged rest = record {
    well_formed = rest.well_formed;
    listed = (
      rest.others row.stage_run_id free ∙ mine,
      All-map rows (λ r e. e ∙ ap (λ v. some (settled at v r)) (judged r)) rest.listed,
    );
    others = λ k h. rest.others k (ground arith) ∙ same k (ground arith);
  }

  sweep_rows-recover :
      (row : StageRunRow) (rows : List StageRunRow) (rec : Recovery) (t t1 t' : Ledger)
      (actions : List RecoveryAction)
      → verdict at row t ≡ some rec
      → recover_row at actor row rec t ≡ ok t1
      → sweep_rows at actor rows t1 ≡ ok (actions, t')
      → sweep_rows at actor (row ∷ rows) t ≡ ok (reported row rec ∷ actions, t')
  unfolding sweep_rows
  sweep_rows-recover row rows rec t t1 t' actions judged went done =
      rw (judged, sweep_rows) (rw went (rw done refl))

  sweep_rows-done :
      (rows : List StageRunRow) (t : Ledger)
      → IsWellFormed t
      → Unique run_key rows
      → All (λ r. run_row r.stage_run_id t ≡ some r) rows
      → (actions : List RecoveryAction) × (t' : Ledger) × (sweep_rows at actor rows t
          ≡ ok (actions, t'))
        × Swept at rows t t'
  unfolding sweep_rows
  sweep_rows-done [] t w u found =
      ([], t, refl, record { well_formed = w; listed = tt; others = λ k h. refl })
  sweep_rows-done (row ∷ rows) t w u found = elim (Option-cases (verdict at row t)) [
    | inl keep ↦
        let (actions, t', done, swept) = sweep_rows-done rows t w u.1 found.1 in
        (
          actions,
          t',
          rw (keep, sweep_rows) done,
          cons-Swept row rows t t t' u.0 (found.0 ∙ rw keep refl) (λ k h. refl) (λ r. refl) swept,
        )
    | inr (rec, judged) ↦
        let (t1, went, round) = recover_row-done at actor row rec t w found.0 in
        let same : (k : String) → (row.stage_run_id == k) ≡ false → run_row k t1 ≡ run_row k t =
          λ k h. round.runs k ∙ rw h refl in
        let (actions, t', done, swept) =
          sweep_rows-done rows t1 round.well_formed u.1
            (still_found row rows t t1 u.0 same found.1) in
        (
          reported row rec ∷ actions,
          t',
          sweep_rows-recover row rows rec t t1 t' actions judged went done,
          cons-Swept row rows t t1 t' u.0
              (round.runs row.stage_run_id ∙ rw (eq_refl row.stage_run_id, judged) refl) same
              (λ r. verdict-evidence at r t t1 (round.evidence r.stage_run_id)) swept,
        )
  ]

-- What the sweep makes of each run, by the ledger that it found.
abbrev pub swept_run : ℕ → Ledger → StageRunRow → StageRunRow
swept_run at s r = if is_leased r then settled at (verdict at r s) r else r

not_listed :
    (s : Ledger) (w : IsWellFormed s) (r : StageRunRow)
    → run_row r.stage_run_id s ≡ some r
    → is_leased r ≡ false
    → has_key run_key r.stage_run_id (order_by sweep_before (select is_leased s.runs)) ≡ false
not_listed s w r found free =
    exists-none (λ x. x.stage_run_id == r.stage_run_id)
      (order_by sweep_before (select is_leased s.runs))
      (order_by-All (λ x. (x.stage_run_id == r.stage_run_id) ≡ false) sweep_before
        (select is_leased s.runs)
        (All-map (select is_leased s.runs) apart (
          All-both (λ x. run_row x.stage_run_id s ≡ some x) (λ x. is_leased x ≡ true)
            (select is_leased s.runs)
            (All-select (λ x. run_row x.stage_run_id s ≡ some x) is_leased s.runs
              (by_key_self run_key s.runs w.runs_unique))
            (select-holds is_leased s.runs))))
  where
    apart :
        (x : StageRunRow)
        → (run_row x.stage_run_id s ≡ some x) × (is_leased x ≡ true)
        → (x.stage_run_id == r.stage_run_id) ≡ false
    apart x (mine, leased) = elim (Bool-cases (x.stage_run_id == r.stage_run_id)) [
      | inl same ↦
          let it : x ≡ r =
            cc (mine, found, ap (λ k. run_row k s) (==→≡ x.stage_run_id r.stage_run_id same)) in
          absurd (
            let no : is_leased r ≡ true = subst (λ z. is_leased z ≡ true) it leased in
            cc (no, free))
      | inr other ↦ other
    ]

-- A sweep of a well-formed ledger never raises and leaves a well-formed one, and it is one decision
-- for each run: a run whose lease has expired becomes what its status and the evidence that stood
-- before the sweep say, and every other run is left as it was.
pub sweep_is_pointwise :
    (at : ℕ) (actor : String) (s : Ledger)
    → IsWellFormed s
    → (actions : List RecoveryAction) × (s' : Ledger) × (sweep_stale_leases at actor s
        ≡ ok (actions, s'))
      × IsWellFormed s'
      × All (λ r. run_row r.stage_run_id s' ≡ some (swept_run at s r)) s.runs
unfolding sweep_stale_leases
sweep_is_pointwise at actor s w =
    let rows = order_by sweep_before (select is_leased s.runs) in
    let selves = by_key_self run_key s.runs w.runs_unique in
    let (actions, s', done, swept) =
      sweep_rows-done at actor rows s w
        (Unique-order_by run_key sweep_before (select is_leased s.runs)
          (Unique-select run_key is_leased s.runs w.runs_unique))
        (order_by-All (λ r. run_row r.stage_run_id s ≡ some r) sweep_before
          (select is_leased s.runs)
          (All-select (λ r. run_row r.stage_run_id s ≡ some r) is_leased s.runs selves)) in
    (
      actions,
      s',
      done,
      swept.well_formed,
      All-map s.runs (judged s' swept) (
          All-both (λ r. run_row r.stage_run_id s ≡ some r)
            (λ r.
              is_leased r ≡ true → run_row r.stage_run_id s' ≡ some (settled at (verdict at r s) r))
            s.runs selves
            (All-of_select (λ r. run_row r.stage_run_id s' ≡ some (settled at (verdict at r s) r))
              is_leased s.runs
              (All-of_order_by
                (λ r. run_row r.stage_run_id s' ≡ some (settled at (verdict at r s) r)) sweep_before
                (select is_leased s.runs) swept.listed))),
    )
  where
    judged :
        (s' : Ledger)
        → Swept at (order_by sweep_before (select is_leased s.runs)) s s'
        → (r : StageRunRow)
        → (run_row r.stage_run_id s ≡ some r)
          × (is_leased r ≡ true → run_row r.stage_run_id s' ≡ some (settled at (verdict at r s) r))
        → run_row r.stage_run_id s' ≡ some (swept_run at s r)
    judged s' swept r (found, listed) = elim (Bool-cases (is_leased r)) [
      | inl e ↦ rw e (listed e)
      | inr e ↦ rw e (swept.others r.stage_run_id (not_listed s w r found e) ∙ found)
    ]
