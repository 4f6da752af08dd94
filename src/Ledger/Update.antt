-- ===== src/Ledger/Update.antt =====
-- An UPDATE that reaches one run, found by its primary key: what a query sees afterwards.
use agent_workflow_kernel.Prelude.{
  String, ◌≡◌, refl, ap, sym, ◌∙◌, Bool, true, false, Option, none, some, ◌∷◌, [], ◌++◌, inl, inr,
  arith, ◌==◌, eq_iff, eq_refl, ==→≡, Bool-cases, by_key-key, by_key-has_key, by_key-update,
  has_key-update, All-by_key, is_some, if◌then◌else◌, touched, update_where,
}
use agent_workflow_kernel.Ledger.Rows.{StageRunRow, EventRow}
use agent_workflow_kernel.Ledger.State.{
  Ledger, ok, run_row, has_run, has_instance, append_event, update_runs,
}
use agent_workflow_kernel.Ledger.Invariant.{
  IsWellFormed, InstanceKnown, SameIdentity, update_runs-IsWellFormed,
}

abbrev run_key : StageRunRow → String
run_key r = r.stage_run_id

-- The state after the UPDATE and one event.
abbrev pub rewritten :
    (StageRunRow → Bool) → (StageRunRow → StageRunRow) → EventRow → Ledger → Ledger
rewritten p change e s = record s {
  runs = update_where p change s.runs;
  events = s.events ++ e ∷ [];
}

pub rewritten-IsWellFormed :
    (p : StageRunRow → Bool) (change : StageRunRow → StageRunRow) (e : EventRow) {s : Ledger}
    → ((r : StageRunRow) → SameIdentity r (change r))
    → IsWellFormed s
    → IsWellFormed (rewritten p change e s)
rewritten-IsWellFormed p change e keeps w =
    let u = update_runs-IsWellFormed p change keeps w in
    record {
      instances_unique = u.instances_unique;
      runs_unique = u.runs_unique;
      attempts_unique = u.attempts_unique;
      instances_known = u.instances_known;
    }

touched_elsewhere :
    (p : StageRunRow → Bool) (change : StageRunRow → StageRunRow) (o : Option StageRunRow)
    → ((r : StageRunRow) → o ≡ some r → p r ≡ false)
    → touched p change o ≡ o
touched_elsewhere p change none off = refl
touched_elsewhere p change (some r) off = rw (off r refl)

-- `p` holds of `row`, and of no run with another key.
module _ (p : StageRunRow → Bool) (change : StageRunRow → StageRunRow)
    (keeps : (r : StageRunRow) → (change r).stage_run_id ≡ r.stage_run_id) (s : Ledger)
    (id : String) (row : StageRunRow) (found : run_row id s ≡ some row) (hits : p row ≡ true)
    (only : (r : StageRunRow) → (r.stage_run_id == id) ≡ false → p r ≡ false) where
  pub run_row-update :
      (k : String)
      → run_row k (update_runs p change s) ≡ (if id == k then some (change row) else run_row k s)
  run_row-update k = by_key-update run_key p change keeps k s.runs ∙ elim (Bool-cases (id == k)) [
    | inl here ↦
        rw here (
          ap (λ j. touched p change (run_row j s)) (sym (==→≡ id k here)) ∙ rw found (rw hits refl))
    | inr there ↦
        rw there (touched_elsewhere p change (run_row k s) (λ r e. only r (other r e there)))
  ]
    where
      other :
          (r : StageRunRow)
          → run_row k s ≡ some r
          → (id == k) ≡ false
          → (r.stage_run_id == id) ≡ false
      other r e there =
          let same : r.stage_run_id ≡ k = by_key-key run_key k s.runs r e in
          ground (arith, eq_iff r.stage_run_id id, eq_iff id k)

  pub run_row-update_self : run_row id (update_runs p change s) ≡ some (change row)
  run_row-update_self = run_row-update id ∙ rw (eq_refl id) refl

  has_run-update : has_run id (update_runs p change s) ≡ true
  has_run-update =
      has_key-update run_key p change keeps id s.runs
      ∙ sym (by_key-has_key run_key id s.runs)
      ∙ ap is_some found

  -- The event about the run, which its foreign keys allow.
  pub append_event-update :
      (w : IsWellFormed s) (e : EventRow)
      → e.instance_id ≡ row.instance_id
      → e.stage_run_id ≡ some id
      → append_event e (update_runs p change s) ≡ ok (rewritten p change e s)
  unfolding append_event
  append_event-update w e of_instance of_run =
      let known : has_instance row.instance_id s ≡ true =
        All-by_key run_key (InstanceKnown s.instances) id s.runs row w.instances_known found in
      rw (of_instance, of_run) (rw (known, has_run-update))
