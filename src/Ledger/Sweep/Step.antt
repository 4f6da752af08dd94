-- ===== src/Ledger/Sweep/Step.antt =====
-- One round of the loop of `sweep_stale_leases` of storage.py: it goes through, it rewrites its own
-- run, and it leaves no trace that the sweep would take for evidence.
use agent_workflow_kernel.Prelude.{
  ℕ, String, ◌≡◌, refl, ap, sym, ◌∙◌, Bool, true, false, some, ◌∷◌, [], ◌++◌, inl, inr, arith, ◌==◌,
  eq_refl, Bool-cases, by_key-has_key, All-by_key, by_key, exists, exists-append, is_some,
  if◌then◌else◌,
}
use agent_workflow_kernel.Ledger.Rows.{StageRunRow, EventRow}
use agent_workflow_kernel.Ledger.State.{
  Ledger, ok, run_row, has_run, has_instance, instance_row, append_event, update_runs,
  update_instance,
}
use agent_workflow_kernel.Ledger.Invariant.{
  IsWellFormed, InstanceKnown, SameIdentity, update_runs-IsWellFormed, update_instance-IsWellFormed,
}
use agent_workflow_kernel.Ledger.Update.{run_row-update}
use agent_workflow_kernel.Ledger.Sweep.{
  Recovery, Action, requeued, blocked_run, recovery_change, bump_epoch, mark_blocked,
  recovery_event, blocked_event, should_block, block_instance, follow_action, recover_row,
  is_start_event, has_start_evidence,
}

-- A write that no query on the runs, nor on the evidence, can tell.
pub record Unseen (t t' : Ledger) : Type 0 where
  pub runs : t'.runs ≡ t.runs
  pub well_formed : IsWellFormed t → IsWellFormed t'
  pub evidence : (k : String) → has_start_evidence k t' ≡ has_start_evidence k t

Unseen-refl : (t : Ledger) → Unseen t t
Unseen-refl t = record { runs = refl; well_formed = λ w. w; evidence = λ k. refl }

Unseen-trans : {t u v : Ledger} → Unseen t u → Unseen u v → Unseen t v
Unseen-trans a b = record {
  runs = b.runs ∙ a.runs;
  well_formed = λ w. b.well_formed (a.well_formed w);
  evidence = λ k. b.evidence k ∙ a.evidence k;
}

-- An event about a run of a well-formed ledger is accepted.
pub append_event-accepted :
    (t : Ledger) (w : IsWellFormed t) (id : String) (r : StageRunRow) (e : EventRow)
    → run_row id t ≡ some r
    → e.instance_id ≡ r.instance_id
    → e.stage_run_id ≡ some id
    → append_event e t ≡ ok (record t { events = t.events ++ e ∷ [] })
unfolding append_event
append_event-accepted t w id r e found of_instance of_run =
    let known : has_instance r.instance_id t ≡ true =
      All-by_key (λ (x : StageRunRow). x.stage_run_id) (InstanceKnown t.instances) id t.runs r
        w.instances_known found in
    let there : has_run id t ≡ true =
      sym (by_key-has_key (λ (x : StageRunRow). x.stage_run_id) id t.runs) ∙ ap is_some found in
    rw (of_instance, of_run) (rw (known, there))

logged-Unseen :
    (t : Ledger) (e : EventRow)
    → ((k : String) → is_start_event k e ≡ false)
    → Unseen t (record t { events = t.events ++ e ∷ [] })
unfolding has_start_evidence exists
logged-Unseen t e quiet = record {
  runs = refl;
  well_formed = λ w. record {
    instances_unique = w.instances_unique;
    runs_unique = w.runs_unique;
    attempts_unique = w.attempts_unique;
    instances_known = w.instances_known;
  };
  evidence =
      λ k. rw (exists-append (is_start_event k) t.events (e ∷ [])) (rw (quiet k) (ground arith));
}

instance-Unseen :
    (at : ℕ) (i : String) (t : Ledger) → Unseen t (update_instance i (bump_epoch at) t)
unfolding has_start_evidence
instance-Unseen at i t = record {
  runs = refl;
  well_formed = update_instance-IsWellFormed i (bump_epoch at) (λ x. refl);
  evidence = λ k. refl;
}

blocked-Unseen :
    (at : ℕ) (i : String) (t : Ledger) → Unseen t (update_instance i (mark_blocked at) t)
unfolding has_start_evidence
blocked-Unseen at i t = record {
  runs = refl;
  well_formed = update_instance-IsWellFormed i (mark_blocked at) (λ x. refl);
  evidence = λ k. refl;
}

module _ (at : ℕ) (actor : String) (row : StageRunRow) (rec : Recovery) where
  recovery_event-quiet : (k : String) → is_start_event k (recovery_event at actor row rec) ≡ false
  unfolding recovery_event
  recovery_event-quiet k = ground arith

  instance_id-recovery_event : (recovery_event at actor row rec).instance_id ≡ row.instance_id
  unfolding recovery_event
  instance_id-recovery_event = refl

  stage_run_id-recovery_event :
      (recovery_event at actor row rec).stage_run_id ≡ some row.stage_run_id
  unfolding recovery_event
  stage_run_id-recovery_event = refl

  blocked_event-quiet : (k : String) → is_start_event k (blocked_event at actor row rec) ≡ false
  unfolding blocked_event
  blocked_event-quiet k = ground arith

  module _ (t : Ledger) (w : IsWellFormed t) (r : StageRunRow)
      (found : run_row row.stage_run_id t ≡ some r) (home : row.instance_id ≡ r.instance_id) where
    block_instance-done : (t' : Ledger) × (block_instance at actor row rec t ≡ ok t') × Unseen t t'
    unfolding block_instance blocked_event
    block_instance-done = elim (Bool-cases (should_block row (instance_row row.instance_id t))) [
      | inl block ↦
          let u = blocked-Unseen at row.instance_id t in
          let t1 = update_instance row.instance_id (mark_blocked at) t in
          (
            record t1 { events = t1.events ++ blocked_event at actor row rec ∷ [] },
            rw block (
                append_event-accepted t1 (u.well_formed w) row.stage_run_id r
                  (blocked_event at actor row rec) found home refl),
            Unseen-trans u (logged-Unseen t1 (blocked_event at actor row rec) blocked_event-quiet),
          )
      | inr leave ↦ (t, rw leave refl, Unseen-refl t)
    ]

    follow_action-done :
        (a : Action) → (t' : Ledger) × (follow_action at actor row rec a t ≡ ok t') × Unseen t t'
    unfolding follow_action
    follow_action-done requeued = (t, refl, Unseen-refl t)
    follow_action-done blocked_run = block_instance-done

recovery_change-SameIdentity :
    (at : ℕ) (rec : Recovery) (r : StageRunRow) → SameIdentity r (recovery_change at rec r)
unfolding recovery_change
recovery_change-SameIdentity at rec r = record {
  stage_run_id = refl;
  instance_id = refl;
  stage_id = refl;
  attempt = refl;
}

-- The round: its run is rewritten, the others and the evidence stay.
pub record Recovered (at : ℕ) (row : StageRunRow) (rec : Recovery) (t t' : Ledger) : Type 0 where
  pub well_formed : IsWellFormed t'
  pub runs :
      (k : String)
      → run_row k t'
        ≡ (if row.stage_run_id == k then some (recovery_change at rec row) else run_row k t)
  pub evidence : (k : String) → has_start_evidence k t' ≡ has_start_evidence k t

pub recover_row-done :
    (at : ℕ) (actor : String) (row : StageRunRow) (rec : Recovery) (t : Ledger)
    → IsWellFormed t
    → run_row row.stage_run_id t ≡ some row
    → (t' : Ledger) × (recover_row at actor row rec t ≡ ok t') × Recovered at row rec t t'
unfolding recover_row recovery_change has_start_evidence
recover_row-done at actor row rec t w found =
    let mine : StageRunRow → Bool = λ r. r.stage_run_id == row.stage_run_id in
    let t1 = update_runs mine (recovery_change at rec) t in
    let w1 =
      update_runs-IsWellFormed mine (recovery_change at rec) (recovery_change-SameIdentity at rec)
        w in
    let t2 = update_instance row.instance_id (bump_epoch at) t1 in
    let u2 = instance-Unseen at row.instance_id t1 in
    let w2 = u2.well_formed w1 in
    let runs1 =
      run_row-update mine (recovery_change at rec) (λ r. refl) t row.stage_run_id row found
        (eq_refl row.stage_run_id) (λ r h. h) in
    let found2 : run_row row.stage_run_id t2 ≡ some (recovery_change at rec row) =
      runs1 row.stage_run_id ∙ rw (eq_refl row.stage_run_id) refl in
    let (t3, went, u3) =
      follow_action-done at actor row rec t2 w2 (recovery_change at rec row) found2 refl
        rec.action in
    let e = recovery_event at actor row rec in
    let u4 = logged-Unseen t3 e (recovery_event-quiet at actor row rec) in
    (
      record t3 { events = t3.events ++ e ∷ [] },
      rw went (
          accepted t3 (u3.well_formed w2)
            (ap (by_key (λ (x : StageRunRow). x.stage_run_id) row.stage_run_id) u3.runs ∙ found2)),
      record {
        well_formed = u4.well_formed (u3.well_formed w2);
        runs = λ k. ap (by_key (λ (x : StageRunRow). x.stage_run_id) k) u3.runs ∙ runs1 k;
        evidence = λ k. u4.evidence k ∙ u3.evidence k ∙ u2.evidence k;
      },
    )
  where
    accepted :
        (t3 : Ledger)
        → IsWellFormed t3
        → run_row row.stage_run_id t3 ≡ some (recovery_change at rec row)
        → append_event (recovery_event at actor row rec) t3
          ≡ ok (record t3 { events = t3.events ++ recovery_event at actor row rec ∷ [] })
    accepted t3 w3 found3 =
        append_event-accepted t3 w3 row.stage_run_id (recovery_change at rec row)
          (recovery_event at actor row rec) found3 (instance_id-recovery_event at actor row rec)
          (stage_run_id-recovery_event at actor row rec)
