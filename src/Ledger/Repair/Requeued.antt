-- ===== src/Ledger/Repair/Requeued.antt =====
-- What the repairs of a human gate in storage.py queue.
use agent_workflow_kernel.Ledger.Retry.{attempt_id}
use agent_workflow_kernel.Prelude.{
  ℕ, suc, none, update_where, String, ◌≡◌, refl, ap, sym, subst, ◌∙◌, false, some, [], ◌∷◌, ◌++◌,
  ◌==◌,
}
use agent_workflow_kernel.Json.{Json}
use agent_workflow_kernel.Contracts.StageStatus.{queued}
use agent_workflow_kernel.Contracts.InstanceStatus.{running}
use agent_workflow_kernel.Ledger.Rows.{InstanceRow, StageRunRow, EventRow}
use agent_workflow_kernel.Ledger.State.{Ledger, ok, ok_pair, has_run, update_instance, bind-ok}
use agent_workflow_kernel.Ledger.Invariant.{
  IsWellFormed, insert_run-ok, append_event-ok, insert_run-IsWellFormed, append_event-IsWellFormed,
  update_instance-IsWellFormed,
}
use agent_workflow_kernel.Ledger.Repair.{
  RepairCall, Repaired, repair_event, resume, gate_attempt, queue_attempt,
}

-- The attempt that follows a gate: queued under the next number, with no lease, no receipt, no output and
-- no need of an approval. What is not named it has from the gate.
abbrev pub next_gate : StageRunRow → ℕ → StageRunRow
next_gate row now = record row {
  stage_run_id = attempt_id row.instance_id row.stage_id (suc row.attempt);
  attempt = suc row.attempt;
  status = queued;
  failure_class = none;
  failure_summary = none;
  approval_required = false;
  idempotency_key = some (attempt_id row.instance_id row.stage_id (suc row.attempt));
  output_hash = none;
  prompt_hash = none;
  context_packet_ref = none;
  context_packet_hash = none;
  rendered_context_hash = none;
  retry_count = suc row.retry_count;
  retry_after_at = none;
  lease_owner = none;
  lease_token = none;
  lease_expires_at = none;
  lease_seconds = none;
  lease_source = none;
  lease_source_ref = none;
  parent_stage_run_id = some row.stage_run_id;
  receipt_id = none;
  created_at = now;
  started_at = none;
  completed_at = none;
  updated_at = now;
}

-- The next gate is added under an id that is new, the instance runs again in a new epoch, two events are
-- logged, and nothing else changes: no decision is recorded.
pub record Requeued (c : RepairCall) (row : StageRunRow) (p : Repaired) (s s' : Ledger)
    : Type 0 where
  pub named : p.stage_run_id ≡ (next_gate row c.now).stage_run_id
  pub new_id : has_run p.stage_run_id s ≡ false
  pub runs : s'.runs ≡ s.runs ++ next_gate row c.now ∷ []
  pub instances :
      s'.instances
      ≡ update_where
          (λ (i : InstanceRow). i.instance_id == c.instance_id)
          (λ i. record i {
            status = running;
            recovery_epoch = suc i.recovery_epoch;
            updated_at = c.now;
          })
          s.instances
  pub others : s' ≡ record s { instances = s'.instances; runs = s'.runs; events = s'.events }
  pub first_event : EventRow
  pub second_event : EventRow
  pub logged : s'.events ≡ (s.events ++ first_event ∷ []) ++ second_event ∷ []
  pub about_old : first_event.stage_run_id ≡ some row.stage_run_id
  pub about_new : second_event.stage_run_id ≡ some p.stage_run_id

module _ (c : RepairCall) (authorized requeued : String) (payload : StageRunRow → Json)
    (row : StageRunRow) (s s' : Ledger) (p : Repaired) where
  pub queue_attempt-queued :
      IsWellFormed s
      → queue_attempt c authorized requeued payload row s ≡ ok (p, s')
      → IsWellFormed s' × Requeued c row p s s'
  unfolding queue_attempt gate_attempt
  queue_attempt-queued w h =
      let next = gate_attempt row c.now in
      let e1 = repair_event c row.stage_run_id authorized (payload next) in
      let e2 = repair_event c next.stage_run_id requeued (payload next) in
      let (s1, inserted, h1) = bind-ok _ _ (p, s') h in
      let (s2, logged, h2) = bind-ok _ _ (p, s') h1 in
      let (s3, again, h3) = bind-ok _ _ (p, s') h2 in
      let (free, _, _, rows) = insert_run-ok next s s1 inserted in
      let w1 = insert_run-IsWellFormed next s s1 inserted w in
      let w2 =
        append_event-IsWellFormed _ _ s2 logged
          (update_instance-IsWellFormed c.instance_id (resume c.now) (λ x. refl) w1) in
      let w3 = append_event-IsWellFormed _ s2 s3 again w2 in
      let (same, last) = ok_pair h3 in
      let named : p.stage_run_id ≡ next.stage_run_id =
        ap (λ (x : Repaired). x.stage_run_id) (sym same) in
      let final : s' ≡ record s {
        instances = (update_instance c.instance_id (resume c.now) s).instances;
        runs = s.runs ++ next ∷ [];
        events = (s.events ++ e1 ∷ []) ++ e2 ∷ [];
      } =
        sym last
        ∙ append_event-ok e2 s2 s3 again
        ∙ ap (λ (t : Ledger). record t { events = t.events ++ e2 ∷ [] })
            (append_event-ok e1 (update_instance c.instance_id (resume c.now) s1) s2 logged)
        ∙ ap
            (λ (t : Ledger). record t {
              instances = (update_instance c.instance_id (resume c.now) t).instances;
              events = (t.events ++ e1 ∷ []) ++ e2 ∷ [];
            })
            rows in
      (
        subst IsWellFormed last w3,
        record {
          named = named;
          new_id = ap (λ k. has_run k s) named ∙ free;
          runs = ap (λ (t : Ledger). t.runs) final;
          instances = ap (λ (t : Ledger). t.instances) final;
          others =
              final
              ∙ ap
                  (λ (t : Ledger). record s {
                    instances = t.instances;
                    runs = t.runs;
                    events = t.events;
                  })
                  (sym final);
          first_event = e1;
          second_event = e2;
          logged = ap (λ (t : Ledger). t.events) final;
          about_old = refl;
          about_new = ap some (sym named);
        },
      )
