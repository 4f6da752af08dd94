-- ===== src/Ledger/Repair/Laws.antt =====
-- What the repairs of a human gate in storage.py require, and what they queue.
use agent_workflow_kernel.Contracts.Failure.{runtime_failure}
use agent_workflow_kernel.Ledger.Repair.Latest.{IsLatest, latest_attempt-IsLatest}
use agent_workflow_kernel.Prelude.{
  List, update_where, String, ◌≡◌, refl, subst, Bool, true, false, not, ◌&&◌, ◌||◌, some, inl, inr,
  arith, ◌==◌, Bool-cases, Option-cases, strip,
}
use agent_workflow_kernel.Contracts.StageStatus.{StageRunStatus, is_blocked, is_waiting_on_human}
use agent_workflow_kernel.Contracts.InstanceStatus.{
  WorkflowStatus, is_instance_blocked, is_instance_waiting_on_human,
}
use agent_workflow_kernel.Ledger.Rows.{InstanceRow, StageRunRow}
use agent_workflow_kernel.Ledger.State.{
  Ledger, ok, Conflict, not_blocked, not_waiting_on_human, instance_row, bind-ok,
}
use agent_workflow_kernel.Ledger.Invariant.{IsWellFormed, SameIdentity, update_runs-IsWellFormed}
use agent_workflow_kernel.Ledger.Repair.{
  RepairCall, Repaired, require_gate, latest_attempt, current_stage, has_decision,
  retry_blocked_human_gate, reissue_waiting_human_gate_for_transport_repair, defect_change,
}
use agent_workflow_kernel.Ledger.Repair.Requeued.{Requeued, queue_attempt-queued}

-- An undecided gate: the latest attempt of the instance's current stage, in the expected statuses.
pub record IsOpenGate (i : String) (instance_ok : WorkflowStatus → Bool)
    (run_ok : StageRunStatus → Bool) (s : Ledger) (row : StageRunRow) : Type 0 where
  pub instance : InstanceRow
  pub found : instance_row i s ≡ some instance
  pub instance_status : instance_ok instance.status ≡ true
  pub latest : IsLatest i (current_stage instance) s row
  pub run_status : run_ok row.status ≡ true
  pub gated : row.approval_required ≡ true
  pub undecided : has_decision row.stage_run_id s ≡ false

verified_holds : (a b : Bool) → (not a || b) ≡ false → a ≡ true
verified_holds a b h = ground arith

both_hold : (a b : Bool) → (not a || not b) ≡ false → (a ≡ true) × (b ≡ true)
both_hold a b h = (ground arith, ground arith)

require_gate-IsOpenGate :
    (i : String) (instance_ok : WorkflowStatus → Bool) (why : Conflict)
    (run_ok : StageRunStatus → Bool) (s : Ledger) (inst : InstanceRow) (row : StageRunRow)
    → IsWellFormed s
    → require_gate i instance_ok why run_ok s ≡ ok (inst, row)
    → IsOpenGate i instance_ok run_ok s row
unfolding require_gate
require_gate-IsOpenGate i instance_ok why run_ok s inst row w h =
    elim (Option-cases (instance_row i s)) [
      | inl nobody ↦ absurd (cc (rw (nobody, require_gate) at h))
      | inr (x, found) ↦ elim (Bool-cases (instance_ok x.status)) [
        | inr unfit ↦ absurd (cc (rw (found, unfit, require_gate) at h))
        | inl fit ↦ elim (Option-cases (latest_attempt i (current_stage x) s)) [
          | inl missing ↦ absurd (cc (rw (found, fit, missing, require_gate) at h))
          | inr (r, latest) ↦ elim (Bool-cases (not (run_ok r.status) || not r.approval_required)) [
            | inl no_gate ↦ absurd (cc (rw (found, fit, latest, no_gate, require_gate) at h))
            | inr gate ↦ elim (Bool-cases (has_decision r.stage_run_id s)) [
              | inl decided ↦
                  absurd (cc (rw (found, fit, latest, gate, decided, require_gate) at h))
              | inr undecided ↦
                  let same : r ≡ row =
                    cc (rw (found, fit, latest, gate, undecided, require_gate) at h) in
                  let (fits, gated) = both_hold (run_ok r.status) r.approval_required gate in
                  subst (IsOpenGate i instance_ok run_ok s) same (record {
                    instance = x;
                    found = found;
                    instance_status = fit;
                    latest = latest_attempt-IsLatest i (current_stage x) s r w latest;
                    run_status = fits;
                    gated = gated;
                    undecided = undecided;
                  })
            ]
          ]
        ]
      ]
    ]

-- A retry of a blocked gate that goes through on a well-formed ledger had the caller's word that no
-- effect was made. The instance and the latest attempt of its current stage were blocked, the attempt
-- required an approval, and no decision on it was recorded. No attempt of the stage has a higher number.
-- The ledger stays well-formed and gets the attempt that follows the gate, queued, with the next number
-- and without approval or receipt; no run that was there changes, and no decision is recorded.
pub blocked_gate_retry_lem :
    (c : RepairCall) (s s' : Ledger) (p : Repaired)
    → IsWellFormed s
    → retry_blocked_human_gate c s ≡ ok (p, s')
    → (c.verified ≡ true)
      × ((row : StageRunRow) × IsOpenGate c.instance_id is_instance_blocked is_blocked s row
          × IsWellFormed s'
          × Requeued c row p s s')
unfolding retry_blocked_human_gate
blocked_gate_retry_lem c s s' p w h = elim (Bool-cases (not c.verified || (strip c.reason == ""))) [
  | inl unfit ↦ absurd (cc (rw (unfit, retry_blocked_human_gate) at h))
  | inr fit ↦
      let ((inst, row), passed, goes) =
        bind-ok _ _ (p, s') (rw (fit, retry_blocked_human_gate) at h) in
      let (well, there) = queue_attempt-queued c _ _ _ row s s' p w goes in
      (
        verified_holds c.verified (strip c.reason == "") fit,
        (
          row,
          require_gate-IsOpenGate c.instance_id is_instance_blocked not_blocked is_blocked s inst
              row w passed,
          well,
          there,
        ),
      )
]

defect-SameIdentity : (c : RepairCall) (r : StageRunRow) → SameIdentity r (defect_change c r)
unfolding defect_change
defect-SameIdentity c r = record {
  stage_run_id = refl;
  instance_id = refl;
  stage_id = refl;
  attempt = refl;
}

-- The runs with the given one blocked as defective.
abbrev pub with_defect : RepairCall → StageRunRow → List StageRunRow → List StageRunRow
with_defect c row =
    update_where (λ r. (r.stage_run_id == row.stage_run_id) && is_waiting_on_human r.status)
      (λ r. record r {
        status = StageRunStatus.blocked;
        failure_class = some runtime_failure;
        failure_summary = some (strip c.reason);
        updated_at = c.now;
      })

-- A reissue of a waiting gate that goes through on a well-formed ledger had the caller's word that there
-- was no decision. The instance and the latest attempt of its current stage waited for a human, the
-- attempt required an approval, and no decision on it was recorded. No attempt of the stage has a higher
-- number. The ledger stays well-formed; the gate is blocked as defective, and the attempt that follows
-- it is queued, with the next number and without approval or receipt. No other run changes, and no
-- decision is recorded.
pub gate_reissue_lem :
    (c : RepairCall) (s s' : Ledger) (p : Repaired)
    → IsWellFormed s
    → reissue_waiting_human_gate_for_transport_repair c s ≡ ok (p, s')
    → (c.verified ≡ true)
      × ((row : StageRunRow) × IsOpenGate c.instance_id is_instance_waiting_on_human
            is_waiting_on_human s row
          × IsWellFormed s'
          × Requeued c row p (record s { runs = with_defect c row s.runs }) s')
unfolding reissue_waiting_human_gate_for_transport_repair defect_change
gate_reissue_lem c s s' p w h = elim (Bool-cases (not c.verified || (strip c.reason == ""))) [
  | inl unfit ↦ absurd (cc (rw (unfit, reissue_waiting_human_gate_for_transport_repair) at h))
  | inr fit ↦
      let ((inst, row), passed, goes) =
        bind-ok _ _ (p, s') (rw (fit, reissue_waiting_human_gate_for_transport_repair) at h) in
      let marked =
        update_runs-IsWellFormed
          (λ r. (r.stage_run_id == row.stage_run_id) && is_waiting_on_human r.status)
          (defect_change c) (defect-SameIdentity c) w in
      let (well, there) = queue_attempt-queued c _ _ _ row _ s' p marked goes in
      (
        verified_holds c.verified (strip c.reason == "") fit,
        (
          row,
          require_gate-IsOpenGate c.instance_id is_instance_waiting_on_human not_waiting_on_human
              is_waiting_on_human s inst row w passed,
          well,
          there,
        ),
      )
]
