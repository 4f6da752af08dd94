-- ===== src/Ledger/Reachable/Kept.antt =====
-- What every ledger that WorkflowLedger of storage.py can come to has in common.
use agent_workflow_kernel.Prelude.{
  ℕ, String, ◌≡◌, refl, sym, subst, Bool, not, List, [], inl, inr, ◌∷◌, ◌++◌, ◌∙◌, arith,
  exists-append, ◌==◌, ◌&&◌, ◌||◌, Bool-cases, Option-cases, Unique-append, All, has_key,
}
use agent_workflow_kernel.Ledger.Rows.{InstanceRow, StageRunRow, DecisionRow}
use agent_workflow_kernel.Ledger.State.{
  Ledger, empty, ok, bind-ok, ok_pair, has_instance, has_run, instance_row,
}
use agent_workflow_kernel.Ledger.Invariant.{IsWellFormed, InstanceKnown, append_event-IsWellFormed}
use agent_workflow_kernel.Ledger.Leases.Guarded.{perform-IsWellFormed}
use agent_workflow_kernel.Ledger.Claim.Laws.{claim-IsWellFormed}
use agent_workflow_kernel.Ledger.Retry.Kept.{schedule_retry-IsWellFormed}
use agent_workflow_kernel.Ledger.Sweep.Laws.{sweep_is_pointwise}
use agent_workflow_kernel.Ledger.Inserts.{
  WorkflowInstance, Provenance, insert_workflow_instance, instance_to_row,
}
use agent_workflow_kernel.Ledger.Inserts.Laws.{
  update_workflow_instance-IsWellFormed, insert_stage_run-IsWellFormed, record_event-IsWellFormed,
  record_receipt-IsWellFormed,
}
use agent_workflow_kernel.Ledger.Operator.{
  RetireCall, Retirement, is_terminal, is_parked_or_terminal, cancel_workflow_instance,
  park_stale_workflow_instance,
}
use agent_workflow_kernel.Ledger.Operator.Laws.{cancel_retires, park_retires}
use agent_workflow_kernel.Ledger.Human.{Decision, record_human_decision}
use agent_workflow_kernel.Ledger.Human.Laws.{complete_waiting-done}
use agent_workflow_kernel.Ledger.Repair.Laws.{blocked_gate_retry_lem, gate_reissue_lem}
use agent_workflow_kernel.Ledger.Late.Laws.{late_result_is_inert}
use agent_workflow_kernel.Ledger.Reachable.{
  Step, IsReachable, start, next, instance_inserted, instance_updated, run_inserted, event_recorded,
  receipt_recorded, run_claimed, lease_used, retry_scheduled, leases_swept, instance_cancelled,
  instance_parked, decision_recorded, gate_completed, gate_retried, gate_reissued,
  late_result_recorded,
}

empty-IsWellFormed : IsWellFormed empty
empty-IsWellFormed = record {
  instances_unique = tt;
  runs_unique = tt;
  attempts_unique = tt;
  instances_known = tt;
}

-- The constraints are on instances and runs alone.
same_keys-IsWellFormed :
    (s s' : Ledger)
    → s'.instances ≡ s.instances
    → s'.runs ≡ s.runs
    → IsWellFormed s
    → IsWellFormed s'
same_keys-IsWellFormed s s' instances runs w = record {
  instances_unique = rw instances w.instances_unique;
  runs_unique = rw runs w.runs_unique;
  attempts_unique = rw runs w.attempts_unique;
  instances_known = rw (instances, runs) w.instances_known;
}

insert_workflow_instance-IsWellFormed :
    (i : WorkflowInstance) (p : Provenance) (now : ℕ) (s s' : Ledger)
    → insert_workflow_instance i p now s ≡ ok (tt, s')
    → IsWellFormed s
    → IsWellFormed s'
unfolding insert_workflow_instance
insert_workflow_instance-IsWellFormed i p now s s' h w =
    elim (Bool-cases (has_instance i.instance_id s)) [
      | inl taken ↦ absurd (cc (rw (taken, insert_workflow_instance) at h))
      | inr free ↦
          subst IsWellFormed (ok_pair (rw (free, insert_workflow_instance) at h)).1 (record {
            instances_unique =
                Unique-append (λ (x : InstanceRow). x.instance_id) s.instances
                  (instance_to_row i p now) w.instances_unique free;
            runs_unique = w.runs_unique;
            attempts_unique = w.attempts_unique;
            instances_known = still_known s.runs w.instances_known;
          })
    ]
  where
    still_known :
        (rs : List StageRunRow)
        → All (InstanceKnown s.instances) rs
        → All (InstanceKnown (s.instances ++ instance_to_row i p now ∷ [])) rs
    still_known [] h' = tt
    still_known (r ∷ rs) h' = (
      exists-append (λ (x : InstanceRow). x.instance_id == r.instance_id) s.instances
            (instance_to_row i p now ∷ [])
          ∙ ground (arith, h'.0),
      still_known rs h'.1,
    )

record_human_decision-IsWellFormed :
    (d : Decision) (i run : String) (now : ℕ) (actor : String) (s s' : Ledger)
    → record_human_decision d i run now actor s ≡ ok (tt, s')
    → IsWellFormed s
    → IsWellFormed s'
unfolding record_human_decision
record_human_decision-IsWellFormed d i run now actor s s' h w =
    elim (Bool-cases (
      has_key (λ (x : DecisionRow). x.decision_id) d.approval_id s.decisions
      || not (has_instance i s && has_run run s))) [
        | inl refused ↦ absurd (cc (rw (refused, record_human_decision) at h))
        | inr free ↦
            let (t, logged, last) = bind-ok _ _ (tt, s') (rw (free, record_human_decision) at h) in
            subst IsWellFormed (ok_pair last).1
              (append_event-IsWellFormed _ _ t logged (same_keys-IsWellFormed s _ refl refl w))
      ]

cancel-IsWellFormed :
    (c : RetireCall) (force : Bool) (r : Retirement) (s s' : Ledger)
    → cancel_workflow_instance c force s ≡ ok (r, s')
    → IsWellFormed s
    → IsWellFormed s'
unfolding cancel_workflow_instance
cancel-IsWellFormed c force r s s' h w = elim (Option-cases (instance_row c.instance_id s)) [
  | inl nobody ↦ absurd (cc (rw (nobody, cancel_workflow_instance) at h))
  | inr (row, found) ↦ elim (Bool-cases (is_terminal row.status && not force)) [
    | inl over ↦ subst IsWellFormed (ok_pair (rw (found, over, cancel_workflow_instance) at h)).1 w
    | inr live ↦
        let (t, done, retired) = cancel_retires c row s w found force live in
        subst IsWellFormed (ok_pair (sym done ∙ h)).1 retired.well_formed
  ]
]

park-IsWellFormed :
    (c : RetireCall) (r : Retirement) (s s' : Ledger)
    → park_stale_workflow_instance c s ≡ ok (r, s')
    → IsWellFormed s
    → IsWellFormed s'
unfolding park_stale_workflow_instance
park-IsWellFormed c r s s' h w = elim (Option-cases (instance_row c.instance_id s)) [
  | inl nobody ↦ absurd (cc (rw (nobody, park_stale_workflow_instance) at h))
  | inr (row, found) ↦ elim (Bool-cases (is_parked_or_terminal row.status)) [
    | inl over ↦
        subst IsWellFormed (ok_pair (rw (found, over, park_stale_workflow_instance) at h)).1 w
    | inr live ↦
        let (t, done, retired) = park_retires c row s w found live in
        subst IsWellFormed (ok_pair (sym done ∙ h)).1 retired.well_formed
  ]
]

Step-IsWellFormed : {s s' : Ledger} → Step s s' → IsWellFormed s → IsWellFormed s'
Step-IsWellFormed {s} {s'} (instance_inserted i p now h) w =
    insert_workflow_instance-IsWellFormed i p now s s' h w
Step-IsWellFormed {s} {s'} (instance_updated i status stage now actor kind payload h) w =
    update_workflow_instance-IsWellFormed i status stage now actor kind payload s s' tt h w
Step-IsWellFormed {s} {s'} (run_inserted r hash key parent now h) w =
    insert_stage_run-IsWellFormed r hash key parent now s s' tt h w
Step-IsWellFormed {s} {s'} (event_recorded e h) w = record_event-IsWellFormed e s s' tt h w
Step-IsWellFormed {s} {s'} (receipt_recorded r h) w = record_receipt-IsWellFormed r s s' tt h w
Step-IsWellFormed {s} {s'} (run_claimed c r h) w = claim-IsWellFormed c s w r s' h
Step-IsWellFormed {s} {s'} (lease_used m c h) w = perform-IsWellFormed m c s s' w h
Step-IsWellFormed {s} {s'} (retry_scheduled c class summary at h) w =
    schedule_retry-IsWellFormed c class summary at s w s' h
Step-IsWellFormed {s} {s'} (leases_swept at actor actions h) w =
    let (_, t, done, well, _) = sweep_is_pointwise at actor s w in
    subst IsWellFormed (ok_pair (sym done ∙ h)).1 well
Step-IsWellFormed {s} {s'} (instance_cancelled c force r h) w =
    cancel-IsWellFormed c force r s s' h w
Step-IsWellFormed {s} {s'} (instance_parked c r h) w = park-IsWellFormed c r s s' h w
Step-IsWellFormed {s} {s'} (decision_recorded d i run now actor h) w =
    record_human_decision-IsWellFormed d i run now actor s s' h w
Step-IsWellFormed {s} {s'} (gate_completed c h) w =
    let (_, _, _, well, _) = complete_waiting-done c s s' w h in well
Step-IsWellFormed {s} {s'} (gate_retried c p h) w =
    let (_, (_, _, well, _)) = blocked_gate_retry_lem c s s' p w h in well
Step-IsWellFormed {s} {s'} (gate_reissued c p h) w =
    let (_, (_, _, well, _)) = gate_reissue_lem c s s' p w h in well
Step-IsWellFormed {s} {s'} (late_result_recorded c id h) w =
    let (_, runs, instances, _, _) = late_result_is_inert c s s' id h in
    same_keys-IsWellFormed s s' instances runs w

-- In every ledger that the steps of `Step` can make of the empty one, no two instances and no two runs have
-- one id, no two runs are one attempt at a stage, and every run is of an instance that is there.
pub reachable-IsWellFormed : {s : Ledger} → IsReachable s → IsWellFormed s
reachable-IsWellFormed start = empty-IsWellFormed
reachable-IsWellFormed (next r step) = Step-IsWellFormed step (reachable-IsWellFormed r)
