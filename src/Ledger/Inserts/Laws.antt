-- ===== src/Ledger/Inserts/Laws.antt =====
-- What the transactions of Inserts and Receipts, all of packages/kernel/agent_workflow_kernel/storage.py,
-- keep of a ledger.
use agent_workflow_kernel.Prelude.{
  ℕ, String, ◌≡◌, refl, ap, ◌∙◌, sym, subst, not, ◌&&◌, Option, none, List, [], ◌∷◌, ◌++◌, inl, inr,
  has_key, Bool-cases, update_where, ◌==◌,
}
use agent_workflow_kernel.Json.{Json, field_of}
use agent_workflow_kernel.Contracts.{StageRun}
use agent_workflow_kernel.Contracts.InstanceStatus.{WorkflowStatus}
use agent_workflow_kernel.Contracts.Results.{ArtifactRef, Receipt}
use agent_workflow_kernel.Ledger.Rows.{InstanceRow, EventRow, ReceiptRow, ArtifactRow}
use agent_workflow_kernel.Ledger.State.{Ledger, ok, bind-ok, has_instance, has_run}
use agent_workflow_kernel.Ledger.Invariant.{
  IsWellFormed, append_event-IsWellFormed, append_event-ok, insert_run-ok, insert_run-IsWellFormed,
  update_instance-IsWellFormed,
}
use agent_workflow_kernel.Ledger.Inserts.{
  update_workflow_instance, insert_stage_run, record_event, run_to_row,
}
use agent_workflow_kernel.Ledger.Receipts.{
  actor_of, insert_receipt, record_artifact, record_artifacts, record_receipt, artifact_row,
}

-- The event that an update of the instance leaves behind.
abbrev pub instance_event : String → String → String → Json → ℕ → EventRow
instance_event i actor kind payload now = record {
  instance_id = i;
  stage_run_id = none;
  event_type = kind;
  actor = actor;
  payload = payload;
  created_at = now;
}

pub update_workflow_instance-IsWellFormed :
    (i : String) (status : WorkflowStatus) (stage : Option String) (now : ℕ) (actor kind : String)
    (payload : Json) (s s' : Ledger) (u : Unit {0})
    → update_workflow_instance i status stage now actor kind payload s ≡ ok (u, s')
    → IsWellFormed s
    → IsWellFormed s'
unfolding update_workflow_instance
update_workflow_instance-IsWellFormed i status stage now actor kind payload s s' u h w =
    let (t, e, last) = bind-ok _ _ (u, s') h in
    subst IsWellFormed (let same : t ≡ s' = cc last in same)
      (append_event-IsWellFormed _ _ t e (update_instance-IsWellFormed i _ (λ x. refl) w))

pub insert_stage_run-IsWellFormed :
    (r : StageRun) (hash : String) (key parent : Option String) (now : ℕ) (s s' : Ledger)
    (u : Unit {0})
    → insert_stage_run r hash key parent now s ≡ ok (u, s')
    → IsWellFormed s
    → IsWellFormed s'
unfolding insert_stage_run
insert_stage_run-IsWellFormed r hash key parent now s s' u h w =
    let (t, e, last) = bind-ok _ _ (u, s') h in
    subst IsWellFormed (let same : t ≡ s' = cc last in same) (insert_run-IsWellFormed _ s t e w)

pub record_event-IsWellFormed :
    (e : EventRow) (s s' : Ledger) (u : Unit {0})
    → record_event e s ≡ ok (u, s')
    → IsWellFormed s
    → IsWellFormed s'
unfolding record_event
record_event-IsWellFormed e s s' u h w =
    let (t, went, last) = bind-ok _ _ (u, s') h in
    subst IsWellFormed (let same : t ≡ s' = cc last in same)
      (append_event-IsWellFormed e s t went w)

-- Receipts and artifacts are in no key of a run.
same_tables :
    (rs : List ReceiptRow) (as' : List ArtifactRow) (s : Ledger)
    → IsWellFormed s
    → IsWellFormed (record s { receipts = rs; artifacts = as' })
same_tables rs as' s w = record {
  instances_unique = w.instances_unique;
  runs_unique = w.runs_unique;
  attempts_unique = w.attempts_unique;
  instances_known = w.instances_known;
}

insert_receipt-IsWellFormed :
    (row : ReceiptRow) (r : Receipt) (s s' : Ledger)
    → insert_receipt row r s ≡ ok s'
    → IsWellFormed s
    → IsWellFormed s'
unfolding insert_receipt
insert_receipt-IsWellFormed row r s s' h w =
    elim (Bool-cases (
      not (has_key (λ (x : ReceiptRow). x.receipt_id) r.receipt_id s.receipts)
      && has_instance r.instance_id s
      && has_run r.stage_run_id s)) [
        | inl e ↦
            let goes : ok (record s { receipts = s.receipts ++ row ∷ [] }) ≡ ok s' = (rw e at h) in
            subst IsWellFormed
              (let same : record s { receipts = s.receipts ++ row ∷ [] } ≡ s' = cc goes in same)
              (same_tables (s.receipts ++ row ∷ []) s.artifacts s w)
        | inr e ↦ absurd (cc (rw e at h))
      ]

record_artifact-IsWellFormed :
    (r : Receipt) (a : ArtifactRef) (s s' : Ledger)
    → record_artifact r a s ≡ ok s'
    → IsWellFormed s
    → IsWellFormed s'
unfolding record_artifact
record_artifact-IsWellFormed r a s s' h w =
    elim (Bool-cases (has_key (λ (x : ArtifactRow). x.artifact_id) a.artifact_id s.artifacts)) [
      | inl e ↦ absurd (cc (rw e at h))
      | inr e ↦
          let goes : ok (record s { artifacts = s.artifacts ++ artifact_row r a ∷ [] }) ≡ ok s' =
            (rw e at h) in
          subst IsWellFormed
            (let same : record s { artifacts = s.artifacts ++ artifact_row r a ∷ [] } ≡ s' =
                cc goes in
              same)
            (same_tables s.receipts (s.artifacts ++ artifact_row r a ∷ []) s w)
    ]

record_artifacts-IsWellFormed :
    (r : Receipt) (refs : List ArtifactRef) (s s' : Ledger)
    → record_artifacts r refs s ≡ ok s'
    → IsWellFormed s
    → IsWellFormed s'
unfolding record_artifacts
record_artifacts-IsWellFormed r [] s s' h w =
    subst IsWellFormed (let same : s ≡ s' = cc h in same) w
record_artifacts-IsWellFormed r (a ∷ refs) s s' h w =
    let (t, one, rest) = bind-ok _ _ s' h in
    record_artifacts-IsWellFormed r refs t s' rest (record_artifact-IsWellFormed r a s t one w)

pub record_receipt-IsWellFormed :
    (r : Receipt) (s s' : Ledger) (u : Unit {0})
    → record_receipt r s ≡ ok (u, s')
    → IsWellFormed s
    → IsWellFormed s'
unfolding record_receipt
record_receipt-IsWellFormed r s s' u h w =
    let (actor, _, h1) = bind-ok (actor_of (field_of "actor" r.runtime_provenance)) _ (u, s') h in
    let (s1, inserted, h2) = bind-ok _ _ (u, s') h1 in
    let (s2, artifacts, h3) = bind-ok _ _ (u, s') h2 in
    let (s3, event, last) = bind-ok _ _ (u, s') h3 in
    subst IsWellFormed (let same : s3 ≡ s' = cc last in same) (
      append_event-IsWellFormed _ s2 s3 event (
        record_artifacts-IsWellFormed r r.artifact_refs s1 s2 artifacts
          (insert_receipt-IsWellFormed _ r s s1 inserted w)))

-- What they write.
-- The rows of the instances with one of them at another status and stage.
abbrev pub moved_instances : String → WorkflowStatus → Option String → ℕ → Ledger → List InstanceRow
moved_instances i status stage now s =
    update_where (λ r. r.instance_id == i)
      (λ r. record r { status = status; current_stage_id = stage; updated_at = now }) s.instances

pub update_workflow_instance-ok :
    (i : String) (status : WorkflowStatus) (stage : Option String) (now : ℕ) (actor kind : String)
    (payload : Json) (s s' : Ledger) (u : Unit {0})
    → update_workflow_instance i status stage now actor kind payload s ≡ ok (u, s')
    → (s'.events ≡ s.events ++ instance_event i actor kind payload now ∷ [])
      × (s'.runs ≡ s.runs)
      × (s'.instances ≡ moved_instances i status stage now s)
unfolding update_workflow_instance
update_workflow_instance-ok i status stage now actor kind payload s s' u h =
    let (t, e, last) = bind-ok _ _ (u, s') h in
    let same : t ≡ s' = cc last in
    let made = sym same ∙ append_event-ok _ _ t e in
    (
      ap (λ (x : Ledger). x.events) made,
      ap (λ (x : Ledger). x.runs) made,
      ap (λ (x : Ledger). x.instances) made,
    )

pub insert_stage_run-ok :
    (r : StageRun) (hash : String) (key parent : Option String) (now : ℕ) (s s' : Ledger)
    (u : Unit {0})
    → insert_stage_run r hash key parent now s ≡ ok (u, s')
    → (s'.events ≡ s.events)
      × (s'.runs ≡ s.runs ++ run_to_row r hash key parent now ∷ [])
      × (s'.instances ≡ s.instances)
unfolding insert_stage_run
insert_stage_run-ok r hash key parent now s s' u h =
    let (t, e, last) = bind-ok _ _ (u, s') h in
    let same : t ≡ s' = cc last in
    let (_, _, _, put) = insert_run-ok _ s t e in
    let made = sym same ∙ put in
    (
      ap (λ (x : Ledger). x.events) made,
      ap (λ (x : Ledger). x.runs) made,
      ap (λ (x : Ledger). x.instances) made,
    )
