-- ===== src/Ledger/Receipts.antt =====
-- packages/kernel/agent_workflow_kernel/storage.py: `record_receipt`. A number as the actor of a receipt,
-- which SQLite would turn into its text, is refused here like the other values that are no text.
use agent_workflow_kernel.Prelude.{
  String, ◌&&◌, not, Option, none, some, List, [], ◌∷◌, ◌++◌, has_key, if◌then◌else◌,
}
use agent_workflow_kernel.Json.{Json, str, null, field_of, object}
use agent_workflow_kernel.Contracts.Results.{ArtifactRef, Receipt}
use agent_workflow_kernel.Ledger.Rows.{ReceiptRow, ArtifactRow}
use agent_workflow_kernel.Ledger.State.{
  Ledger, Result, ok, err, integrity, bad_type, ◌>>=◌, Body, has_instance, has_run, append_event,
}

-- `runtime_provenance.get("actor", "unknown")`, which the column has as a text.
abbrev pub actor_of : Option Json → Result String
actor_of none = ok "unknown"
actor_of (some (str s)) = ok s
actor_of (some null) = err integrity
actor_of (some _) = err bad_type

abbrev pub receipt_row : Receipt → String → ReceiptRow
receipt_row r actor = record {
  receipt_id = r.receipt_id;
  instance_id = r.instance_id;
  stage_run_id = some r.stage_run_id;
  receipt_kind = r.kind;
  actor = actor;
  status = r.status;
  failure_class = none;
  summary = r.summary;
  receipt_json = r;
  created_at = r.created_at;
}

abbrev pub artifact_row : Receipt → ArtifactRef → ArtifactRow
artifact_row r a = record {
  artifact_id = a.artifact_id;
  instance_id = r.instance_id;
  stage_run_id = some r.stage_run_id;
  receipt_id = some r.receipt_id;
  role = a.role;
  uri = a.uri;
  content_hash = a.content_hash;
  mime_type = a.mime_type;
  size_bytes = a.size_bytes;
  created_by = a.created_by;
  visibility = a.visibility;
  created_at = r.created_at;
}

-- `INSERT INTO receipts`, under the constraints of the table.
unfoldable pub insert_receipt : ReceiptRow → Receipt → Ledger → Result Ledger
insert_receipt row r s =
    if not (has_key (λ (x : ReceiptRow). x.receipt_id) r.receipt_id s.receipts)
      && has_instance r.instance_id s
      && has_run r.stage_run_id s
    then ok (record s { receipts = s.receipts ++ row ∷ [] })
    else err integrity

-- `_record_artifact`; the run, the instance and the receipt are those that were just written.
unfoldable pub record_artifact : Receipt → ArtifactRef → Ledger → Result Ledger
record_artifact r a s =
    if has_key (λ (x : ArtifactRow). x.artifact_id) a.artifact_id s.artifacts
    then err integrity
    else ok (record s { artifacts = s.artifacts ++ artifact_row r a ∷ [] })

unfoldable pub record_artifacts : Receipt → List ArtifactRef → Ledger → Result Ledger
record_artifacts r [] s = ok s
record_artifacts r (a ∷ rest) s = do s1 ← record_artifact r a s; record_artifacts r rest s1

unfoldable pub record_receipt : Receipt → Body (Unit {0})
record_receipt r s = do
  actor ← actor_of (field_of "actor" r.runtime_provenance)
  s1 ← insert_receipt (receipt_row r actor) r s
  s2 ← record_artifacts r r.artifact_refs s1
  s3 ←
      append_event
        (record {
          instance_id = r.instance_id;
          stage_run_id = some r.stage_run_id;
          event_type = "receipt_recorded";
          actor = actor;
          payload = object (("receipt_id", str r.receipt_id) ∷ ("kind", str r.kind) ∷ []);
          created_at = r.created_at;
        })
        s2
  ok (tt, s3)
